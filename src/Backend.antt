-- ===== src/Backend.antt =====
-- include/gtlibcpp/backend.hpp: the request checks and the interface `IMemoryBackend`, which the
-- platform backends implement. Its calls may fail, throw, and change the target.
pub mod Bounds
pub mod Memory
use gtlibcpp.Common.{
  ℕ, ◌+◌, ◌%◌, ◌^◌, Bool, ◌==◌, ltb, if◌then◌else◌, Option, none, some, Bytes, codes, Exec,
}
use gtlibcpp.Result.{
  ErrorCode, invalid_size, invalid_address, internal, Result, ok, err, make_error,
}
use gtlibcpp.Types.{Address, u64_mod, TargetIdentity}

-- 1 MiB
abbrev pub size_cap : ℕ
size_cap = 2 ^ 20

-- The wrap test is on the wrapped sum, as in the source.
unfoldable pub validate_read_request : Address → ℕ → Result ℕ
validate_read_request address size =
    if size == 0
    then err (
        make_error invalid_size (codes "read size must be non-zero") (codes "validate_read_request")
          address 0)
    else if ltb size_cap size
    then err (
        make_error invalid_size (codes "read size exceeds 1 MiB safety cap")
          (codes "validate_read_request") address size)
    else if ltb ((address + size) % u64_mod) address
    then err (
        make_error invalid_address (codes "read range wraps the address space")
          (codes "validate_read_request") address size)
    else ok size

unfoldable pub validate_write_request : Address → ℕ → Result ℕ
validate_write_request address size =
    if size == 0
    then err (
        make_error invalid_size (codes "write size must be non-zero")
          (codes "validate_write_request") address 0)
    else if ltb size_cap size
    then err (
        make_error invalid_size (codes "write size exceeds 1 MiB safety cap")
          (codes "validate_write_request") address size)
    else if ltb ((address + size) % u64_mod) address
    then err (
        make_error invalid_address (codes "write range wraps the address space")
          (codes "validate_write_request") address size)
    else ok size

-- What a virtual call does: it returns, or throws with the text of a `std::exception` if it is one.
pub data Outcome {ℓ} (A : Type ℓ) : Type ℓ where
  returns : Result A → Outcome A
  throws : Option Bytes → Outcome A

-- The two `catch` clauses of the callers.
unfoldable pub settle {ℓ} : {A : Type ℓ} → Bytes → Address → ℕ → Outcome A → Result A
settle operation address size (returns r) = r
settle operation address size (throws (some what)) =
    err (make_error internal what operation address size)
settle operation address size (throws none) =
    err (make_error internal (codes "unknown exception") operation address size)

-- `IMemoryBackend`. `State` is the target and all that the backend keeps.
pub record Backend : Type 1 where
  pub State : Type 0
  pub read : Address → ℕ → Exec State (Outcome Bytes)
  pub write : Address → Bytes → Exec State (Outcome ℕ)
  pub is_alive : Exec State Bool
  pub identity : State → TargetIdentity
