-- ===== src/Session.antt =====
-- include/gtlibcpp/memory_session.hpp: `MemorySession` over any backend. A value of a trivially
-- copyable type is an unsigned number of `width` bytes, laid out as on a little-endian host; log
-- lines change no result and are left out. The session holds a backend: on a null one these
-- calls have no defined behaviour in the source.
pub mod Words
pub mod Reads
pub mod Verify
pub mod Chain
pub mod Refused
pub mod Keeps
pub mod RoundTrip
pub mod Batch
pub mod Text
use gtlibcpp.Common.{
  ℕ, zero, suc, ◌+◌, ◌%◌, Bool, true, false, Option, none, some, List, [], ◌∷◌, ◌++◌, ◌==◌,
  if◌then◌else◌, Bytes, codes, to_string, Exec, length,
}
use gtlibcpp.Result.{
  Error, partial_read, verification_mismatch, invalid_offsets, invalid_address, Result, ok, err,
  make_error,
}
use gtlibcpp.Types.{Address, u64_mod}
use gtlibcpp.Backend.{
  Backend, Outcome, returns, throws, settle, validate_read_request, validate_write_request,
}
use Words.{encode, decode}

-- A reply of another length than was asked for is refused.
unfoldable pub full_read : Bytes → Address → ℕ → Outcome Bytes → Outcome Bytes
full_read operation address size (returns (ok bytes)) =
    if length bytes == size
    then returns (ok bytes)
    else returns (
        err (
          make_error partial_read (codes "read returned fewer bytes than requested") operation
            address (length bytes)))
full_read operation address size (returns (err e)) = returns (err e)
full_read operation address size (throws what) = throws what

abbrev pub decoded : Result Bytes → Result ℕ
decoded (ok bytes) = ok (decode bytes)
decoded (err e) = err e

-- `pointer_size` is `sizeof(std::uintptr_t)` of the build, 4 or 8; it does not depend on the target.
-- The error of a pointer chain names the step and keeps the cause.
abbrev pub step_failed : ℕ → ℕ → Address → Error → Error
step_failed pointer_size step target e =
    record (make_error e.code
      (codes "pointer chain step " ++ (to_string step ++ (codes " failed: " ++ e.message)))
      (codes "resolve_pointer_chain") target pointer_size) { system_error = e.system_error }

abbrev pub step_null : ℕ → ℕ → Address → Error
step_null pointer_size step target =
    make_error invalid_address
      (codes "pointer chain step " ++ (to_string step ++ codes " produced NULL"))
      (codes "resolve_pointer_chain") target pointer_size

abbrev pub no_offsets : Address → Error
no_offsets base =
    make_error invalid_offsets (codes "pointer chain must have at least one offset")
      (codes "resolve_pointer_chain") base 0

abbrev pub mismatch : Address → ℕ → Error
mismatch address width =
    make_error verification_mismatch
      (codes "post-write verification did not match the intended value")
      (codes "compare_write_verify") address width

abbrev pub exhausted : Address → ℕ → Error
exhausted address width =
    make_error verification_mismatch (codes "post-write verification exhausted retry budget")
      (codes "compare_write_verify") address width

-- `same` is the `==` of the type, on object representations: it may hold of different ones, as of 0.0
-- and -0.0, and fail on one and the same, as on a NaN.
abbrev pub check_verified : (ℕ → ℕ → Bool) → Address → ℕ → ℕ → Result ℕ → Result ℕ
check_verified same address width value (err e) = err e
check_verified same address width value (ok found) =
    if same found value then ok value else err (mismatch address width)

module _ (B : Backend) where
  open B use {State}

  -- The `try` block of the two reads; `reported` is the size that a caught exception reports.
  read_checked : Bytes → ℕ → Address → ℕ → Result ℕ → Exec State (Result Bytes)
  unfolding full_read settle
  read_checked operation reported address size (err e) s = (err e, s)
  read_checked operation reported address size (ok _) s =
      let (reply, s') = B.read address size s in
      (settle operation address reported (full_read operation address size reply), s')

  unfoldable pub read_bytes : Address → ℕ → Exec State (Result Bytes)
  unfolding read_checked validate_read_request
  read_bytes address size =
      read_checked (codes "MemorySession::read_bytes") size address size
        (validate_read_request address size)

  -- `read<T>`
  unfoldable pub read : ℕ → Address → Exec State (Result ℕ)
  unfolding read_checked validate_read_request decode
  read width address s =
      let (bytes, s') =
        read_checked (codes "MemorySession::read") 0 address width
          (validate_read_request address width) s in
      (decoded bytes, s')

  write_checked : Address → Bytes → Result ℕ → Exec State (Result ℕ)
  unfolding settle
  write_checked address bytes (err e) s = (err e, s)
  write_checked address bytes (ok _) s =
      let (reply, s') = B.write address bytes s in
      (settle (codes "MemorySession::write_bytes") address (length bytes) reply, s')

  unfoldable pub write_bytes : Address → Bytes → Exec State (Result ℕ)
  unfolding write_checked validate_write_request
  write_bytes address bytes =
      write_checked address bytes (validate_write_request address (length bytes))

  write_value : ℕ → Address → ℕ → Result ℕ → Exec State (Result ℕ)
  unfolding write_bytes encode
  write_value width address value (err e) s = (err e, s)
  write_value width address value (ok _) s = write_bytes address (encode width value) s

  -- `write<T>`
  unfoldable pub write : ℕ → Address → ℕ → Exec State (Result ℕ)
  unfolding write_value validate_write_request
  write width address value = write_value width address value (validate_write_request address width)

  verify_written : (ℕ → ℕ → Bool) → ℕ → Address → ℕ → Result ℕ → Exec State (Option (Result ℕ))
  unfolding read
  verify_written same width address value (err e) s = (some (err e), s)
  verify_written same width address value (ok _) s =
      let (found, s') = read width address s in
      (some (check_verified same address width value found), s')

  -- The body of the loop of `compare_write_verify`; `some` is a `return` out of it, and `none` would
  -- be its end.
  unfoldable pub attempt : (ℕ → ℕ → Bool) → ℕ → Address → ℕ → Exec State (Option (Result ℕ))
  unfolding verify_written write
  attempt same width address value s =
      let (written, s') = write width address value s in
      verify_written same width address value written s'

  -- `compare_write_verify<T>`
  unfoldable pub compare_write_verify : (ℕ → ℕ → Bool) → ℕ → Address → ℕ → ℕ → Exec State (Result ℕ)
  unfolding attempt
  compare_write_verify same width address value zero s = (err (exhausted address width), s)
  compare_write_verify same width address value (suc rest) s =
      let (turn, s') = attempt same width address value s in
      elim turn [ some r ↦ (r, s') | none ↦ compare_write_verify same width address value rest s' ]

  -- The loop of `resolve_pointer_chain`, from step `step` at address `current`.
  unfoldable pub walk : ℕ → ℕ → Address → List Address → Exec State (Result Address)
  walk pointer_size step current [] s = (ok current, s)
  walk pointer_size step current (offset ∷ offsets) s =
      let target = (current + offset) % u64_mod in
      let (reply, s') = read pointer_size target s in
      elim reply [
        | err e ↦ (err (step_failed pointer_size step target e), s')
        | ok next ↦ elim (next == 0) [
          | true ↦ (err (step_null pointer_size step target), s')
          | false ↦ walk pointer_size (step + 1) next offsets s'
        ]
      ]

  unfoldable pub resolve_pointer_chain : ℕ → Address → List Address → Exec State (Result Address)
  unfolding walk
  resolve_pointer_chain pointer_size base [] s = (err (no_offsets base), s)
  resolve_pointer_chain pointer_size base (offset ∷ offsets) s =
      walk pointer_size 0 base (offset ∷ offsets) s
