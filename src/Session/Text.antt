-- ===== src/Session/Text.antt =====
-- include/gtlibcpp/memory_session.hpp: `BoundedString`, `read_string` and `write_string`.
pub mod Laws
use gtlibcpp.Common.{
  ℕ, zero, suc, ◌+◌, Bool, true, false, [], ◌∷◌, ◌++◌, ◌==◌, ltb, not, ◌&&◌, if◌then◌else◌, Bytes,
  codes, Exec, length,
}
use gtlibcpp.Result.{Error, invalid_string, Result, ok, err, make_error}
use gtlibcpp.Types.{Address}
use gtlibcpp.Backend.{Backend}
use gtlibcpp.Session.{read_bytes, write_bytes}

pub record BoundedString : Type 0 where
  pub storage : Bytes
  pub capacity : ℕ
  pub truncated : Bool

-- The loop of `from_utf8` over the first `usable` bytes: what it copies, and whether it met a NUL.
unfoldable pub up_to_nul : ℕ → Bytes → Bytes × Bool
up_to_nul zero bytes = ([], false)
up_to_nul (suc usable) [] = ([], false)
up_to_nul (suc usable) (b ∷ bytes) =
    let (out, found) = up_to_nul usable bytes in if b == 0 then ([], true) else (b ∷ out, found)

-- `from_bytes` is the same function.
unfoldable pub from_utf8 : Bytes → ℕ → Bool → Result BoundedString
from_utf8 bytes capacity require_nul_terminator =
    if capacity == 0
    then err (
        make_error invalid_string (codes "BoundedString capacity must be non-zero")
          (codes "BoundedString::from_utf8") 0 (length bytes))
    else let usable = if ltb (length bytes) capacity then length bytes else capacity in
      let (out, nul_found) = up_to_nul usable bytes in
      if require_nul_terminator && not nul_found
      then err (
          make_error invalid_string (codes "string is not NUL-terminated within declared capacity")
            (codes "BoundedString::from_utf8") 0 (length bytes))
      else ok
          (record { storage = out; capacity = capacity; truncated = ltb capacity (length bytes) })

unfoldable pub to_bytes : BoundedString → ℕ → Result Bytes
to_bytes text target_capacity =
    if ltb target_capacity (length text.storage + 1)
    then err (
        make_error invalid_string
          (codes "target capacity cannot hold the string plus a NUL terminator")
          (codes "BoundedString::to_bytes") 0 target_capacity)
    else ok (text.storage ++ 0 ∷ [])

parse_string : ℕ → Bool → Result Bytes → Result BoundedString
parse_string capacity require_nul_terminator (err e) = err e
parse_string capacity require_nul_terminator (ok bytes) =
    from_utf8 bytes capacity require_nul_terminator

module _ (B : Backend) where
  unfoldable pub read_string : Address → ℕ → Bool → Exec B.State (Result BoundedString)
  unfolding parse_string
  read_string address capacity require_nul_terminator s =
      if capacity == 0
      then (
        err (
            make_error invalid_string (codes "string capacity must be non-zero")
              (codes "MemorySession::read_string") address 0),
        s,
      )
      else let (bytes, s') = read_bytes B address capacity s in
        (parse_string capacity require_nul_terminator bytes, s')

  write_encoded : Address → Result Bytes → Exec B.State (Result ℕ)
  write_encoded address (err e) s = (err e, s)
  write_encoded address (ok bytes) s = write_bytes B address bytes s

  unfoldable pub write_string : Address → BoundedString → ℕ → Exec B.State (Result ℕ)
  unfolding write_encoded
  write_string address value target_capacity =
      write_encoded address (to_bytes value target_capacity)
