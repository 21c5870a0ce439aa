-- ===== src/Session/Refused.antt =====
-- include/gtlibcpp/memory_session.hpp: requests out of range.
use gtlibcpp.Common.{ℕ, ◌<◌, ◌≡◌, refl, Bytes, length}
use gtlibcpp.Result.{Error, Result, ok, err}
use gtlibcpp.Types.{u64_mod}
use gtlibcpp.Backend.{Backend, validate_read_request, validate_write_request}
use gtlibcpp.Backend.Bounds.{IsInRange, IsInRange-validate_read, IsInRange-validate_write}
use gtlibcpp.Session.{
  read_checked, read_bytes, read, write_checked, write_value, write_bytes, write,
}

-- The result is an error and the state is the one before.
abbrev pub Refuses {ℓ} : {S A : Type ℓ} → (S → Result A × S) → S → Type ℓ
Refuses f s = (e : Error) × (f s ≡ (err e, s))

validate_read-eq-err :
    (address size : ℕ)
    → address < u64_mod
    → ¬ IsInRange address size
    → (e : Error) × (validate_read_request address size ≡ err e)
validate_read-eq-err a n lt out = go (validate_read_request a n) refl
  where
    go :
        (r : Result ℕ)
        → validate_read_request a n ≡ r
        → (e : Error) × (validate_read_request a n ≡ err e)
    go (ok m) h = absurd (out (IsInRange-validate_read a n lt h))
    go (err e) h = (e, h)

validate_write-eq-err :
    (address size : ℕ)
    → address < u64_mod
    → ¬ IsInRange address size
    → (e : Error) × (validate_write_request address size ≡ err e)
validate_write-eq-err a n lt out = go (validate_write_request a n) refl
  where
    go :
        (r : Result ℕ)
        → validate_write_request a n ≡ r
        → (e : Error) × (validate_write_request a n ≡ err e)
    go (ok m) h = absurd (out (IsInRange-validate_write a n lt h))
    go (err e) h = (e, h)

module _ (B : Backend) where
  -- For an address of 64 bits, a request that is empty, above 1 MiB or not ending below 2 ^ 64 is
  -- refused by `read_bytes`, `read<T>`, `write_bytes` and `write<T>`: each returns an error and
  -- leaves the target as it was.
  pub out_of_range_refused :
      (address size : ℕ) (bytes : Bytes) (value : ℕ) (s : B.State)
      → address < u64_mod
      → length bytes ≡ size
      → ¬ IsInRange address size
      → Refuses (read_bytes B address size) s
        × Refuses (read B size address) s
        × Refuses (write_bytes B address bytes) s
        × Refuses (write B size address value) s
  unfolding read_bytes read write_bytes write
  out_of_range_refused a n bs v s lt len out =
      let (e, h) = validate_read-eq-err a n lt out in
      let (e', h') = validate_write-eq-err a n lt out in
      (
        (e, rw (h, read_checked)),
        (e, rw (h, read_checked)),
        (e', rw (len, h', write_checked)),
        (e', rw (h', write_value)),
      )
