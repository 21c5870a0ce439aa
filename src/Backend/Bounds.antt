-- ===== src/Backend/Bounds.antt =====
-- Which requests the checks of include/gtlibcpp/backend.hpp let through.
use gtlibcpp.Common.{ℕ, ◌+◌, ◌≤◌, ◌<◌, ◌≡◌, ◌↔◌, arith}
use gtlibcpp.Result.{ok}
use gtlibcpp.Types.{u64_mod}
use gtlibcpp.Backend.{size_cap, validate_read_request, validate_write_request}

-- Not empty, at most 1 MiB, the end below 2 ^ 64.
pub record IsInRange (address size : ℕ) : Type 0 where
  pub positive : 0 < size
  pub capped : size ≤ size_cap
  pub no_wrap : address + size < u64_mod

module _ (address size : ℕ) (a : address < u64_mod) where
  pub IsInRange-validate_read :
      {n : ℕ} → validate_read_request address size ≡ ok n → IsInRange address size
  unfolding validate_read_request
  IsInRange-validate_read h = ground arith

  pub IsInRange-validate_write :
      {n : ℕ} → validate_write_request address size ≡ ok n → IsInRange address size
  unfolding validate_write_request
  IsInRange-validate_write h = ground arith

pub validate_read-IsInRange :
    (address size : ℕ) → IsInRange address size → validate_read_request address size ≡ ok size
unfolding validate_read_request
validate_read-IsInRange address size h = ground arith

pub validate_write-IsInRange :
    (address size : ℕ) → IsInRange address size → validate_write_request address size ≡ ok size
unfolding validate_write_request
validate_write-IsInRange address size h = ground arith

-- Both checks accept exactly the requests in range, for every address of 64 bits.
pub validate_exact :
    (address size : ℕ)
    → address < u64_mod
    → ((validate_read_request address size ≡ ok size) ↔ IsInRange address size)
      × ((validate_write_request address size ≡ ok size) ↔ IsInRange address size)
validate_exact address size a = (
  (IsInRange-validate_read address size a, validate_read-IsInRange address size),
  (IsInRange-validate_write address size a, validate_write-IsInRange address size),
)
