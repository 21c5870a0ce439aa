-- ===== src/Result.antt =====
-- include/gtlibcpp/result.hpp: error codes, `Error`, `Result<T>`.
use gtlibcpp.Common.{ℕ, ◌≡◌, refl, ◌⊎◌, inl, inr, Bool, true, false, Bytes, []}

pub data ErrorCode : Type 0 where
  success : ErrorCode
  not_connected target_not_found target_arch_mismatch : ErrorCode
  target_identity_mismatch target_dead : ErrorCode
  invalid_address invalid_size invalid_offsets invalid_hotkey : ErrorCode
  invalid_entry_id invalid_type invalid_string : ErrorCode
  read_failed partial_read write_failed partial_write : ErrorCode
  verification_mismatch snapshot_missing rollback_failed : ErrorCode
  parse_failed parse_unsupported parse_diagnostic : ErrorCode
  policy_denied approval_required capability_missing rate_limited : ErrorCode
  timeout cancelled internal : ErrorCode

pub record Error : Type 0 where
  pub code : ErrorCode
  pub message : Bytes
  pub operation : Bytes
  pub address : ℕ
  pub bytes : ℕ
  pub system_error : ℕ
  pub request_id : Bytes

-- `make_error` with its last three arguments at their defaults, which is how it is mostly called.
abbrev pub make_error : ErrorCode → Bytes → Bytes → ℕ → ℕ → Error
make_error code message operation address bytes = record {
  code = code;
  message = message;
  operation = operation;
  address = address;
  bytes = bytes;
  system_error = 0;
  request_id = [];
}

-- `Result<T>`; `Result<void>` is `Result Unit`.
pub data Result {ℓ} (A : Type ℓ) : Type ℓ where
  ok : A → Result A
  err : Error → Result A

-- `Result::ok()`
abbrev pub is_ok {ℓ} : {A : Type ℓ} → Result A → Bool
is_ok (ok a) = true
is_ok (err e) = false

-- To split on a result and keep the equation.
pub Result-cases {ℓ} :
    {A : Type ℓ} (r : Result A) → ((a : A) × (r ≡ ok a)) ⊎ ((e : Error) × (r ≡ err e))
Result-cases (ok a) = inl (a, refl)
Result-cases (err e) = inr (e, refl)

pub ok_unique {ℓ} : {A : Type ℓ} {r : Result A} {a b : A} → r ≡ ok a → r ≡ ok b → a ≡ b
ok_unique p q = cc
