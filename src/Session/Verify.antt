-- ===== src/Session/Verify.antt =====
-- include/gtlibcpp/memory_session.hpp: the success of `compare_write_verify`.
use gtlibcpp.Common.{
  ℕ, suc, ◌^◌, ◌<◌, ◌≡◌, ◌↔◌, refl, sym, ap, ◌∙◌, inl, inr, arith, Bool, true, some, Bool-cases,
}
use gtlibcpp.Result.{Result, ok, err}
use gtlibcpp.Types.{u64_mod}
use gtlibcpp.Backend.{Backend}
use gtlibcpp.Backend.Memory.{IsMemory}
use gtlibcpp.Session.{check_verified, read, write, verify_written, attempt, compare_write_verify}
use gtlibcpp.Session.RoundTrip.{read-write}

some-injective {ℓ} : {A : Type ℓ} {a b : A} → some a ≡ some b → a ≡ b
some-injective h = cc

module _ (B : Backend) (same : ℕ → ℕ → Bool) where
  -- The write is accepted, whatever count it reports, and what is read back is the same as the value.
  pub record IsVerified (width address value : ℕ) (s : B.State) : Type 0 where
    pub count : ℕ
    pub found : ℕ
    pub written : (write B width address value s).0 ≡ ok count
    pub read_back : (read B width address (write B width address value s).1).0 ≡ ok found
    pub agrees : same found value ≡ true

  -- A round of the loop that ends in success.
  abbrev Succeeds : ℕ → ℕ → ℕ → ℕ → Result ℕ → B.State → Type 0
  Succeeds width address value result written s =
      (result ≡ value)
      × ((m : ℕ) × (written ≡ ok m))
      × ((found : ℕ) × ((read B width address s).0 ≡ ok found) × (same found value ≡ true))

  check_verified-eq-ok :
      (address width value : ℕ) (r : Result ℕ) {v : ℕ}
      → check_verified same address width value r ≡ ok v
      → (v ≡ value) × ((found : ℕ) × (r ≡ ok found) × (same found value ≡ true))
  check_verified-eq-ok a w x (ok y) h = elim (Bool-cases (same y x)) [
    | inl e ↦ (ground (arith, e, h), (y, refl, e))
    | inr e ↦ absurd (ground (arith, e, h))
  ]
  check_verified-eq-ok a w x (err e) h = absurd (cc h)

  -- Every round returns.
  attempt_returns :
      (width address value : ℕ) (s : B.State)
      → (r : Result ℕ) × ((attempt B same width address value s).0 ≡ some r)
  unfolding attempt verify_written
  attempt_returns w a x s = returns (write B w a x s).0 (write B w a x s).1
    where
      returns :
          (written : Result ℕ) (t : B.State)
          → (r : Result ℕ) × ((verify_written B same w a x written t).0 ≡ some r)
      returns (err e) t = (err e, refl)
      returns (ok m) t = (check_verified same a w x (read B w a t).0, refl)

  verify_written-Succeeds :
      (width address value : ℕ) (written : Result ℕ) (s : B.State) {v : ℕ}
      → (verify_written B same width address value written s).0 ≡ some (ok v)
      → Succeeds width address value v written s
  unfolding verify_written
  verify_written-Succeeds w a x (ok m) s h =
      let (e, found) = check_verified-eq-ok a w x (read B w a s).0 (some-injective h) in
      (e, (m, refl), found)
  verify_written-Succeeds w a x (err e) s h = absurd (cc h)

  Succeeds-verify_written :
      (width address value : ℕ) (written : Result ℕ) (s : B.State) {v : ℕ}
      → Succeeds width address value v written s
      → (verify_written B same width address value written s).0 ≡ some (ok v)
  unfolding verify_written
  Succeeds-verify_written w a x (ok m) s (e, c, (found, r, agrees)) =
      ap (λ q. some (check_verified same a w x q)) r ∙ ground (arith, agrees, e)
  Succeeds-verify_written w a x (err y) s (e, c, f) = absurd (cc c.1)

  compare_write_verify-attempt :
      (width address value attempts : ℕ) (s : B.State) (r : Result ℕ)
      → (attempt B same width address value s).0 ≡ some r
      → (compare_write_verify B same width address value (suc attempts) s).0 ≡ r
  unfolding compare_write_verify
  compare_write_verify-attempt w a x n s r h = rw (h, compare_write_verify) refl

  -- With at least one attempt, the call succeeds exactly when the first write is accepted and what is
  -- read back after it is the same as the value by the type's ==, and then returns the value. The
  -- number of attempts makes no difference, since no round of the loop goes on to the next.
  pub compare_write_verify_exact :
      (width address value attempts result : ℕ) (s : B.State)
      → ((compare_write_verify B same width address value (suc attempts) s).0 ≡ ok result)
        ↔ ((result ≡ value) × IsVerified width address value s)
  unfolding attempt
  compare_write_verify_exact w a x n v s =
      let (r, returned) = attempt_returns w a x s in
      let same_result = compare_write_verify-attempt w a x n s r returned in
      (
        λ h.
            let (e, (m, wrote), (found, r', agrees)) =
              verify_written-Succeeds w a x (write B w a x s).0 (write B w a x s).1
                (returned ∙ ap some (sym same_result ∙ h)) in
            (
              e,
              record { count = m; found = found; written = wrote; read_back = r'; agrees = agrees },
            ),
        λ (e, k). compare_write_verify-attempt w a x n s (ok v) (
            Succeeds-verify_written w a x (write B w a x s).0 (write B w a x s).1
              (e, (k.count, k.written), (k.found, k.read_back, k.agrees))),
      )

  -- On plain memory verification cannot fail by itself: if the write reports all bytes of a value
  -- that fits and that is the same as itself by the type's ==, as every value but a NaN is, and the
  -- read after it succeeds, the call returns the value.
  pub compare_write_verify_memory :
      IsMemory B
      → (width address value attempts found : ℕ) (s : B.State) → address < u64_mod
      → value < 256 ^ width
      → same value value ≡ true
      → (write B width address value s).0 ≡ ok width
      → (read B width address (write B width address value s).1).0 ≡ ok found
      → (compare_write_verify B same width address value (suc attempts) s).0 ≡ ok value
  compare_write_verify_memory M w a x n y s lt fits itself wr rd =
      (compare_write_verify_exact w a x n x s).1 (
        refl,
        record {
          count = w;
          found = x;
          written = wr;
          read_back = rd ∙ ap ok (read-write B M w a x y s lt fits wr rd);
          agrees = itself;
        },
      )
