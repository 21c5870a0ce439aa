-- ===== src/Candidates/Sizes.antt =====
-- include/gtlibcpp/candidate_scan.hpp: the sizes of what the scans return.
use gtlibcpp.Common.{
  ℕ, zero, suc, ◌+◌, ◌-◌, ◌/◌, ◌%◌, min, ◌≤◌, ◌<◌, ◌≡◌, refl, Bool, true, false, List, [], ◌∷◌,
  if◌then◌else◌, ◌==◌, ◌&&◌, ◌||◌, ltb, leb, not, arith, Bytes, length, length-append, take,
}
use Prim.Native.Nat.{bit_and}
use mathlib.Core.Path.{subst}
use gtlibcpp.Session.Words.{encode}
use gtlibcpp.Result.{Result, ok, err}
use gtlibcpp.Types.{Address, u64_mod}
use gtlibcpp.Backend.{Backend}
use gtlibcpp.Session.{read_bytes, read}
use gtlibcpp.Candidates.{
  Arithmetic, ScanType, CandidateComparison, CandidateSnapshot, no_candidates, pushed, matched,
  scan_items, scan_reply, scan_range, first_scan, refined, next_items, next_scan,
  evaluate_comparison,
}

module _ (A : Arithmetic) where
  -- As many values as addresses, and at most `n`.
  pub record IsSized (n : ℕ) (c : CandidateSnapshot A) : Type 0 where
    pub paired : length c.values ≡ length c.addresses
    pub bounded : length c.addresses ≤ n

  IsSized-pushed :
      (n : ℕ) (a : Address) (v : A.T) (c : CandidateSnapshot A)
      → length c.addresses < n
      → IsSized n c
      → IsSized n (pushed A a v c)
  IsSized-pushed n a v c l k = record {
    paired =
        omega
          (arith, k.paired, length-append c.values (v ∷ []), length-append c.addresses (a ∷ []));
    bounded = omega (arith, length-append c.addresses (a ∷ []));
  }

  IsSized-mono : (n : ℕ) (c : CandidateSnapshot A) → IsSized n c → IsSized (suc n) c
  IsSized-mono n c k = record { paired = k.paired; bounded = omega (arith, k.bounded) }

  done :
      (n m : ℕ) (c found : CandidateSnapshot A)
      → IsSized n c
      → ok c ≡ ok found
      → IsSized (n + m) found
  done n m c found k h =
      let e : c ≡ found = cc h in
      subst (IsSized (n + m)) e (record { paired = k.paired; bounded = omega (arith, k.bounded) })

  either {κ} :
      {X : Type 0} (P : X → Type κ) (b : Bool) {x y : X}
      → (b ≡ true → P x)
      → (b ≡ false → P y)
      → P (if b then x else y)
  either P true px py = px refl
  either P false px py = py refl

  module _ (t : ScanType) (target upper : A.T) (alignment max : ℕ) where
    scan_items-IsSized :
        (at : Address) (bytes : Bytes) (c : CandidateSnapshot A)
        → IsSized max c
        → IsSized max (scan_items A t target upper alignment max at bytes c)
    unfolding scan_items
    scan_items-IsSized at [] c k = k
    scan_items-IsSized at (b ∷ bytes) c k =
        either (IsSized max) (ltb (length (b ∷ bytes)) A.size_of || leb max (length c.addresses))
          (λ _. k)
          (λ room. scan_items-IsSized ((at + 1) % u64_mod) bytes _ (
            either (IsSized max)
              ((at % alignment) == 0
                && matched A t target upper (A.load (take A.size_of (b ∷ bytes))))
              (λ _. IsSized-pushed max at (A.load (take A.size_of (b ∷ bytes))) c (ground arith) k)
              (λ _. k)))

    scan_reply-IsSized :
        (at : Address) (r : Result Bytes) (c : CandidateSnapshot A)
        → IsSized max c
        → IsSized max (scan_reply A t target upper alignment max at c r)
    scan_reply-IsSized at (err e) c k = k
    scan_reply-IsSized at (ok bytes) c k = scan_items-IsSized at bytes c k

    module _ (B : Backend) (start : Address) (size : ℕ) where
      scan_range-IsSized :
          (rounds offset : ℕ) (c : CandidateSnapshot A) (s : B.State)
          → IsSized max c
          → IsSized max (scan_range A t target upper alignment max B start size rounds offset c s).0
      unfolding scan_range
      scan_range-IsSized zero offset c s k = k
      scan_range-IsSized (suc rounds) offset c s k =
          let chunk = min 65536 (size - offset) in
          let (reply, s') = read_bytes B ((start + offset) % u64_mod) chunk s in
          let next =
            scan_reply A t target upper alignment max ((start + offset) % u64_mod) c reply in
          either (λ (p : CandidateSnapshot A × B.State). IsSized max p.0)
            (ltb offset size && (ltb (length c.addresses) max && leb A.size_of chunk))
            (λ _.
              scan_range-IsSized rounds (offset + chunk) next s'
                (scan_reply-IsSized ((start + offset) % u64_mod) reply c k))
            (λ _. k)

      -- A `first_scan` that succeeds returns as many values as addresses, and at most `max`.
      pub first_scan-IsSized :
          (s : B.State) (found : CandidateSnapshot A)
          → (first_scan A t target upper alignment max B start size s).0 ≡ ok found
          → IsSized max found
      unfolding first_scan
      first_scan-IsSized s found =
          let Good : Result (CandidateSnapshot A) × B.State → Type 0 =
            λ p. p.0 ≡ ok found → IsSized max found in
          let (all, s') =
            scan_range A t target upper alignment max B start size (size / 65536 + 1) 0
              (no_candidates A) s in
          either Good (start == 0 || (size == 0 || max == 0)) (λ _ h. absurd (cc h))
            (λ _.
              either Good (alignment == 0 || not (bit_and alignment (alignment - 1) == 0))
                (λ _ h. absurd (cc h))
                (λ _.
                  either Good (ltb (u64_mod - 1 - size) start) (λ _ h. absurd (cc h))
                    (λ _ h.
                      let e : all ≡ found = cc h in
                      subst (IsSized max) e (
                        scan_range-IsSized (size / 65536 + 1) 0 (no_candidates A) s
                          (record { paired = refl; bounded = omega arith })))))

  module _ (B : Backend) (comparison : CandidateComparison) (target upper : A.T) where
    refined-IsSized :
        (n : ℕ) (a : Address) (old : A.T) (r : Result ℕ) (c : CandidateSnapshot A)
        → IsSized n c
        → IsSized (suc n) (refined A B comparison target upper a old r c)
    refined-IsSized n a old (err e) c k = IsSized-mono n c k
    refined-IsSized n a old (ok v) c k =
        either (IsSized (suc n))
          (evaluate_comparison A comparison (A.load (encode A.size_of v)) old target upper)
          (λ _.
            IsSized-pushed (suc n) a (A.load (encode A.size_of v)) c (omega (arith, k.bounded))
              (IsSized-mono n c k))
          (λ _. IsSized-mono n c k)

    next_items-IsSized :
        (n : ℕ) (addresses : List Address) (values : List A.T) (c found : CandidateSnapshot A)
        (s : B.State)
        → IsSized n c
        → (next_items A B comparison target upper addresses values c s).0 ≡ ok found
        → IsSized (n + length addresses) found
    unfolding next_items
    next_items-IsSized n [] [] c found s k h = done n 0 c found k h
    next_items-IsSized n [] (v ∷ values) c found s k h = done n 0 c found k h
    next_items-IsSized n (a ∷ addresses) [] c found s k h =
        done n (suc (length addresses)) c found k h
    next_items-IsSized n (a ∷ addresses) (old ∷ values) c found s k g =
        let (reply, s') = read B A.size_of a s in
        let Good : Result (CandidateSnapshot A) × B.State → Type 0 =
          λ p. p.0 ≡ ok found → IsSized (n + suc (length addresses)) found in
        either Good (a == 0 || ltb (u64_mod - 1 - A.size_of) a) (λ _ h. absurd (cc h))
          (λ _ h.
            let m : suc n + length addresses ≡ n + suc (length addresses) = omega arith in
            subst (λ i. IsSized i found) m
              (next_items-IsSized (suc n) addresses values
                (refined A B comparison target upper a old reply c) found s'
                (refined-IsSized n a old reply c k) h))
          g

    -- A `next_scan` that succeeds returns as many values as addresses, and no more than it was given.
    pub next_scan-IsSized :
        (previous : CandidateSnapshot A) (max_candidates : ℕ) (s : B.State)
        (found : CandidateSnapshot A)
        → (next_scan A B comparison target upper previous max_candidates s).0 ≡ ok found
        → IsSized (length previous.addresses) found
    unfolding next_scan
    next_scan-IsSized previous max_candidates s found =
        let Good : Result (CandidateSnapshot A) × B.State → Type 0 =
          λ p. p.0 ≡ ok found → IsSized (length previous.addresses) found in
        either Good
          (not (length previous.addresses == length previous.values)
            || (ltb max_candidates (length previous.addresses) || max_candidates == 0))
          (λ _ h. absurd (cc h))
          (λ _ h.
            let z : 0 + length previous.addresses ≡ length previous.addresses = omega arith in
            subst (λ i. IsSized i found) z
              (next_items-IsSized 0 previous.addresses previous.values (no_candidates A) found s
                (record { paired = refl; bounded = omega arith }) h))
