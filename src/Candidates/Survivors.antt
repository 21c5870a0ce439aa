-- ===== src/Candidates/Survivors.antt =====
-- include/gtlibcpp/candidate_scan.hpp: which candidates `next_scan` returns on plain memory.
use mathlib.Core.Path.{subst}
use gtlibcpp.Common.{
  ℕ, ◌-◌, ◌<◌, ◌≡◌, refl, ap, ◌∙◌, ◌⊎◌, inl, inr, arith, ◌==◌, ltb, ◌||◌, not, true, List, [], ◌∷◌,
  ◌++◌, length,
}
use gtlibcpp.Result.{Result, ok, err}
use gtlibcpp.Types.{Address, u64_mod}
use gtlibcpp.Backend.{Backend}
use gtlibcpp.Backend.Memory.{IsMemory, window, window_ext}
use gtlibcpp.Session.{read}
use gtlibcpp.Session.Keeps.{read_keeps}
use gtlibcpp.Session.Reads.{read-shows}
use gtlibcpp.Session.Words.{encode, decode}
use gtlibcpp.Scan.Within.{if_both}
use gtlibcpp.Candidates.{
  Arithmetic, CandidateSnapshot, CandidateComparison, evaluate_comparison, no_candidates, refined,
  next_items, next_scan,
}

-- Lists of one length whose members are related one by one.
abbrev pub AllPairs {ℓ κ} : {A : Type ℓ} {B : Type κ} → (A → B → Type 0) → List A → List B → Type 0
AllPairs P [] [] = Unit
AllPairs P (a ∷ ls) (b ∷ bs) = P a b × AllPairs P ls bs
AllPairs P _ _ = ⊥

AllPairs-snoc {ℓ κ} :
    {A : Type ℓ} {B : Type κ} (P : A → B → Type 0) (ls : List A) (bs : List B) (a : A) (b : B)
    → AllPairs P ls bs
    → P a b
    → AllPairs P (ls ++ a ∷ []) (bs ++ b ∷ [])
AllPairs-snoc P [] [] a b h p = (p, tt)
AllPairs-snoc P [] (y ∷ bs) a b h p = elim h [ ]
AllPairs-snoc P (x ∷ ls) [] a b h p = elim h [ ]
AllPairs-snoc P (x ∷ ls) (y ∷ bs) a b (q, h) p = (q, AllPairs-snoc P ls bs a b h p)

-- Two members at the same place.
abbrev pub Listed : {A : Type 0} → Address → A → List Address → List A → Type 0
Listed a v (x ∷ xs) (y ∷ ys) = ((x ≡ a) × (y ≡ v)) ⊎ Listed a v xs ys
Listed a v _ _ = ⊥

module _ (A : Arithmetic) (B : Backend) (M : IsMemory B) (comparison : CandidateComparison)
    (target upper : A.T) where
  -- The value that the content shows at an address.
  abbrev pub shown : B.State → Address → A.T
  shown s a = A.load (encode A.size_of (decode (window (M.peek s) a A.size_of)))

  -- A candidate with its value now: it was one before, and its value compares with the old one.
  abbrev pub Survives : B.State → CandidateSnapshot A → Address → A.T → Type 0
  Survives s previous a v =
      (old : A.T) × Listed a old previous.addresses previous.values
      × (v ≡ shown s a)
      × (evaluate_comparison A comparison v old target upper ≡ true)

  module _ (s0 : B.State) (previous : CandidateSnapshot A) where
    abbrev Good : CandidateSnapshot A → Type 0
    Good c = AllPairs (Survives s0 previous) c.addresses c.values

    abbrev Same : B.State → Type 0
    Same s = (x : ℕ) → M.peek s x ≡ M.peek s0 x

    read-shown :
        (a number : ℕ) (s : B.State)
        → Same s
        → a < u64_mod
        → (read B A.size_of a s).0 ≡ ok number
        → A.load (encode A.size_of number) ≡ shown s0 a
    read-shown a number s same lt h =
        let (bytes, r, e) = read-shows B A.size_of a s lt h in
        ap (λ n. A.load (encode A.size_of n))
          (e
            ∙ ap decode (
                M.read_window a A.size_of s bytes r.reply
                ∙ ap (window (M.peek s) a) r.complete
                ∙ window_ext (M.peek s) (M.peek s0) a A.size_of (λ x l u. same x)))

    refined-Good :
        (a : Address) (old : A.T) (reply : Result ℕ) (c : CandidateSnapshot A)
        → ((number : ℕ) → reply ≡ ok number → A.load (encode A.size_of number) ≡ shown s0 a)
        → Listed a old previous.addresses previous.values
        → Good c
        → Good (refined A B comparison target upper a old reply c)
    refined-Good a old (err e) c shows listed good = good
    refined-Good a old (ok n) c shows listed good =
        if_both Good
          (evaluate_comparison A comparison (A.load (encode A.size_of n)) old target upper)
          (λ passes.
            AllPairs-snoc (Survives s0 previous) c.addresses c.values a
              (A.load (encode A.size_of n)) good (old, listed, shows n refl, passes))
          (λ _. good)

    next_items-Good :
        (addresses : List Address) (values : List A.T) (c found : CandidateSnapshot A) (s : B.State)
        → Same s
        → ((a : Address) (old : A.T)
            → Listed a old addresses values
            → Listed a old previous.addresses previous.values)
        → Good c
        → (next_items A B comparison target upper addresses values c s).0 ≡ ok found
        → Good found
    unfolding next_items
    next_items-Good [] [] c found s same listed good h = subst Good (cc h) good
    next_items-Good [] (v ∷ values) c found s same listed good h = subst Good (cc h) good
    next_items-Good (a ∷ addresses) [] c found s same listed good h = subst Good (cc h) good
    next_items-Good (a ∷ addresses) (old ∷ values) c found s same listed good h =
        let (reply, s') = read B A.size_of a s in
        if_both (λ (p : Result (CandidateSnapshot A) × B.State). p.0 ≡ ok found → Good found)
          (a == 0 || ltb (u64_mod - 1 - A.size_of) a) (λ _ g. absurd (cc g))
          (λ small g.
            next_items-Good addresses values (refined A B comparison target upper a old reply c)
              found s' (λ x. read_keeps B M A.size_of a s x ∙ same x) (λ b v i. listed b v (inr i))
              (refined-Good a old reply c (λ n e. read-shown a n s same (ground (arith, small)) e)
                (listed a old (inl (refl, refl))) good)
              g)
          h

  -- On plain memory, a `next_scan` that succeeds pairs each address with a value, and each of these
  -- addresses was a candidate before, is paired with the value that the content shows there, and that
  -- value compares with the candidate's old one.
  pub next_scan-Survives :
      (previous : CandidateSnapshot A) (max_candidates : ℕ) (s : B.State)
      (found : CandidateSnapshot A)
      → (next_scan A B comparison target upper previous max_candidates s).0 ≡ ok found
      → AllPairs (Survives s previous) found.addresses found.values
  unfolding next_scan
  next_scan-Survives previous max_candidates s found =
      if_both
        (λ (p : Result (CandidateSnapshot A) × B.State).
          p.0 ≡ ok found → AllPairs (Survives s previous) found.addresses found.values)
        (not (length previous.addresses == length previous.values)
          || (ltb max_candidates (length previous.addresses) || max_candidates == 0))
        (λ _ h. absurd (cc h))
        (λ _ h.
          next_items-Good s previous previous.addresses previous.values (no_candidates A) found s
            (λ x. refl) (λ a old i. i) tt h)
