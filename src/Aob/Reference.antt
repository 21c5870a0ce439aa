-- ===== src/Aob/Reference.antt =====
-- What `scan_aob` of include/gtlibcpp/aob_scan.hpp should return on plain memory, and what its loop
-- over one chunk does.
use gtlibcpp.Common.{
  ℕ, zero, suc, ◌+◌, ◌-◌, ◌%◌, ◌<◌, ◌≤◌, ◌≡◌, refl, sym, ap, ap₂, ◌∙◌, Bool, true, false, List, [],
  ◌∷◌, ◌++◌, leb, ◌&&◌, if◌then◌else◌, length, take, take-all, arith, length-append, append_assoc,
  append-nil, Bool-cases, inl, inr, none, some, ◌==◌,
}
use Prim.Native.Nat.add
use native.Mathlib.Nat.{add-zero}
use gtlibcpp.Types.{Address, u64_mod}
use gtlibcpp.Backend.Memory.{window, length-window}
use gtlibcpp.Aob.Parse.{Pattern}
use gtlibcpp.Aob.{fits, scan_chunk}

module _ (cell : ℕ → ℕ) (pattern : Pattern) where
  -- Of the `n` addresses from `at` on, those where the pattern fits, in ascending order.
  unfoldable pub occurrences : Address → ℕ → List Address
  occurrences at zero = []
  occurrences at (suc n) =
      let rest = occurrences (at + 1) n in
      if fits pattern (window cell at (length pattern)) then at ∷ rest else rest

  pub occurrences-append :
      (at n m : ℕ) → occurrences at (n + m) ≡ occurrences at n ++ occurrences (at + n) m
  unfolding occurrences
  occurrences-append at zero m = rw (add.zero m, add-zero at)
  occurrences-append at (suc n) m =
      rw (add.suc n m)
        (ground (arith, occurrences-append (at + 1) n m, ap (λ x. occurrences x m) same))
    where
      same : at + 1 + n ≡ at + suc n
      same = omega arith

  -- Whether a pattern fits is decided by as many bytes as it has cells.
  fits-window :
      (p : Pattern) (at n : ℕ)
      → length p ≤ n
      → fits p (window cell at n) ≡ fits p (window cell at (length p))
  unfolding fits window
  fits-window [] at n h = refl
  fits-window (x ∷ p) at zero h = absurd (omega arith)
  fits-window (none ∷ p) at (suc n) h = fits-window p (at + 1) n (omega arith)
  fits-window (some v ∷ p) at (suc n) h =
      ap (λ b. (cell at == v) && b) (fits-window p (at + 1) n (omega arith))

pub take-append {ℓ} :
    {A : Type ℓ} (k : ℕ) (xs ys : List A) → k ≤ length xs → take k (xs ++ ys) ≡ take k xs
take-append zero xs ys h = refl
take-append (suc k) [] ys h = absurd (omega arith)
take-append (suc k) (x ∷ xs) ys h = ap (◌∷◌ x) (take-append k xs ys (omega arith))

-- The first `max` of a list, and whether there are so many.
abbrev pub cut : ℕ → List Address → Bool × List Address
cut max xs = (leb max (length xs), take max xs)

pub cut-short : (max : ℕ) (xs : List Address) → length xs < max → cut max (xs ++ []) ≡ (false, xs)
cut-short max xs h =
    rw (append-nil xs) (ap₂ (λ b ys. (b, ys)) (ground arith) (take-all max xs (omega arith)))

pub cut-full :
    (max : ℕ) (xs ys : List Address)
    → max ≤ length xs
    → length xs ≤ max
    → cut max (xs ++ ys) ≡ (true, xs)
cut-full max xs ys lo hi =
    ap₂ (λ b zs. (b, zs)) (ground (arith, length-append xs ys))
      (take-append max xs ys lo ∙ take-all max xs hi)

module _ (cell : ℕ → ℕ) (pattern : Pattern) (max : ℕ) (positive : 0 < length pattern) where
  abbrev candidates : ℕ → ℕ
  candidates size = suc size - length pattern

  -- The loop over the positions of one chunk appends the occurrences in it, up to the limit.
  pub scan_chunk-window :
      (size at : ℕ) (matches : List Address)
      → at + size < u64_mod
      → length matches < max
      → scan_chunk pattern max at matches (window cell at size)
        ≡ cut max (matches ++ occurrences cell pattern at (candidates size))
  unfolding scan_chunk window occurrences
  scan_chunk-window zero at matches lt short =
      let none_here : candidates 0 ≡ 0 = omega arith in
      rw none_here (sym (cut-short max matches short))
  scan_chunk-window (suc size) at matches lt short =
      elim (Bool-cases (leb (length pattern) (suc size))) [
        | inl wide ↦
            let more : candidates (suc size) ≡ suc (candidates size) = ground arith in
            let wrap : (at + 1) % u64_mod ≡ at + 1 = omega arith in
            let here = fits-window cell pattern pattern at (suc size) (ground arith) in
            let later = occurrences cell pattern (at + 1) (candidates size) in
            let found = matches ++ at ∷ [] in
            let joined : cut max (found ++ later) ≡ cut max (matches ++ at ∷ later) =
              ap (cut max) (append_assoc matches (at ∷ []) later) in
            let longer = length-append matches (at ∷ []) in
            rw (length-window cell (at + 1) size, wide, more, wrap, here)
              (elim (Bool-cases (fits pattern (window cell at (length pattern)))) [
                | inr miss ↦ rw miss (scan_chunk-window size (at + 1) matches (omega arith) short)
                | inl hit ↦ elim (Bool-cases (leb max (length found))) [
                  | inl full ↦
                      rw (hit, full)
                        (sym (cut-full max found later (ground arith) (omega arith)) ∙ joined)
                  | inr free ↦
                      rw (hit, free)
                        (scan_chunk-window size (at + 1) found (omega arith) (ground arith)
                          ∙ joined)
                ]
              ])
        | inr narrow ↦
            let none_here : candidates (suc size) ≡ 0 = ground arith in
            rw (length-window cell (at + 1) size, narrow, none_here)
              (sym (cut-short max matches short))
      ]
