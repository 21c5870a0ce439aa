-- ===== src/Scan/Within.antt =====
-- src/agent.cpp, src/parser.cpp: the fuel of a reader and the length of what it leaves.
use gtlibcpp.Common.{
  ℕ, suc, ◌+◌, ◌≤◌, ◌<◌, ◌≡◌, refl, ap, Bool, true, false, [], ◌∷◌, Option, none, some, arith,
  if◌then◌else◌, Bytes, length,
}
use gtlibcpp.Result.{Error, parse_failed, Result, err}
use gtlibcpp.Scan.{skip_ws, after_word, tail, starts, Read, done, fails, out_of_fuel, ◌>>=◌}

pub after_word-length :
    (word text rest : Bytes)
    → after_word word text ≡ some rest
    → length word + length rest ≡ length text
unfolding after_word
after_word-length [] text rest h = ground arith
after_word-length (w ∷ word) [] rest h = absurd (cc h)
after_word-length (w ∷ word) (c ∷ text) rest h = ground (arith, after_word-length word text rest)

-- A property of both branches of a test holds of the whole.
module _ {ℓ κ} {A : Type ℓ} (P : A → Type κ) where
  pub if_both : (b : Bool) {x y : A} → (b ≡ true → P x) → (b ≡ false → P y) → P (if b then x else y)
  if_both true p q = p refl
  if_both false p q = q refl

  pub elim_both :
      (b : Bool) {x y : A}
      → (b ≡ true → P x)
      → (b ≡ false → P y)
      → P (elim b [ true ↦ x | false ↦ y ])
  elim_both true p q = p refl
  elim_both false p q = q refl

  pub word_both :
      (word text : Bytes) {x : A} {y : Bytes → A}
      → P x
      → ((rest : Bytes) → length word + length rest ≡ length text → P (y rest))
      → P (elim (after_word word text) [ none ↦ x | some rest ↦ y rest ])
  word_both word text {x} {y} p q = cases (after_word word text) (after_word-length word text)
    where
      cases :
          (o : Option Bytes)
          → ((rest : Bytes) → o ≡ some rest → length word + length rest ≡ length text)
          → P (elim o [ none ↦ x | some rest ↦ y rest ])
      cases none h = p
      cases (some rest) h = q rest (h rest refl)

pub err_code {ℓ} : {A : Type ℓ} {x y : Error} → ◌≡◌ {A = Result A} (err x) (err y) → x.code ≡ y.code
err_code {x = x} {y = y} h = let e : x ≡ y = cc h in ap (λ (z : Error). z.code) e

-- The reader did not run out of fuel: it failed to parse, or what it leaves is shorter than `n`.
abbrev pub Within {ℓ} : {A : Type ℓ} → ℕ → Read A → Type 0
Within n (done a rest) = length rest < n
Within n (fails e) = e.code ≡ parse_failed
Within n out_of_fuel = ⊥

module _ {ℓ} {A : Type ℓ} where
  pub Within-mono : (n m : ℕ) (r : Read A) → n ≤ m → Within n r → Within m r
  Within-mono n m (done a rest) l h = omega arith
  Within-mono n m (fails e) l h = h
  Within-mono n m out_of_fuel l h = absurd h

  pub Within-bind {κ} :
      {B : Type κ} (n m : ℕ) (r : Read B) (k : B → Bytes → Read A)
      → Within n r
      → ((b : B) (rest : Bytes) → length rest < n → Within m (k b rest))
      → Within m (r >>= k)
  Within-bind n m (done b rest) k h next = next b rest h
  Within-bind n m (fails e) k h next = h
  Within-bind n m out_of_fuel k h next = absurd h

pub length-skip_ws : (text : Bytes) → length (skip_ws text) ≤ length text
unfolding skip_ws
length-skip_ws [] = omega arith
length-skip_ws (c ∷ rest) = ground (arith, length-skip_ws rest)

pub length-tail : (text : Bytes) → length (tail text) ≤ length text
length-tail [] = omega arith
length-tail (c ∷ rest) = omega arith

pub starts-tail :
    (c : ℕ) (text : Bytes) → starts c text ≡ true → suc (length (tail text)) ≡ length text
starts-tail c [] h = absurd (cc h)
starts-tail c (d ∷ rest) h = refl
