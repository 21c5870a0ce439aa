-- ===== src/Session/Chain.antt =====
-- `resolve_pointer_chain` against its specification: a relation on the reads that it makes, and, on
-- plain memory, a pure walk through the content.
pub mod Laws
use gtlibcpp.Common.{
  ℕ, zero, suc, ◌+◌, ◌%◌, ◌<◌, ◌≡◌, ◌≢◌, ◌↔◌, ◌⊎◌, inl, inr, refl, sym, ap, ◌∙◌, arith, List, [],
  ◌∷◌, ◌++◌, ◌==◌, Bool, true, false, Bool-cases, Option, some, none, if◌then◌else◌, length, ==_iff,
}
use mathlib.Core.Path.{subst₂}
use gtlibcpp.Result.{Error, Result, ok, err, Result-cases}
use gtlibcpp.Types.{u64_mod, Address}
use gtlibcpp.Backend.{Backend}
use gtlibcpp.Backend.Memory.{IsMemory, window}
use gtlibcpp.Session.{read, walk, resolve_pointer_chain, step_failed, step_null, no_offsets}
use gtlibcpp.Session.Words.{decode}

abbrev pub target : Address → Address → Address
target current offset = (current + offset) % u64_mod

-- `w` is the size of a pointer of the build.
module _ (B : Backend) (w : ℕ) where
  -- Each offset is added to the current address, and the pointer read there, which is not null, is
  -- the next address. The last one is the result.
  pub data Follows : Address → List Address → B.State → Address → B.State → Type 0 where
    done : {a : Address} {s : B.State} → Follows a [] s a s
    step :
        {a o next r : Address} {os : List Address} {s s' : B.State}
        → (read B w (target a o) s).0 ≡ ok next
        → next ≢ 0
        → Follows next os (read B w (target a o) s).1 r s'
        → Follows a (o ∷ os) s r s'

  ok-injective : {m n : ℕ} → ◌≡◌ {A = Result ℕ} (ok m) (ok n) → m ≡ n
  ok-injective h = cc

  -- One round of the loop, by what the read gives.
  module _ (k : ℕ) (a o : Address) (os : List Address) (s : B.State) where
    pub walk-next :
        {n : ℕ}
        → (read B w (target a o) s).0 ≡ ok n
        → n ≢ 0
        → walk B w k a (o ∷ os) s ≡ walk B w (k + 1) n os (read B w (target a o) s).1
    unfolding walk
    walk-next {n} e ne = rw (e, walk) (ground arith)

    pub walk-null :
        (read B w (target a o) s).0 ≡ ok 0
        → walk B w k a (o ∷ os) s ≡ (err (step_null w k (target a o)), (read B w (target a o) s).1)
    unfolding walk
    walk-null e = rw (e, walk)

    pub walk-failed :
        {x : Error}
        → (read B w (target a o) s).0 ≡ err x
        → walk B w k a (o ∷ os) s
          ≡ (err (step_failed w k (target a o) x), (read B w (target a o) s).1)
    unfolding walk
    walk-failed e = rw (e, walk)

  -- The three things that a round can do.
  abbrev pub Round : ℕ → Address → Address → B.State → Type 0
  Round k a o s =
      ((n : ℕ) × ((read B w (target a o) s).0 ≡ ok n) × (n ≢ 0))
      ⊎ ((x : Error) × ((read B w (target a o) s).0 ≡ err x))
      ⊎ ((read B w (target a o) s).0 ≡ ok 0)

  pub round : (k : ℕ) (a o : Address) (s : B.State) → Round k a o s
  round k a o s = elim (Result-cases (read B w (target a o) s).0) [
    | inl (zero, e) ↦ inr (inr e)
    | inl (suc n, e) ↦ inl (suc n, e, λ z. ground arith)
    | inr (x, e) ↦ inr (inl (x, e))
  ]

  pub Follows-walk :
      (k : ℕ) (a : Address) (os : List Address) (s : B.State) {r : Address} {s' : B.State}
      → walk B w k a os s ≡ (ok r, s')
      → Follows a os s r s'
  unfolding walk
  Follows-walk k a [] s h =
      subst₂ (λ r s'. Follows a [] s r s') (ok-injective (ap (λ p. p.0) h)) (ap (λ p. p.1) h) done
  Follows-walk k a (o ∷ os) s h = elim (round k a o s) [
    | inl (n, e, ne) ↦ step e ne (
        Follows-walk (k + 1) n os (read B w (target a o) s).1 (sym (walk-next k a o os s e ne) ∙ h))
    | inr (inl (x, e)) ↦ absurd (cc (h, walk-failed k a o os s e))
    | inr (inr e) ↦ absurd (cc (h, walk-null k a o os s e))
  ]

  pub walk-Follows :
      (k : ℕ) {a : Address} {os : List Address} {s : B.State} {r : Address} {s' : B.State}
      → Follows a os s r s'
      → walk B w k a os s ≡ (ok r, s')
  unfolding walk
  walk-Follows k done = refl
  walk-Follows k (step {a} {o} {os = os} {s = s} e ne f) =
      walk-next k a o os s e ne ∙ walk-Follows (k + 1) f
