-- ===== src/Session/Chain/Laws.antt =====
-- `resolve_pointer_chain` succeeds exactly along the relation of Chain, its errors name the first
-- step that fails, and on plain memory it is a pure walk through the content.
use gtlibcpp.Common.{
  ℕ, ◌+◌, ◌<◌, ◌≡◌, ◌≢◌, ◌↔◌, inl, inr, refl, sym, ap, ◌∙◌, arith, List, [], ◌∷◌, ◌==◌,
  if◌then◌else◌, Option, some, none, fun_ext,
}
use mathlib.Core.Path.{subst₂}
use gtlibcpp.Result.{Error, Result, ok, err}
use gtlibcpp.Types.{u64_mod, Address}
use gtlibcpp.Backend.{Backend}
use gtlibcpp.Backend.Memory.{IsMemory, window}
use gtlibcpp.Session.{read, walk, resolve_pointer_chain, step_failed, step_null}
use gtlibcpp.Session.Words.{decode}
use gtlibcpp.Session.Reads.{read-shows}
use gtlibcpp.Session.RoundTrip.{ReadShows-window}
use gtlibcpp.Session.Chain.{
  target, Follows, done, step, round, walk-next, walk-null, walk-failed, Follows-walk, walk-Follows,
}

-- The walk through the content of a memory.
pub chase : ℕ → (ℕ → ℕ) → Address → List Address → Option Address
chase w cell a [] = some a
chase w cell a (o ∷ os) =
    let next = decode (window cell (target a o) w) in
    let rest = chase w cell next os in if next == 0 then none else rest

module _ (B : Backend) (w : ℕ) where
  -- The chain ends with an address exactly when it has an offset and every pointer on the way, of
  -- the pointer size of the build, is read and is not null; the result is the last pointer. The
  -- architecture that is recorded for the target has no part in it.
  pub resolve_exact :
      (base : Address) (offsets : List Address) (s : B.State) (r : Address) (s' : B.State)
      → (resolve_pointer_chain B w base offsets s ≡ (ok r, s'))
        ↔ ((offsets ≢ []) × Follows B w base offsets s r s')
  unfolding resolve_pointer_chain
  resolve_exact a [] s r s' = (λ h. absurd (cc h), λ p. absurd (p.0 refl))
  resolve_exact a (o ∷ os) s r s' =
      (λ h. (λ e. absurd (cc e), Follows-walk B w 0 a (o ∷ os) s h), λ p. walk-Follows B w 0 p.1)

  -- Where a chain stops: all pointers before step `k` are read and not null, and at step `k` the
  -- read fails or shows a null pointer.
  pub data Stops : ℕ → Address → List Address → B.State → Error → B.State → Type 0 where
    failed :
        {k a o : ℕ} {os : List Address} {s : B.State} {x : Error}
        → (read B w (target a o) s).0 ≡ err x
        → Stops k a (o ∷ os) s (step_failed w k (target a o) x) (read B w (target a o) s).1
    null :
        {k a o : ℕ} {os : List Address} {s : B.State}
        → (read B w (target a o) s).0 ≡ ok 0
        → Stops k a (o ∷ os) s (step_null w k (target a o)) (read B w (target a o) s).1
    later :
        {k a o n : ℕ} {os : List Address} {s s' : B.State} {e : Error}
        → (read B w (target a o) s).0 ≡ ok n
        → n ≢ 0
        → Stops (k + 1) n os (read B w (target a o) s).1 e s'
        → Stops k a (o ∷ os) s e s'

  err-injective : {x y : Error} → ◌≡◌ {A = Result ℕ} (err x) (err y) → x ≡ y
  err-injective h = cc

  Stops-at :
      {k a : ℕ} {os : List Address} {s t s' : B.State} {x e : Error}
      → Stops k a os s x t
      → ◌≡◌ {A = Result ℕ × B.State} (err x, t) (err e, s')
      → Stops k a os s e s'
  Stops-at {k} {a} {os} {s} st h =
      subst₂ (λ e s'. Stops k a os s e s') (err-injective (ap (λ p. p.0) h)) (ap (λ p. p.1) h) st

  Stops-walk :
      (k : ℕ) (a : Address) (os : List Address) (s : B.State) {e : Error} {s' : B.State}
      → walk B w k a os s ≡ (err e, s')
      → Stops k a os s e s'
  unfolding walk
  Stops-walk k a [] s h = absurd (cc h)
  Stops-walk k a (o ∷ os) s h = elim (round B w k a o s) [
    | inl (n, e, ne) ↦ later e ne (
        Stops-walk (k + 1) n os (read B w (target a o) s).1
          (sym (walk-next B w k a o os s e ne) ∙ h))
    | inr (inl (x, e)) ↦ Stops-at (failed e) (sym (walk-failed B w k a o os s e) ∙ h)
    | inr (inr e) ↦ Stops-at (null e) (sym (walk-null B w k a o os s e) ∙ h)
  ]

  -- A chain that has an offset and ends in an error stopped at a first step: the pointers before it,
  -- of the pointer size of the build, were read and not null, and there the read failed, which the
  -- error repeats with its code, or the pointer was null.
  pub resolve-Stops :
      (base offset : Address) (offsets : List Address) (s : B.State) (e : Error) (s' : B.State)
      → resolve_pointer_chain B w base (offset ∷ offsets) s ≡ (err e, s')
      → Stops 0 base (offset ∷ offsets) s e s'
  unfolding resolve_pointer_chain
  resolve-Stops a o os s e s' h = Stops-walk 0 a (o ∷ os) s h

module _ (B : Backend) (M : IsMemory B) (w : ℕ) where
  open M use {peek}

  read_keeps :
      (a : ℕ) (s : B.State) {n : ℕ}
      → a < u64_mod
      → (read B w a s).0 ≡ ok n
      → peek (read B w a s).1 ≡ peek s
  read_keeps a s lt h =
      let (bs, shows, d) = read-shows B w a s lt h in
      fun_ext (λ x. rw shows.after (M.read_keeps a w s x))

  Follows-chase :
      {a : Address} {os : List Address} {s : B.State} {r : Address} {s' : B.State}
      → Follows B w a os s r s'
      → chase w (peek s) a os ≡ some r
  unfolding chase
  Follows-chase done = refl
  Follows-chase (step {a} {o} {next = n} {r = r} {os = os} {s = s} e ne f) =
      let lt : target a o < u64_mod = omega arith in
      let (bs, shows, d) = read-shows B w (target a o) s lt e in
      let here : decode (window (peek s) (target a o) w) ≡ n =
        sym (d ∙ ap decode (ReadShows-window B M shows)) in
      let rest : chase w (peek s) n os ≡ some r =
        rw (read_keeps (target a o) s lt e) at (Follows-chase f) in
      rw here (rw rest (ground arith))

  -- On plain memory a chain that succeeds returns what the pure walk through the content gives, with
  -- pointers of the size of the build: the reads on the way change nothing that a later read sees.
  pub resolve_chase :
      (base : Address) (offsets : List Address) (s : B.State) (r : Address) (s' : B.State)
      → resolve_pointer_chain B w base offsets s ≡ (ok r, s')
      → chase w (peek s) base offsets ≡ some r
  resolve_chase a os s r s' h = Follows-chase ((resolve_exact B w a os s r s').0 h).1
