-- ===== src/Policy/Minute.antt =====
-- src/policy.cpp: `RateLimiter::allow` over a minute.
use gtlibcpp.Common.{
  ℕ, suc, ◌+◌, ◌-◌, ◌*◌, ◌≤◌, ◌<◌, ◌≡◌, arith, false, List, [], ◌∷◌, All, Bytes, equal, Bool-cases,
  inl, inr, equal_iff, equal→eq, equal_refl, leb, if◌then◌else◌,
}
use gtlibcpp.Result.{is_ok}
use gtlibcpp.Policy.Limiter.{Window, RateLimiter, allow}

abbrev pub Call : Type 0
Call = ℕ × Bytes

-- How many of the calls for `alias` are let through, calls for other targets in between or not.
unfoldable pub admitted : Bytes → List Call → RateLimiter → ℕ
admitted alias [] l = 0
admitted alias ((now, other) ∷ calls) l =
    let (r, l') = allow now other l in
    let rest = admitted alias calls l' in
    if equal other alias then (if is_ok r then suc rest else rest) else rest

abbrev pub Within : ℕ → List Call → Type 0
Within t = All (λ c. (t ≤ c.0) × (c.0 < t + 60000))

-- The calls that a window still lets through before `t + 60000`, all calls from `t` on.
room : ℕ → ℕ → Window → ℕ
room t max w = if leb t w.window_start_ms then max - w.count else (max - w.count) + max

module _ (t : ℕ) (later : 0 < t) (alias : Bytes) where
  max_kept :
      (now : ℕ) (other : Bytes) (l : RateLimiter)
      → (allow now other l).1.max_per_minute ≡ l.max_per_minute
  unfolding allow
  max_kept now other l = ground arith

  others_kept :
      (now : ℕ) (other : Bytes) (l : RateLimiter)
      → equal other alias ≡ false
      → (allow now other l).1.windows alias ≡ l.windows alias
  unfolding allow
  others_kept now other l ne = ground (arith, equal_iff alias other, equal_iff other alias)

  one_used :
      (now : ℕ) (l : RateLimiter)
      → t ≤ now
      → now < t + 60000
      → (if is_ok (allow now alias l).0 then 1 else 0)
          + room t l.max_per_minute ((allow now alias l).1.windows alias)
        ≤ room t l.max_per_minute (l.windows alias)
  unfolding allow room
  one_used now l lo hi = ground (arith, equal_refl alias)

  admitted-le-room :
      (calls : List Call) (l : RateLimiter)
      → Within t calls
      → admitted alias calls l ≤ room t l.max_per_minute (l.windows alias)
  unfolding admitted
  admitted-le-room [] l h = omega arith
  admitted-le-room ((now, other) ∷ calls) l h =
      let l' = (allow now other l).1 in
      let rest = admitted-le-room calls l' h.1 in
      elim (Bool-cases (equal other alias)) [
        | inl e ↦
            let same : other ≡ alias = equal→eq other alias e in
            ground (arith, rest, same, e, max_kept now other l, one_used now l h.0.0 h.0.1)
        | inr e ↦ ground (arith, rest, e, max_kept now other l, others_kept now other l e)
      ]

  -- Among calls at times from `t` on and before `t + 60000`, in any order and mixed with calls for
  -- other targets, at most twice the limit are let through for one target.
  pub minute_bound :
      (calls : List Call) (l : RateLimiter)
      → Within t calls
      → admitted alias calls l ≤ 2 * l.max_per_minute
  unfolding room
  minute_bound calls l h = ground (arith, admitted-le-room calls l h)

  -- If the target's window was opened at `t` or later, only what is left of the limit is.
  pub window_bound :
      (calls : List Call) (l : RateLimiter)
      → Within t calls
      → t ≤ (l.windows alias).window_start_ms
      → admitted alias calls l ≤ l.max_per_minute - (l.windows alias).count
  unfolding room
  window_bound calls l h opened_later = ground (arith, admitted-le-room calls l h)
