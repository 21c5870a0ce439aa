-- ===== src/Policy/Audit.antt =====
-- src/policy.cpp: the audit event and the limiter after `authorize_with_token`.
use gtlibcpp.Common.{
  ◌≡◌, refl, ap, arith, inl, inr, Bool, true, false, [], ◌∷◌, ◌++◌, Option, some, none,
  Option-cases, codes, if◌then◌else◌,
}
use gtlibcpp.Result.{ErrorCode, rate_limited, Result, ok, err}
use gtlibcpp.Types.{TargetIdentity}
use gtlibcpp.Policy.Data.{AuditEvent, MutationRequest, ApprovalToken, TargetManifest}
use gtlibcpp.Policy.Limiter.{RateLimiter, allow}
use gtlibcpp.Policy.{
  Policy, Readings, event, deny, emit_audit, authorize_limited, authorize_token, authorize_manifest,
  authorize_with_token, find_manifest,
}

is_rate_limited : ErrorCode → Bool
is_rate_limited rate_limited = true
is_rate_limited _ = false

module _ (now : Readings) (identity : TargetIdentity) (request : MutationRequest) where
  -- The event that fits a result.
  recorded : Result (Unit {0}) → AuditEvent
  recorded (err e) = event now identity request (codes "deny") e.message
  recorded (ok _) =
      if request.preview
      then event now identity request (codes "preview") (codes "preview requested")
      else event now identity request (codes "allow") (codes "approved")

  -- The limiter after a result: asked once if the request passed and is no preview, or was refused
  -- by the limiter, and otherwise as before.
  charged : RateLimiter → Result (Unit {0}) → RateLimiter
  charged l (ok _) = if request.preview then l else (allow now.limiter_ms request.target_alias l).1
  charged l (err e) =
      if is_rate_limited e.code then (allow now.limiter_ms request.target_alias l).1 else l

  pub leaves : Policy → Result (Unit {0}) → Policy
  unfolding recorded charged is_rate_limited
  leaves p r = record p {
    events = if p.has_sink then p.events ++ recorded r ∷ [] else p.events;
    limiter = charged p.limiter r;
  }

  limited-leaves :
      (p : Policy)
      → request.preview ≡ false
      → (authorize_limited now identity request p).1
        ≡ leaves p (authorize_limited now identity request p).0
  unfolding authorize_limited deny emit_audit leaves
  limited-leaves p h = ground arith

  token-leaves :
      (token : Option ApprovalToken) (p : Policy)
      → request.preview ≡ false
      → (authorize_token now identity request token p).1
        ≡ leaves p (authorize_token now identity request token p).0
  unfolding authorize_token deny emit_audit leaves
  token-leaves none p h = ground (arith, limited-leaves p h)
  token-leaves (some t) p h = ground (arith, limited-leaves p h)

  manifest-leaves :
      (m : TargetManifest) (token : Option ApprovalToken) (p : Policy)
      → (authorize_manifest now identity request m token p).1
        ≡ leaves p (authorize_manifest now identity request m token p).0
  unfolding authorize_manifest deny emit_audit leaves
  manifest-leaves m token p = ground (arith, token-leaves token p)

  -- Every call hands the sink, if there is one, exactly one event, whose decision is `deny` with the
  -- error's message as reason, `preview` or `allow`, as the result is; it asks the limiter once if
  -- the request passes and is no preview or if the limiter refuses it, and never otherwise; and it
  -- changes nothing else of the policy.
  pub authorize_leaves :
      (token : Option ApprovalToken) (p : Policy)
      → (authorize_with_token now identity request token p).1
        ≡ leaves p (authorize_with_token now identity request token p).0
  unfolding authorize_with_token deny emit_audit leaves
  authorize_leaves token p = elim (Option-cases (find_manifest request.target_alias p.manifests)) [
    | inl e ↦ ground arith
    | inr (m, e) ↦ ground (arith, manifest-leaves m token p)
  ]

  -- No authorisation turns the switch.
  pub authorize-kill_switch :
      (token : Option ApprovalToken) (p : Policy)
      → (authorize_with_token now identity request token p).1.kill_switch ≡ p.kill_switch
  unfolding leaves
  authorize-kill_switch token p = ap (λ (q : Policy). q.kill_switch) (authorize_leaves token p)

  preview_leaves_rules :
      (p : Policy) (r : Result (Unit {0}))
      → request.preview ≡ true
      → r ≡ ok tt
      → ((leaves p r).kill_switch ≡ p.kill_switch)
        × ((leaves p r).manifests ≡ p.manifests)
        × ((leaves p r).limiter ≡ p.limiter)
  unfolding leaves charged
  preview_leaves_rules p (err e) h k = absurd (cc k)
  preview_leaves_rules p (ok _) h k = rw (h) (refl, refl, refl)

  -- A preview that passes leaves the switch, the manifests and the limiter as they are.
  pub preview_leaves :
      (token : Option ApprovalToken) (p : Policy)
      → request.preview ≡ true
      → (authorize_with_token now identity request token p).0 ≡ ok tt
      → let q = (authorize_with_token now identity request token p).1 in
        (q.kill_switch ≡ p.kill_switch) × (q.manifests ≡ p.manifests) × (q.limiter ≡ p.limiter)
  preview_leaves token p h k =
      rw (authorize_leaves token p)
        (preview_leaves_rules p (authorize_with_token now identity request token p).0 h k)
