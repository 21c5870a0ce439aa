-- ===== src/Policy/Grants.antt =====
-- src/policy.cpp: which requests the manifest's `allow_write` decides.
use gtlibcpp.Common.{
  ◌≡◌, refl, ap, arith, Bool, false, List, [], ◌∷◌, map, Option, none, some, Bytes, codes,
}
use mathlib.Core.Option
use gtlibcpp.Result.{ErrorCode, Result, err, make_error}
use gtlibcpp.Types.{TargetIdentity}
use gtlibcpp.Policy.Cap
use gtlibcpp.Policy.Data.{TargetManifest, MutationRequest, ApprovalToken, AuditEvent, matches, has}
use gtlibcpp.Policy.{
  Policy, Readings, find_manifest, deny, emit_audit, authorize_limited, authorize_token,
  authorize_manifest, authorize_found, authorize_with_token,
}

-- The manifests with other `allow_write`.
abbrev pub reflag : (TargetManifest → Bool) → TargetManifest → TargetManifest
reflag flag m = record m { allow_write = flag m }

abbrev pub reflagged : (TargetManifest → Bool) → Policy → Policy
reflagged flag p = record p { manifests = map (reflag flag) p.manifests }

find_manifest-reflag :
    (flag : TargetManifest → Bool) (alias : Bytes) (ms : List TargetManifest)
    → find_manifest alias (map (reflag flag) ms) ≡ Option.map (reflag flag) (find_manifest alias ms)
unfolding find_manifest
find_manifest-reflag flag alias [] = refl
find_manifest-reflag flag alias (m ∷ ms) = ground (arith, find_manifest-reflag flag alias ms)

module _ (flag : TargetManifest → Bool) where
  -- The outcome with the flags of the policy changed.
  abbrev pub changed : Result (Unit {0}) × Policy → Result (Unit {0}) × Policy
  changed (r, p) = (r, reflagged flag p)

  emit_audit-reflagged :
      (e : AuditEvent) (p : Policy)
      → emit_audit e (reflagged flag p) ≡ reflagged flag (emit_audit e p)
  unfolding emit_audit
  emit_audit-reflagged e p = ground arith

  matches-reflag :
      (m : TargetManifest) (id : TargetIdentity) → matches (reflag flag m) id ≡ matches m id
  unfolding matches
  matches-reflag m id = refl

  module _ (now : Readings) (id : TargetIdentity) (request : MutationRequest) (p : Policy) where
    deny-changed :
        (code : ErrorCode) (reason : Bytes)
        → deny now id request code reason (reflagged flag p)
          ≡ changed (deny now id request code reason p)
    unfolding deny
    deny-changed code reason =
        ap (λ q. (err (make_error code reason (codes "Policy::authorize") 0 0), q))
          (emit_audit-reflagged _ p)

    limited-changed :
        authorize_limited now id request (reflagged flag p)
        ≡ changed (authorize_limited now id request p)
    unfolding authorize_limited deny emit_audit
    limited-changed = ground arith

    token-changed :
        (token : Option ApprovalToken)
        → authorize_token now id request token (reflagged flag p)
          ≡ changed (authorize_token now id request token p)
    unfolding authorize_token
    token-changed none = limited-changed
    token-changed (some token) = grind (arith, limited-changed, deny-changed)

    manifest-changed :
        (m : TargetManifest) (token : Option ApprovalToken)
        → has request.capability Cap.write ≡ false
        → authorize_manifest now id request (reflag flag m) token (reflagged flag p)
          ≡ changed (authorize_manifest now id request m token p)
    unfolding authorize_manifest
    manifest-changed m token h =
        grind
          (arith, h, matches-reflag m id, token-changed token, deny-changed, emit_audit-reflagged)

    found-changed :
        (o : Option TargetManifest) (token : Option ApprovalToken)
        → has request.capability Cap.write ≡ false
        → authorize_found now id request (Option.map (reflag flag) o) token (reflagged flag p)
          ≡ changed (authorize_found now id request o token p)
    unfolding authorize_found
    found-changed none token h = deny-changed _ _
    found-changed (some m) token h = manifest-changed m token h

    -- A request without the write bit, such as one to freeze, unfreeze or roll back, gets the same
    -- outcome, on every path, whatever the `allow_write` of the manifests: with any other flags the
    -- result, the audit events, the limiter and the switch are the same.
    pub allow_write_ignored :
        (token : Option ApprovalToken)
        → has request.capability Cap.write ≡ false
        → authorize_with_token now id request token (reflagged flag p) ≡ (
          (authorize_with_token now id request token p).0,
          reflagged flag (authorize_with_token now id request token p).1,
        )
    unfolding authorize_with_token
    allow_write_ignored token h = grind (
      arith,
      deny-changed,
      ap (λ o. authorize_found now id request o token (reflagged flag p))
          (find_manifest-reflag flag request.target_alias p.manifests),
      found-changed (find_manifest request.target_alias p.manifests) token h,
    )
