-- ===== src/Policy.antt =====
-- src/policy.cpp: `KillSwitch` and `Policy`. The readings of the clock are arguments, and the events
-- handed to the audit sink are kept in order. What a sink throws is swallowed.
pub mod Cap
pub mod Decision
pub mod Audit
pub mod Grants
pub mod Minute
pub mod Data
pub mod Limiter
use gtlibcpp.Common.{
  ℕ, ltb, ◌^◌, ◌==◌, ◌||◌, ◌&&◌, not, Bool, true, false, List, [], ◌∷◌, ◌++◌, Option, some, none,
  if◌then◌else◌, Bytes, codes, equal, is_empty, Exec,
}
use gtlibcpp.Result.{
  ErrorCode, policy_denied, target_identity_mismatch, capability_missing, invalid_address,
  invalid_size, approval_required, rate_limited, Error, Result, ok, err, make_error,
}
use gtlibcpp.Types.{TargetIdentity}
use Data.{
  TargetManifest, AuditEvent, MutationRequest, ApprovalToken, matches, has, unknown_bits,
  cap_to_string,
}
use Limiter.{RateLimiter, allow, make_limiter}

pub record KillSwitch : Type 0 where
  pub engaged : Bool
  pub reason : Bytes

abbrev pub engage : Bytes → KillSwitch → KillSwitch
engage reason k = record { engaged = true; reason = reason }

abbrev pub release : KillSwitch → KillSwitch
release k = record { engaged = false; reason = [] }

pub record Policy : Type 0 where
  pub manifests : List TargetManifest
  pub has_sink : Bool
  pub events : List AuditEvent
  pub limiter : RateLimiter
  pub kill_switch : KillSwitch

-- The constructor: 120 mutations a minute, the switch off.
abbrev pub make_policy : List TargetManifest → Bool → Policy
make_policy manifests has_sink = record {
  manifests = manifests;
  has_sink = has_sink;
  events = [];
  limiter = make_limiter 120;
  kill_switch = record { engaged = false; reason = [] };
}

unfoldable pub find_manifest : Bytes → List TargetManifest → Option TargetManifest
find_manifest alias [] = none
find_manifest alias (m ∷ rest) = if equal m.alias alias then some m else find_manifest alias rest

unfoldable pub emit_audit : AuditEvent → Policy → Policy
emit_audit event p = if p.has_sink then record p { events = p.events ++ event ∷ [] } else p

unfoldable pub set_kill_switch_reason : Bytes → Policy → Policy
set_kill_switch_reason reason p = record p { kill_switch = engage reason p.kill_switch }

-- `now_ms()` where the token is checked, in the limiter, and in the audit event.
pub record Readings : Type 0 where
  pub token_ms : ℕ
  pub limiter_ms : ℕ
  pub audit_ms : ℕ

module _ (now : Readings) (identity : TargetIdentity) (request : MutationRequest) where
  abbrev pub event : Bytes → Bytes → AuditEvent
  event decision reason = record {
    request_id = request.request_id;
    alias = request.target_alias;
    pid = identity.pid;
    operation = request.value_repr;
    capability = cap_to_string request.capability;
    decision = decision;
    reason = reason;
    timestamp_ms = now.audit_ms;
  }

  unfoldable pub deny : ErrorCode → Bytes → Exec Policy (Result Unit)
  deny code reason p = (
    err (make_error code reason (codes "Policy::authorize") 0 0),
    emit_audit (event (codes "deny") reason) p,
  )

  -- From the call of the limiter on.
  unfoldable pub authorize_limited : Exec Policy (Result Unit)
  authorize_limited p =
      let (limit, limiter) = allow now.limiter_ms request.target_alias p.limiter in
      let p' = record p { limiter = limiter } in
      elim limit [
        | err e ↦ deny rate_limited e.message p'
        | ok _ ↦ (ok tt, emit_audit (event (codes "allow") (codes "approved")) p')
      ]

  unfoldable pub authorize_token : Option ApprovalToken → Exec Policy (Result Unit)
  authorize_token none p = authorize_limited p
  authorize_token (some token) p =
      if not (equal token.request_id request.request_id)
      then deny policy_denied (codes "approval token request_id does not match") p
      else if not (equal token.target_alias request.target_alias)
      then deny policy_denied (codes "approval token alias does not match") p
      else if ltb now.token_ms token.issued_at_ms || ltb token.expires_at_ms now.token_ms
      then deny policy_denied (codes "approval token is not within its TTL window") p
      else authorize_limited p

  -- From the match of the identity on.
  unfoldable pub authorize_manifest :
      TargetManifest → Option ApprovalToken → Exec Policy (Result Unit)
  authorize_manifest manifest token p =
      if not (matches manifest identity)
      then deny target_identity_mismatch
          (codes "target identity does not match the authorised manifest") p
      else if has request.capability Cap.write && not manifest.allow_write
      then deny policy_denied (codes "manifest does not grant write") p
      else if has request.capability unknown_bits
      then deny capability_missing (codes "unknown capability requested") p
      else if request.address == 0
      then deny invalid_address (codes "request has no concrete address") p
      else if request.size == 0 || ltb (2 ^ 20) request.size
      then deny invalid_size (codes "request size is out of bounds") p
      else if is_empty request.expected_current_hash
      then deny policy_denied (codes "expected_current_hash is required for every mutation") p
      else if request.preview
      then (ok tt, emit_audit (event (codes "preview") (codes "preview requested")) p)
      else if not request.approved
      then deny approval_required (codes "mutation requires approval") p
      else authorize_token token p

  authorize_found : Option TargetManifest → Option ApprovalToken → Exec Policy (Result Unit)
  authorize_found none token =
      deny policy_denied (codes "no manifest for target alias " ++ request.target_alias)
  authorize_found (some manifest) token = authorize_manifest manifest token

  unfoldable pub authorize_with_token : Option ApprovalToken → Exec Policy (Result Unit)
  unfolding authorize_found
  authorize_with_token token p =
      if p.kill_switch.engaged
      then deny policy_denied (codes "kill switch engaged: " ++ p.kill_switch.reason) p
      else authorize_found (find_manifest request.target_alias p.manifests) token p

  unfoldable pub authorize : Exec Policy (Result Unit)
  authorize p = authorize_with_token none p
