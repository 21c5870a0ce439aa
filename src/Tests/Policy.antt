-- ===== src/Tests/Policy.antt =====
-- The policy at concrete requests.
use gtlibcpp.Common.{
  ℕ, zero, suc, ◌*◌, ◌-◌, ◌≤◌, ◌≡◌, refl, arith, true, false, List, [], ◌∷◌, Option, some, codes,
  equal,
}
use gtlibcpp.Result.{ok}
use gtlibcpp.Policy.Cap
use gtlibcpp.Policy.Data.{TargetManifest, MutationRequest, ApprovalToken, matches}
use gtlibcpp.Policy.Limiter.{RateLimiter, allow, make_limiter}
use gtlibcpp.Policy.Audit.{leaves, authorize_leaves}
use gtlibcpp.Policy.Grants.{reflagged, allow_write_ignored}
use gtlibcpp.Policy.Minute.{Call, admitted, minute_bound, window_bound}
use gtlibcpp.Policy.{
  Policy, Readings, make_policy, find_manifest, authorize_with_token, authorize_manifest,
  authorize_token, authorize_limited,
}
use gtlibcpp.Tests.Fixture.{who}

abbrev pub manifest : TargetManifest
manifest = record {
  alias = codes "fixture";
  image_path = codes "game.exe";
  image_sha256 = codes "abc";
  architecture = codes "x64";
  allow_write = true;
}

abbrev pub policy : Policy
policy = make_policy (manifest ∷ []) true

abbrev now : Readings
now = record { token_ms = 500; limiter_ms = 501; audit_ms = 502 }

abbrev freeze_request : MutationRequest
freeze_request = record {
  request_id = codes "op-1";
  target_alias = codes "fixture";
  capability = Cap.freeze;
  preview = false;
  approved = true;
  expected_current_hash = codes "h";
  address = 0x1000;
  size = 4;
  value_repr = codes "uint32 7";
}

abbrev token : Option ApprovalToken
token = some (record {
  request_id = codes "op-1";
  target_alias = codes "fixture";
  issued_at_ms = 400;
  expires_at_ms = 300400;
  signature = [];
})

freeze_passes : (authorize_with_token now who freeze_request token policy).0 ≡ ok tt
unfolding authorize_with_token authorize_manifest authorize_token authorize_limited find_manifest
    matches allow equal codes
freeze_passes = refl

authorize_leaves_example :
    (authorize_with_token now who freeze_request token policy).1
    ≡ leaves now who freeze_request policy
        (authorize_with_token now who freeze_request token policy).0
authorize_leaves_example = authorize_leaves now who freeze_request token policy

allow_write_ignored_example :
    authorize_with_token now who freeze_request token (reflagged (λ _. false) policy) ≡ (
      (authorize_with_token now who freeze_request token policy).0,
      reflagged (λ _. false) (authorize_with_token now who freeze_request token policy).1,
    )
allow_write_ignored_example =
    allow_write_ignored (λ _. false) now who freeze_request policy token refl

abbrev times : List Call
times = (70000, 1 ∷ []) ∷ (70001, 2 ∷ []) ∷ (129999, 1 ∷ []) ∷ []

minute_bound_example : admitted (1 ∷ []) times (make_limiter 2) ≤ 2 * 2
minute_bound_example =
    minute_bound 70000 (omega arith) (1 ∷ []) times (make_limiter 2) (omega arith)

abbrev half_used : RateLimiter
half_used = record {
  max_per_minute = 2;
  windows = λ _. record { window_start_ms = 70000; count = 1 };
}

window_bound_example : admitted (1 ∷ []) times half_used ≤ 2 - 1
window_bound_example =
    window_bound 70000 (omega arith) (1 ∷ []) times half_used (omega arith) (omega arith)

-- All of these pass a limit of 120: one opens the window, and 239 follow within two milliseconds at
-- its end.
burst : ℕ → ℕ → List Call → List Call
burst zero at rest = rest
burst (suc n) at rest = (at, []) ∷ burst n at rest

two_windows : admitted [] ((1, []) ∷ burst 119 60000 (burst 120 60001 [])) (make_limiter 120) ≡ 240
unfolding admitted burst allow equal
two_windows = refl
