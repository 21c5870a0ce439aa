-- ===== src/Agent/Flow.antt =====
-- src/agent.cpp: a preview and the apply that follows it.
use gtlibcpp.Common.{◌+◌, ◌%◌, ◌≤◌, ◌≡◌, true, false, Option, some, Bytes, codes, length}
use gtlibcpp.Result.{Result}
use gtlibcpp.Types.{TargetIdentity}
use gtlibcpp.Backend.{Backend}
use gtlibcpp.Session.{write_bytes}
use gtlibcpp.Policy.Data.{TargetManifest, MutationRequest, ApprovalToken}
use gtlibcpp.Policy.Decision.{HasSlot, IsGranted}
use gtlibcpp.Policy.{Policy, find_manifest}
use gtlibcpp.Json.{Double, JsonValue, json_get_bool}
use gtlibcpp.Agent.Forms.{hex_decode, text_at, make_request, write_reply}
use gtlibcpp.Agent.Handlers.{Times, AgentState, approval, preview_request, on_preview}

module _ (D : Double) (B : Backend) where
  -- What the write of `apply` replies and leaves.
  abbrev Written : MutationRequest → Bytes → B.State → Option (JsonValue D) × AgentState B → Type 0
  Written request bytes target r =
      (r.0
        ≡ some (write_reply request (length bytes) (write_bytes B request.address bytes target).0))
      × (r.1.freezes.target ≡ (write_bytes B request.address bytes target).1)

module _ (D : Double) (B : Backend) (identity : TargetIdentity) (now later : Times)
    (params change : JsonValue D) (s : AgentState B) where
  -- The preview and the apply are for one request id and one target, the apply comes within five
  -- minutes by the clock, and the policy grants both. The size of the request, which the policy
  -- bounds, need not be the number of bytes of `value_hex`.
  pub record IsFollowed (manifest : TargetManifest) (bytes : Bytes) : Type 0 where
    pub switch_off : s.policy.kill_switch.engaged ≡ false
    pub listed :
        find_manifest (text_at params (codes "target_alias")) s.policy.manifests ≡ some manifest
    pub previewed : IsGranted identity (preview_request {D = D} B identity now params) manifest
    pub same_id : text_at change (codes "request_id") ≡ text_at params (codes "request_id")
    pub same_alias : text_at change (codes "target_alias") ≡ text_at params (codes "target_alias")
    pub applied : IsGranted identity (make_request change (codes "apply")) manifest
    pub approved : json_get_bool change (codes "approved") false ≡ true
    pub not_before : now.agent_ms ≤ later.policy.token_ms
    pub not_after : later.policy.token_ms ≤ now.agent_ms + 300000
    pub slot :
        HasSlot later.policy.limiter_ms (text_at change (codes "target_alias")) s.policy.limiter
    pub even : length (text_at change (codes "value_hex")) % 2 ≡ 0
    pub from_hex : hex_decode (text_at change (codes "value_hex")) ≡ some bytes

  -- The state after the preview.
  abbrev after : AgentState B
  after = (on_preview B identity now params s).1

  abbrev token : ApprovalToken
  token = approval now (preview_request {D = D} B identity now params)
