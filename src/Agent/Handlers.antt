-- ===== src/Agent/Handlers.antt =====
-- src/agent.cpp: the handlers of `AgentService`.
use gtlibcpp.Common.{
  ℕ, ◌+◌, ◌%◌, ◌==◌, not, true, List, [], ◌∷◌, Option, none, some, if◌then◌else◌, Bytes, codes,
  equal, is_empty, Exec, length,
}
use gtlibcpp.Result.{Result, target_dead, policy_denied, invalid_string, invalid_entry_id, ok, err}
use gtlibcpp.Types.{TargetIdentity}
use gtlibcpp.Backend.{Backend}
use gtlibcpp.Session.{read_bytes, write_bytes, resolve_pointer_chain}
use gtlibcpp.Policy.Data.{MutationRequest, ApprovalToken}
use gtlibcpp.Policy.{
  Policy, Readings, authorize, authorize_with_token, set_kill_switch_reason, release,
}
use gtlibcpp.Freeze.{FreezeManager, freeze, unfreeze, restore, status, all_status}
use gtlibcpp.Parser.{parse_string}
use gtlibcpp.Json.{
  Double, JsonValue, boolean, string, array, object, no_members, member, json_get, json_get_string,
  json_get_bool,
}
use gtlibcpp.Agent.Replies.{error_response, denied}
use gtlibcpp.Agent.Forms.{
  hex_decode, text_at, word_at, make_request, one_member, offsets_at, freeze_objects, read_reply,
  verify_reply, resolve_reply, done_reply, status_reply, parse_reply, approval_reply, write_reply,
  freeze_request,
}

-- `now_ms()` of the agent, and those of the policy.
pub record Times : Type 0 where
  pub agent_ms : ℕ
  pub policy : Readings

-- The pending approvals are a map from request ids.
pub record AgentState (B : Backend) : Type 0 where
  pub policy : Policy
  pub freezes : FreezeManager B
  pub pending : List (Bytes × ApprovalToken)

-- `find`
unfoldable pub find_pending : Bytes → List (Bytes × ApprovalToken) → Option ApprovalToken
find_pending id [] = none
find_pending id ((k, token) ∷ rest) = if equal k id then some token else find_pending id rest

-- `erase`
unfoldable pub erase_pending : Bytes → List (Bytes × ApprovalToken) → List (Bytes × ApprovalToken)
erase_pending id [] = []
erase_pending id ((k, token) ∷ rest) =
    let kept = erase_pending id rest in if equal k id then kept else (k, token) ∷ kept

abbrev pub approval : Times → MutationRequest → ApprovalToken
approval now request = record {
  request_id = request.request_id;
  target_alias = request.target_alias;
  issued_at_ms = now.agent_ms;
  expires_at_ms = now.agent_ms + 300000;
  signature = [];
}

-- `sizeof(std::uintptr_t)` of a 64-bit build.
abbrev pub host_pointer_size : ℕ
host_pointer_size = 8

-- What a handler gives back where no exception leaves it.
abbrev pub Handler : Double → Backend → Type 0
Handler D B = JsonValue D → Exec (AgentState B) (Option (JsonValue D))

module _ (B : Backend) where
  -- A call of the session.
  abbrev pub on_target : {A : Type 0} → Exec B.State A → Exec (AgentState B) A
  on_target act s =
      let (a, t) = act s.freezes.target in
      (a, record s { freezes = record s.freezes { target = t } })

  -- A call of the freeze manager.
  abbrev pub on_freezes : {A : Type 0} → Exec (FreezeManager B) A → Exec (AgentState B) A
  on_freezes act s = let (a, m) = act s.freezes in (a, record s { freezes = m })

module _ {D : Double} (B : Backend) where
  unfoldable pub on_read : Handler D B
  on_read params s =
      let (alive, s1) = on_target B B.is_alive s in
      let (bytes, s2) =
        on_target B
          (read_bytes B (word_at params (codes "address") 0) (word_at params (codes "size") 4))
          s1 in
      if alive
      then (
        some (
            read_reply (text_at params (codes "request_id")) (word_at params (codes "address") 0)
              bytes),
        s2,
      )
      else (
        some (
            error_response (text_at params (codes "request_id")) target_dead
              (codes "target is not alive") none),
        s1,
      )

  unfoldable pub on_resolve : Handler D B
  on_resolve params s =
      let (address, s') =
        on_target B
          (resolve_pointer_chain B host_pointer_size (word_at params (codes "base") 0)
            (offsets_at (json_get params (codes "offsets"))))
          s in
      (some (resolve_reply (text_at params (codes "request_id")) address), s')

  unfoldable pub on_verify : Handler D B
  on_verify params s =
      let (bytes, s') =
        on_target B
          (read_bytes B (word_at params (codes "address") 0) (word_at params (codes "size") 4)) s in
      (some (verify_reply (text_at params (codes "request_id")) bytes), s')

  unfoldable pub on_restore : Handler D B
  on_restore params s =
      let id = text_at params (codes "freeze_id") in
      let (r, s') = on_freezes B (restore B id) s in
      if is_empty id
      then (
        some (
            error_response (text_at params (codes "request_id")) invalid_entry_id
              (codes "freeze_id is required") none),
        s,
      )
      else (
        some (
            done_reply (text_at params (codes "request_id"))
              (one_member (codes "restored") (boolean true)) r),
        s',
      )

  unfoldable pub on_freeze : Handler D B
  on_freeze params s =
      let (r, s') = on_freezes B (freeze B (freeze_request params)) s in
      (
        some (
            done_reply (text_at params (codes "request_id"))
              (object (
                member (codes "active") (boolean true)
                  (member (codes "id") (string (text_at params (codes "id"))) no_members)))
              r),
        s',
      )

  unfoldable pub on_unfreeze : Handler D B
  on_unfreeze params s =
      let (r, s') = on_freezes B (unfreeze B (text_at params (codes "id"))) s in
      (
        some (
            done_reply (text_at params (codes "request_id"))
              (one_member (codes "unfrozen") (boolean true)) r),
        s',
      )

  unfoldable pub on_status : Handler D B
  on_status params s =
      let id = text_at params (codes "id") in
      if is_empty id
      then (
        some (one_member (codes "freezes") (array (freeze_objects (all_status B s.freezes)))),
        s,
      )
      else (some (status_reply (text_at params (codes "request_id")) (status B id s.freezes)), s)

  unfoldable pub on_parse : Handler D B
  on_parse params s = (
    some (
        parse_reply (text_at params (codes "request_id"))
          (parse_string (text_at params (codes "xml")))),
    s,
  )

  unfoldable pub on_kill_switch : Handler D B
  on_kill_switch params s =
      let p =
        if json_get_bool params (codes "engage") true
        then set_kill_switch_reason (json_get_string params (codes "reason") (codes "operator"))
            s.policy
        else record s.policy { kill_switch = release s.policy.kill_switch } in
      (some (one_member (codes "engaged") (boolean p.kill_switch.engaged)), record s { policy = p })

  -- The write of the bytes that were read; `none` is the exception of `std::stoul`.
  unfoldable pub write_decoded :
      MutationRequest → Option Bytes → Exec (AgentState B) (Option (JsonValue D))
  write_decoded request none s = (none, s)
  write_decoded request (some bytes) s =
      let (w, s') = on_target B (write_bytes B request.address bytes) s in
      (some (write_reply request (length bytes) w), s')

  -- The write of `apply`, after the decision of the policy.
  unfoldable pub write_hex : MutationRequest → Bytes → Exec (AgentState B) (Option (JsonValue D))
  write_hex request text s =
      if not (length text % 2 == 0)
      then (
        some (
            error_response request.request_id invalid_string
              (codes "value_hex must have an even number of digits") none),
        s,
      )
      else write_decoded request (hex_decode text) s

  module _ (identity : TargetIdentity) (now : Times) where
    -- The request of `preview`.
    abbrev pub preview_request : JsonValue D → MutationRequest
    preview_request params = record (make_request params (codes "preview")) { preview = true }

    -- `preview` after the decision of the policy.
    unfoldable pub preview_decided :
        MutationRequest
        → AgentState B
        → Result (Unit {0}) × Policy
        → Option (JsonValue D) × AgentState B
    preview_decided request s (err e, p) =
        (some (denied request.request_id e), record s { policy = p })
    preview_decided request s (ok _, p) = (
      some (approval_reply request (approval now request)),
      record s {
        policy = p;
        pending =
            (request.request_id, approval now request) ∷ erase_pending request.request_id s.pending;
      },
    )

    unfoldable pub on_preview : Handler D B
    on_preview params s =
        preview_decided (preview_request params) s
          (authorize now.policy identity (preview_request params) s.policy)

    -- `apply` after the decision of the policy.
    unfoldable pub apply_decided :
        MutationRequest
        → JsonValue D
        → AgentState B
        → Result (Unit {0}) × Policy
        → Option (JsonValue D) × AgentState B
    apply_decided request params s (err e, p) =
        (some (denied request.request_id e), record s { policy = p })
    apply_decided request params s (ok _, p) =
        write_hex request (text_at params (codes "value_hex")) (record s { policy = p })

    -- `apply` with the approval that was found, which it takes.
    unfoldable pub apply_found :
        MutationRequest
        → JsonValue D
        → Option ApprovalToken
        → Exec (AgentState B) (Option (JsonValue D))
    apply_found request params none s = (
      some (error_response request.request_id policy_denied (codes "no pending approval") none),
      s,
    )
    apply_found request params (some token) s =
        apply_decided request params
          (record s { pending = erase_pending request.request_id s.pending })
          (authorize_with_token now.policy identity request (some token) s.policy)

    unfoldable pub on_apply : Handler D B
    on_apply params s =
        let request = make_request params (codes "apply") in
        apply_found request params (find_pending request.request_id s.pending) s
