-- ===== src/Agent/Envelope.antt =====
-- src/agent.cpp: the shape of the replies of `handle`.
use gtlibcpp.Common.{
  equal, ◌%◌, ◌==◌, ◌≡◌, refl, inl, inr, not, [], Option, none, some, Bytes, codes, equal, is_empty,
  length,
}
use gtlibcpp.Result.{Result, ok, err, policy_denied, invalid_string, target_dead, invalid_entry_id}
use gtlibcpp.Types.{TargetIdentity}
use gtlibcpp.Backend.{Backend}
use gtlibcpp.Policy.Data.{MutationRequest, ApprovalToken}
use gtlibcpp.Policy.{Policy}
use gtlibcpp.Scan.Within.{if_both}
use gtlibcpp.Json.{
  Double, JsonValue, null, boolean, integer, real, string, array, object, json_get, json_get_string,
}
use gtlibcpp.Agent.Replies.{envelope, build_capability_response}
use gtlibcpp.Agent.Forms.{hex_decode, text_at, approval_reply}
use gtlibcpp.Agent.Handlers.{
  Times, AgentState, Handler, on_read, on_resolve, on_preview, preview_decided, on_verify,
  on_status, on_parse, on_kill_switch, on_restore, on_freeze, on_unfreeze, on_apply, apply_found,
  apply_decided, write_hex, write_decoded,
}
use gtlibcpp.Agent.{handler, called, call, reply_of, respond}
use gtlibcpp.Agent.Shapes.{
  IsReply, IsEnvelope, Replies, wrap-IsEnvelope, error_response-IsReply, done_reply-IsReply,
  read_reply-IsReply, verify_reply-IsReply, resolve_reply-IsReply, status_reply-IsReply,
  parse_reply-IsReply, write_reply-IsReply,
}

module _ (D : Double) (B : Backend) where
  abbrev Good : Option (JsonValue D) × AgentState B → Type 0
  Good r = Replies (λ v. IsReply v) r

  abbrev GoodAll : Option (Handler D B) → Type 0
  GoodAll none = Unit
  GoodAll (some act) = (params : JsonValue D) (s : AgentState B) → Good (act params s)

  on_read-Good : (params : JsonValue D) (s : AgentState B) → Good (on_read B params s)
  unfolding on_read
  on_read-Good params s =
      if_both Good (B.is_alive s.freezes.target).0 (λ _. read_reply-IsReply _ _ _)
        (λ _. error_response-IsReply _ target_dead (codes "target is not alive") none)

  on_resolve-Good : (params : JsonValue D) (s : AgentState B) → Good (on_resolve B params s)
  unfolding on_resolve
  on_resolve-Good params s = resolve_reply-IsReply _ _

  on_verify-Good : (params : JsonValue D) (s : AgentState B) → Good (on_verify B params s)
  unfolding on_verify
  on_verify-Good params s = verify_reply-IsReply _ _

  on_restore-Good : (params : JsonValue D) (s : AgentState B) → Good (on_restore B params s)
  unfolding on_restore equal codes
  on_restore-Good params s =
      if_both Good (is_empty (text_at params (codes "freeze_id")))
        (λ _. error_response-IsReply _ invalid_entry_id (codes "freeze_id is required") none)
        (λ _. done_reply-IsReply _ _ _ refl)

  on_freeze-Good : (params : JsonValue D) (s : AgentState B) → Good (on_freeze B params s)
  unfolding on_freeze equal codes
  on_freeze-Good params s = done_reply-IsReply _ _ _ refl

  on_unfreeze-Good : (params : JsonValue D) (s : AgentState B) → Good (on_unfreeze B params s)
  unfolding on_unfreeze equal codes
  on_unfreeze-Good params s = done_reply-IsReply _ _ _ refl

  on_status-Good : (params : JsonValue D) (s : AgentState B) → Good (on_status B params s)
  unfolding on_status equal codes
  on_status-Good params s =
      if_both Good (is_empty (text_at params (codes "id"))) (λ _. inl refl)
        (λ _. status_reply-IsReply _ _)

  on_parse-Good : (params : JsonValue D) (s : AgentState B) → Good (on_parse B params s)
  unfolding on_parse
  on_parse-Good params s = parse_reply-IsReply _ _

  on_kill_switch-Good : (params : JsonValue D) (s : AgentState B) → Good (on_kill_switch B params s)
  unfolding on_kill_switch equal codes
  on_kill_switch-Good params s = inl refl

  write_decoded-Good :
      (request : MutationRequest) (o : Option Bytes) (s : AgentState B)
      → Good (write_decoded B request o s)
  unfolding write_decoded
  write_decoded-Good request none s = tt
  write_decoded-Good request (some bytes) s = write_reply-IsReply request (length bytes) _

  module _ (identity : TargetIdentity) (now : Times) where
    preview_decided-Good :
        (request : MutationRequest) (s : AgentState B) (r : Result (Unit {0}) × Policy)
        → Good (preview_decided B identity now request s r)
    unfolding preview_decided equal codes approval_reply
    preview_decided-Good request s (err e, p) =
        error_response-IsReply request.request_id e.code e.message (some e)
    preview_decided-Good request s (ok _, p) = inl refl

    apply_decided-Good :
        (request : MutationRequest) (params : JsonValue D) (s : AgentState B)
        (r : Result (Unit {0}) × Policy)
        → Good (apply_decided B identity now request params s r)
    unfolding apply_decided write_hex
    apply_decided-Good request params s (err e, p) =
        error_response-IsReply request.request_id e.code e.message (some e)
    apply_decided-Good request params s (ok _, p) =
        if_both Good (not (length (text_at params (codes "value_hex")) % 2 == 0))
          (λ _.
            error_response-IsReply request.request_id invalid_string
              (codes "value_hex must have an even number of digits") none)
          (λ _. write_decoded-Good request (hex_decode (text_at params (codes "value_hex"))) _)

    apply_found-Good :
        (request : MutationRequest) (params : JsonValue D) (o : Option ApprovalToken)
        (s : AgentState B)
        → Good (apply_found B identity now request params o s)
    unfolding apply_found
    apply_found-Good request params none s =
        error_response-IsReply request.request_id policy_denied (codes "no pending approval") none
    apply_found-Good request params (some token) s = apply_decided-Good request params _ _

    on_preview-Good :
        (params : JsonValue D) (s : AgentState B) → Good (on_preview B identity now params s)
    unfolding on_preview
    on_preview-Good params s = preview_decided-Good _ s _

    on_apply-Good :
        (params : JsonValue D) (s : AgentState B) → Good (on_apply B identity now params s)
    unfolding on_apply
    on_apply-Good params s = apply_found-Good _ params _ s

    handler-GoodAll : (method : Bytes) → GoodAll (handler D B identity now method)
    unfolding equal codes build_capability_response
    handler-GoodAll method =
        if_both GoodAll (equal method (codes "inspect")) (λ _ params s. inl refl)
          (λ _.
            if_both GoodAll (equal method (codes "read")) (λ _. on_read-Good)
              (λ _.
                if_both GoodAll (equal method (codes "resolve")) (λ _. on_resolve-Good)
                  (λ _.
                    if_both GoodAll (equal method (codes "preview")) (λ _. on_preview-Good)
                      (λ _.
                        if_both GoodAll (equal method (codes "apply")) (λ _. on_apply-Good)
                          (λ _.
                            if_both GoodAll (equal method (codes "verify")) (λ _. on_verify-Good)
                              (λ _.
                                if_both GoodAll (equal method (codes "restore"))
                                  (λ _. on_restore-Good)
                                  (λ _.
                                    if_both GoodAll (equal method (codes "freeze"))
                                      (λ _. on_freeze-Good)
                                      (λ _.
                                        if_both GoodAll (equal method (codes "unfreeze"))
                                          (λ _. on_unfreeze-Good)
                                          (λ _.
                                            if_both GoodAll (equal method (codes "status"))
                                              (λ _. on_status-Good)
                                              (λ _.
                                                if_both GoodAll (equal method (codes "parse"))
                                                  (λ _. on_parse-Good)
                                                  (λ _.
                                                    if_both GoodAll
                                                      (equal method (codes "kill_switch"))
                                                      (λ _. on_kill_switch-Good)
                                                      (λ _. tt))))))))))))

    abbrev Enveloped : Bytes → Option (JsonValue D) × AgentState B → Type 0
    Enveloped id r = Replies (λ v. IsEnvelope id v) r

    reply_of-Enveloped :
        (id : Bytes) (r : Option (JsonValue D) × AgentState B)
        → Good r
        → Enveloped id (reply_of D B identity now id r)
    reply_of-Enveloped id (none, t) h = tt
    reply_of-Enveloped id (some v, t) h = wrap-IsEnvelope id v h

    called-Enveloped :
        (method id : Bytes) (params : JsonValue D) (o : Option (Handler D B)) (s : AgentState B)
        → GoodAll o
        → Enveloped id (called D B identity now method id params o s)
    called-Enveloped method id params none s h = (_, inr refl)
    called-Enveloped method id params (some act) s h =
        reply_of-Enveloped id (act params s) (h params s)

    -- The id of a request; that of a text which is no request is empty.
    abbrev pub id_of : Result (JsonValue D) → Bytes
    id_of (err e) = []
    id_of (ok v) = json_get_string v (codes "id") []

    -- Whatever the request and the handler that it calls, a reply is one envelope with the id of the
    -- request, around a result or around an error, also where the handler's own reply already was an
    -- envelope with the id of the parameters. Only an exception of a handler leaves no reply.
    pub respond-IsEnvelope :
        (r : Result (JsonValue D)) (s : AgentState B)
        → Replies (IsEnvelope (id_of r)) (respond D B identity now r s)
    unfolding respond call json_get_string json_get
    respond-IsEnvelope (err e) s = (_, inr refl)
    respond-IsEnvelope (ok (object members)) s =
        called-Enveloped _ _ _ _ s
          (handler-GoodAll (json_get_string (object members) (codes "method") []))
    respond-IsEnvelope (ok null) s = (_, inr refl)
    respond-IsEnvelope (ok (boolean b)) s = (_, inr refl)
    respond-IsEnvelope (ok (integer n)) s = (_, inr refl)
    respond-IsEnvelope (ok (real r)) s = (_, inr refl)
    respond-IsEnvelope (ok (string text)) s = (_, inr refl)
    respond-IsEnvelope (ok (array vs)) s = (_, inr refl)

    -- What `envelope` makes is a request that calls the handler of its method on its parameters, under
    -- the empty id.
    respond-envelope :
        (method : Bytes) (params : JsonValue D) (s : AgentState B)
        → respond D B identity now (ok (envelope method params)) s
          ≡ call D B identity now method [] params s
    unfolding respond envelope json_get_string json_get equal codes
    respond-envelope method params s = refl
