-- ===== src/Agent/Approvals.antt =====
-- src/agent.cpp: `on_apply` and the approvals that `on_preview` leaves.
use gtlibcpp.Common.{
  ◌≡◌, refl, sym, ap, ◌∙◌, arith, ◌⊎◌, inl, inr, ◌==◌, ◌%◌, not, true, false, List, [], ◌∷◌, Option,
  none, some, Bytes, codes, length,
}
use gtlibcpp.Result.{Result, ok, err, policy_denied}
use gtlibcpp.Types.{TargetIdentity}
use gtlibcpp.Backend.{Backend}
use gtlibcpp.Session.{write_bytes}
use gtlibcpp.Policy.Data.{TargetManifest, MutationRequest, ApprovalToken}
use gtlibcpp.Policy.Decision.{HasSlot, IsFresh, IsGranted, authorize_exact}
use gtlibcpp.Policy.{Policy, find_manifest, authorize_with_token}
use gtlibcpp.Json.{Double, JsonValue, json_get_bool}
use gtlibcpp.Scan.Within.{if_both}
use gtlibcpp.Agent.Replies.{error_response}
use gtlibcpp.Agent.Forms.{hex_decode, text_at, word_at, make_request}
use gtlibcpp.Agent.Handlers.{
  Times, AgentState, find_pending, erase_pending, write_decoded, write_hex, apply_decided,
  apply_found, on_apply,
}

find_pending-erase_pending :
    (id : Bytes) (l : List (Bytes × ApprovalToken)) → find_pending id (erase_pending id l) ≡ none
unfolding find_pending erase_pending
find_pending-erase_pending id [] = refl
find_pending-erase_pending id ((k, token) ∷ rest) =
    ground (arith, find_pending-erase_pending id rest)

module _ (D : Double) (B : Backend) where
  write_decoded-pending :
      (request : MutationRequest) (o : Option Bytes) (s : AgentState B)
      → (write_decoded {D = D} B request o s).1.pending ≡ s.pending
  unfolding write_decoded
  write_decoded-pending request none s = refl
  write_decoded-pending request (some bytes) s = refl

  write_hex-pending :
      (request : MutationRequest) (text : Bytes) (s : AgentState B)
      → (write_hex {D = D} B request text s).1.pending ≡ s.pending
  unfolding write_hex
  write_hex-pending request text s =
      if_both (λ (r : Option (JsonValue D) × AgentState B). r.1.pending ≡ s.pending)
        (not (length text % 2 == 0)) (λ _. refl)
        (λ _. write_decoded-pending request (hex_decode text) s)

  module _ (identity : TargetIdentity) (now : Times) where
    apply_decided-pending :
        (request : MutationRequest) (params : JsonValue D) (s : AgentState B)
        (r : Result (Unit {0}) × Policy)
        → (apply_decided B identity now request params s r).1.pending ≡ s.pending
    unfolding apply_decided
    apply_decided-pending request params s (err e, p) = refl
    apply_decided-pending request params s (ok _, p) =
        write_hex-pending request (text_at params (codes "value_hex")) (record s { policy = p })

    apply_found-pending :
        (request : MutationRequest) (params : JsonValue D) (o : Option ApprovalToken)
        (s : AgentState B)
        → o ≡ find_pending request.request_id s.pending
        → find_pending request.request_id (apply_found B identity now request params o s).1.pending
          ≡ none
    unfolding apply_found
    apply_found-pending request params none s h = sym h
    apply_found-pending request params (some token) s h =
        ap (find_pending request.request_id) (apply_decided-pending request params _ _)
        ∙ find_pending-erase_pending request.request_id s.pending

module _ (D : Double) (B : Backend) (identity : TargetIdentity) where
  -- An approval is used once: after an `apply`, whatever came of it, the next `apply` with the same
  -- request id is refused and leaves the whole state as it is.
  pub apply_once :
      (now later : Times) (params again : JsonValue D) (s : AgentState B)
      → text_at again (codes "request_id") ≡ text_at params (codes "request_id")
      → on_apply B identity later again (on_apply B identity now params s).1 ≡ (
        some (
            error_response
              (text_at again (codes "request_id"))
              policy_denied
              (codes "no pending approval")
              none),
        (on_apply B identity now params s).1,
      )
  unfolding on_apply apply_found make_request
  apply_once now later params again s h =
      ap
        (λ o.
          apply_found B identity later (make_request again (codes "apply")) again o
            (on_apply B identity now params s).1)
        (ap (λ id. find_pending id (on_apply B identity now params s).1.pending) h
          ∙ apply_found-pending D B identity now (make_request params (codes "apply")) params
              (find_pending (text_at params (codes "request_id")) s.pending) s refl)

module _ (D : Double) (B : Backend) (identity : TargetIdentity) (now : Times) where
  -- An `apply` that reached the target: its approval was pending and is taken, the kill switch was
  -- off, the manifest granted the request, and the write was that of the bytes of `value_hex` at the
  -- address of the request. Either the request says that it is a preview, in which case the policy
  -- asks for no more, or it says that it is approved, the token is fresh and the limiter has a slot.
  pub record IsApproved (params : JsonValue D) (s s' : AgentState B) : Type 0 where
    pub token : ApprovalToken
    pub found : find_pending (text_at params (codes "request_id")) s.pending ≡ some token
    pub switch_off : s.policy.kill_switch.engaged ≡ false
    pub manifest : TargetManifest
    pub listed :
        find_manifest (text_at params (codes "target_alias")) s.policy.manifests ≡ some manifest
    pub granted : IsGranted identity (make_request params (codes "apply")) manifest
    pub allowed :
        (json_get_bool params (codes "preview") false ≡ true)
        ⊎ ((json_get_bool params (codes "approved") false ≡ true)
            × IsFresh now.policy.token_ms (make_request params (codes "apply")) token
            × HasSlot now.policy.limiter_ms
                (text_at params (codes "target_alias"))
                s.policy.limiter)
    pub bytes : Bytes
    pub from_hex : hex_decode (text_at params (codes "value_hex")) ≡ some bytes
    pub target :
        s'.freezes.target
        ≡ (write_bytes B (word_at params (codes "address") 0) bytes s.freezes.target).1

  -- What `write_hex` does to the target.
  abbrev Writes : MutationRequest → Bytes → AgentState B → AgentState B → Type 0
  Writes request text s s' =
      (s'.freezes ≡ s.freezes)
      ⊎ ((bytes : Bytes) × (hex_decode text ≡ some bytes)
          × (s'.freezes.target ≡ (write_bytes B request.address bytes s.freezes.target).1))

  write_decoded-Writes :
      (request : MutationRequest) (text : Bytes) (o : Option Bytes) (s : AgentState B)
      → hex_decode text ≡ o
      → Writes request text s (write_decoded {D = D} B request o s).1
  unfolding write_decoded
  write_decoded-Writes request text none s h = inl refl
  write_decoded-Writes request text (some bytes) s h = inr (bytes, h, refl)

  write_hex-Writes :
      (request : MutationRequest) (text : Bytes) (s : AgentState B)
      → Writes request text s (write_hex {D = D} B request text s).1
  unfolding write_hex
  write_hex-Writes request text s =
      if_both (λ (r : Option (JsonValue D) × AgentState B). Writes request text s r.1)
        (not (length text % 2 == 0)) (λ _. inl refl)
        (λ _. write_decoded-Writes request text (hex_decode text) s refl)

  decided-IsApproved :
      (params : JsonValue D) (s : AgentState B) (token : ApprovalToken)
      (r : Result (Unit {0}) × Policy) (left : List (Bytes × ApprovalToken))
      → find_pending (text_at params (codes "request_id")) s.pending ≡ some token
      → (authorize_with_token now.policy identity
          (make_request params (codes "apply"))
          (some token)
          s.policy).0
        ≡ r.0
      → let s' =
          (apply_decided B identity now
            (make_request params (codes "apply"))
            params
            (record s { pending = left })
            r).1 in
        (s'.freezes ≡ s.freezes) ⊎ IsApproved params s s'
  unfolding apply_decided make_request
  decided-IsApproved params s token (err e, p) left h d = inl refl
  decided-IsApproved params s token (ok _, p) left h d =
      let request = make_request params (codes "apply") in
      elim (write_hex-Writes request (text_at params (codes "value_hex"))
        (record s { pending = left; policy = p })) [
          | inl same ↦ inl same
          | inr (bytes, e, t) ↦
              let (off, (m, listed, granted), rest) =
                (authorize_exact now.policy identity request (some token) s.policy).0 d in
              inr (record {
                token = token;
                found = h;
                switch_off = off;
                manifest = m;
                listed = listed;
                granted = granted;
                allowed = rest;
                bytes = bytes;
                from_hex = e;
                target = t;
              })
        ]

  found-IsApproved :
      (params : JsonValue D) (s : AgentState B) (o : Option ApprovalToken)
      → find_pending (text_at params (codes "request_id")) s.pending ≡ o
      → let s' = (apply_found B identity now (make_request params (codes "apply")) params o s).1 in
        (s'.freezes ≡ s.freezes) ⊎ IsApproved params s s'
  unfolding apply_found make_request
  found-IsApproved params s none h = inl refl
  found-IsApproved params s (some token) h = decided-IsApproved params s token _ _ h refl

  -- Whatever the policy, the approvals and the target are, `apply` either leaves the freeze manager
  -- and the target as they are, or its approval was pending, the kill switch off, the manifest granted
  -- the request, and the target is as the write of the decoded bytes left it. In that case either the
  -- request says `preview: true`, and then neither the approved flag nor the life of the token nor the
  -- limiter was asked, or it is approved, the token was fresh and the limiter had a slot.
  pub on_apply-IsApproved :
      (params : JsonValue D) (s : AgentState B)
      → ((on_apply B identity now params s).1.freezes ≡ s.freezes)
        ⊎ IsApproved params s (on_apply B identity now params s).1
  unfolding on_apply make_request
  on_apply-IsApproved params s =
      found-IsApproved params s (find_pending (text_at params (codes "request_id")) s.pending) refl
