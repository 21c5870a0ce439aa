-- ===== src/Agent/Switch.antt =====
-- src/agent.cpp, src/policy.cpp: what the kill switch of the policy stops in the agent.
use gtlibcpp.Common.{
  ℕ, ◌≡◌, refl, ap, ◌∙◌, arith, inl, inr, ◌==◌, ◌%◌, not, Bool, true, false, List, [], ◌∷◌, Option,
  none, some, All, Bytes, codes, length, is_empty,
}
use gtlibcpp.Result.{Result, ok, err}
use gtlibcpp.Types.{TargetIdentity}
use gtlibcpp.Backend.{Backend}
use gtlibcpp.Backend.Memory.{IsMemory}
use gtlibcpp.Policy.Data.{MutationRequest, ApprovalToken}
use gtlibcpp.Policy.Audit.{authorize-kill_switch}
use gtlibcpp.Policy.{KillSwitch, Policy, authorize}
use gtlibcpp.Freeze.{FreezeManager}
use gtlibcpp.Json.{Double, JsonValue}
use gtlibcpp.Json.Decode.{json_decode}
use gtlibcpp.Scan.Within.{if_both}
use gtlibcpp.Parser.Types.{is_one}
use gtlibcpp.Agent.Forms.{hex_decode, text_at}
use gtlibcpp.Agent.Handlers.{
  Times, AgentState, preview_decided, write_decoded, write_hex, apply_decided, apply_found, on_read,
  on_resolve, on_preview, on_apply, on_verify, on_status, on_parse,
}
use gtlibcpp.Agent.Approvals.{on_apply-IsApproved}
use gtlibcpp.Agent.Dispatch.{method_of, handler_by, Moves, handle-moves}
use gtlibcpp.Agent.Reads.{
  Keeps, on_read-Keeps, on_resolve-Keeps, on_verify-Keeps, on_status-Keeps, on_parse-Keeps,
  on_preview-Keeps,
}
use gtlibcpp.Agent.{handler, handle}

-- A method that asks no policy and writes to the target, starts or stops a thread that does, or turns
-- the switch.
abbrev pub is_unguarded : Bytes → Bool
is_unguarded method =
    is_one method (codes "restore" ∷ codes "freeze" ∷ codes "unfreeze" ∷ codes "kill_switch" ∷ [])

module _ (D : Double) (B : Backend) where
  abbrev switch_of : AgentState B → KillSwitch
  switch_of s = s.policy.kill_switch

  write_decoded-policy :
      (request : MutationRequest) (o : Option Bytes) (s : AgentState B)
      → (write_decoded {D = D} B request o s).1.policy ≡ s.policy
  unfolding write_decoded
  write_decoded-policy request none s = refl
  write_decoded-policy request (some bytes) s = refl

  write_hex-policy :
      (request : MutationRequest) (text : Bytes) (s : AgentState B)
      → (write_hex {D = D} B request text s).1.policy ≡ s.policy
  unfolding write_hex
  write_hex-policy request text s =
      if_both (λ (r : Option (JsonValue D) × AgentState B). r.1.policy ≡ s.policy)
        (not (length text % 2 == 0)) (λ _. refl)
        (λ _. write_decoded-policy request (hex_decode text) s)

  on_read-policy :
      (params : JsonValue D) (s : AgentState B) → (on_read B params s).1.policy ≡ s.policy
  unfolding on_read
  on_read-policy params s =
      if_both (λ (r : Option (JsonValue D) × AgentState B). r.1.policy ≡ s.policy)
        (B.is_alive s.freezes.target).0 (λ _. refl) (λ _. refl)

  on_status-policy :
      (params : JsonValue D) (s : AgentState B) → (on_status B params s).1.policy ≡ s.policy
  unfolding on_status
  on_status-policy params s =
      if_both (λ (r : Option (JsonValue D) × AgentState B). r.1.policy ≡ s.policy)
        (is_empty (text_at params (codes "id"))) (λ _. refl) (λ _. refl)

  module _ (identity : TargetIdentity) (now : Times) where
    preview_decided-policy :
        (request : MutationRequest) (s : AgentState B) (r : Result (Unit {0}) × Policy)
        → (preview_decided {D = D} B identity now request s r).1.policy ≡ r.1
    unfolding preview_decided
    preview_decided-policy request s (err e, p) = refl
    preview_decided-policy request s (ok _, p) = refl

    on_preview-switch :
        (params : JsonValue D) (s : AgentState B)
        → switch_of (on_preview B identity now params s).1 ≡ switch_of s
    unfolding on_preview authorize
    on_preview-switch params s =
        ap (λ (q : Policy). q.kill_switch) (preview_decided-policy _ s _)
        ∙ authorize-kill_switch now.policy identity _ none s.policy

    apply_decided-policy :
        (request : MutationRequest) (params : JsonValue D) (s : AgentState B)
        (r : Result (Unit {0}) × Policy)
        → (apply_decided {D = D} B identity now request params s r).1.policy ≡ r.1
    unfolding apply_decided
    apply_decided-policy request params s (err e, p) = refl
    apply_decided-policy request params s (ok _, p) = write_hex-policy request _ _

    apply_found-switch :
        (request : MutationRequest) (params : JsonValue D) (o : Option ApprovalToken)
        (s : AgentState B)
        → switch_of (apply_found B identity now request params o s).1 ≡ switch_of s
    unfolding apply_found
    apply_found-switch request params none s = refl
    apply_found-switch request params (some token) s =
        ap (λ (q : Policy). q.kill_switch) (apply_decided-policy request params _ _)
        ∙ authorize-kill_switch now.policy identity request (some token) s.policy

    on_apply-switch :
        (params : JsonValue D) (s : AgentState B)
        → switch_of (on_apply B identity now params s).1 ≡ switch_of s
    unfolding on_apply
    on_apply-switch params s = apply_found-switch _ params _ s

module _ (D : Double) (B : Backend) (identity : TargetIdentity) where
  -- Requests that are handled one after the other, each with its reading of the clock.
  abbrev pub handled : List (Times × Bytes) → AgentState B → AgentState B
  handled [] s = s
  handled ((now, request) ∷ rest) s = handled rest (handle D B identity now request s).1

  abbrev pub IsGuarded : Times × Bytes → Type 0
  IsGuarded (now, request) = is_unguarded (method_of (json_decode D request)) ≡ false

module _ (D : Double) (B : Backend) (M : IsMemory B)
    (alive_keeps : (s : B.State) (x : ℕ) → M.peek (B.is_alive s).1 x ≡ M.peek s x)
    (identity : TargetIdentity) where
  -- The content of the target and the switch are the same, if the switch was engaged.
  abbrev Stays : AgentState B → AgentState B → Type 0
  Stays s s' =
      s.policy.kill_switch.engaged ≡ true
      → Keeps D B M alive_keeps s s' × (s'.policy.kill_switch ≡ s.policy.kill_switch)

  on_apply-Stays :
      (now : Times) (params : JsonValue D) (s : AgentState B)
      → Stays s (on_apply B identity now params s).1
  on_apply-Stays now params s on = elim (on_apply-IsApproved D B identity now params s) [
    | inl same ↦ (
      λ x. ap (λ (m : FreezeManager B). M.peek m.target x) same,
      on_apply-switch D B identity now params s,
    )
    | inr a ↦ absurd (cc (on, a.switch_off))
  ]

  handler-Moves :
      (now : Times) (method : Bytes) (s : AgentState B)
      → is_unguarded method ≡ false
      → Moves D B identity now Stays s (λ _. (λ x. refl, refl)) (handler D B identity now method)
  unfolding on_resolve on_verify on_parse
  handler-Moves now method s h =
      handler_by D B identity now (Moves D B identity now Stays s (λ _. (λ x. refl, refl))) method
        (λ params _. (λ x. refl, refl))
        (λ params _. (
          on_read-Keeps D B M alive_keeps params s,
          ap (λ (q : Policy). q.kill_switch) (on_read-policy D B params s),
        ))
        (λ params _. (on_resolve-Keeps D B M alive_keeps params s, refl))
        (λ params _. (
          on_preview-Keeps D B M alive_keeps identity now params s,
          on_preview-switch D B identity now params s,
        ))
        (λ _ params. on_apply-Stays now params s)
        (λ params _. (on_verify-Keeps D B M alive_keeps params s, refl))
        (λ e. absurd (ground (arith, e, h))) (λ e. absurd (ground (arith, e, h)))
        (λ e. absurd (ground (arith, e, h)))
        (λ params _. (
          on_status-Keeps D B M alive_keeps params s,
          ap (λ (q : Policy). q.kill_switch) (on_status-policy D B params s),
        ))
        (λ params _. (on_parse-Keeps D B M alive_keeps params s, refl))
        (λ e. absurd (ground (arith, e, h))) tt

  -- On plain memory whose `is_alive` changes no content, while the kill switch is engaged, no sequence
  -- of requests whose methods are not restore, freeze, unfreeze or kill_switch changes the content of
  -- the target or the switch, whatever was approved before. Freeze threads that already run are not
  -- among these steps.
  pub handled-engaged :
      (requests : List (Times × Bytes)) (s : AgentState B)
      → All (IsGuarded D B identity) requests
      → s.policy.kill_switch.engaged ≡ true
      → ((x : ℕ)
          → M.peek (handled D B identity requests s).freezes.target x ≡ M.peek s.freezes.target x)
        × ((handled D B identity requests s).policy.kill_switch ≡ s.policy.kill_switch)
  handled-engaged [] s h on = (λ x. refl, refl)
  handled-engaged ((now, request) ∷ rest) s (h, more) on =
      let (keeps, switch) =
        handle-moves D B identity now Stays s (λ _. (λ x. refl, refl)) request
          (handler-Moves now (method_of (json_decode D request)) s h) on in
      let (keeps', switch') =
        handled-engaged rest (handle D B identity now request s).1 more
          (ap (λ (k : KillSwitch). k.engaged) switch ∙ on) in
      (λ x. keeps' x ∙ keeps x, switch' ∙ switch)
