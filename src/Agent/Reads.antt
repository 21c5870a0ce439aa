-- ===== src/Agent/Reads.antt =====
-- src/agent.cpp: the methods that only read.
use gtlibcpp.Common.{ℕ, ◌≡◌, refl, ◌∙◌, arith, Bool, false, [], ◌∷◌, Option, Bytes, codes, is_empty}
use gtlibcpp.Result.{Result, ok, err}
use gtlibcpp.Types.{TargetIdentity}
use gtlibcpp.Backend.{Backend}
use gtlibcpp.Backend.Memory.{IsMemory}
use gtlibcpp.Session.Keeps.{read_bytes_keeps, resolve_keeps}
use gtlibcpp.Policy.Data.{MutationRequest}
use gtlibcpp.Policy.{Policy}
use gtlibcpp.Json.{Double, JsonValue}
use gtlibcpp.Scan.Within.{if_both}
use gtlibcpp.Parser.Types.{is_one}
use gtlibcpp.Agent.Forms.{text_at}
use gtlibcpp.Agent.Handlers.{
  Times, AgentState, on_read, on_resolve, on_preview, preview_decided, on_verify, on_status,
  on_parse, on_kill_switch,
}
use gtlibcpp.Json.Decode.{json_decode}
use gtlibcpp.Agent.{handler, handle}
use gtlibcpp.Agent.Dispatch.{method_of, handler_by, Moves, handle-moves}

-- A method that writes to the target or starts or stops a thread that does.
abbrev pub is_writing : Bytes → Bool
is_writing method =
    is_one method (codes "apply" ∷ codes "restore" ∷ codes "freeze" ∷ codes "unfreeze" ∷ [])

module _ (D : Double) (B : Backend) (M : IsMemory B)
    (alive_keeps : (s : B.State) (x : ℕ) → M.peek (B.is_alive s).1 x ≡ M.peek s x) where
  -- The content of the target is the same.
  abbrev pub Keeps : AgentState B → AgentState B → Type 0
  Keeps s s' = (x : ℕ) → M.peek s'.freezes.target x ≡ M.peek s.freezes.target x

  pub on_read-Keeps : (params : JsonValue D) (s : AgentState B) → Keeps s (on_read B params s).1
  unfolding on_read
  on_read-Keeps params s x =
      if_both
        (λ (r : Option (JsonValue D) × AgentState B).
          M.peek r.1.freezes.target x ≡ M.peek s.freezes.target x)
        (B.is_alive s.freezes.target).0
        (λ _.
          read_bytes_keeps B M _ _ (B.is_alive s.freezes.target).1 x
          ∙ alive_keeps s.freezes.target x)
        (λ _. alive_keeps s.freezes.target x)

  pub on_resolve-Keeps :
      (params : JsonValue D) (s : AgentState B) → Keeps s (on_resolve B params s).1
  unfolding on_resolve
  on_resolve-Keeps params s x = resolve_keeps B M _ _ _ s.freezes.target x

  pub on_verify-Keeps : (params : JsonValue D) (s : AgentState B) → Keeps s (on_verify B params s).1
  unfolding on_verify
  on_verify-Keeps params s x = read_bytes_keeps B M _ _ s.freezes.target x

  pub on_status-Keeps : (params : JsonValue D) (s : AgentState B) → Keeps s (on_status B params s).1
  unfolding on_status
  on_status-Keeps params s =
      if_both (λ (r : Option (JsonValue D) × AgentState B). Keeps s r.1)
        (is_empty (text_at params (codes "id"))) (λ _ x. refl) (λ _ x. refl)

  pub on_parse-Keeps : (params : JsonValue D) (s : AgentState B) → Keeps s (on_parse B params s).1
  unfolding on_parse
  on_parse-Keeps params s x = refl

  on_kill_switch-Keeps :
      (params : JsonValue D) (s : AgentState B) → Keeps s (on_kill_switch B params s).1
  unfolding on_kill_switch
  on_kill_switch-Keeps params s x = refl

  module _ (identity : TargetIdentity) (now : Times) where
    preview_decided-Keeps :
        (request : MutationRequest) (s : AgentState B) (r : Result (Unit {0}) × Policy)
        → Keeps s (preview_decided {D = D} B identity now request s r).1
    unfolding preview_decided
    preview_decided-Keeps request s (err e, p) x = refl
    preview_decided-Keeps request s (ok _, p) x = refl

    pub on_preview-Keeps :
        (params : JsonValue D) (s : AgentState B) → Keeps s (on_preview B identity now params s).1
    unfolding on_preview
    on_preview-Keeps params s = preview_decided-Keeps _ s _

    handler-Moves :
        (method : Bytes) (s : AgentState B)
        → is_writing method ≡ false
        → Moves D B identity now Keeps s (λ x. refl) (handler D B identity now method)
    handler-Moves method s h =
        handler_by D B identity now (Moves D B identity now Keeps s (λ x. refl)) method
          (λ params x. refl) (λ params. on_read-Keeps params s)
          (λ params. on_resolve-Keeps params s) (λ params. on_preview-Keeps params s)
          (λ e. absurd (ground (arith, e, h))) (λ params. on_verify-Keeps params s)
          (λ e. absurd (ground (arith, e, h))) (λ e. absurd (ground (arith, e, h)))
          (λ e. absurd (ground (arith, e, h))) (λ params. on_status-Keeps params s)
          (λ params. on_parse-Keeps params s) (λ _ params. on_kill_switch-Keeps params s) tt

    -- On plain memory whose `is_alive` changes no content, a request leaves the content of the target
    -- as it is, whatever comes of it, unless its method is apply, restore, freeze or unfreeze: that is
    -- so for every text that is no request, and for previews too.
    pub handle-Keeps :
        (request : Bytes) (s : AgentState B)
        → is_writing (method_of (json_decode D request)) ≡ false
        → (x : ℕ)
        → M.peek (handle D B identity now request s).1.freezes.target x ≡ M.peek s.freezes.target x
    handle-Keeps request s h =
        handle-moves D B identity now Keeps s (λ x. refl) request (handler-Moves _ s h)
