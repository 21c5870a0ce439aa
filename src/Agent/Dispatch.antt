-- ===== src/Agent/Dispatch.antt =====
-- src/agent.cpp: from the handlers of the methods to `handle`.
use gtlibcpp.Common.{◌≡◌, true, [], Option, none, some, Bytes, codes, equal}
use gtlibcpp.Result.{Result, ok, err}
use gtlibcpp.Types.{TargetIdentity}
use gtlibcpp.Backend.{Backend}
use gtlibcpp.Json.{
  Double, JsonValue, null, boolean, integer, real, string, array, object, json_get_string,
}
use gtlibcpp.Json.Decode.{json_decode}
use gtlibcpp.Scan.Within.{if_both}
use gtlibcpp.Agent.Forms.{on_inspect}
use gtlibcpp.Agent.Handlers.{
  Times, AgentState, Handler, on_read, on_resolve, on_preview, on_apply, on_verify, on_restore,
  on_freeze, on_unfreeze, on_status, on_parse, on_kill_switch,
}
use gtlibcpp.Agent.{handler, called, call, reply_of, respond, written, handle}

-- The method that a request names; that of a text which is no request is empty.
abbrev pub method_of : {D : Double} → Result (JsonValue D) → Bytes
method_of (err e) = []
method_of (ok v) = json_get_string v (codes "method") []

module _ (D : Double) (B : Backend) (identity : TargetIdentity) (now : Times) where
  -- What holds of each handler, where its method is asked for, holds of the one that is chosen.
  pub handler_by :
      (P : Option (Handler D B) → Type 0) (method : Bytes)
      → P (some (λ p s. (some (on_inspect identity p), s)))
      → P (some (on_read B))
      → P (some (on_resolve B))
      → P (some (on_preview B identity now))
      → (equal method (codes "apply") ≡ true → P (some (on_apply B identity now)))
      → P (some (on_verify B))
      → (equal method (codes "restore") ≡ true → P (some (on_restore B)))
      → (equal method (codes "freeze") ≡ true → P (some (on_freeze B)))
      → (equal method (codes "unfreeze") ≡ true → P (some (on_unfreeze B)))
      → P (some (on_status B))
      → P (some (on_parse B))
      → (equal method (codes "kill_switch") ≡ true → P (some (on_kill_switch B)))
      → P none
      → P (handler D B identity now method)
  handler_by P m inspect read resolve preview apply verify restore freeze unfreeze status parse
        kill_switch other =
      if_both P (equal m (codes "inspect")) (λ _. inspect)
        (λ _.
          if_both P (equal m (codes "read")) (λ _. read)
            (λ _.
              if_both P (equal m (codes "resolve")) (λ _. resolve)
                (λ _.
                  if_both P (equal m (codes "preview")) (λ _. preview)
                    (λ _. if_both P (equal m (codes "apply")) apply (λ _.
                      if_both P (equal m (codes "verify")) (λ _. verify)
                        (λ _. if_both P (equal m (codes "restore")) restore (λ _.
                          if_both P (equal m (codes "freeze")) freeze (λ _.
                            if_both P (equal m (codes "unfreeze")) unfreeze (λ _.
                              if_both P (equal m (codes "status")) (λ _. status)
                                (λ _.
                                  if_both P (equal m (codes "parse")) (λ _. parse)
                                    (λ _.
                                      if_both P (equal m (codes "kill_switch")) kill_switch
                                        (λ _. other))))))))))))

  module _ (R : AgentState B → AgentState B → Type 0) (s : AgentState B) (same : R s s) where
    -- The relation holds of the states before and after the handler, if there is one.
    abbrev pub Moves : Option (Handler D B) → Type 0
    Moves none = Unit
    Moves (some act) = (params : JsonValue D) → R s (act params s).1

    reply_of-moves :
        (id : Bytes) (r : Option (JsonValue D) × AgentState B)
        → R s r.1
        → R s (reply_of D B identity now id r).1
    reply_of-moves id (none, t) h = h
    reply_of-moves id (some v, t) h = h

    called-moves :
        (method id : Bytes) (params : JsonValue D) (o : Option (Handler D B))
        → Moves o
        → R s (called D B identity now method id params o s).1
    called-moves method id params none h = same
    called-moves method id params (some act) h = reply_of-moves id (act params s) (h params)

    respond-moves :
        (r : Result (JsonValue D))
        → Moves (handler D B identity now (method_of r))
        → R s (respond D B identity now r s).1
    unfolding respond call
    respond-moves (err e) h = same
    respond-moves (ok (object fields)) h = called-moves _ _ _ _ h
    respond-moves (ok null) h = same
    respond-moves (ok (boolean b)) h = same
    respond-moves (ok (integer n)) h = same
    respond-moves (ok (real r)) h = same
    respond-moves (ok (string text)) h = same
    respond-moves (ok (array vs)) h = same

    written-moves :
        (r : Option (JsonValue D) × AgentState B) → R s r.1 → R s (written D B identity now r).1
    written-moves (none, t) h = h
    written-moves (some v, t) h = h

    -- A relation that each state has to itself and that the handler of the request keeps holds of the
    -- states before and after `handle`.
    pub handle-moves :
        (request : Bytes)
        → Moves (handler D B identity now (method_of (json_decode D request)))
        → R s (handle D B identity now request s).1
    unfolding handle
    handle-moves request h = written-moves _ (respond-moves (json_decode D request) h)
