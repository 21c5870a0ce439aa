-- ===== src/Agent.antt =====
-- src/agent.cpp, include/gtlibcpp/agent.hpp: `AgentService`. Its session is the freeze manager's, so
-- the state of the target is the manager's. The identity that the session has cached and the
-- readings of the clock are arguments. An exception that leaves a handler is `none`.
pub mod Replies
pub mod Forms
pub mod Handlers
pub mod Approvals
pub mod Dispatch
pub mod Reads
pub mod Switch
pub mod Shapes
pub mod Envelope
pub mod Flow
pub mod Serve
use gtlibcpp.Common.{
  ℕ, ◌+◌, Bool, true, false, List, [], ◌∷◌, ◌++◌, Option, none, some, if◌then◌else◌, Bytes, codes,
  equal, Exec,
}
use gtlibcpp.Result.{Result, ok, err}
use gtlibcpp.Types.{TargetIdentity}
use gtlibcpp.Backend.{Backend}
use gtlibcpp.Scan.{ℤ, pos, negsuc}
use gtlibcpp.Json.{
  Double, JsonValue, JsonObject, object, string, no_members, member, json_encode, json_get,
  json_get_string,
}
use gtlibcpp.Json.Decode.{json_decode}
use Replies.{make_envelope, make_error_envelope, failure}
use Forms.{on_inspect}
use Handlers.{
  AgentState, Times, on_read, on_resolve, on_preview, on_apply, on_verify, on_restore, on_freeze,
  on_unfreeze, on_status, on_parse, on_kill_switch,
}

module _ {D : Double} where
  abbrev pub has_jsonrpc : JsonObject D → Bool
  has_jsonrpc no_members = false
  has_jsonrpc (member key v rest) = if equal key (codes "jsonrpc") then true else has_jsonrpc rest

  -- The first member "id" gets the id of the request.
  abbrev pub with_id : Bytes → JsonObject D → JsonObject D
  with_id id no_members = no_members
  with_id id (member key v rest) =
      if equal key (codes "id") then member key (string id) rest else member key v (with_id id rest)

  -- A result that is an envelope already is not wrapped again.
  unfoldable pub wrap : Bytes → JsonValue D → JsonValue D
  wrap id (object members) =
      if has_jsonrpc members then object (with_id id members) else make_envelope id (object members)
  wrap id other = make_envelope id other

module _ (D : Double) (B : Backend) (identity : TargetIdentity) (now : Times) where
  -- The handler of a method; `none` if there is no such method.
  abbrev pub handler : Bytes → Option (JsonValue D → Exec (AgentState B) (Option (JsonValue D)))
  handler method =
      if equal method (codes "inspect")
      then some (λ p s. (some (on_inspect identity p), s))
      else if equal method (codes "read")
      then some (on_read B)
      else if equal method (codes "resolve")
      then some (on_resolve B)
      else if equal method (codes "preview")
      then some (on_preview B identity now)
      else if equal method (codes "apply")
      then some (on_apply B identity now)
      else if equal method (codes "verify")
      then some (on_verify B)
      else if equal method (codes "restore")
      then some (on_restore B)
      else if equal method (codes "freeze")
      then some (on_freeze B)
      else if equal method (codes "unfreeze")
      then some (on_unfreeze B)
      else if equal method (codes "status")
      then some (on_status B)
      else if equal method (codes "parse")
      then some (on_parse B)
      else if equal method (codes "kill_switch")
      then some (on_kill_switch B)
      else none

  abbrev pub params_of : Option (JsonValue D) → JsonValue D
  params_of none = object no_members
  params_of (some p) = p

  abbrev pub reply_of :
      Bytes → Option (JsonValue D) × AgentState B → Option (JsonValue D) × AgentState B
  reply_of id (none, s) = (none, s)
  reply_of id (some r, s) = (some (wrap id r), s)

  -- The call of the handler that was chosen.
  abbrev pub called :
      Bytes
      → Bytes
      → JsonValue D
      → Option (JsonValue D → Exec (AgentState B) (Option (JsonValue D)))
      → Exec (AgentState B) (Option (JsonValue D))
  called method id params none s = (
    some (
        make_error_envelope id
          (failure (negsuc 32600) (codes "method not found: " ++ method) none)),
    s,
  )
  called method id params (some act) s = reply_of id (act params s)

  -- From the choice of the handler on.
  unfoldable pub call : Bytes → Bytes → JsonValue D → Exec (AgentState B) (Option (JsonValue D))
  call method id params s = called method id params (handler method) s

  -- The reply before it is written out.
  unfoldable pub respond : Result (JsonValue D) → Exec (AgentState B) (Option (JsonValue D))
  respond (err e) s =
      (some (make_error_envelope [] (failure (negsuc 32699) (codes "parse error") none)), s)
  respond (ok (object members)) s =
      call (json_get_string (object members) (codes "method") [])
        (json_get_string (object members) (codes "id") [])
        (params_of (json_get (object members) (codes "params"))) s
  respond (ok other) s =
      (some (make_error_envelope [] (failure (negsuc 32599) (codes "invalid request") none)), s)

  abbrev pub written : Option (JsonValue D) × AgentState B → Option Bytes × AgentState B
  written (none, s) = (none, s)
  written (some reply, s) = (some (json_encode reply), s)

  -- `handle`, which always succeeds where no exception leaves it.
  unfoldable pub handle : Bytes → Exec (AgentState B) (Option Bytes)
  handle request_json s = written (respond (json_decode D request_json) s)
