-- ===== src/Agent/Shapes.antt =====
-- src/agent.cpp: the shape of what the handlers reply, and what `handle` makes of it.
use gtlibcpp.Common.{
  equal, ℕ, ◌==◌, ◌≡◌, refl, ap, arith, ◌⊎◌, inl, inr, not, Bool, true, Option, none, some, Bytes,
  codes, equal,
}
use gtlibcpp.Result.{ErrorCode, Error, Result, ok, err, partial_write}
use gtlibcpp.Policy.Data.{MutationRequest}
use gtlibcpp.Freeze.Data.{FreezeStatus}
use gtlibcpp.Parser.Fields.{CheatTable}
use gtlibcpp.Scan.Within.{if_both}
use gtlibcpp.Json.{Double, JsonValue, null, boolean, integer, real, string, array, object}
use gtlibcpp.Agent.Replies.{make_envelope, make_error_envelope, error_response}
use gtlibcpp.Agent.Forms.{
  read_reply, verify_reply, resolve_reply, done_reply, status_reply, parse_reply, write_reply,
}
use gtlibcpp.Agent.{has_jsonrpc, wrap}

module _ {D : Double} where
  abbrev pub is_bare : JsonValue D → Bool
  is_bare (object members) = not (has_jsonrpc members)
  is_bare other = true

  -- What a handler replies: a value that is no envelope, or the envelope of an error.
  abbrev pub IsReply : JsonValue D → Type 0
  IsReply v =
      (is_bare v ≡ true)
      ⊎ ((id : Bytes) × (error : JsonValue D) × (v ≡ make_error_envelope id error))

  -- An envelope with the id of the request, around a result or an error.
  abbrev pub IsEnvelope : Bytes → JsonValue D → Type 0
  IsEnvelope id v =
      (body : JsonValue D) × ((v ≡ make_envelope id body) ⊎ (v ≡ make_error_envelope id body))

  -- Of what may be missing, where there is no exception.
  abbrev pub Replies {ℓ} : {S : Type ℓ} → (JsonValue D → Type 0) → Option (JsonValue D) × S → Type 0
  Replies P (none, s) = Unit
  Replies P (some v, s) = P v

  pub wrap-IsEnvelope : (id : Bytes) (v : JsonValue D) → IsReply v → IsEnvelope id (wrap id v)
  unfolding wrap codes equal
  wrap-IsEnvelope id (object members) (inl h) = (object members, inl (ground (arith, h)))
  wrap-IsEnvelope id null (inl h) = (null, inl refl)
  wrap-IsEnvelope id (boolean b) (inl h) = (boolean b, inl refl)
  wrap-IsEnvelope id (integer n) (inl h) = (integer n, inl refl)
  wrap-IsEnvelope id (real x) (inl h) = (real x, inl refl)
  wrap-IsEnvelope id (string text) (inl h) = (string text, inl refl)
  wrap-IsEnvelope id (array vs) (inl h) = (array vs, inl refl)
  wrap-IsEnvelope id v (inr (old, error, e)) = (error, inr (ap (wrap id) e))

  pub error_response-IsReply :
      (id : Bytes) (code : ErrorCode) (message : Bytes) (underlying : Option Error)
      → IsReply (error_response id code message underlying)
  unfolding error_response
  error_response-IsReply id code message underlying = inr (id, _, refl)

  pub done_reply-IsReply :
      (id : Bytes) (v : JsonValue D) (r : Result (Unit {0}))
      → is_bare v ≡ true
      → IsReply (done_reply id v r)
  unfolding done_reply
  done_reply-IsReply id v (err e) h = error_response-IsReply id e.code e.message (some e)
  done_reply-IsReply id v (ok _) h = inl h

  pub read_reply-IsReply :
      (id : Bytes) (address : ℕ) (r : Result Bytes) → IsReply (read_reply id address r)
  unfolding equal codes read_reply
  read_reply-IsReply id address (err e) = error_response-IsReply id e.code e.message (some e)
  read_reply-IsReply id address (ok bytes) = inl refl

  pub verify_reply-IsReply : (id : Bytes) (r : Result Bytes) → IsReply (verify_reply id r)
  unfolding equal codes verify_reply
  verify_reply-IsReply id (err e) = error_response-IsReply id e.code e.message (some e)
  verify_reply-IsReply id (ok bytes) = inl refl

  pub resolve_reply-IsReply : (id : Bytes) (r : Result ℕ) → IsReply (resolve_reply id r)
  unfolding equal codes resolve_reply
  resolve_reply-IsReply id (err e) = error_response-IsReply id e.code e.message (some e)
  resolve_reply-IsReply id (ok address) = inl refl

  pub status_reply-IsReply : (id : Bytes) (r : Result FreezeStatus) → IsReply (status_reply id r)
  unfolding equal codes status_reply
  status_reply-IsReply id (err e) = error_response-IsReply id e.code e.message (some e)
  status_reply-IsReply id (ok s) = inl refl

  pub parse_reply-IsReply : (id : Bytes) (r : Result CheatTable) → IsReply (parse_reply id r)
  unfolding equal codes parse_reply
  parse_reply-IsReply id (err e) = error_response-IsReply id e.code e.message (some e)
  parse_reply-IsReply id (ok t) = inl refl

  pub write_reply-IsReply :
      (request : MutationRequest) (size : ℕ) (r : Result ℕ) → IsReply (write_reply request size r)
  unfolding equal codes write_reply
  write_reply-IsReply request size (err e) =
      error_response-IsReply request.request_id e.code e.message (some e)
  write_reply-IsReply request size (ok n) =
      if_both IsReply (n == size) (λ _. inl refl)
        (λ _. error_response-IsReply request.request_id partial_write (codes "partial write") none)
