-- ===== src/Agent/Forms.antt =====
-- src/agent.cpp: what the handlers take from the parameters, and what they reply.
use gtlibcpp.Common.{
  ℕ, ◌%◌, ◌==◌, false, List, [], ◌∷◌, Option, none, some, if◌then◌else◌, Bytes, codes, equal,
  length,
}
use gtlibcpp.Result.{partial_write, Result, ok, err}
use gtlibcpp.Types.{Address, TargetIdentity}
use gtlibcpp.Policy.Cap
use gtlibcpp.Policy.Cap.{Capability}
use gtlibcpp.Policy.Data.{MutationRequest, ApprovalToken}
use gtlibcpp.Freeze.Data.{FreezeRequest, FreezeStatus}
use gtlibcpp.Parser.Types.{type_name}
use gtlibcpp.Parser.Fields.{CheatEntry, CheatTable}
use gtlibcpp.Scan.{ℤ, pos, negsuc, to_u64, to_i64, stoul}
use gtlibcpp.Json.{
  Double, JsonValue, JsonArray, boolean, integer, string, array, object, no_values, value,
  no_members, member, json_get_string, json_get_int, json_get_bool,
}
use gtlibcpp.Agent.Replies.{hex_bytes, error_response, denied, build_capability_response}

-- The bytes of `value_hex`, two digits each; `none` is an exception of `std::stoul`. A digit that
-- is left over is not reached.
unfoldable pub hex_decode : Bytes → Option Bytes
hex_decode (a ∷ b ∷ rest) = elim (stoul 16 (a ∷ b ∷ [])) [
  | none ↦ none
  | some n ↦ elim (hex_decode rest) [ none ↦ none | some bytes ↦ some ((n % 256) ∷ bytes) ]
]
hex_decode short = some []

-- The capability of a new request, which a name that is not known leaves as it is.
abbrev pub default_capability : Capability
default_capability = Cap.read

-- A negative interval is below 1 millisecond, like 0.
abbrev pub positive_part : ℤ → ℕ
positive_part (pos n) = n
positive_part (negsuc n) = 0

abbrev pub capability_named : Bytes → Capability
capability_named name =
    if equal name (codes "read")
    then Cap.read
    else if equal name (codes "write")
    then Cap.write
    else if equal name (codes "freeze")
    then Cap.freeze
    else if equal name (codes "unfreeze")
    then Cap.unfreeze
    else if equal name (codes "rollback")
    then Cap.rollback
    else if equal name (codes "parse")
    then Cap.parse
    else default_capability

module _ {D : Double} where
  abbrev pub text_at : JsonValue D → Bytes → Bytes
  text_at params key = json_get_string params key []

  -- A number as `std::size_t` or `Address`.
  abbrev pub word_at : JsonValue D → Bytes → ℕ → ℕ
  word_at params key fallback = to_u64 (json_get_int params key (pos fallback))

  unfoldable pub make_request : JsonValue D → Bytes → MutationRequest
  make_request params method = record {
    request_id = text_at params (codes "request_id");
    target_alias = text_at params (codes "target_alias");
    capability = capability_named (json_get_string params (codes "capability") (codes "read"));
    preview = json_get_bool params (codes "preview") false;
    approved = json_get_bool params (codes "approved") false;
    expected_current_hash = text_at params (codes "expected_current_hash");
    address = word_at params (codes "address") 0;
    size = word_at params (codes "size") 0;
    value_repr = json_get_string params (codes "value_repr") method;
  }

  abbrev pub one_member : Bytes → JsonValue D → JsonValue D
  one_member key v = object (member key v no_members)

  -- The numbers among the elements.
  unfoldable pub offsets_from : JsonArray D → List Address
  offsets_from no_values = []
  offsets_from (value (integer n) rest) = to_u64 n ∷ offsets_from rest
  offsets_from (value _ rest) = offsets_from rest

  abbrev pub offsets_at : Option (JsonValue D) → List Address
  offsets_at (some (array values)) = offsets_from values
  offsets_at other = []

  unfoldable pub strings : List Bytes → JsonArray D
  strings [] = no_values
  strings (text ∷ rest) = value (string text) (strings rest)

  unfoldable pub integers : List ℤ → JsonArray D
  integers [] = no_values
  integers (n ∷ rest) = value (integer n) (integers rest)

  -- The status of a freeze as an object.
  abbrev pub freeze_object : FreezeStatus → JsonValue D
  freeze_object s = object (
      member (codes "id") (string s.id) (
        member (codes "active") (boolean s.active) (
          member (codes "successful_rewrites") (integer (to_i64 s.successful_rewrites))
            (member (codes "failed_rewrites") (integer (to_i64 s.failed_rewrites)) no_members))))

  unfoldable pub freeze_objects : List FreezeStatus → JsonArray D
  freeze_objects [] = no_values
  freeze_objects (s ∷ rest) = value (freeze_object s) (freeze_objects rest)

  unfoldable pub supported_objects : List CheatEntry → JsonArray D
  supported_objects [] = no_values
  supported_objects (e ∷ rest) =
      value
        (object (
          member (codes "id") (string e.id) (
            member (codes "description") (string e.description) (
              member (codes "address") (integer (to_i64 e.address)) (
                member (codes "type") (string (type_name e.type)) (
                  member (codes "is_signed") (boolean e.is_signed)
                    (member (codes "hotkeys") (array (integers e.hotkeys)) no_members)))))))
        (supported_objects rest)

  unfoldable pub unsupported_objects : List CheatEntry → JsonArray D
  unsupported_objects [] = no_values
  unsupported_objects (e ∷ rest) =
      value
        (object (
          member (codes "id") (string e.id)
            (member (codes "reason") (string e.failure_reason) no_members)))
        (unsupported_objects rest)

  abbrev pub on_inspect : TargetIdentity → JsonValue D → JsonValue D
  on_inspect identity params = build_capability_response identity

  unfoldable pub read_reply : Bytes → Address → Result Bytes → JsonValue D
  read_reply id address (err e) = denied id e
  read_reply id address (ok bytes) = object (
      member (codes "address") (integer (to_i64 address)) (
        member (codes "size") (integer (to_i64 (length bytes)))
          (member (codes "hex") (string (hex_bytes bytes)) no_members)))

  unfoldable pub verify_reply : Bytes → Result Bytes → JsonValue D
  verify_reply id (err e) = denied id e
  verify_reply id (ok bytes) = one_member (codes "hex") (string (hex_bytes bytes))

  unfoldable pub resolve_reply : Bytes → Result Address → JsonValue D
  resolve_reply id (err e) = denied id e
  resolve_reply id (ok address) = one_member (codes "address") (integer (to_i64 address))

  unfoldable pub done_reply : Bytes → JsonValue D → Result (Unit {0}) → JsonValue D
  done_reply id reply (err e) = denied id e
  done_reply id reply (ok _) = reply

  unfoldable pub status_reply : Bytes → Result FreezeStatus → JsonValue D
  status_reply id (err e) = denied id e
  status_reply id (ok s) = one_member (codes "freeze") (freeze_object s)

  unfoldable pub parse_reply : Bytes → Result CheatTable → JsonValue D
  parse_reply id (err e) = denied id e
  parse_reply id (ok t) = object (
      member (codes "supported") (array (supported_objects t.entries)) (
        member (codes "unsupported") (array (unsupported_objects t.unsupported_entries))
          (member (codes "diagnostics") (array (strings t.diagnostics)) no_members)))

  unfoldable pub approval_reply : MutationRequest → ApprovalToken → JsonValue D
  approval_reply request pa = object (
      member (codes "approval_token") (string request.request_id) (
        member (codes "issued_at_ms") (integer (pos pa.issued_at_ms)) (
          member (codes "expires_at_ms") (integer (pos pa.expires_at_ms))
            (member (codes "target") (string request.target_alias) no_members))))

  unfoldable pub write_reply : MutationRequest → ℕ → Result ℕ → JsonValue D
  write_reply request size (err e) = denied request.request_id e
  write_reply request size (ok n) =
      if n == size
      then object (
          member (codes "bytes_written") (integer (to_i64 n))
            (member (codes "address") (integer (to_i64 request.address)) no_members))
      else error_response request.request_id partial_write (codes "partial write") none

  unfoldable pub freeze_request : JsonValue D → FreezeRequest
  freeze_request params = record {
    id = text_at params (codes "id");
    address = word_at params (codes "address") 0;
    type_name = json_get_string params (codes "type") (codes "uint32");
    value_u64 = word_at params (codes "value") 0;
    interval = positive_part (json_get_int params (codes "interval_ms") (pos 50));
    size = word_at params (codes "size") 0;
  }
