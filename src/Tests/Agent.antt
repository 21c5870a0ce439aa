-- ===== src/Tests/Agent.antt =====
-- A preview and an apply of four bytes, and a read, on the target of the fixture.
use gtlibcpp.Common.{
  ℕ, List, ◌∷◌, ◌≡◌, refl, ◌⊎◌, true, [], none, some, Bytes, codes, equal, inr, arith,
}
use gtlibcpp.Result.{policy_denied}
use gtlibcpp.Policy.Data.{matches}
use gtlibcpp.Policy.Limiter.{allow, opened}
use gtlibcpp.Policy.{
  authorize, authorize_with_token, authorize_manifest, authorize_token, authorize_limited,
  find_manifest, emit_audit, engage,
}
use gtlibcpp.Session.{write_bytes}
use gtlibcpp.Backend.Memory.{overlay}
use gtlibcpp.Scan.{pos, stoul, signed_number, prefixed, magnitude, skip_ws, stoll}
use gtlibcpp.Json.{
  JsonValue, boolean, integer, string, object, no_members, member, json_get_string, json_get_int,
  json_get_bool, json_get,
}
use gtlibcpp.Json.Decode.{
  json_decode, parse_value, parse_number, number_loop, parse_string_value, string_loop,
}
use gtlibcpp.Agent.Replies.{error_response}
use gtlibcpp.Agent.Forms.{text_at, make_request, hex_decode}
use gtlibcpp.Agent.Handlers.{
  Times, AgentState, on_preview, on_apply, preview_decided, apply_found, apply_decided, write_hex,
  write_decoded, find_pending, erase_pending,
}
use gtlibcpp.Agent.{respond, handle}
use gtlibcpp.Agent.Approvals.{apply_once, IsApproved, on_apply-IsApproved}
use gtlibcpp.Agent.Flow.{IsFollowed}
use gtlibcpp.Agent.Reads.{handle-Keeps}
use gtlibcpp.Agent.Switch.{handled, handled-engaged}
use gtlibcpp.Agent.Shapes.{Replies, IsEnvelope}
use gtlibcpp.Agent.Envelope.{id_of, respond-IsEnvelope}
use gtlibcpp.Tests.Fixture.{who, target_memory, is_memory, content}
use gtlibcpp.Tests.Policy.{manifest, policy}
use gtlibcpp.Tests.Json.{no_doubles}

abbrev pub times : Times
times = record {
  agent_ms = 400;
  policy = record { token_ms = 500; limiter_ms = 501; audit_ms = 502 };
}

abbrev pub idle : AgentState target_memory
idle = record {
  policy = policy;
  freezes = record { has_session = true; entries = []; target = content };
  pending = [];
}

abbrev params : JsonValue no_doubles
params = object (
    member (codes "request_id") (string (codes "op-1")) (
      member (codes "target_alias") (string (codes "fixture")) (
        member (codes "capability") (string (codes "write")) (
          member (codes "approved") (boolean true) (
            member (codes "expected_current_hash") (string (codes "h")) (
              member (codes "address") (integer (pos 0x1200)) (
                member (codes "size") (integer (pos 4))
                  (member (codes "value_hex") (string (codes "0a0b0C0d")) no_members))))))))

-- After the preview.
abbrev previewed : AgentState target_memory
previewed = (on_preview target_memory who times params idle).1

-- The apply writes the bytes.
abbrev applied : AgentState target_memory
applied = (on_apply target_memory who times params previewed).1

written_there : applied.freezes.target 0x1201 ≡ 0x0b
unfolding on_apply on_preview preview_decided apply_found apply_decided write_hex write_decoded
    find_pending erase_pending make_request hex_decode json_get_string json_get_int json_get_bool
    json_get equal codes authorize authorize_with_token authorize_manifest authorize_token
    authorize_limited find_manifest matches allow opened emit_audit write_bytes overlay stoul
    signed_number prefixed magnitude skip_ws
written_there = refl

apply_once_example : on_apply target_memory who times params applied ≡ (
  some (
      error_response
        (text_at params (codes "request_id"))
        policy_denied
        (codes "no pending approval")
        none),
  applied,
)
apply_once_example =
    apply_once no_doubles target_memory who times times params params previewed refl

on_apply-IsApproved_example :
    (applied.freezes ≡ previewed.freezes)
    ⊎ IsApproved no_doubles target_memory who times params previewed applied
on_apply-IsApproved_example =
    on_apply-IsApproved no_doubles target_memory who times params previewed

-- A request to read a pointer.
abbrev read_request : Bytes
read_request = codes "{\"id\":\"1\",\"method\":\"read\",\"params\":{\"address\":4112,\"size\":2}}"

handle-Keeps_example :
    is_memory.peek
      (handle no_doubles target_memory who times read_request applied).1.freezes.target
      0x1200
    ≡ is_memory.peek applied.freezes.target 0x1200
unfolding json_decode parse_value codes skip_ws parse_number number_loop stoll signed_number
    prefixed magnitude parse_string_value string_loop json_get_string json_get equal
handle-Keeps_example =
    handle-Keeps no_doubles target_memory is_memory (λ s x. refl) who times read_request applied
      refl 0x1200

-- The approval of the preview is pending, and the switch is engaged.
abbrev engaged : AgentState target_memory
engaged = record previewed {
  policy = record previewed.policy {
    kill_switch = engage (codes "operator") previewed.policy.kill_switch;
  };
}

abbrev apply_request : Bytes
apply_request =
    codes "{\"method\":\"apply\",\"params\":{\"request_id\":\"op-1\",\"value_hex\":\"0a\"}}"

abbrev requests : List (Times × Bytes)
requests = (times, apply_request) ∷ (times, read_request) ∷ []

handled-engaged_example :
    ((x : ℕ)
      → is_memory.peek (handled no_doubles target_memory who requests engaged).freezes.target x
        ≡ is_memory.peek engaged.freezes.target x)
    × ((handled no_doubles target_memory who requests engaged).policy.kill_switch
        ≡ engaged.policy.kill_switch)
unfolding json_decode parse_value codes skip_ws parse_number number_loop stoll signed_number
    prefixed magnitude parse_string_value string_loop json_get_string json_get equal
handled-engaged_example =
    handled-engaged no_doubles target_memory is_memory (λ s x. refl) who requests engaged
      (refl, (refl, tt)) refl

respond-IsEnvelope_example :
    Replies
      (IsEnvelope (id_of no_doubles target_memory who times (json_decode no_doubles read_request)))
      (respond no_doubles target_memory who times (json_decode no_doubles read_request) applied)
respond-IsEnvelope_example =
    respond-IsEnvelope no_doubles target_memory who times (json_decode no_doubles read_request)
      applied

abbrev new_bytes : Bytes
new_bytes = 0x0a ∷ 0x0b ∷ 0x0c ∷ 0x0d ∷ []

-- The apply of `params` may follow its preview.
abbrev may_follow :
    IsFollowed no_doubles target_memory who times times params params idle manifest new_bytes
unfolding find_manifest make_request hex_decode json_get_string json_get_int json_get_bool json_get
    equal codes matches allow opened stoul signed_number prefixed magnitude skip_ws
may_follow = record {
  switch_off = refl;
  listed = refl;
  previewed = record {
    matched = refl;
    writable = inr refl;
    known = refl;
    concrete = omega arith;
    sized = omega arith;
    bounded = omega arith;
    hashed = refl;
  };
  same_id = refl;
  same_alias = refl;
  applied = record {
    matched = refl;
    writable = inr refl;
    known = refl;
    concrete = omega arith;
    sized = omega arith;
    bounded = omega arith;
    hashed = refl;
  };
  approved = refl;
  not_before = omega arith;
  not_after = omega arith;
  slot = omega arith;
  even = refl;
  from_hex = refl;
}
