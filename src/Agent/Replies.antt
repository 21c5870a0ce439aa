-- ===== src/Agent/Replies.antt =====
-- src/agent.cpp: the values that replies are made of.
use gtlibcpp.Common.{ℕ, ◌/◌, ◌%◌, true, false, [], ◌∷◌, Option, none, some, Bytes, codes}
use gtlibcpp.Result.{
  ErrorCode, Error, success, not_connected, target_not_found, target_arch_mismatch,
  target_identity_mismatch, target_dead, invalid_address, invalid_size, invalid_offsets,
  invalid_hotkey, invalid_entry_id, invalid_type, invalid_string, read_failed, partial_read,
  write_failed, partial_write, verification_mismatch, snapshot_missing, rollback_failed,
  parse_failed, parse_unsupported, parse_diagnostic, policy_denied, approval_required,
  capability_missing, rate_limited, timeout, cancelled, internal,
}
use gtlibcpp.Types.{Architecture, unknown, x86, x64, TargetIdentity}
use gtlibcpp.Names.{error_name}
use gtlibcpp.Scan.{ℤ, pos, to_i64}
use gtlibcpp.Json.{
  Double, JsonValue, boolean, integer, string, object, no_members, member, hex_digit,
}

-- `static_cast<std::int32_t>` of a code
unfoldable pub error_number : ErrorCode → ℕ
error_number success = 0
error_number not_connected = 1001
error_number target_not_found = 1002
error_number target_arch_mismatch = 1003
error_number target_identity_mismatch = 1004
error_number target_dead = 1005
error_number invalid_address = 2001
error_number invalid_size = 2002
error_number invalid_offsets = 2003
error_number invalid_hotkey = 2004
error_number invalid_entry_id = 2005
error_number invalid_type = 2006
error_number invalid_string = 2007
error_number read_failed = 3001
error_number partial_read = 3002
error_number write_failed = 3003
error_number partial_write = 3004
error_number verification_mismatch = 3005
error_number snapshot_missing = 3006
error_number rollback_failed = 3007
error_number parse_failed = 4001
error_number parse_unsupported = 4002
error_number parse_diagnostic = 4003
error_number policy_denied = 5001
error_number approval_required = 5002
error_number capability_missing = 5003
error_number rate_limited = 5004
error_number timeout = 6001
error_number cancelled = 6002
error_number internal = 9001

-- `to_string` of types.hpp
abbrev pub architecture_name : Architecture → Bytes
architecture_name x86 = codes "x86"
architecture_name x64 = codes "x64"
architecture_name unknown = codes "unknown"

-- `hex_encode_lower`
unfoldable pub hex_bytes : Bytes → Bytes
hex_bytes [] = []
hex_bytes (b ∷ rest) = hex_digit (b / 16 % 16) ∷ hex_digit (b % 16) ∷ hex_bytes rest

module _ {D : Double} where
  -- The object of an error, with the name of the underlying one.
  abbrev pub failure : ℤ → Bytes → Option Error → JsonValue D
  failure code message none =
      object (
        member (codes "code") (integer code) (member (codes "message") (string message) no_members))
  failure code message (some e) = object (
      member (codes "code") (integer code) (
        member (codes "message") (string message)
          (member (codes "data") (string (error_name e.code)) no_members)))

  abbrev pub envelope_of : Bytes → Bytes → JsonValue D → JsonValue D
  envelope_of id key v = object (
      member (codes "jsonrpc") (string (codes "2.0"))
        (member (codes "id") (string id) (member key v no_members)))

  abbrev pub make_envelope : Bytes → JsonValue D → JsonValue D
  make_envelope id result = envelope_of id (codes "result") result

  abbrev pub make_error_envelope : Bytes → JsonValue D → JsonValue D
  make_error_envelope id error = envelope_of id (codes "error") error

  -- `error_response`
  unfoldable pub error_response : Bytes → ErrorCode → Bytes → Option Error → JsonValue D
  error_response id code message underlying =
      make_error_envelope id (failure (pos (error_number code)) message underlying)

  abbrev pub denied : Bytes → Error → JsonValue D
  denied id e = error_response id e.code e.message (some e)

  -- `build_capability_response`
  unfoldable pub build_capability_response : TargetIdentity → JsonValue D
  build_capability_response id = object (
      member (codes "target")
        (object (
          member (codes "pid") (integer (pos id.pid)) (
            member (codes "image_path") (string id.image_path) (
              member (codes "image_sha256") (string id.image_sha256) (
                member (codes "architecture") (string (architecture_name id.architecture))
                  (member (codes "start_time") (integer (to_i64 id.start_time)) no_members))))))
        (member (codes "capabilities")
          (object (
            member (codes "read") (boolean true) (
              member (codes "write") (boolean false) (
                member (codes "freeze") (boolean false)
                  (member (codes "rollback") (boolean false) no_members)))))
          no_members))

  -- The request of a client.
  unfoldable pub envelope : Bytes → JsonValue D → JsonValue D
  envelope method params = object (
      member (codes "jsonrpc") (string (codes "2.0"))
        (member (codes "method") (string method) (member (codes "params") params no_members)))
