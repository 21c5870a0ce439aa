-- ===== src/Names.antt =====
-- include/gtlibcpp/result.hpp: `to_string` of error codes, as replies and log lines show them.
use gtlibcpp.Common.{Bytes, codes}
use gtlibcpp.Result.{
  ErrorCode, success, not_connected, target_not_found, target_arch_mismatch,
  target_identity_mismatch, target_dead, invalid_address, invalid_size, invalid_offsets,
  invalid_hotkey, invalid_entry_id, invalid_type, invalid_string, read_failed, partial_read,
  write_failed, partial_write, verification_mismatch, snapshot_missing, rollback_failed,
  parse_failed, parse_unsupported, parse_diagnostic, policy_denied, approval_required,
  capability_missing, rate_limited, timeout, cancelled, internal,
}

unfoldable pub error_name : ErrorCode → Bytes
error_name success = codes "ok"
error_name not_connected = codes "not_connected"
error_name target_not_found = codes "target_not_found"
error_name target_arch_mismatch = codes "target_arch_mismatch"
error_name target_identity_mismatch = codes "target_identity_mismatch"
error_name target_dead = codes "target_dead"
error_name invalid_address = codes "invalid_address"
error_name invalid_size = codes "invalid_size"
error_name invalid_offsets = codes "invalid_offsets"
error_name invalid_hotkey = codes "invalid_hotkey"
error_name invalid_entry_id = codes "invalid_entry_id"
error_name invalid_type = codes "invalid_type"
error_name invalid_string = codes "invalid_string"
error_name read_failed = codes "read_failed"
error_name partial_read = codes "partial_read"
error_name write_failed = codes "write_failed"
error_name partial_write = codes "partial_write"
error_name verification_mismatch = codes "verification_mismatch"
error_name snapshot_missing = codes "snapshot_missing"
error_name rollback_failed = codes "rollback_failed"
error_name parse_failed = codes "parse_failed"
error_name parse_unsupported = codes "parse_unsupported"
error_name parse_diagnostic = codes "parse_diagnostic"
error_name policy_denied = codes "policy_denied"
error_name approval_required = codes "approval_required"
error_name capability_missing = codes "capability_missing"
error_name rate_limited = codes "rate_limited"
error_name timeout = codes "timeout"
error_name cancelled = codes "cancelled"
error_name internal = codes "internal"
