-- ===== src/Policy/Data.antt =====
-- include/gtlibcpp/policy.hpp: capabilities, manifests, requests, tokens, audit events. Times are
-- milliseconds of the steady clock, which are not negative.
use Prim.Native.Nat.{bit_and, bit_or, bit_xor}
use gtlibcpp.Common.{
  ℕ, ◌==◌, Bool, true, false, not, ◌&&◌, ◌++◌, [], ◌∷◌, if◌then◌else◌, Bytes, codes, equal,
  is_empty,
}
use gtlibcpp.Policy.Cap
use gtlibcpp.Policy.Cap.{Capability}
use gtlibcpp.Types.{Address, arch_code, TargetIdentity, identity_empty}

-- `operator|`
abbrev pub join : Capability → Capability → Capability
join a b = bit_or a b

-- `bits & mask` as a test
abbrev pub has : Capability → Capability → Bool
has bits mask = not (bit_and bits mask == 0)

-- The complement of the known bits in 32 bits.
abbrev pub unknown_bits : Capability
unknown_bits =
    bit_xor
      (join (join (join (join (join Cap.read Cap.write) Cap.freeze) Cap.unfreeze) Cap.rollback)
        Cap.parse)
      0xffff_ffff

trim_last : Bytes → Bytes
trim_last [] = []
trim_last (c ∷ []) = if c == b' ' then [] else c ∷ []
trim_last (c ∷ d ∷ rest) = c ∷ trim_last (d ∷ rest)

abbrev name_if : Capability → Capability → Bytes → Bytes
name_if bits mask name = if has bits mask then name else []

-- `cap_to_string`
unfoldable pub cap_to_string : Capability → Bytes
unfolding trim_last
cap_to_string c =
    let out =
      name_if c Cap.read (codes "read ")
      ++ (name_if c Cap.write (codes "write ")
          ++ (name_if c Cap.freeze (codes "freeze ")
              ++ (name_if c Cap.unfreeze (codes "unfreeze ")
                  ++ (name_if c Cap.rollback (codes "rollback ")
                      ++ name_if c Cap.parse (codes "parse "))))) in
    trim_last (if is_empty out then codes "none" else out)

pub record TargetManifest : Type 0 where
  pub alias : Bytes
  pub image_path : Bytes
  pub image_sha256 : Bytes
  pub architecture : Bytes
  pub allow_write : Bool

pub record AuditEvent : Type 0 where
  pub request_id : Bytes
  pub alias : Bytes
  pub pid : ℕ
  pub operation : Bytes
  pub capability : Bytes
  pub decision : Bytes
  pub reason : Bytes
  pub timestamp_ms : ℕ

pub record MutationRequest : Type 0 where
  pub request_id : Bytes
  pub target_alias : Bytes
  pub capability : Capability
  pub preview : Bool
  pub approved : Bool
  pub expected_current_hash : Bytes
  pub address : Address
  pub size : ℕ
  pub value_repr : Bytes

pub record ApprovalToken : Type 0 where
  pub request_id : Bytes
  pub target_alias : Bytes
  pub issued_at_ms : ℕ
  pub expires_at_ms : ℕ
  pub signature : Bytes

-- `TargetManifest::matches`
unfoldable pub matches : TargetManifest → TargetIdentity → Bool
matches m id =
    if identity_empty id
    then false
    else if not (equal id.image_path m.image_path)
    then false
    else if not (is_empty m.image_sha256)
        && (not (is_empty id.image_sha256) && not (equal id.image_sha256 m.image_sha256))
    then false
    else if is_empty m.architecture
    then true
    else if equal m.architecture (codes "x86") && not (arch_code id.architecture == 1)
    then false
    else if equal m.architecture (codes "x64") && not (arch_code id.architecture == 2)
    then false
    else true
