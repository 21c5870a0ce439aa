-- ===== src/Types.antt =====
-- include/gtlibcpp/types.hpp: addresses, architectures and the identity of a target process.
use gtlibcpp.Common.{ℕ, ◌^◌, ◌==◌, ◌&&◌, Bool, Bytes, equal}

-- `Address` and `std::size_t` are numbers below `2 ^ 64`.
abbrev pub u64_mod : ℕ
u64_mod = 2 ^ 64

abbrev pub Address : Type 0
Address = ℕ

abbrev pub null_address : Address
null_address = 0

pub data Architecture : Type 0 where
  unknown x86 x64 : Architecture

abbrev pub arch_code : Architecture → ℕ
arch_code unknown = 0
arch_code x86 = 1
arch_code x64 = 2

pub record TargetIdentity : Type 0 where
  pub pid : ℕ
  pub start_time : ℕ
  pub image_path : Bytes
  pub image_sha256 : Bytes
  pub architecture : Architecture

-- `TargetIdentity::empty`
abbrev pub identity_empty : TargetIdentity → Bool
identity_empty id = id.pid == 0

-- `TargetIdentity::operator==`
pub same_identity : TargetIdentity → TargetIdentity → Bool
same_identity a b =
    a.pid == b.pid
    && a.start_time == b.start_time
    && equal a.image_path b.image_path
    && equal a.image_sha256 b.image_sha256
    && arch_code a.architecture == arch_code b.architecture
