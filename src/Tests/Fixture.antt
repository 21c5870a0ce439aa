-- ===== src/Tests/Fixture.antt =====
-- A target with 4 KiB mapped from 0x1000 on, and its content: zeros, two pointers and two texts.
use gtlibcpp.Common.{ℕ, [], ◌∷◌, codes}
use gtlibcpp.Types.{TargetIdentity, x64}
use gtlibcpp.Backend.{Backend}
use gtlibcpp.Backend.Memory.{IsMemory, overlay, region, region-IsMemory}

abbrev pub who : TargetIdentity
who = record {
  pid = 4242;
  start_time = 7;
  image_path = codes "game.exe";
  image_sha256 = codes "abc";
  architecture = x64;
}

abbrev pub target_memory : Backend
target_memory = region 0x1000 0x2000 who

abbrev pub is_memory : IsMemory target_memory
is_memory = region-IsMemory 0x1000 0x2000 who

-- 0x1010 points to 0x1100, and 0x1108 to 0x1234.
abbrev pub content : ℕ → ℕ
content =
    overlay (overlay (λ _. 0) 0x1010 (0x00 ∷ 0x11 ∷ [])) 0x1108 (0x34 ∷ 0x12 ∷ 0x48 ∷ 0x8b ∷ [])
