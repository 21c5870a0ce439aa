-- ===== src/Tests/Aob.antt =====
-- Signatures and searches on the target of Fixture.
use gtlibcpp.Common.{
  ◌-◌, ◌<◌, ◌≤◌, ◌≡◌, refl, arith, false, [], ◌∷◌, some, none, take, length, All, codes,
}
use gtlibcpp.Result.{ok}
use gtlibcpp.Backend.Memory.{window, overlay}
use gtlibcpp.Session.{read_bytes}
use gtlibcpp.Aob.Parse.{
  Pattern, IsByte, max_cells, nibble, byte_of, at_gap, pushed, parse_loop, parse_aob,
}
use gtlibcpp.Aob.Signature.{signature_of, parse_aob-signature_of, parse_aob-valid}
use gtlibcpp.Aob.Reference.{occurrences}
use gtlibcpp.Aob.Search.{scan_aob-occurrences}
use gtlibcpp.Aob.{fits, scan_chunk, scan_chunks, scan_aob, rejected}
use gtlibcpp.Tests.Fixture.{target_memory, is_memory, content}

abbrev pattern : Pattern
pattern = some 0x12 ∷ none ∷ some 0x8b ∷ []

parses : parse_aob (codes "12 ?? 8b") ≡ some pattern
unfolding parse_aob parse_loop at_gap pushed byte_of nibble codes
parses = refl

parse_aob-valid_example : All IsByte pattern × (0 < length pattern) × (length pattern ≤ max_cells)
parse_aob-valid_example = parse_aob-valid (codes "12 ?? 8b") pattern parses

parse_aob-signature_of_example : parse_aob (signature_of pattern) ≡ some pattern
parse_aob-signature_of_example =
    parse_aob-signature_of (some 0x12) (none ∷ some 0x8b ∷ []) (omega arith) (omega arith)

scan_runs : (scan_aob target_memory 0x1100 16 (codes "12 ?? 8b") 64 content).0 ≡ ok (0x1109 ∷ [])
unfolding scan_aob scan_chunks scan_chunk fits parse_aob parse_loop at_gap pushed byte_of nibble
    codes read_bytes window overlay
scan_runs = refl

scan_aob-occurrences_example :
    (p : Pattern) × (parse_aob (codes "12 ?? 8b") ≡ some p)
    × (rejected 0x1100 16 64 ≡ false)
    × ((0x1109 ∷ []) ≡ take 64 (occurrences (is_memory.peek content) p 0x1100 (17 - length p)))
scan_aob-occurrences_example =
    scan_aob-occurrences target_memory is_memory 0x1100 16 64 (codes "12 ?? 8b") content
      (0x1109 ∷ []) scan_runs
