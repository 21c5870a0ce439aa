-- ===== src/Tests/Candidates.antt =====
-- Scans of the target of Fixture for unsigned values of two bytes.
use gtlibcpp.Common.{ℕ, ◌≡◌, refl, [], ◌∷◌, ◌==◌, not, ltb, leb}
use gtlibcpp.Result.{ok}
use gtlibcpp.Session.{read_bytes, read}
use gtlibcpp.Session.Words.{encode, decode}
use gtlibcpp.Backend.Memory.{window, overlay}
use gtlibcpp.Candidates.{
  Arithmetic, exact, unchanged, CandidateSnapshot, matched, scan_items, scan_range, first_scan,
  next_items, next_scan, evaluate_comparison,
}
use gtlibcpp.Candidates.Sizes.{IsSized, first_scan-IsSized}
use gtlibcpp.Candidates.Survivors.{AllPairs, Survives, next_scan-Survives}
use gtlibcpp.Tests.Fixture.{is_memory, target_memory, content}

abbrev uint16 : Arithmetic
uint16 = record {
  T = ℕ;
  size_of = 2;
  load = decode;
  same = ◌==◌;
  differ = λ a b. not (a == b);
  below = ltb;
  at_most = leb;
}

abbrev candidates : CandidateSnapshot uint16
candidates = record { addresses = 0x1108 ∷ []; values = 0x1234 ∷ [] }

first_runs :
    (first_scan uint16 exact 0x1234 0 2 10 target_memory 0x1100 16 content).0 ≡ ok candidates
unfolding first_scan scan_range scan_items matched read_bytes window overlay decode
first_runs = refl

first_scan-IsSized_example : IsSized uint16 10 candidates
first_scan-IsSized_example =
    first_scan-IsSized uint16 exact 0x1234 0 2 10 target_memory 0x1100 16 content candidates
      first_runs

next_runs : (next_scan uint16 target_memory unchanged 0 0 candidates 10 content).0 ≡ ok candidates
unfolding next_scan next_items evaluate_comparison read window overlay decode encode
next_runs = refl

next_scan-Survives_example :
    AllPairs
      (Survives uint16 target_memory is_memory unchanged 0 0 content candidates)
      candidates.addresses
      candidates.values
next_scan-Survives_example =
    next_scan-Survives uint16 target_memory is_memory unchanged 0 0 candidates 10 content candidates
      next_runs
