-- ===== src/Aob/Search.antt =====
-- include/gtlibcpp/aob_scan.hpp: `scan_aob` on plain memory.
use gtlibcpp.Common.{
  ℕ, suc, ◌+◌, ◌-◌, ◌/◌, ◌<◌, ◌≡◌, sym, ap, ◌∙◌, true, false, List, [], ltb, ltb→lt, Bytes, length,
  take, arith, take-all, Bool-cases, inl, inr, some, Option-cases,
}
use gtlibcpp.Result.{ok, ok_unique}
use gtlibcpp.Types.{Address}
use gtlibcpp.Backend.{Backend}
use gtlibcpp.Backend.Memory.{IsMemory}
use gtlibcpp.Aob.Parse.{Pattern, parse_aob}
use gtlibcpp.Aob.Signature.{parse_aob-valid}
use gtlibcpp.Aob.Reference.{occurrences}
use gtlibcpp.Aob.Chunks.{scan_chunks-occurrences}
use gtlibcpp.Aob.{scan_parsed, scan_aob, chunk_size, bad_range, rejected}

occurrences_none :
    (cell : ℕ → ℕ) (pattern : Pattern) (start len max : ℕ)
    → len < length pattern
    → take max (occurrences cell pattern start (suc len - length pattern)) ≡ []
unfolding occurrences
occurrences_none cell pattern start len max narrow =
    let none_left : suc len - length pattern ≡ 0 = omega arith in
    rw none_left (take-all max [] (omega arith))

scan_parsed-occurrences :
    (B : Backend) (M : IsMemory B) (start len max : ℕ) (pattern : Pattern) (s : B.State)
    (found : List Address)
    → 0 < length pattern
    → rejected start len max ≡ false
    → (scan_parsed B start len (some pattern) max s).0 ≡ ok found
    → found ≡ take max (occurrences (M.peek s) pattern start (suc len - length pattern))
unfolding scan_parsed
scan_parsed-occurrences B M start len max pattern s found positive accepted h =
    let from_start : start + 0 ≡ start = omega arith in
    let to_end : len - 0 ≡ len = omega arith in
    elim (Bool-cases (ltb len (length pattern))) [
      | inl narrow ↦
          ok_unique h (rw (accepted, narrow))
          ∙ sym (
              occurrences_none (M.peek s) pattern start len max
                (ltb→lt len (length pattern) narrow))
      | inr wide ↦
          scan_chunks-occurrences B M pattern max start len chunk_size positive (ground arith)
            (omega arith) (ground arith) (len / chunk_size + 1) 0 [] s found (ground arith)
            (omega arith) (rw (accepted, wide) at h)
          ∙ ap (λ a. take max (occurrences (M.peek s) pattern a (suc (len - 0) - length pattern)))
              from_start
          ∙ ap (λ n. take max (occurrences (M.peek s) pattern start (suc n - length pattern)))
              to_end
    ]

scan_parsed-accepted :
    (B : Backend) (start len max : ℕ) (pattern : Pattern) (s : B.State) (found : List Address)
    → (scan_parsed B start len (some pattern) max s).0 ≡ ok found
    → rejected start len max ≡ false
unfolding scan_parsed
scan_parsed-accepted B start len max pattern s found h =
    elim (Bool-cases (rejected start len max)) [
      | inl bad ↦ absurd (cc (h, rejected_fails bad))
      | inr good ↦ good
    ]
  where
    rejected_fails :
        rejected start len max ≡ true
        → (scan_parsed B start len (some pattern) max s).0 ≡ bad_range start len
    rejected_fails bad = rw (bad, scan_parsed)

-- On plain memory, a search that succeeds returns, up to the limit on matches, exactly the addresses
-- of the range at which the pattern of the signature fits, in ascending order and each once, also
-- those that lie across two chunks; and it succeeds only for a signature that parses and a range
-- that passes the guards.
pub scan_aob-occurrences :
    (B : Backend) (M : IsMemory B) (start len max : ℕ) (signature : Bytes) (s : B.State)
    (found : List Address)
    → (scan_aob B start len signature max s).0 ≡ ok found
    → (pattern : Pattern) × (parse_aob signature ≡ some pattern)
      × (rejected start len max ≡ false)
      × (found ≡ take max (occurrences (M.peek s) pattern start (suc len - length pattern)))
unfolding scan_aob
scan_aob-occurrences B M start len max signature s found h =
    elim (Option-cases (parse_aob signature)) [
      | inl e ↦ absurd (cc (h, ap (λ p. (scan_parsed B start len p max s).0) e))
      | inr (pattern, e) ↦
          let parsed : (scan_parsed B start len (some pattern) max s).0 ≡ ok found =
            ap (λ p. (scan_parsed B start len p max s).0) (sym e) ∙ h in
          let (_, positive, _) = parse_aob-valid signature pattern e in
          let accepted = scan_parsed-accepted B start len max pattern s found parsed in
          (
            pattern,
            e,
            accepted,
            scan_parsed-occurrences B M start len max pattern s found positive accepted parsed,
          )
    ]
