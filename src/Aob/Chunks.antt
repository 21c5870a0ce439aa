-- ===== src/Aob/Chunks.antt =====
-- The loop over chunks of `scan_aob` (include/gtlibcpp/aob_scan.hpp) on plain memory, for every size
-- of chunk.
use gtlibcpp.Common.{
  ℕ, zero, suc, ◌+◌, ◌-◌, ◌*◌, ◌%◌, ◌<◌, ◌≤◌, ◌≡◌, refl, sym, ap, ◌∙◌, Bool, true, false, List,
  ◌++◌, leb, ltb, ltb→lt, ◌||◌, ◌==◌, min, Bytes, length, take, arith, append_assoc, append-nil,
  take-all, ==_iff, Bool-cases, inl, inr, fun_ext,
}
use gtlibcpp.Result.{Error, Result, ok, err, Result-cases, ok_unique}
use gtlibcpp.Types.{Address, u64_mod}
use gtlibcpp.Backend.{Backend}
use gtlibcpp.Backend.Memory.{IsMemory, window}
use gtlibcpp.Session.{read_bytes}
use gtlibcpp.Session.Reads.{read_bytes-shows}
use gtlibcpp.Session.RoundTrip.{ReadShows-window}
use gtlibcpp.Aob.Parse.{Pattern}
use gtlibcpp.Aob.Reference.{occurrences, occurrences-append, cut, take-append, scan_chunk-window}
use gtlibcpp.Aob.{scan_chunk, scan_chunks}

module _ (B : Backend) (M : IsMemory B) (pattern : Pattern) (max start len chunk : ℕ) where
  open M use {peek}

  size_at : ℕ → ℕ
  size_at offset = min (len - offset) (chunk + length pattern - 1)

  abbrev reply : ℕ → B.State → Result Bytes × B.State
  reply offset s =
      read_bytes B ((start + offset) % u64_mod) (min (len - offset) (chunk + length pattern - 1)) s

  abbrev scanned : ℕ → List Address → Bytes → Bool × List Address
  scanned offset matches bytes = scan_chunk pattern max ((start + offset) % u64_mod) matches bytes

  -- The ways through one round.
  module _ (rounds offset : ℕ) (matches : List Address) (s : B.State) where
    abbrev after : Result (List Address) × B.State
    after = scan_chunks B pattern max start len chunk (suc rounds) offset matches s

    scan_done : ltb offset len ≡ false → after ≡ (ok matches, s)
    unfolding scan_chunks
    scan_done e = rw (e, scan_chunks)

    module _ (inside : ltb offset len ≡ true) where
      scan_failed : {e : Error} → (reply offset s).0 ≡ err e → after ≡ (err e, (reply offset s).1)
      unfolding scan_chunks
      scan_failed r = rw (inside, r, scan_chunks)

      scan_last :
          {bytes : Bytes}
          → (reply offset s).0 ≡ ok bytes
          → ((scanned offset matches bytes).0 || size_at offset == len - offset) ≡ true
          → after ≡ (ok (scanned offset matches bytes).1, (reply offset s).1)
      unfolding scan_chunks size_at
      scan_last r e = rw (inside, r, scan_chunks) (rw e)

      scan_more :
          {bytes : Bytes}
          → (reply offset s).0 ≡ ok bytes
          → ((scanned offset matches bytes).0 || size_at offset == len - offset) ≡ false
          → after
            ≡ scan_chunks B pattern max start len chunk rounds
                (offset + chunk)
                (scanned offset matches bytes).1
                (reply offset s).1
      unfolding scan_chunks size_at
      scan_more r e = rw (inside, r, scan_chunks) (rw e)

  module _ (positive : 0 < length pattern) (room : 0 < max) (some_chunk : 0 < chunk)
      (top : start + len < u64_mod) where
    abbrev pub candidates : ℕ → ℕ
    candidates size = suc size - length pattern

    -- One round: what the read shows, and that the content stays.
    round_reads :
        (offset : ℕ) (s : B.State) {bytes : Bytes}
        → offset < len
        → (read_bytes B ((start + offset) % u64_mod) (size_at offset) s).0 ≡ ok bytes
        → (bytes ≡ window (peek s) (start + offset) (size_at offset))
          × (peek (read_bytes B ((start + offset) % u64_mod) (size_at offset) s).1 ≡ peek s)
    round_reads offset s lt h =
        let shows =
          read_bytes-shows B ((start + offset) % u64_mod) (size_at offset) s (omega arith) h in
        let same : (start + offset) % u64_mod ≡ start + offset = omega arith in
        (
          ReadShows-window B M shows ∙ ap (λ a. window (peek s) a (size_at offset)) same,
          fun_ext (λ x.
              rw shows.after (M.read_keeps ((start + offset) % u64_mod) (size_at offset) s x)),
        )

    not_last :
        (offset : ℕ)
        → offset < len
        → (size_at offset == len - offset) ≡ false
        → (candidates (size_at offset) ≡ chunk)
          × (candidates (len - offset) ≡ chunk + candidates (len - (offset + chunk)))
    unfolding size_at
    not_last offset lt more = (ground arith, ground arith)

    -- The chunk and what is left of the range hold the occurrences between them.
    occurrences_split :
        (cell : ℕ → ℕ) (offset : ℕ)
        → offset < len
        → (size_at offset == len - offset) ≡ false
        → occurrences cell pattern (start + offset) (candidates (len - offset))
          ≡ occurrences cell pattern (start + offset) (candidates (size_at offset))
            ++ occurrences cell pattern
                (start + (offset + chunk))
                (candidates (len - (offset + chunk)))
    unfolding size_at
    occurrences_split cell offset lt more =
        let (chunk_full, rest) = not_last offset lt more in
        rw (chunk_full, rest)
          (occurrences-append cell pattern (start + offset) chunk
              (candidates (len - (offset + chunk)))
            ∙ ap
                (λ a.
                  occurrences cell pattern (start + offset) chunk
                  ++ occurrences cell pattern a (candidates (len - (offset + chunk))))
                (omega arith))

    abbrev pub wanted : (ℕ → ℕ) → ℕ → List Address → List Address
    wanted cell offset matches =
        take max (matches ++ occurrences cell pattern (start + offset) (candidates (len - offset)))

    abbrev in_chunk : (ℕ → ℕ) → ℕ → List Address
    in_chunk cell offset = occurrences cell pattern (start + offset) (candidates (size_at offset))

    nothing_left :
        (cell : ℕ → ℕ) (offset : ℕ) (matches : List Address)
        → len ≤ offset
        → length matches < max
        → wanted cell offset matches ≡ matches
    unfolding occurrences
    nothing_left cell offset matches out short =
        let none_left : candidates (len - offset) ≡ 0 = omega arith in
        rw none_left (rw (append-nil matches) (take-all max matches (omega arith)))

    scanned-cut :
        (offset : ℕ) (matches bytes : List Address) (cell : ℕ → ℕ)
        → offset < len
        → length matches < max
        → bytes ≡ window cell (start + offset) (size_at offset)
        → scanned offset matches bytes ≡ cut max (matches ++ in_chunk cell offset)
    unfolding size_at
    scanned-cut offset matches bytes cell lt short e =
        let same : (start + offset) % u64_mod ≡ start + offset = omega arith in
        rw (same, e)
          (scan_chunk-window cell pattern max positive
            (min (len - offset) (chunk + length pattern - 1)) (start + offset) matches (omega arith)
            short)

    -- Where the loop stops after a chunk, the list is what is wanted.
    stops_right :
        (cell : ℕ → ℕ) (offset : ℕ) (matches : List Address)
        → offset < len
        → (leb max (length (matches ++ in_chunk cell offset)) || size_at offset == len - offset)
          ≡ true
        → take max (matches ++ in_chunk cell offset) ≡ wanted cell offset matches
    stops_right cell offset matches lt e = elim (Bool-cases (size_at offset == len - offset)) [
      | inl last ↦
          let whole : size_at offset ≡ len - offset =
            (==_iff (size_at offset) (len - offset)).0 last in
          ap (λ n. take max (matches ++ occurrences cell pattern (start + offset) (candidates n)))
            whole
      | inr more ↦ sym (
          rw (occurrences_split cell offset lt more, ← append_assoc)
            (take-append max (matches ++ in_chunk cell offset) _ (ground arith)))
    ]

    goes_on_right :
        (cell : ℕ → ℕ) (offset : ℕ) (matches : List Address)
        → offset < len
        → (leb max (length (matches ++ in_chunk cell offset)) || size_at offset == len - offset)
          ≡ false
        → (take max (matches ++ in_chunk cell offset) ≡ matches ++ in_chunk cell offset)
          × (length (matches ++ in_chunk cell offset) < max)
          × (wanted cell (offset + chunk) (matches ++ in_chunk cell offset)
              ≡ wanted cell offset matches)
    goes_on_right cell offset matches lt e = (
      take-all max (matches ++ in_chunk cell offset) (ground arith),
      ground arith,
      let more : (size_at offset == len - offset) ≡ false = ground arith in
          rw (occurrences_split cell offset lt more, append_assoc) refl,
    )

    abbrev pub Right : ℕ → Type 0
    Right rounds =
        (offset : ℕ) (matches : List Address) (s : B.State) (found : List Address)
        → length matches < max
        → len < offset + rounds * chunk
        → (scan_chunks B pattern max start len chunk rounds offset matches s).0 ≡ ok found
        → found ≡ wanted (peek s) offset matches

    -- A round whose read succeeds, given that the rounds behind it are right.
    round-Right :
        (rounds : ℕ) (ih : Right rounds) (offset : ℕ) (matches : List Address) (s : B.State)
        (found bytes : List Address)
        → length matches < max
        → len < offset + suc rounds * chunk
        → ltb offset len ≡ true
        → (reply offset s).0 ≡ ok bytes
        → (scan_chunks B pattern max start len chunk (suc rounds) offset matches s).0 ≡ ok found
        → found ≡ wanted (peek s) offset matches
    unfolding size_at
    round-Right rounds ih offset matches s found bytes short enough inside r h =
        let lt : offset < len = ltb→lt offset len inside in
        let (shown, kept) = round_reads offset s lt r in
        let done = scanned-cut offset matches bytes (peek s) lt short shown in
        let flag = ap (λ q. q.0 || size_at offset == len - offset) done in
        elim (Bool-cases (
          leb max (length (matches ++ in_chunk (peek s) offset))
          || size_at offset == len - offset)) [
            | inl e ↦
                ok_unique h (ap (λ q. q.0) (scan_last rounds offset matches s inside r (flag ∙ e)))
                ∙ ap (λ q. q.1) done
                ∙ stops_right (peek s) offset matches lt e
            | inr e ↦
                let (same, fewer, next) = goes_on_right (peek s) offset matches lt e in
                let kept_all : (scanned offset matches bytes).1
                    ≡ matches ++ in_chunk (peek s) offset =
                  ap (λ q. q.1) done ∙ same in
                let go = ap (λ q. q.0) (scan_more rounds offset matches s inside r (flag ∙ e)) in
                let s' = (reply offset s).1 in
                let here : (scan_chunks B pattern max start len chunk rounds (offset + chunk)
                      (matches ++ in_chunk (peek s) offset) s').0
                    ≡ ok found =
                  ap
                    (λ m.
                      (scan_chunks B pattern max start len chunk rounds (offset + chunk) m s').0)
                    (sym kept_all)
                  ∙ (sym go ∙ h) in
                ih (offset + chunk) (matches ++ in_chunk (peek s) offset) s' found fewer
                  (grind arith) here
                ∙ ap (λ c. wanted c (offset + chunk) (matches ++ in_chunk (peek s) offset)) kept
                ∙ next
          ]

    scan_none :
        (offset : ℕ) (matches : List Address) (s : B.State) (found : List Address)
        → (scan_chunks B pattern max start len chunk 0 offset matches s).0 ≡ ok found
        → found ≡ matches
    unfolding scan_chunks
    scan_none offset matches s found h = ok_unique h refl

    pub scan_chunks-occurrences : (rounds : ℕ) → Right rounds
    scan_chunks-occurrences zero offset matches s found short enough h =
        scan_none offset matches s found h
        ∙ sym (nothing_left (peek s) offset matches (omega arith) short)
    scan_chunks-occurrences (suc rounds) offset matches s found short enough h =
        elim (Bool-cases (ltb offset len)) [
          | inr out ↦
              ok_unique h (ap (λ q. q.0) (scan_done rounds offset matches s out))
              ∙ sym (nothing_left (peek s) offset matches (ground arith) short)
          | inl inside ↦ elim (Result-cases (reply offset s).0) [
            | inr (x, r) ↦
                absurd (cc (h, ap (λ q. q.0) (scan_failed rounds offset matches s inside r)))
            | inl (bytes, r) ↦
                round-Right rounds (scan_chunks-occurrences rounds) offset matches s found bytes
                  short enough inside r h
          ]
        ]
