-- ===== src/Aob.antt =====
-- include/gtlibcpp/aob_scan.hpp: byte patterns and their search in a range of addresses.
pub mod Parse
pub mod Signature
pub mod Reference
pub mod Chunks
pub mod Search
use gtlibcpp.Common.{
  ℕ, zero, suc, ◌+◌, ◌-◌, ◌*◌, ◌/◌, ◌%◌, ◌^◌, min, Bool, true, false, List, [], ◌∷◌, ◌++◌, ◌==◌,
  ltb, leb, ◌||◌, ◌&&◌, if◌then◌else◌, Option, some, none, Bytes, codes, Exec, length,
}
use gtlibcpp.Result.{invalid_type, invalid_size, Result, ok, err, make_error}
use gtlibcpp.Types.{Address, u64_mod}
use gtlibcpp.Backend.{Backend}
use gtlibcpp.Session.{read_bytes}
use Parse.{Pattern, parse_aob}

-- The loop over `k`: the pattern against the bytes from some position on.
unfoldable pub fits : Pattern → Bytes → Bool
fits [] bytes = true
fits (cell ∷ pattern) [] = false
fits (none ∷ pattern) (b ∷ bytes) = fits pattern bytes
fits (some v ∷ pattern) (b ∷ bytes) = b == v && fits pattern bytes

module _ (pattern : Pattern) (max_matches : ℕ) where
  -- The loop over `i`: `bytes` are those from `i` on, at address `at`. The flag tells that the list
  -- is full, on which the source returns.
  unfoldable pub scan_chunk : Address → List Address → Bytes → Bool × List Address
  scan_chunk at matches [] = (false, matches)
  scan_chunk at matches (b ∷ bytes) =
      if leb (length pattern) (suc (length bytes))
      then (let hit = fits pattern (b ∷ bytes) in
          let found = if hit then matches ++ at ∷ [] else matches in
          let rest = scan_chunk ((at + 1) % u64_mod) found bytes in
          if hit && leb max_matches (length found) then (true, found) else rest)
      else (false, matches)

module _ (B : Backend) (pattern : Pattern) (max_matches : ℕ) (start : Address) (len chunk : ℕ) where
  -- The loop over `offset`; `rounds` bounds it, and `scan_aob` gives enough.
  unfoldable pub scan_chunks : ℕ → ℕ → List Address → Exec B.State (Result (List Address))
  scan_chunks zero offset matches s = (ok matches, s)
  scan_chunks (suc rounds) offset matches s = elim (ltb offset len) [
    | false ↦ (ok matches, s)
    | true ↦
        let size = min (len - offset) (chunk + length pattern - 1) in
        let (reply, s') = read_bytes B ((start + offset) % u64_mod) size s in
        elim reply [
          | err e ↦ (err e, s')
          | ok bytes ↦
              let (full, found) =
                scan_chunk pattern max_matches ((start + offset) % u64_mod) matches bytes in
              elim (full || size == len - offset) [
                | true ↦ (ok found, s')
                | false ↦ scan_chunks rounds (offset + chunk) found s'
              ]
        ]
  ]

abbrev pub chunk_size : ℕ
chunk_size = 65536

-- 16 MiB
abbrev pub scan_cap : ℕ
scan_cap = 16777216

abbrev pub bad_pattern : Address → Result (List Address)
bad_pattern start =
    err (make_error invalid_type (codes "invalid AoB pattern") (codes "scan_aob") start 0)

abbrev pub bad_range : Address → ℕ → Result (List Address)
bad_range start len =
    err (
      make_error invalid_size (codes "invalid or oversized scan range") (codes "scan_aob") start
        len)

-- The guards on the range; the last one says that the range does not pass the highest address.
abbrev pub rejected : Address → ℕ → ℕ → Bool
rejected start len max_matches =
    len == 0 || (ltb scan_cap len || (max_matches == 0 || ltb (u64_mod - 1 - len) start))

module _ (B : Backend) where
  unfoldable pub scan_parsed :
      Address → ℕ → Option Pattern → ℕ → Exec B.State (Result (List Address))
  scan_parsed start len none max_matches s = (bad_pattern start, s)
  scan_parsed start len (some pattern) max_matches s =
      if rejected start len max_matches
      then (bad_range start len, s)
      else if ltb len (length pattern)
      then (ok [], s)
      else scan_chunks B pattern max_matches start len chunk_size (len / chunk_size + 1) 0 [] s

  unfoldable pub scan_aob : Address → ℕ → Bytes → ℕ → Exec B.State (Result (List Address))
  unfolding scan_parsed
  scan_aob start len signature max_matches = scan_parsed start len (parse_aob signature) max_matches
