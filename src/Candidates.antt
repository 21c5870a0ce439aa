-- ===== src/Candidates.antt =====
-- include/gtlibcpp/candidate_scan.hpp: searches for values in a range, and their refinement. The
-- arithmetic type `T` is an interface; the shape of its comparisons is the source's, with the
-- tolerance of floating-point types inside `same`. Log lines are left out.
pub mod Sizes
pub mod Survivors
use Prim.Native.Nat.{bit_and}
use gtlibcpp.Common.{
  ℕ, zero, suc, ◌+◌, ◌-◌, ◌/◌, ◌%◌, min, ◌==◌, ltb, leb, ◌||◌, ◌&&◌, not, Bool, true, false, List,
  [], ◌∷◌, ◌++◌, if◌then◌else◌, Bytes, codes, Exec, length, take,
}
use gtlibcpp.Result.{invalid_size, invalid_address, Error, Result, ok, err, make_error}
use gtlibcpp.Types.{Address, u64_mod}
use gtlibcpp.Backend.{Backend}
use gtlibcpp.Session.{read_bytes, read}
use gtlibcpp.Session.Words.{encode}

pub data CandidateComparison : Type 0 where
  equal changed unchanged increased decreased greater_than less_than between : CandidateComparison

pub data ScanType : Type 0 where
  exact range unknown_initial : ScanType

-- The type `T`: its size, `std::memcpy` from its bytes, equality (within 0.0001 for floating-point
-- types) and difference, `<` and `<=`.
pub record Arithmetic : Type 1 where
  pub T : Type 0
  pub size_of : ℕ
  pub load : Bytes → T
  pub same : T → T → Bool
  pub differ : T → T → Bool
  pub below : T → T → Bool
  pub at_most : T → T → Bool

module _ (A : Arithmetic) where
  open A use {T}

  pub record CandidateSnapshot : Type 0 where
    pub addresses : List Address
    pub values : List T

  abbrev pub no_candidates : CandidateSnapshot
  no_candidates = record { addresses = []; values = [] }

  abbrev pub pushed : Address → T → CandidateSnapshot → CandidateSnapshot
  pushed address value c = record {
    addresses = c.addresses ++ address ∷ [];
    values = c.values ++ value ∷ [];
  }

  unfoldable pub evaluate_comparison : CandidateComparison → T → T → T → T → Bool
  evaluate_comparison equal now old target upper = A.same now target
  evaluate_comparison changed now old target upper = A.differ now old
  evaluate_comparison unchanged now old target upper = A.same now old
  evaluate_comparison increased now old target upper = A.below old now
  evaluate_comparison decreased now old target upper = A.below now old
  evaluate_comparison greater_than now old target upper = A.below target now
  evaluate_comparison less_than now old target upper = A.below now target
  evaluate_comparison between now old target upper = A.at_most target now && A.at_most now upper

  unfoldable pub matched : ScanType → T → T → T → Bool
  matched exact target upper value = A.same value target
  matched range target upper value = A.at_most target value && A.at_most value upper
  matched unknown_initial target upper value = true

  module _ (scan_type : ScanType) (target upper : T) (alignment max_matches : ℕ) where
    -- The loop over `i`: `bytes` are those from `i` on, at address `at`.
    unfoldable pub scan_items : Address → Bytes → CandidateSnapshot → CandidateSnapshot
    scan_items at [] found = found
    scan_items at (b ∷ bytes) found =
        let hit =
          (at % alignment) == 0
          && matched scan_type target upper (A.load (take A.size_of (b ∷ bytes))) in
        let next = if hit then pushed at (A.load (take A.size_of (b ∷ bytes))) found else found in
        let rest = scan_items ((at + 1) % u64_mod) bytes next in
        if ltb (length (b ∷ bytes)) A.size_of || leb max_matches (length found.addresses)
        then found
        else rest

    -- A chunk that cannot be read is skipped.
    abbrev pub scan_reply : Address → CandidateSnapshot → Result Bytes → CandidateSnapshot
    scan_reply at found (err e) = found
    scan_reply at found (ok bytes) = scan_items at bytes found

    module _ (B : Backend) (start : Address) (range_size : ℕ) where
      -- The loop over `offset`; `rounds` bounds it, and `first_scan` gives enough.
      unfoldable pub scan_range : ℕ → ℕ → CandidateSnapshot → Exec B.State CandidateSnapshot
      scan_range zero offset found s = (found, s)
      scan_range (suc rounds) offset found s =
          let this_chunk = min 65536 (range_size - offset) in
          let (reply, s') = read_bytes B ((start + offset) % u64_mod) this_chunk s in
          let rest =
            scan_range rounds (offset + this_chunk)
              (scan_reply ((start + offset) % u64_mod) found reply) s' in
          if ltb offset range_size
            && (ltb (length found.addresses) max_matches && leb A.size_of this_chunk)
          then rest
          else (found, s)

      unfoldable pub first_scan : Exec B.State (Result CandidateSnapshot)
      first_scan s =
          let (found, s') = scan_range (range_size / 65536 + 1) 0 no_candidates s in
          if start == 0 || (range_size == 0 || max_matches == 0)
          then (
            err (
                make_error invalid_size (codes "invalid scan parameters") (codes "first_scan") start
                  range_size),
            s,
          )
          else if alignment == 0 || not (bit_and alignment (alignment - 1) == 0)
          then (
            err (
                make_error invalid_size (codes "alignment must be a power of two")
                  (codes "first_scan") start alignment),
            s,
          )
          else if ltb (u64_mod - 1 - range_size) start
          then (
            err (
                make_error invalid_address (codes "scan range wraps the address space")
                  (codes "first_scan") start range_size),
            s,
          )
          else (ok found, s')

  module _ (B : Backend) (comparison : CandidateComparison) (target upper : T) where
    abbrev pub bad_candidate : Address → Error
    bad_candidate address =
        make_error invalid_size (codes "invalid candidate address") (codes "next_scan") address
          A.size_of

    -- What a read adds; the number that `read<T>` gives stands for the bytes. A candidate that
    -- cannot be read is skipped.
    abbrev pub refined : Address → T → Result ℕ → CandidateSnapshot → CandidateSnapshot
    refined address old (err e) found = found
    refined address old (ok number) found =
        let now = A.load (encode A.size_of number) in
        if evaluate_comparison comparison now old target upper
        then pushed address now found
        else found

    -- The loop over `index`.
    unfoldable pub next_items :
        List Address → List T → CandidateSnapshot → Exec B.State (Result CandidateSnapshot)
    next_items (address ∷ addresses) (old ∷ values) found s =
        let (reply, s') = read B A.size_of address s in
        let rest = next_items addresses values (refined address old reply found) s' in
        if address == 0 || ltb (u64_mod - 1 - A.size_of) address
        then (err (bad_candidate address), s)
        else rest
    next_items _ _ found s = (ok found, s)

    unfoldable pub next_scan : CandidateSnapshot → ℕ → Exec B.State (Result CandidateSnapshot)
    next_scan previous max_candidates s =
        if not (length previous.addresses == length previous.values)
          || (ltb max_candidates (length previous.addresses) || max_candidates == 0)
        then (
          err (
              make_error invalid_size (codes "invalid candidate list size") (codes "next_scan") 0
                (length previous.addresses)),
          s,
        )
        else next_items previous.addresses previous.values no_candidates s

  abbrev pub addresses_of : Result CandidateSnapshot → Result (List Address)
  addresses_of (err e) = err e
  addresses_of (ok c) = ok c.addresses

  unfoldable pub refine_candidates :
      (B : Backend)
      → List Address
      → List T
      → CandidateComparison
      → T
      → ℕ
      → Exec B.State (Result (List Address))
  refine_candidates B candidates previous_values comparison target max_candidates s =
      let (r, s') =
        next_scan B comparison target target
          (record { addresses = candidates; values = previous_values }) max_candidates s in
      (addresses_of r, s')
