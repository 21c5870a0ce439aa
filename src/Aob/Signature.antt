-- ===== src/Aob/Signature.antt =====
-- The signatures that `parse_aob` of include/gtlibcpp/aob_scan.hpp reads, and what they stand for.
use gtlibcpp.Common.{
  ℕ, ◌+◌, ◌/◌, ◌%◌, ◌<◌, ◌≤◌, ◌≡◌, refl, ap, ◌∙◌, true, false, [], ◌∷◌, ◌++◌, ◌==◌, ltb,
  if◌then◌else◌, Option, some, none, Bytes, length, All, arith, length-append, append_assoc,
}
use gtlibcpp.Aob.Parse.{
  Cell, Pattern, IsByte, nibble, byte_of, at_gap, pushed, max_cells, parse_loop, nonempty,
  parse_aob, parse_loop-IsPattern,
}

hex : ℕ → ℕ
hex h = if ltb h 10 then 48 + h else 55 + h

high : Cell → ℕ
unfolding hex
high none = b'?'
high (some v) = hex (v / 16)

low : Cell → ℕ
unfolding hex
low none = b'?'
low (some v) = hex (v % 16)

spaced : Pattern → Bytes
spaced [] = []
spaced (x ∷ p) = b' ' ∷ high x ∷ low x ∷ spaced p

-- The usual text of a pattern: two digits or `??` for each cell, one space between.
pub signature_of : Pattern → Bytes
unfolding spaced high low
signature_of [] = []
signature_of (x ∷ p) = high x ∷ low x ∷ spaced p

hex_plain :
    (h : ℕ)
    → h < 16
    → ((hex h == b' ') ≡ false) × ((hex h == b'?') ≡ false) × (nibble (hex h) ≡ some h)
unfolding hex nibble
hex_plain h lt = (ground arith, ground arith, ground arith)

byte_of-hex : (v : ℕ) → v < 256 → byte_of (hex (v / 16)) (hex (v % 16)) ≡ some v
unfolding byte_of
byte_of-hex v lt =
    let (_, _, a) = hex_plain (v / 16) (omega arith) in
    let (_, _, b) = hex_plain (v % 16) (omega arith) in ground (arith, a, b)

pushed-some :
    (acc : Pattern) (x : Cell) → length acc < max_cells → pushed acc x ≡ some (acc ++ x ∷ [])
unfolding pushed
pushed-some acc x lt = ground (arith, length-append acc (x ∷ []))

parse_loop-cell :
    (acc : Pattern) (x : Cell) (rest : Bytes)
    → IsByte x
    → length acc < max_cells
    → at_gap rest ≡ true
    → parse_loop acc (high x ∷ low x ∷ rest) ≡ parse_loop (acc ++ x ∷ []) rest
unfolding parse_loop high low
parse_loop-cell acc none rest b lt gap = ground (arith, pushed-some acc none lt)
parse_loop-cell acc (some v) rest b lt gap =
    let (space, wild, _) = hex_plain (v / 16) (omega arith) in
    ground (arith, space, wild, byte_of-hex v b, pushed-some acc (some v) lt)

at_gap-spaced : (p : Pattern) → at_gap (spaced p) ≡ true
unfolding at_gap spaced
at_gap-spaced [] = refl
at_gap-spaced (x ∷ p) = refl

parse_loop-signature_of :
    (acc : Pattern) (x : Cell) (p : Pattern)
    → All IsByte (x ∷ p)
    → length acc + length (x ∷ p) ≤ max_cells
    → parse_loop acc (high x ∷ low x ∷ spaced p) ≡ some (acc ++ x ∷ p)
unfolding spaced parse_loop
parse_loop-signature_of acc x [] b l = parse_loop-cell acc x [] b.0 (omega arith) (at_gap-spaced [])
parse_loop-signature_of acc x (y ∷ p) b l =
    parse_loop-cell acc x (spaced (y ∷ p)) b.0 (omega arith) (at_gap-spaced (y ∷ p))
    ∙ parse_loop-signature_of (acc ++ x ∷ []) y p b.1 (omega (arith, length-append acc (x ∷ [])))
    ∙ ap some (append_assoc acc (x ∷ []) (y ∷ p))

-- Every pattern of 1 to 4096 cells has a signature, and `parse_aob` reads the pattern from it.
pub parse_aob-signature_of :
    (cell : Cell) (rest : Pattern)
    → All IsByte (cell ∷ rest)
    → length (cell ∷ rest) ≤ max_cells
    → parse_aob (signature_of (cell ∷ rest)) ≡ some (cell ∷ rest)
unfolding parse_aob signature_of
parse_aob-signature_of x p b l = ap nonempty (parse_loop-signature_of [] x p b (omega arith))

nonempty-eq-some :
    (r : Option Pattern) (pattern : Pattern)
    → nonempty r ≡ some pattern
    → (r ≡ some pattern) × (0 < length pattern)
unfolding nonempty
nonempty-eq-some none pattern h = absurd (cc h)
nonempty-eq-some (some []) pattern h = absurd (cc h)
nonempty-eq-some (some (x ∷ p)) pattern h = (h, ground arith)

-- A pattern that `parse_aob` accepts has between 1 and 4096 cells, each a wildcard or a byte.
pub parse_aob-valid :
    (text : Bytes) (pattern : Pattern)
    → parse_aob text ≡ some pattern
    → All IsByte pattern × (0 < length pattern) × (length pattern ≤ max_cells)
unfolding parse_aob
parse_aob-valid text pattern h =
    let (e, positive) = nonempty-eq-some (parse_loop [] text) pattern h in
    let (cells, bounded) = parse_loop-IsPattern text [] pattern tt (omega arith) e in
    (cells, positive, bounded)
