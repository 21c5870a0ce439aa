-- ===== src/Aob/Parse.antt =====
-- include/gtlibcpp/aob_scan.hpp: `parse_aob`. A cell is a byte, or `none` for the wildcard, which the
-- source keeps as -1.
use gtlibcpp.Common.{
  ℕ, ◌+◌, ◌-◌, ◌*◌, ◌<◌, ◌≤◌, ◌≡◌, inl, inr, Option-cases, Bool, true, false, List, [], ◌∷◌, ◌++◌,
  ◌==◌, ltb, leb, ◌&&◌, if◌then◌else◌, Option, some, none, Bytes, length, All, arith,
}

abbrev pub Cell : Type 0
Cell = Option ℕ

abbrev pub Pattern : Type 0
Pattern = List Cell

abbrev within : ℕ → ℕ → ℕ → Bool
within lo hi c = leb lo c && leb c hi

-- `none` is the source's -1.
unfoldable pub nibble : ℕ → Option ℕ
nibble c =
    if within b'0' b'9' c
    then some (c - b'0')
    else if within b'a' b'f' c
    then some (c - b'a' + 10)
    else if within b'A' b'F' c
    then some (c - b'A' + 10)
    else none

-- `i == text.size()` or a space stands at `i`.
unfoldable pub at_gap : Bytes → Bool
at_gap [] = true
at_gap (c ∷ rest) = c == b' '

abbrev pub max_cells : ℕ
max_cells = 4096

-- `push_back`, and the test on the size behind it.
unfoldable pub pushed : Pattern → Cell → Option Pattern
pushed pattern cell =
    if ltb max_cells (length (pattern ++ cell ∷ [])) then none else some (pattern ++ cell ∷ [])

-- The value of two digits, if both are.
unfoldable pub byte_of : ℕ → ℕ → Option ℕ
byte_of c d = elim (nibble c) [
  | none ↦ none
  | some a ↦ elim (nibble d) [ none ↦ none | some b ↦ some (a * 16 + b) ]
]

-- The loop, on the text from `i` on.
unfoldable pub parse_loop : Pattern → Bytes → Option Pattern
parse_loop pattern [] = some pattern
parse_loop pattern (c ∷ []) =
    if c == b' ' then some pattern else if c == b'?' then pushed pattern none else none
parse_loop pattern (c ∷ d ∷ rest) = elim (c == b' ') [
  | true ↦ parse_loop pattern (d ∷ rest)
  | false ↦ elim (c == b'?') [
    | true ↦ elim (d == b'?') [
      | true ↦ elim (at_gap rest) [
        | true ↦ elim (pushed pattern none) [ none ↦ none | some more ↦ parse_loop more rest ]
        | false ↦ none
      ]
      | false ↦ elim (d == b' ') [
        | true ↦ elim (pushed pattern none) [ none ↦ none | some more ↦ parse_loop more (d ∷ rest) ]
        | false ↦ none
      ]
    ]
    | false ↦ elim (byte_of c d) [
      | none ↦ none
      | some v ↦ elim (at_gap rest) [
        | true ↦ elim (pushed pattern (some v)) [ none ↦ none | some more ↦ parse_loop more rest ]
        | false ↦ none
      ]
    ]
  ]
]

unfoldable pub nonempty : Option Pattern → Option Pattern
nonempty none = none
nonempty (some []) = none
nonempty (some (cell ∷ pattern)) = some (cell ∷ pattern)

-- `none` where the source returns false.
unfoldable pub parse_aob : Bytes → Option Pattern
unfolding parse_loop nonempty
parse_aob text = nonempty (parse_loop [] text)

abbrev pub IsByte : Cell → Type 0
IsByte none = Unit
IsByte (some v) = v < 256

pub record IsPattern (pattern : Pattern) : Type 0 where
  pub bytes : All IsByte pattern
  pub bounded : length pattern ≤ max_cells

nibble-lt : (c : ℕ) {v : ℕ} → nibble c ≡ some v → v < 16
unfolding nibble
nibble-lt c h = ground arith

byte_of-lt : (c d : ℕ) {v : ℕ} → byte_of c d ≡ some v → v < 256
unfolding byte_of nibble
byte_of-lt c d h = ground arith

All-snoc :
    (pattern : Pattern) (cell : Cell)
    → All IsByte pattern
    → IsByte cell
    → All IsByte (pattern ++ cell ∷ [])
All-snoc [] cell p b = (b, tt)
All-snoc (x ∷ pattern) cell p b = (p.0, All-snoc pattern cell p.1 b)

-- Cells are bytes or wildcards and there are at most 4096 of them, at every point of the loop.
pub parse_loop-IsPattern :
    (text : Bytes) (pattern result : Pattern)
    → All IsByte pattern
    → length pattern ≤ max_cells
    → parse_loop pattern text ≡ some result
    → All IsByte result × (length result ≤ max_cells)
unfolding parse_loop pushed
parse_loop-IsPattern [] pattern r p l h = let e : pattern ≡ r = cc in rw (← e) (p, l)
parse_loop-IsPattern (c ∷ []) pattern r p l h = let pn = All-snoc pattern none p tt in ground arith
parse_loop-IsPattern (c ∷ d ∷ rest) pattern r p l h =
    let pn = All-snoc pattern none p tt in
    let skip = parse_loop-IsPattern (d ∷ rest) pattern r p l in
    let wild = parse_loop-IsPattern rest (pattern ++ none ∷ []) r pn in
    let wild' = parse_loop-IsPattern (d ∷ rest) (pattern ++ none ∷ []) r pn in
    elim (Option-cases (byte_of c d)) [
      | inl e ↦ ground (arith, e, skip, wild, wild')
      | inr (v, e) ↦ ground (
        arith,
        e,
        skip,
        wild,
        wild',
        parse_loop-IsPattern rest (pattern ++ some v ∷ []) r
            (All-snoc pattern (some v) p (byte_of-lt c d e)),
      )
    ]
