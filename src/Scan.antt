-- ===== src/Scan.antt =====
-- What the readers of src/agent.cpp and src/parser.cpp share: the character classes of the C locale,
-- `std::stoll` and `std::stoul`, signed 64-bit numbers, and the outcome of a reader. A reader takes
-- the text from its position on and leaves the rest; one that calls itself takes fuel.
pub mod Within
use gtlibcpp.Common.{
  ℕ, zero, suc, ◌+◌, ◌-◌, ◌*◌, ◌%◌, ◌^◌, ◌==◌, ltb, leb, ◌||◌, ◌&&◌, Bool, true, false, [], ◌∷◌,
  Option, none, some, if◌then◌else◌, Bytes, to_string,
}
use gtlibcpp.Result.{Error}
use gtlibcpp.Types.{u64_mod}

abbrev pub is_between : ℕ → ℕ → ℕ → Bool
is_between lo hi c = leb lo c && leb c hi

-- `std::isspace`
abbrev pub is_space : ℕ → Bool
is_space c = c == 32 || is_between 9 13 c

-- `std::isdigit`
abbrev pub is_digit : ℕ → Bool
is_digit c = is_between b'0' b'9' c

-- `std::isalnum`
abbrev pub is_alnum : ℕ → Bool
is_alnum c = is_digit c || (is_between b'a' b'z' c || is_between b'A' b'Z' c)

-- `std::tolower`
abbrev pub lower : ℕ → ℕ
lower c = if is_between b'A' b'Z' c then c + 32 else c

unfoldable pub skip_ws : Bytes → Bytes
skip_ws [] = []
skip_ws (c ∷ rest) = if is_space c then skip_ws rest else c ∷ rest

-- The rest after a word, if the text starts with it.
unfoldable pub after_word : Bytes → Bytes → Option Bytes
after_word [] text = some text
after_word (w ∷ word) [] = none
after_word (w ∷ word) (c ∷ text) = if w == c then after_word word text else none

-- Whether the text starts with a character, and the text after it.
abbrev pub starts : ℕ → Bytes → Bool
starts c [] = false
starts c (d ∷ rest) = d == c

abbrev pub tail : Bytes → Bytes
tail [] = []
tail (c ∷ rest) = rest

-- `std::int64_t`; `negsuc n` is -(n + 1).
pub data ℤ : Type 0 where
  pos : ℕ → ℤ
  negsuc : ℕ → ℤ

-- `static_cast<std::uint64_t>`
abbrev pub to_u64 : ℤ → ℕ
to_u64 (pos n) = n % u64_mod
to_u64 (negsuc n) = u64_mod - 1 - n % u64_mod

-- `static_cast<std::int64_t>` of a number below 2 ^ 64
abbrev pub to_i64 : ℕ → ℤ
to_i64 n = if ltb n (2 ^ 63) then pos n else negsuc (u64_mod - 1 - n)

-- `operator<<`
unfoldable pub print_int : ℤ → Bytes
print_int (pos n) = to_string n
print_int (negsuc n) = b'-' ∷ to_string (suc n)

-- The value of a digit in bases up to 36.
abbrev pub digit_of : ℕ → Option ℕ
digit_of c =
    if is_digit c
    then some (c - 48)
    else if is_between b'a' b'z' c
    then some (c - 87)
    else if is_between b'A' b'Z' c
    then some (c - 55)
    else none

abbrev pub is_digit_in : ℕ → ℕ → Bool
is_digit_in base c = elim (digit_of c) [ none ↦ false | some d ↦ ltb d base ]

abbrev pub digit_value : ℕ → ℕ
digit_value c = elim (digit_of c) [ none ↦ 0 | some d ↦ d ]

-- The digits of a base in front of a text, as a number; `seen` tells that there was one before.
unfoldable pub magnitude : ℕ → Bool → ℕ → Bytes → Option ℕ
magnitude base seen n [] = if seen then some n else none
magnitude base seen n (c ∷ rest) =
    let more = magnitude base true (n * base + digit_value c) rest in
    if is_digit_in base c then more else if seen then some n else none

abbrev pub is_x : ℕ → Bool
is_x c = c == b'x' || c == b'X'

-- After the sign: base 16 takes an optional prefix 0x, and base 0 stands for 16, 8 or 10.
unfoldable pub prefixed : ℕ → Bytes → Option ℕ
prefixed base (c ∷ x ∷ d ∷ rest) =
    if c == b'0' && (is_x x && (is_digit_in 16 d && (base == 0 || base == 16)))
    then magnitude 16 false 0 (d ∷ rest)
    else magnitude (if base == 0 then (if c == b'0' then 8 else 10) else base) false 0
        (c ∷ x ∷ d ∷ rest)
prefixed base (c ∷ rest) =
    magnitude (if base == 0 then (if c == b'0' then 8 else 10) else base) false 0 (c ∷ rest)
prefixed base [] = none

-- What `std::strtoll` reads: whether there is a minus sign, and the absolute value.
unfoldable pub signed_number : ℕ → Bytes → Option (Bool × ℕ)
signed_number base [] = none
signed_number base (c ∷ rest) =
    if c == b'-'
    then elim (prefixed base rest) [ none ↦ none | some n ↦ some (true, n) ]
    else if c == b'+'
    then elim (prefixed base rest) [ none ↦ none | some n ↦ some (false, n) ]
    else elim (prefixed base (c ∷ rest)) [ none ↦ none | some n ↦ some (false, n) ]

-- The number if it is in range.
abbrev pub in_i64 : Bool → ℕ → Option ℤ
in_i64 false n = if ltb n (2 ^ 63) then some (pos n) else none
in_i64 true zero = some (pos 0)
in_i64 true (suc n) = if ltb n (2 ^ 63) then some (negsuc n) else none

-- `std::stoll`; `none` stands for the exception.
unfoldable pub stoll : ℕ → Bytes → Option ℤ
stoll base text = elim (signed_number base (skip_ws text)) [
  | none ↦ none
  | some (minus, n) ↦ in_i64 minus n
]

-- `std::stoul`, which wraps a negative number.
unfoldable pub stoul : ℕ → Bytes → Option ℕ
stoul base text = elim (signed_number base (skip_ws text)) [
  | none ↦ none
  | some (minus, n) ↦
      if ltb n u64_mod then some (if minus then (u64_mod - n) % u64_mod else n) else none
]

-- What a reader comes to. `out_of_fuel` has no counterpart in the source.
pub data Read {ℓ} (A : Type ℓ) : Type ℓ where
  done : A → Bytes → Read A
  fails : Error → Read A
  out_of_fuel : Read A

infixl 5 ◌>>=◌
abbrev pub ◌>>=◌ {ℓ κ} : {A : Type ℓ} {B : Type κ} → Read A → (A → Bytes → Read B) → Read B
done a rest >>= k = k a rest
fails e >>= k = fails e
out_of_fuel >>= k = out_of_fuel
