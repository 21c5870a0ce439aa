-- ===== src/Parser/Types.antt =====
-- src/parser.cpp, include/gtlibcpp/parser.hpp: `VariableType`, `sanitize`, `parse_variable_type`,
-- `parse_int64` and the hot-key texts.
use gtlibcpp.Common.{
  ℕ, ◌-◌, ◌%◌, ◌^◌, ◌==◌, ltb, ◌||◌, ◌&&◌, Bool, true, false, List, [], ◌∷◌, ◌++◌, map, Option,
  none, some, if◌then◌else◌, Bytes, codes, equal, is_empty,
}
use gtlibcpp.Result.{Error, parse_unsupported, Result, ok, err, make_error}
use gtlibcpp.Scan.{is_space, lower, skip_ws, ℤ, pos, negsuc, to_u64, is_x, stoll}

pub data VariableType : Type 0 where
  unknown uint8 int8 uint16 int16 uint32 int32 : VariableType
  uint64 int64 float32 float64 string bytes : VariableType

-- `CheatTableParser::to_string`
unfoldable pub type_name : VariableType → Bytes
type_name unknown = codes "unknown"
type_name uint8 = codes "uint8"
type_name int8 = codes "int8"
type_name uint16 = codes "uint16"
type_name int16 = codes "int16"
type_name uint32 = codes "uint32"
type_name int32 = codes "int32"
type_name uint64 = codes "uint64"
type_name int64 = codes "int64"
type_name float32 = codes "float32"
type_name float64 = codes "float64"
type_name string = codes "string"
type_name bytes = codes "bytes"

-- Control characters other than tab and line ends become blanks.
abbrev pub cleaned : ℕ → ℕ
cleaned c = if c == 9 || (c == 10 || c == 13) then c else if ltb c 32 then 32 else c

unfoldable pub sanitize : Bytes → Bytes
sanitize input = map cleaned input

-- Blanks at the end.
unfoldable pub trim_end : Bytes → Bytes
trim_end [] = []
trim_end (c ∷ rest) =
    let kept = trim_end rest in if is_empty kept && is_space c then [] else c ∷ kept

abbrev pub is_one : Bytes → List Bytes → Bool
is_one s [] = false
is_one s (n ∷ names) = equal s n || is_one s names

abbrev pub unknown_type : Bytes → Error
unknown_type text =
    make_error parse_unsupported (codes "unknown variable type: " ++ text)
      (codes "CheatTableParser::parse_variable_type") 0 0

-- The chain of tests on the trimmed lower-case text; the flag is the value of `is_signed` after it.
unfoldable pub type_of : Bytes → Bytes → Result VariableType × Bool
type_of text s =
    if is_one s (codes "byte" ∷ codes "uint8" ∷ codes "1 byte" ∷ [])
    then (ok uint8, false)
    else if is_one s (codes "char" ∷ codes "int8" ∷ codes "signed byte" ∷ [])
    then (ok int8, true)
    else if is_one s (codes "2 bytes" ∷ codes "2 byte" ∷ codes "word" ∷ codes "uint16" ∷ [])
    then (ok uint16, false)
    else if is_one s (codes "short" ∷ codes "int16" ∷ codes "signed 2 bytes" ∷ [])
    then (ok int16, true)
    else if is_one s (codes "4 bytes" ∷ codes "4 byte" ∷ codes "dword" ∷ codes "uint32" ∷ [])
    then (ok uint32, false)
    else if is_one s (codes "int" ∷ codes "int32" ∷ codes "long" ∷ codes "signed 4 bytes" ∷ [])
    then (ok int32, true)
    else if is_one s (codes "8 bytes" ∷ codes "8 byte" ∷ codes "qword" ∷ codes "uint64" ∷ [])
    then (ok uint64, false)
    else if is_one s (codes "int64" ∷ codes "signed 8 bytes" ∷ [])
    then (ok int64, true)
    else if is_one s (codes "float" ∷ codes "float32" ∷ codes "single" ∷ [])
    then (ok float32, false)
    else if is_one s (codes "double" ∷ codes "float64" ∷ [])
    then (ok float64, false)
    else if is_one s (codes "string" ∷ [])
    then (ok string, false)
    else if is_one s (codes "bytes" ∷ codes "array of bytes" ∷ [])
    then (ok bytes, false)
    else (err (unknown_type text), false)

-- `is_signed` is passed by reference and set to false first, so the value that it comes with is lost.
unfoldable pub parse_variable_type : Bytes → Bool → Result VariableType × Bool
parse_variable_type text is_signed = type_of text (trim_end (skip_ws (map lower text)))

-- `parse_int64`; whenever `std::stoll` returns it has consumed something.
unfoldable pub parse_int64 : Bytes → Option ℤ
parse_int64 (z ∷ x ∷ d ∷ rest) =
    if z == b'0' && is_x x then stoll 16 (d ∷ rest) else stoll 0 (z ∷ x ∷ d ∷ rest)
parse_int64 text = stoll 0 text

-- `static_cast<std::uint32_t>`, `static_cast<int>`
abbrev pub to_u32 : ℤ → ℕ
to_u32 v = to_u64 v % 2 ^ 32

abbrev pub to_i32 : ℤ → ℤ
to_i32 v = if ltb (to_u32 v) (2 ^ 31) then pos (to_u32 v) else negsuc (2 ^ 32 - 1 - to_u32 v)

-- The code of a piece of text, if it is one.
abbrev pub code_in : Bytes → List ℤ
code_in text = elim (parse_int64 text) [ none ↦ [] | some v ↦ to_i32 v ∷ [] ]

abbrev pub is_separator : ℕ → Bool
is_separator c = c == b',' || (c == b' ' || c == 9)

-- The loop of `parse_hotkey_text`; `cur` is the piece read so far.
unfoldable pub hotkey_loop : Bytes → Bytes → List ℤ
hotkey_loop cur [] = code_in cur
hotkey_loop cur (c ∷ rest) =
    let more = hotkey_loop (if is_separator c then [] else cur ++ c ∷ []) rest in
    if is_separator c then code_in cur ++ more else more

unfoldable pub parse_hotkey_text : Bytes → List ℤ
parse_hotkey_text text = hotkey_loop [] text
