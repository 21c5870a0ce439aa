-- ===== src/Parser/Names.antt =====
-- src/parser.cpp: the names of the variable types and how they are read.
use gtlibcpp.Common.{
  ◌≡◌, ◌≢◌, refl, ap, ◌∙◌, arith, Bool, true, false, [], ◌∷◌, ◌++◌, map, All, Bytes, codes, equal,
}
use mathlib.Core.List.{map-append}
use gtlibcpp.Result.{ok}
use gtlibcpp.Scan.{is_space, lower, skip_ws}
use gtlibcpp.Parser.Types.{
  VariableType, unknown, uint8, int8, uint16, int16, uint32, int32, uint64, int64, float32, float64,
  string, bytes, type_name, trim_end, type_of, parse_variable_type,
}

-- The types that are signed integers.
abbrev pub is_signed_type : VariableType → Bool
is_signed_type int8 = true
is_signed_type int16 = true
is_signed_type int32 = true
is_signed_type int64 = true
is_signed_type other = false

abbrev pub AllBlank : Bytes → Type 0
AllBlank text = All (λ c. is_space c ≡ true) text

skip_ws-blank :
    (before text : Bytes) → AllBlank before → skip_ws (map lower before ++ text) ≡ skip_ws text
unfolding skip_ws
skip_ws-blank [] text h = refl
skip_ws-blank (c ∷ before) text (h, more) = ground (arith, h, skip_ws-blank before text more)

trim_end_blank : (after : Bytes) → AllBlank after → trim_end (map lower after) ≡ []
unfolding trim_end
trim_end_blank [] h = refl
trim_end_blank (c ∷ after) (h, more) = rw (trim_end_blank after more) (ground (arith, h))

trim_end-append :
    (text after : Bytes) → AllBlank after → trim_end (text ++ map lower after) ≡ trim_end text
unfolding trim_end
trim_end-append [] after h = trim_end_blank after h
trim_end-append (c ∷ text) after h = rw (trim_end-append text after h) refl

read_name :
    (t : VariableType) (after : Bytes) (text : Bytes)
    → t ≢ unknown
    → AllBlank after
    → type_of text (trim_end (skip_ws (type_name t ++ map lower after))) ≡ (ok t, is_signed_type t)
unfolding type_name type_of skip_ws codes equal trim_end
read_name unknown after text known h = absurd (known refl)
read_name uint8 after text known h = rw (trim_end-append (codes "uint8") after h) refl
read_name int8 after text known h = rw (trim_end-append (codes "int8") after h) refl
read_name uint16 after text known h = rw (trim_end-append (codes "uint16") after h) refl
read_name int16 after text known h = rw (trim_end-append (codes "int16") after h) refl
read_name uint32 after text known h = rw (trim_end-append (codes "uint32") after h) refl
read_name int32 after text known h = rw (trim_end-append (codes "int32") after h) refl
read_name uint64 after text known h = rw (trim_end-append (codes "uint64") after h) refl
read_name int64 after text known h = rw (trim_end-append (codes "int64") after h) refl
read_name float32 after text known h = rw (trim_end-append (codes "float32") after h) refl
read_name float64 after text known h = rw (trim_end-append (codes "float64") after h) refl
read_name string after text known h = rw (trim_end-append (codes "string") after h) refl
read_name bytes after text known h = rw (trim_end-append (codes "bytes") after h) refl

-- The name of a variable type other than unknown is read back in any mixture of capital and small
-- letters and between any blanks, and the type is signed exactly if it is a signed integer, whatever
-- the sign was set to before.
pub parse_variable_type-type_name :
    (t : VariableType) (before word after : Bytes) (is_signed : Bool)
    → t ≢ unknown
    → AllBlank before
    → AllBlank after
    → map lower word ≡ type_name t
    → parse_variable_type (before ++ (word ++ after)) is_signed ≡ (ok t, is_signed_type t)
unfolding parse_variable_type
parse_variable_type-type_name t before word after is_signed known b a w =
    let text = before ++ (word ++ after) in
    ap (λ s. type_of text (trim_end (skip_ws s)))
      (map-append lower before (word ++ after)
        ∙ ap (◌++◌ (map lower before))
            (map-append lower word after ∙ ap (λ s. s ++ map lower after) w))
    ∙ ap (λ s. type_of text (trim_end s)) (skip_ws-blank before (type_name t ++ map lower after) b)
    ∙ read_name t after text known a
