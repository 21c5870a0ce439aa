-- ===== src/Parser/Xml.antt =====
-- src/parser.cpp: `XmlNode` and `XmlReader`. A reader takes the text from `pos_` on.
use gtlibcpp.Common.{
  ℕ, zero, suc, ◌+◌, ◌*◌, ◌==◌, ◌||◌, ◌&&◌, Bool, true, false, List, [], ◌∷◌, ◌++◌, Option, none,
  some, if◌then◌else◌, Bytes, codes, length, equal, is_empty,
}
use gtlibcpp.Result.{Error, internal, parse_failed, Result, ok, err, make_error}
use gtlibcpp.Scan.{
  is_space, is_alnum, skip_ws, after_word, starts, tail, Read, done, fails, out_of_fuel, ◌>>=◌,
}

-- `std::map<std::string, std::string>`; only the first value of a key is kept.
abbrev pub Attributes : Type 0
Attributes = List (Bytes × Bytes)

mutual
  pub data XmlNode : Type 0 where
    node : Bytes → Bytes → Attributes → XmlNodes → XmlNode

  pub data XmlNodes : Type 0 where
    no_nodes : XmlNodes
    child : XmlNode → XmlNodes → XmlNodes

abbrev pub name_of : XmlNode → Bytes
name_of (node name text attrs children) = name

abbrev pub text_of : XmlNode → Bytes
text_of (node name text attrs children) = text

abbrev pub attrs_of : XmlNode → Attributes
attrs_of (node name text attrs children) = attrs

abbrev pub children_of : XmlNode → XmlNodes
children_of (node name text attrs children) = children

-- `std::map::find`
unfoldable pub attribute : Bytes → Attributes → Option Bytes
attribute key [] = none
attribute key ((k, v) ∷ rest) = if equal k key then some v else attribute key rest

-- `std::map::emplace`
abbrev pub emplace : Bytes → Bytes → Attributes → Attributes
emplace key v attrs = elim (attribute key attrs) [ none ↦ attrs ++ (key, v) ∷ [] | some _ ↦ attrs ]

abbrev pub xml_error : Bytes → Bytes → Error
xml_error message operation = make_error parse_failed message operation 0 0

abbrev pub element_error : Bytes → Error
element_error message = xml_error message (codes "XmlReader::parse_element")

-- `skip_whitespace_and_comments`; the flag tells that the position is inside a comment. Of another
-- markup declaration only the first character is passed over.
unfoldable pub skip_misc : Bool → Bytes → Bytes
skip_misc true (a ∷ b ∷ c ∷ rest) = elim (a == b'-' && (b == b'-' && c == b'>')) [
  | true ↦ skip_misc false rest
  | false ↦ skip_misc true (b ∷ c ∷ rest)
]
skip_misc true text = skip_ws text
skip_misc false (a ∷ b ∷ c ∷ d ∷ rest) = elim (is_space a) [
  | true ↦ skip_misc false (b ∷ c ∷ d ∷ rest)
  | false ↦ elim (a == b'<' && b == b'!') [
    | true ↦ elim (c == b'-' && d == b'-') [ true ↦ skip_misc true rest | false ↦ b ∷ c ∷ d ∷ rest ]
    | false ↦ a ∷ b ∷ c ∷ d ∷ rest
  ]
]
skip_misc false text = skip_ws text

-- `skip_bom`
abbrev pub skip_bom : Bytes → Bytes
skip_bom text = elim (after_word (0xef ∷ 0xbb ∷ 0xbf ∷ []) text) [ none ↦ text | some rest ↦ rest ]

-- The loop to the end of a processing instruction.
unfoldable pub skip_instruction : Bytes → Bytes
skip_instruction (a ∷ b ∷ rest) =
    let more = skip_instruction (b ∷ rest) in if a == b'?' && b == b'>' then rest else more
skip_instruction text = text

-- The loop over processing instructions.
unfoldable pub skip_prolog : ℕ → Bytes → Bytes
skip_prolog zero text = text
skip_prolog (suc f) text = elim (after_word (codes "<?") text) [
  | none ↦ text
  | some rest ↦ skip_prolog f (skip_misc false (skip_instruction rest))
]

abbrev pub is_name_char : ℕ → Bool
is_name_char c = is_alnum c || (c == b'_' || (c == b'-' || (c == b':' || c == b'.')))

unfoldable pub name_loop : Bytes → Bytes → Bytes × Bytes
name_loop out [] = (out, [])
name_loop out (c ∷ rest) =
    let more = name_loop (out ++ c ∷ []) rest in if is_name_char c then more else (out, c ∷ rest)

unfoldable pub parse_name : Bytes → Read Bytes
parse_name text =
    let (out, rest) = name_loop [] text in
    if is_empty out
    then fails (xml_error (codes "expected an element name") (codes "XmlReader::parse_name"))
    else done out rest

-- A semicolon after an entity is optional.
abbrev pub skip_semicolon : Bytes → Bytes
skip_semicolon rest = if starts b';' rest then tail rest else rest

-- One test of `parse_entity`; `more` says that the bound asks for a character after the word.
abbrev pub try_entity : Bool → Bytes → ℕ → Bytes → Read Bytes → Read Bytes
try_entity more word c text other = elim (after_word word text) [
  | none ↦ other
  | some rest ↦ if more && is_empty rest then other else done (c ∷ []) (skip_semicolon rest)
]

unfoldable pub parse_entity : Bytes → Read Bytes
parse_entity text = try_entity false (codes "&lt") b'<' text (
    try_entity true (codes "&gt") b'>' text (
      try_entity true (codes "&amp") b'&' text (
        try_entity true (codes "&quot") b'"' text (
          try_entity true (codes "&apos") 39 text (
            fails
              (xml_error (codes "unsupported XML entity") (codes "XmlReader::parse_entity")))))))

abbrev pub attributes_error : Bytes → Error
attributes_error message = xml_error message (codes "XmlReader::parse_attributes")

abbrev pub unterminated_value : Error
unterminated_value = attributes_error (codes "unterminated attribute value")

-- The loop over the characters of a quoted value, up to and past the closing quote.
unfoldable pub value_loop : ℕ → ℕ → Bytes → Bytes → Read Bytes
value_loop zero quote out text = out_of_fuel
value_loop (suc f) quote out [] = fails unterminated_value
value_loop (suc f) quote out (c ∷ rest) = elim (c == quote) [
  | true ↦ done out rest
  | false ↦ elim (c == b'&') [
    | true ↦ parse_entity (c ∷ rest) >>= λ ent after. value_loop f quote (out ++ ent) after
    | false ↦ value_loop f quote (out ++ c ∷ []) rest
  ]
]

abbrev pub is_quote : ℕ → Bool
is_quote c = c == b'"' || c == 39

-- The value after the equals sign.
unfoldable pub quoted : Bytes → Read Bytes
quoted [] = fails (attributes_error (codes "expected quoted attribute value"))
quoted (c ∷ rest) =
    if is_quote c
    then value_loop (suc (length rest)) c [] rest
    else fails (attributes_error (codes "expected quoted attribute value"))

abbrev pub no_equals : Bytes → Error
no_equals key = attributes_error (codes "expected '=' after attribute name " ++ key)

unfoldable pub parse_attributes : ℕ → Attributes → Bytes → Read Attributes
parse_attributes zero out text = out_of_fuel
parse_attributes (suc f) out text =
    elim (is_empty (skip_ws text) || (starts b'/' (skip_ws text) || starts b'>' (skip_ws text))) [
      | true ↦ done out (skip_ws text)
      | false ↦ parse_name (skip_ws text) >>= λ key after_key.
          elim (starts b'=' (skip_ws after_key)) [
            | false ↦ fails (no_equals key)
            | true ↦ quoted (skip_ws (tail (skip_ws after_key))) >>= λ v rest.
                parse_attributes f (emplace key v out) rest
          ]
    ]

-- `parse_text_until_open_brace`: an entity that is not known stays as it is.
unfoldable pub text_loop : ℕ → Bytes → Bytes → Read Bytes
text_loop zero out text = out_of_fuel
text_loop (suc f) out [] = done out []
text_loop (suc f) out (c ∷ rest) = elim (c == b'<') [
  | true ↦ done out (c ∷ rest)
  | false ↦ elim (c == b'&') [
    | true ↦ elim (parse_entity (c ∷ rest)) [
      | done ent after ↦ text_loop f (out ++ ent) after
      | fails _ ↦ text_loop f (out ++ c ∷ []) rest
      | out_of_fuel ↦ out_of_fuel
    ]
    | false ↦ text_loop f (out ++ c ∷ []) rest
  ]
]

-- The start tag after its `<`: the name, the attributes and the rest from the closing sign on.
abbrev pub Tag : Type 0
Tag = Bytes × Attributes

unfoldable pub parse_tag : Bytes → Read Tag
parse_tag text = parse_name text >>= λ name after_name.
    parse_attributes (suc (length after_name)) [] after_name >>= λ attrs rest.
    done (name, attrs) (skip_ws rest)

-- A closing tag after its `</`.
unfoldable pub close_tag : Bytes → Bytes → Read (Unit {0})
close_tag name text = parse_name text >>= λ close_name rest.
    if equal close_name name
    then (if starts b'>' (skip_ws rest)
        then done tt (tail (skip_ws rest))
        else fails (element_error (codes "expected '>' to close closing tag")))
    else fails (
        element_error
          (codes "mismatched closing tag: expected " ++ (name ++ (codes " got " ++ close_name))))

abbrev pub unterminated_element : Bytes → Error
unterminated_element name = element_error (codes "unterminated element " ++ name)

abbrev pub no_child : Error
no_child = element_error (codes "expected '<' to start a child or closing tag")

unfoldable mutual
  pub parse_element : ℕ → Bytes → Read XmlNode
  parse_element zero text = out_of_fuel
  parse_element (suc f) text = elim (starts b'<' text) [
    | false ↦ fails (element_error (codes "expected '<' to start an element"))
    | true ↦ elim (starts b'/' (tail text)) [
      | true ↦ fails (element_error (codes "unexpected closing tag without an open element"))
      | false ↦ parse_tag (tail text) >>= λ tag rest. elim (starts b'/' rest) [
        | true ↦
            if starts b'>' (tail rest)
            then done (node tag.0 [] tag.1 no_nodes) (tail (tail rest))
            else fails (element_error (codes "expected '>' to close a self-closing tag"))
        | false ↦ elim (starts b'>' rest) [
          | false ↦ fails (element_error (codes "expected '>' to close an open tag"))
          | true ↦ text_loop (suc (length rest)) [] (tail rest) >>= λ inner after.
              parse_children f tag.0 after >>= λ children. done (node tag.0 inner tag.1 children)
        ]
      ]
    ]
  ]

  -- The loop over the children, up to and past the closing tag.
  pub parse_children : ℕ → Bytes → Bytes → Read XmlNodes
  parse_children zero name text = out_of_fuel
  parse_children (suc f) name text = elim (is_empty (skip_misc false text)) [
    | true ↦ fails (unterminated_element name)
    | false ↦ elim (starts b'<' (skip_misc false text)) [
      | false ↦ fails no_child
      | true ↦ elim (starts b'/' (tail (skip_misc false text))) [
        | true ↦ close_tag name (tail (tail (skip_misc false text))) >>= λ _. done no_nodes
        | false ↦ parse_element f (skip_misc false text) >>= λ n rest.
            parse_children f name rest >>= λ ns. done (child n ns)
      ]
    ]
  ]

abbrev pub root_error : Bytes → Error
root_error message = xml_error message (codes "XmlReader::parse_root")

-- `parse_root` after the element. Out of fuel is an error that the source does not have;
-- `parse_root` gives enough.
abbrev pub finish_root : Read XmlNode → Result XmlNode
finish_root (fails e) = err e
finish_root out_of_fuel = err (make_error internal [] [] 0 0)
finish_root (done root rest) =
    if is_empty (skip_misc false rest)
    then ok root
    else err (root_error (codes "trailing content after the root element"))

abbrev pub parse_document : Bytes → Result XmlNode
parse_document text =
    if starts b'<' text
    then finish_root (parse_element (2 * length text + 1) text)
    else err (root_error (codes "document does not begin with an element"))

unfoldable pub parse_root : Bytes → Result XmlNode
parse_root text = parse_document (skip_prolog (suc (length text)) (skip_bom (skip_ws text)))

-- `find_child`
unfoldable pub find_in : Bytes → XmlNodes → Option XmlNode
find_in name no_nodes = none
find_in name (child n rest) = if equal (name_of n) name then some n else find_in name rest

abbrev pub find_child : XmlNode → Bytes → Option XmlNode
find_child n name = find_in name (children_of n)
