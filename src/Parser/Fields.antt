-- ===== src/Parser/Fields.antt =====
-- src/parser.cpp: the fields that `parse_string` takes from one <CheatEntry>.
use gtlibcpp.Common.{
  ℕ, ◌==◌, not, Bool, false, List, [], ◌∷◌, ◌++◌, Option, none, some, if◌then◌else◌, Bytes, codes,
  to_string, equal, is_empty,
}
use gtlibcpp.Types.{Address}
use gtlibcpp.Scan.{ℤ, pos, negsuc, to_u64, starts}
use gtlibcpp.Parser.Xml.{
  XmlNode, XmlNodes, no_nodes, child, name_of, text_of, attrs_of, children_of, attribute,
  find_child,
}
use gtlibcpp.Parser.Types.{VariableType, parse_int64, parse_hotkey_text, code_in}

pub record CheatEntry : Type 0 where
  pub id : Bytes
  pub description : Bytes
  pub section : Bytes
  pub address : Address
  pub offsets : List Address
  pub type : VariableType
  pub is_signed : Bool
  pub hotkey_action : Bytes
  pub hotkeys : List ℤ
  pub default_value_text : Bytes
  pub auto_assembler : Bool
  pub shell_command : Bool
  pub raw_byte_write : Bool
  pub failure_reason : Bytes

pub record CheatTable : Type 0 where
  pub title : Bytes
  pub version_ce : ℕ
  pub entries : List CheatEntry
  pub diagnostics : List Bytes
  pub unsupported_entries : List CheatEntry

-- The text of a node that may be missing.
abbrev pub text_in : Option XmlNode → Bytes
text_in none = []
text_in (some n) = text_of n

abbrev pub or_empty : Option Bytes → Bytes
or_empty none = []
or_empty (some text) = text

abbrev pub or_else : Option Bytes → Bytes → Bytes
or_else none other = other
or_else (some text) other = text

-- The first text that is not empty, with its prefix.
abbrev pub first_of : List (Bytes × Bytes) → Bytes → Bytes
first_of [] fallback = fallback
first_of ((prefix, text) ∷ rest) fallback =
    if is_empty text then first_of rest fallback else prefix ++ text

unfoldable pub build_entry_id : XmlNode → ℕ → Bytes
build_entry_id entry fallback_index =
    first_of
      ((codes "id:", or_empty (attribute (codes "ID") (attrs_of entry)))
        ∷ (codes "id:", text_in (find_child entry (codes "ID")))
        ∷ (codes "desc:", or_empty (attribute (codes "Description") (attrs_of entry)))
        ∷ (codes "desc:", text_in (find_child entry (codes "Description")))
        ∷ [])
      (codes "anon:" ++ to_string fallback_index)

-- `find('+')`: the text before the first plus sign and the text after it.
unfoldable pub split_plus : Bytes → Option (Bytes × Bytes)
split_plus [] = none
split_plus (c ∷ rest) =
    if c == b'+'
    then some ([], rest)
    else elim (split_plus rest) [ none ↦ none | some (a, b) ↦ some (c ∷ a, b) ]

-- What the address gives: the address, the section, and the diagnostics.
pub record Located : Type 0 where
  pub address : Address
  pub section : Bytes
  pub notes : List Bytes

abbrev pub symbolic : Bytes → Bytes → Bytes
symbolic id text = codes "entry " ++ (id ++ (codes " has a symbolic address expression: " ++ text))

abbrev pub module_address : Bytes → Bytes → Bytes → Located
module_address section module_name offset_text = elim (parse_int64 offset_text) [
  | none ↦ record { address = 0; section = section; notes = [] }
  | some v ↦ record {
    address = to_u64 v;
    section = if is_empty section then module_name else section;
    notes = [];
  }
]

abbrev pub plus_address : Bytes → Bytes → Bytes → Option (Bytes × Bytes) → Located
plus_address id section text (some (module_name, offset_text)) =
    module_address section module_name offset_text
plus_address id section text none = record {
  address = 0;
  section = section;
  notes = if starts b'"' text then symbolic id text ∷ [] else [];
}

-- The address from the child <Address>.
abbrev pub node_address : Bytes → Bytes → Option XmlNode → Located
node_address id section none = record { address = 0; section = section; notes = [] }
node_address id section (some n) = elim (parse_int64 (text_of n)) [
  | some v ↦ record { address = to_u64 v; section = section; notes = [] }
  | none ↦ plus_address id section (text_of n) (split_plus (text_of n))
]

-- The address from the attribute; 0 if there is none that is a number.
abbrev pub attribute_address : Option Bytes → Address
attribute_address none = 0
attribute_address (some text) = elim (parse_int64 text) [ none ↦ 0 | some v ↦ to_u64 v ]

unfoldable pub locate : Bytes → Bytes → XmlNode → Located
locate id section variable =
    let address = attribute_address (attribute (codes "Address") (attrs_of variable)) in
    if address == 0
    then node_address id section (find_child variable (codes "Address"))
    else record { address = address; section = section; notes = [] }

abbrev pub address_in : Bytes → List Address
address_in text = elim (parse_int64 text) [ none ↦ [] | some v ↦ to_u64 v ∷ [] ]

unfoldable pub offset_nodes : XmlNodes → List Address
offset_nodes no_nodes = []
offset_nodes (child n rest) =
    (if equal (name_of n) (codes "Offset") then address_in (text_of n) else []) ++ offset_nodes rest

abbrev pub offsets_in : Option XmlNode → List Address
offsets_in none = []
offsets_in (some n) = address_in (text_of n) ++ offset_nodes (children_of n)

-- <DisplayAs> comes before a <VariableType> that is not empty, and that before <Type>.
abbrev pub type_text : XmlNode → XmlNode → Bytes
type_text entry variable = elim (find_child variable (codes "DisplayAs")) [
  | some display ↦ text_of display
  | none ↦
      if is_empty (text_in (find_child entry (codes "VariableType")))
      then text_in (find_child variable (codes "Type"))
      else text_in (find_child entry (codes "VariableType"))
]

abbrev pub is_zero : ℤ → Bool
is_zero (pos n) = n == 0
is_zero (negsuc n) = false

abbrev pub shown_signed : Option XmlNode → Bool
shown_signed none = false
shown_signed (some n) = elim (parse_int64 (text_of n)) [ none ↦ false | some v ↦ not (is_zero v) ]

unfoldable pub key_nodes : XmlNodes → List ℤ
key_nodes no_nodes = []
key_nodes (child n rest) =
    (if equal (name_of n) (codes "Key") then code_in (text_of n) else []) ++ key_nodes rest

abbrev pub keys_in : Option XmlNode → List ℤ
keys_in none = []
keys_in (some n) = key_nodes (children_of n)

abbrev pub node_code : Option XmlNode → List ℤ
node_code none = []
node_code (some n) = code_in (text_of n)

abbrev pub hotkey_codes : XmlNode → List ℤ
hotkey_codes hk =
    parse_hotkey_text (text_of hk)
    ++ (node_code (find_child hk (codes "Code"))
        ++ (keys_in (find_child hk (codes "Keys")) ++ node_code (find_child hk (codes "Key"))))

abbrev pub action_of : XmlNode → Bytes → Bytes
action_of hk old = elim (attribute (codes "Action") (attrs_of hk)) [
  | some action ↦ action
  | none ↦ elim (find_child hk (codes "Action")) [ none ↦ old | some n ↦ text_of n ]
]

abbrev pub noted : Bytes → Bytes → Bytes
noted id text = codes "entry " ++ (id ++ text)

abbrev pub real_address : Bytes → Option XmlNode → List Bytes
real_address id none = []
real_address id (some n) = elim (attribute (codes "RealAddress") (attrs_of n)) [
  | none ↦ []
  | some text ↦ elim (parse_int64 text) [
    | none ↦ []
    | some _ ↦ noted id (codes " has RealAddress=0x" ++ text) ∷ []
  ]
]

abbrev pub last_value : Option XmlNode → Bytes
last_value none = []
last_value (some n) = or_empty (attribute (codes "Value") (attrs_of n))

abbrev pub default_text : XmlNode → XmlNode → Bytes
default_text entry variable =
    let own = text_in (find_child variable (codes "Value")) in
    if is_empty own then last_value (find_child entry (codes "LastState")) else own
