-- ===== src/Parser/Entry.antt =====
-- src/parser.cpp: what `parse_string` does for one <CheatEntry>.
use gtlibcpp.Common.{
  ℕ, Bool, true, false, List, [], ◌∷◌, ◌++◌, Option, none, some, if◌then◌else◌, Bytes, codes, equal,
}
use gtlibcpp.Result.{Result, ok, err}
use gtlibcpp.Parser.Xml.{
  XmlNode, XmlNodes, no_nodes, child, name_of, text_of, attrs_of, children_of, attribute,
  find_child,
}
use gtlibcpp.Parser.Types.{VariableType, parse_variable_type, parse_int64}
use gtlibcpp.Parser.Fields.{
  CheatEntry, CheatTable, text_in, or_else, build_entry_id, locate, offsets_in, type_text,
  shown_signed, hotkey_codes, action_of, noted, real_address, default_text,
}

abbrev pub has_any : XmlNode → List Bytes → Bool
has_any n [] = false
has_any n (name ∷ names) = elim (find_child n name) [ some _ ↦ true | none ↦ has_any n names ]

abbrev pub scripts : List Bytes
scripts =
    codes "AssemblerScript"
    ∷ codes "AutoAssembler"
    ∷ codes "AA"
    ∷ codes "AAScript"
    ∷ codes "LuaScript"
    ∷ []

abbrev pub injections : List Bytes
injections = codes "Inject" ∷ codes "LoadLibrary" ∷ codes "ShellExecute" ∷ codes "DllInjection" ∷ []

abbrev pub raw_bytes : List Bytes
raw_bytes = codes "ByteArray" ∷ codes "Bytes" ∷ []

unfoldable pub add_hotkeys : XmlNodes → CheatEntry → CheatEntry
add_hotkeys no_nodes e = e
add_hotkeys (child n rest) e = add_hotkeys rest (
    if equal (name_of n) (codes "Hotkey")
    then record e {
      hotkeys = e.hotkeys ++ hotkey_codes n;
      hotkey_action = action_of n e.hotkey_action;
    }
    else e)

abbrev pub with_hotkeys : Option XmlNode → CheatEntry → CheatEntry
with_hotkeys none e = e
with_hotkeys (some n) e = add_hotkeys (children_of n) e

abbrev pub skip_entry : CheatEntry → Bytes → List Bytes → CheatTable → CheatTable
skip_entry e why notes t = record t {
  unsupported_entries = t.unsupported_entries ++ e ∷ [];
  diagnostics = t.diagnostics ++ (notes ++ noted e.id why ∷ []);
}

abbrev pub group_note : Bytes → Option XmlNode → List Bytes
group_note id none = []
group_note id (some n) = noted id (codes " is a group header: " ++ text_of n) ∷ []

abbrev pub with_color : Option XmlNode → CheatEntry → CheatEntry
with_color none e = e
with_color (some n) e = elim (parse_int64 (text_of n)) [
  | none ↦ e
  | some _ ↦ record e { section = codes "color:0x" ++ text_of n }
]

-- An entry whose kind is supported.
abbrev pub keep_entry : XmlNode → CheatEntry → List Bytes → CheatTable → CheatTable
keep_entry n e notes t = record t {
  entries =
      t.entries
      ++ with_color (find_child n (codes "Color")) (with_hotkeys (find_child n (codes "Hotkeys")) e)
        ∷ [];
  diagnostics = t.diagnostics ++ (notes ++ group_note e.id (find_child n (codes "GroupHeader")));
}

-- The fail-closed checks.
unfoldable pub classify : XmlNode → CheatEntry → List Bytes → CheatTable → CheatTable
classify n e notes t =
    if has_any n scripts
    then skip_entry
        (record e {
          auto_assembler = true;
          failure_reason = codes "Auto Assembler / Lua entries are not supported in this build";
        })
        (codes ": Auto Assembler skipped") notes t
    else if has_any n injections
    then skip_entry
        (record e {
          shell_command = true;
          failure_reason = codes "DLL/shell injection is not supported";
        })
        (codes ": shell/inject skipped") notes t
    else if has_any n raw_bytes
    then skip_entry
        (record e {
          raw_byte_write = true;
          failure_reason = codes "raw byte-array writes are not supported";
        })
        (codes ": raw byte-array skipped") notes t
    else keep_entry n e notes t

-- <Variable> is looked into in place of the entry, if there is one.
abbrev pub variable_of : XmlNode → XmlNode
variable_of n = elim (find_child n (codes "Variable")) [ none ↦ n | some v ↦ v ]

-- The entry before its type is read, and the diagnostics so far.
unfoldable pub draft : ℕ → XmlNode → CheatEntry × List Bytes
draft index n =
    let id = build_entry_id n index in
    let at = locate id (text_in (find_child n (codes "Section"))) (variable_of n) in
    (
      record {
        id = id;
        description =
            or_else (attribute (codes "Description") (attrs_of n))
              (text_in (find_child n (codes "Description")));
        section = at.section;
        address = at.address;
        offsets = offsets_in (find_child (variable_of n) (codes "Offsets"));
        type = VariableType.unknown;
        is_signed = shown_signed (find_child n (codes "ShowAsSigned"));
        hotkey_action = [];
        hotkeys = [];
        default_value_text = [];
        auto_assembler = false;
        shell_command = false;
        raw_byte_write = false;
        failure_reason = [];
      },
      at.notes,
    )

-- From the type on.
unfoldable pub typed_entry :
    XmlNode → CheatEntry → List Bytes → Result VariableType × Bool → CheatTable → CheatTable
typed_entry n e notes (err x, is_signed) t =
    skip_entry (record e { failure_reason = x.message }) (codes ": " ++ x.message) notes t
typed_entry n e notes (ok type, is_signed) t =
    classify n
      (record e {
        type = type;
        is_signed = is_signed;
        default_value_text = default_text n (variable_of n);
      })
      (notes ++ real_address e.id (find_child n (codes "LastState"))) t

unfoldable pub add_entry : ℕ → XmlNode → CheatTable → CheatTable
add_entry index n t =
    let (e, notes) = draft index n in
    typed_entry n e notes (parse_variable_type (type_text n (variable_of n)) e.is_signed) t
