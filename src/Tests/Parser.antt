-- ===== src/Tests/Parser.antt =====
-- A cheat table with three entries: one supported, one with a script, one of an unknown type.
use gtlibcpp.Common.{
  ◌≡◌, suc, length, refl, true, false, none, [], ◌∷◌, Bytes, equal, to_string, codes,
}
use gtlibcpp.Result.{Error, Result, ok, err, parse_failed}
use gtlibcpp.Parser.{empty_table, read_table, add_entries, parse_string}
use gtlibcpp.Parser.Fields.{CheatTable, build_entry_id, locate, offset_nodes}
use gtlibcpp.Parser.Xml.{
  XmlNode, parse_root, skip_prolog, skip_bom, skip_misc, skip_instruction, parse_element,
  parse_children, parse_tag, parse_name, name_loop, parse_attributes, quoted, value_loop, text_loop,
  close_tag, attribute, find_in,
}
use gtlibcpp.Parser.Names.{parse_variable_type-type_name}
use gtlibcpp.Parser.Types.{
  int16, type_name, sanitize, parse_variable_type, type_of, trim_end, parse_int64,
}
use gtlibcpp.Parser.Entry.{add_entry, draft, typed_entry, classify, add_hotkeys}
use gtlibcpp.Scan.{skip_ws, after_word, stoll, signed_number, prefixed, magnitude}
use gtlibcpp.Parser.Totality.{parse_string-total}
use gtlibcpp.Parser.Sorting.{ids, ids_where}
use gtlibcpp.Parser.Closed.{entries_block, parse_string-sorts}

abbrev xml : Bytes
xml =
    codes
      "<?xml version=\"1.0\"?>\n<CheatTable><CheatEntries><CheatEntry ID=\"1\"><Address>0x10</Address><VariableType>4 Bytes</VariableType></CheatEntry><CheatEntry ID=\"2\"><VariableType>Float</VariableType><LuaScript>x</LuaScript></CheatEntry><CheatEntry ID=\"3\"><VariableType>Pony</VariableType></CheatEntry></CheatEntries></CheatTable>"

abbrev table_of : Result CheatTable → CheatTable
table_of (ok t) = t
table_of other = empty_table

-- What the parser makes of it: the ids of the supported and of the other entries.
lists :
    (ids (table_of (parse_string xml)).entries ≡ codes "id:1" ∷ [])
    × (ids (table_of (parse_string xml)).unsupported_entries ≡ codes "id:2" ∷ codes "id:3" ∷ [])
unfolding parse_string codes equal parse_root sanitize skip_misc skip_ws skip_prolog after_word
    skip_instruction parse_element parse_children parse_tag parse_name name_loop parse_attributes
    quoted value_loop text_loop close_tag read_table add_entries add_entry draft typed_entry
    classify build_entry_id locate parse_variable_type type_of trim_end attribute find_in
    parse_int64 stoll signed_number prefixed magnitude add_hotkeys offset_nodes to_string
lists = (refl, refl)

parse_string-sorts_example :
    (root : XmlNode) × (parse_root (sanitize xml) ≡ ok root)
    × (ids (table_of (parse_string xml)).entries ≡ ids_where true 0 (entries_block root))
    × (ids (table_of (parse_string xml)).unsupported_entries
        ≡ ids_where false 0 (entries_block root))
unfolding parse_string codes equal parse_root sanitize skip_misc skip_ws skip_prolog after_word
    skip_instruction parse_element parse_children parse_tag parse_name name_loop parse_attributes
    quoted value_loop text_loop close_tag read_table add_entries add_entry draft typed_entry
    classify build_entry_id locate parse_variable_type type_of trim_end attribute find_in
    parse_int64 stoll signed_number prefixed magnitude add_hotkeys offset_nodes to_string
parse_string-sorts_example = parse_string-sorts xml (table_of (parse_string xml)) refl

-- An element that is never closed.
parse_string-total_example :
    ((e : Error) → parse_string (codes "<a>") ≡ err e → e.code ≡ parse_failed)
    × (after_word (codes "<?") (
          skip_prolog
            (suc (length (sanitize (codes "<a>"))))
            (skip_bom (skip_ws (sanitize (codes "<a>")))))
        ≡ none)
parse_string-total_example = parse_string-total (codes "<a>")

parse_variable_type-type_name_example :
    parse_variable_type (codes " Int16\t") false ≡ (ok int16, true)
unfolding type_name codes
parse_variable_type-type_name_example =
    parse_variable_type-type_name int16 (codes " ") (codes "Int16") (codes "\t") false
      (λ e. absurd (cc e)) (refl, tt) (refl, tt) refl
