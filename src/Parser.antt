-- ===== src/Parser.antt =====
-- src/parser.cpp, include/gtlibcpp/parser.hpp: `CheatTableParser`. `dll_load` of an entry is never
-- set by the source and is left out; `parse_file` reads a file and calls `parse_string`.
pub mod Xml
pub mod Types
pub mod Fields
pub mod Entry
pub mod Reading
pub mod Totality
pub mod Sorting
pub mod Closed
pub mod Names
use gtlibcpp.Common.{
  ℕ, zero, suc, ◌+◌, ◌==◌, Bool, true, false, List, [], ◌∷◌, ◌++◌, Option, none, some,
  if◌then◌else◌, Bytes, codes, to_string, equal, is_empty, length,
}
use gtlibcpp.Result.{Error, parse_failed, Result, ok, err, make_error}
use Xml.{XmlNode, XmlNodes, no_nodes, child, name_of, text_of, children_of, find_child, parse_root}
use Types.{parse_int64, to_u32, sanitize}
use Fields.{CheatEntry, CheatTable}
use Entry.{add_entry}

abbrev pub diagnose : Bytes → CheatTable → CheatTable
diagnose text t = record t { diagnostics = t.diagnostics ++ text ∷ [] }

-- The loop over the children of <CheatEntries>; `index` counts the entries.
unfoldable pub add_entries : ℕ → XmlNodes → CheatTable → CheatTable
add_entries index no_nodes table = table
add_entries index (child n rest) table =
    let is_entry = equal (name_of n) (codes "CheatEntry") in
    add_entries (if is_entry then index + 1 else index) rest (
      if is_entry
      then add_entry index n table
      else diagnose (codes "ignoring unknown child of CheatEntries: " ++ name_of n) table)

abbrev pub empty_table : CheatTable
empty_table = record {
  title = [];
  version_ce = 0;
  entries = [];
  diagnostics = [];
  unsupported_entries = [];
}

abbrev pub with_title : Option XmlNode → CheatTable → CheatTable
with_title none t = t
with_title (some n) t = record t { title = text_of n }

abbrev pub with_version : Option XmlNode → CheatTable → CheatTable
with_version none t = t
with_version (some n) t = elim (parse_int64 (text_of n)) [
  | none ↦ t
  | some v ↦ record t { version_ce = to_u32 v }
]

abbrev pub summary : CheatTable → Bytes
summary t =
    codes "parsed "
    ++ (to_string (length t.entries)
        ++ (codes " supported entries, "
            ++ (to_string (length t.unsupported_entries) ++ codes " unsupported entries")))

abbrev pub with_entries : Option XmlNode → CheatTable → CheatTable
with_entries none t = diagnose (codes "table has no <CheatEntries> block") t
with_entries (some n) t = let t' = add_entries 0 (children_of n) t in diagnose (summary t') t'

-- From the test of the root's name on.
unfoldable pub read_table : XmlNode → Result CheatTable
read_table root =
    if equal (name_of root) (codes "CheatTable")
    then ok (
        with_entries (find_child root (codes "CheatEntries")) (
          with_version (find_child root (codes "VersionCE"))
            (with_title (find_child root (codes "Title")) empty_table)))
    else err (
        make_error parse_failed (codes "root element is not <CheatTable>: " ++ name_of root)
          (codes "CheatTableParser::parse_string") 0 0)

abbrev pub xml_failed : Error → Error
xml_failed e =
    record (make_error e.code (codes "XML parse failed: " ++ e.message)
      (codes "CheatTableParser::parse_string") 0 0) { system_error = e.system_error }

unfoldable pub parse_string : Bytes → Result CheatTable
parse_string xml = elim (parse_root (sanitize xml)) [
  | err e ↦ err (xml_failed e)
  | ok root ↦ read_table root
]

-- `parse_file`; `none` is a file that cannot be opened.
abbrev pub parse_file : Bytes → Option Bytes → Result CheatTable
parse_file path none = err (
    make_error parse_failed (codes "could not open " ++ path) (codes "CheatTableParser::parse_file")
      0 0)
parse_file path (some content) = parse_string content
