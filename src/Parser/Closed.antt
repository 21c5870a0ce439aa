-- ===== src/Parser/Closed.antt =====
-- src/parser.cpp: which entries of a table `parse_string` accepts.
use gtlibcpp.Common.{
  ℕ, ◌≡◌, refl, sym, ap, ◌∙◌, Bool, true, false, not, ◌&&◌, List, [], ◌++◌, append_assoc,
  append-nil, Option, none, some, arith, if◌then◌else◌, Bytes, codes, equal,
}
use gtlibcpp.Result.{Result, ok, err}
use gtlibcpp.Scan.Within.{if_both}
use gtlibcpp.Parser.Xml.{
  parse_root, XmlNode, XmlNodes, no_nodes, child, name_of, children_of, find_child,
}
use gtlibcpp.Parser.Types.{sanitize}
use gtlibcpp.Parser.Fields.{CheatTable, build_entry_id}
use gtlibcpp.Parser.Entry.{add_entry}
use gtlibcpp.Parser.{
  diagnose, add_entries, with_entries, with_version, with_title, empty_table, read_table,
  parse_string, xml_failed,
}
use gtlibcpp.Parser.Sorting.{is_supported, is_entry, when, ids_where, ids, Adds, add_entry-Sorts}

Adds-trans :
    {a b c d : List Bytes} {t u v : CheatTable}
    → Adds a b t u
    → Adds c d u v
    → Adds (a ++ c) (b ++ d) t v
Adds-trans {a} {b} {c} {d} {t} p q = record {
  to_entries = q.to_entries ∙ ap (λ l. l ++ c) p.to_entries ∙ append_assoc (ids t.entries) a c;
  to_unsupported =
      q.to_unsupported
      ∙ ap (λ l. l ++ d) p.to_unsupported
      ∙ append_assoc (ids t.unsupported_entries) b d;
}

Adds-nothing :
    (t t' : CheatTable)
    → t'.entries ≡ t.entries
    → t'.unsupported_entries ≡ t.unsupported_entries
    → Adds [] [] t t'
Adds-nothing t t' e u = record {
  to_entries = ap ids e ∙ sym (append-nil (ids t.entries));
  to_unsupported = ap ids u ∙ sym (append-nil (ids t.unsupported_entries));
}

-- One child of <CheatEntries>.
one_child :
    (index : ℕ) (n : XmlNode) (t : CheatTable)
    → Adds
        (when (is_entry n && is_supported n) (build_entry_id n index))
        (when (is_entry n && not (is_supported n)) (build_entry_id n index))
        t
        (if is_entry n
          then add_entry index n t
          else diagnose (codes "ignoring unknown child of CheatEntries: " ++ name_of n) t)
one_child index n t = cases (is_entry n)
  where
    cases :
        (b : Bool)
        → Adds
            (when (b && is_supported n) (build_entry_id n index))
            (when (b && not (is_supported n)) (build_entry_id n index))
            t
            (if b
              then add_entry index n t
              else diagnose (codes "ignoring unknown child of CheatEntries: " ++ name_of n) t)
    cases true = add_entry-Sorts index n t
    cases false = Adds-nothing t _ refl refl

add_entries-Adds :
    (ns : XmlNodes) (index : ℕ) (t : CheatTable)
    → Adds (ids_where true index ns) (ids_where false index ns) t (add_entries index ns t)
unfolding add_entries
add_entries-Adds no_nodes index t = Adds-nothing t t refl refl
add_entries-Adds (child n rest) index t =
    Adds-trans (one_child index n t) (add_entries-Adds rest _ _)

Adds-with_version : (o : Option XmlNode) (t : CheatTable) → Adds [] [] t (with_version o t)
Adds-with_version none t = Adds-nothing t t refl refl
Adds-with_version (some n) t = Adds-nothing t _ (ground arith) (ground arith)

Adds-with_title : (o : Option XmlNode) (t : CheatTable) → Adds [] [] t (with_title o t)
Adds-with_title none t = Adds-nothing t t refl refl
Adds-with_title (some n) t = Adds-nothing t _ refl refl

-- The children of <CheatEntries>, if there is such a block.
abbrev pub children_in : Option XmlNode → XmlNodes
children_in none = no_nodes
children_in (some n) = children_of n

Adds-with_entries :
    (o : Option XmlNode) (t : CheatTable)
    → Adds
        (ids_where true 0 (children_in o))
        (ids_where false 0 (children_in o))
        t
        (with_entries o t)
Adds-with_entries none t = Adds-nothing t _ refl refl
Adds-with_entries (some n) t =
    let a = add_entries-Adds (children_of n) 0 t in
    record { to_entries = a.to_entries; to_unsupported = a.to_unsupported }

abbrev pub entries_block : XmlNode → XmlNodes
entries_block root = children_in (find_child root (codes "CheatEntries"))

read_table-sorts :
    (root : XmlNode) (t : CheatTable)
    → read_table root ≡ ok t
    → (ids t.entries ≡ ids_where true 0 (entries_block root))
      × (ids t.unsupported_entries ≡ ids_where false 0 (entries_block root))
unfolding read_table
read_table-sorts root t =
    let block = find_child root (codes "CheatEntries") in
    if_both
      (λ (r : Result CheatTable).
        r ≡ ok t
        → (ids t.entries ≡ ids_where true 0 (children_in block))
          × (ids t.unsupported_entries ≡ ids_where false 0 (children_in block)))
      (equal (name_of root) (codes "CheatTable"))
      (λ _ h.
        let a = Adds-trans (Adds-with_title (find_child root (codes "Title")) empty_table) (
          Adds-trans (Adds-with_version (find_child root (codes "VersionCE")) _)
            (Adds-with_entries block _)) in
        let e : with_entries block (
              with_version (find_child root (codes "VersionCE"))
                (with_title (find_child root (codes "Title")) empty_table))
            ≡ t =
          cc h in
        (
          ap (λ (x : CheatTable). ids x.entries) (sym e) ∙ a.to_entries,
          ap (λ (x : CheatTable). ids x.unsupported_entries) (sym e) ∙ a.to_unsupported,
        ))
      (λ _ h. absurd (cc h))

-- A text that `parse_string` accepts is a document whose table lists, in order, exactly the
-- direct <CheatEntry> children of its entries block whose type is known and that have no script,
-- injection or raw-byte child as supported, and exactly the other direct ones as unsupported. An
-- entry nested in another one is on neither list.
pub parse_string-sorts :
    (xml : Bytes) (t : CheatTable)
    → parse_string xml ≡ ok t
    → (root : XmlNode) × (parse_root (sanitize xml) ≡ ok root)
      × (ids t.entries ≡ ids_where true 0 (entries_block root))
      × (ids t.unsupported_entries ≡ ids_where false 0 (entries_block root))
unfolding parse_string
parse_string-sorts xml t = sorted (parse_root (sanitize xml))
  where
    sorted :
        (r : Result XmlNode)
        → ◌≡◌ {A = Result CheatTable}
            (elim r [ err x ↦ err (xml_failed x) | ok root ↦ read_table root ])
            (ok t)
        → (root : XmlNode) × (r ≡ ok root)
          × (ids t.entries ≡ ids_where true 0 (entries_block root))
          × (ids t.unsupported_entries ≡ ids_where false 0 (entries_block root))
    sorted (err x) h = absurd (cc h)
    sorted (ok root) h = let (a, b) = read_table-sorts root t h in (root, refl, a, b)
