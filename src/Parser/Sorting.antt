-- ===== src/Parser/Sorting.antt =====
-- src/parser.cpp: on which of the two lists of a table an entry comes.
use gtlibcpp.Common.{
  ℕ, ◌+◌, ◌≡◌, refl, sym, ap, ◌∙◌, Bool, true, false, not, ◌&&◌, ◌||◌, List, [], ◌∷◌, ◌++◌, map,
  append-nil, Option, none, some, arith, if◌then◌else◌, Bytes, codes, equal,
}
use mathlib.Core.Path.{subst}
use mathlib.Core.List.{map-append}
use gtlibcpp.Result.{Result, ok, err}
use gtlibcpp.Scan.Within.{if_both}
use gtlibcpp.Parser.Xml.{XmlNode, XmlNodes, no_nodes, child, name_of, children_of, find_child}
use gtlibcpp.Parser.Types.{VariableType, parse_variable_type}
use gtlibcpp.Parser.Fields.{CheatEntry, CheatTable, build_entry_id, type_text}
use gtlibcpp.Parser.Entry.{
  scripts, injections, raw_bytes, has_any, add_hotkeys, with_hotkeys, skip_entry, with_color,
  keep_entry, classify, variable_of, draft, typed_entry, add_entry,
}

-- A child that makes an entry dangerous.
abbrev pub is_dangerous : XmlNode → Bool
is_dangerous n = has_any n scripts || (has_any n injections || has_any n raw_bytes)

abbrev pub has_value {ℓ} : {A : Type ℓ} → Result A → Bool
has_value (ok a) = true
has_value (err e) = false

-- The type of the entry is known, and it has no dangerous child.
abbrev pub is_supported : XmlNode → Bool
is_supported n =
    has_value (parse_variable_type (type_text n (variable_of n)) false).0 && not (is_dangerous n)

abbrev pub is_entry : XmlNode → Bool
is_entry n = equal (name_of n) (codes "CheatEntry")

abbrev pub when : Bool → Bytes → List Bytes
when b id = if b then id ∷ [] else []

-- The ids of the supported entries (or of the others), in order, where `index` counts the entries.
abbrev pub ids_where : Bool → ℕ → XmlNodes → List Bytes
ids_where good index no_nodes = []
ids_where good index (child n rest) =
    when (is_entry n && (if good then is_supported n else not (is_supported n)))
      (build_entry_id n index)
    ++ ids_where good (if is_entry n then index + 1 else index) rest

abbrev pub ids : List CheatEntry → List Bytes
ids es = map (λ (e : CheatEntry). e.id) es

-- The ids that a step adds to the two lists.
pub record Adds (kept skipped : List Bytes) (t t' : CheatTable) : Type 0 where
  pub to_entries : ids t'.entries ≡ ids t.entries ++ kept
  pub to_unsupported : ids t'.unsupported_entries ≡ ids t.unsupported_entries ++ skipped

pub id-add_hotkeys : (ns : XmlNodes) (e : CheatEntry) → (add_hotkeys ns e).id ≡ e.id
unfolding add_hotkeys
id-add_hotkeys no_nodes e = refl
id-add_hotkeys (child n rest) e =
    id-add_hotkeys rest _
    ∙ if_both (λ (x : CheatEntry). x.id ≡ e.id) (equal (name_of n) (codes "Hotkey")) (λ _. refl)
        (λ _. refl)

pub id-with_hotkeys : (o : Option XmlNode) (e : CheatEntry) → (with_hotkeys o e).id ≡ e.id
id-with_hotkeys none e = refl
id-with_hotkeys (some n) e = id-add_hotkeys (children_of n) e

pub id-with_color : (o : Option XmlNode) (e : CheatEntry) → (with_color o e).id ≡ e.id
id-with_color none e = refl
id-with_color (some n) e = ground arith

pub ids-snoc :
    (es : List CheatEntry) (e : CheatEntry) (id : Bytes)
    → e.id ≡ id
    → ids (es ++ e ∷ []) ≡ ids es ++ id ∷ []
ids-snoc es e id h =
    map-append (λ (x : CheatEntry). x.id) es (e ∷ []) ∙ ap (λ i. ids es ++ i ∷ []) h

pub skip_entry-Adds :
    (e : CheatEntry) (why : Bytes) (notes : List Bytes) (t : CheatTable)
    → Adds [] (e.id ∷ []) t (skip_entry e why notes t)
skip_entry-Adds e why notes t = record {
  to_entries = sym (append-nil (ids t.entries));
  to_unsupported = ids-snoc t.unsupported_entries e e.id refl;
}

pub keep_entry-Adds :
    (n : XmlNode) (e : CheatEntry) (notes : List Bytes) (t : CheatTable)
    → Adds (e.id ∷ []) [] t (keep_entry n e notes t)
keep_entry-Adds n e notes t = record {
  to_entries = ids-snoc t.entries _ e.id (
      id-with_color (find_child n (codes "Color")) _
      ∙ id-with_hotkeys (find_child n (codes "Hotkeys")) e);
  to_unsupported = sym (append-nil (ids t.unsupported_entries));
}

-- One entry goes to one of the lists.
abbrev pub Sorts : Bool → Bytes → CheatTable → CheatTable → Type 0
Sorts good id t t' = Adds (when good id) (when (not good) id) t t'

pub classify-Sorts :
    (n : XmlNode) (e : CheatEntry) (notes : List Bytes) (t : CheatTable)
    → Sorts (not (is_dangerous n)) e.id t (classify n e notes t)
unfolding classify
classify-Sorts n e notes t =
    let P : CheatTable → Type 0 = Sorts (not (is_dangerous n)) e.id t in
    if_both P (has_any n scripts) (λ h. bad (ground arith) (skip_entry-Adds _ _ notes t))
      (λ h.
        if_both P (has_any n injections) (λ k. bad (ground arith) (skip_entry-Adds _ _ notes t))
          (λ k.
            if_both P (has_any n raw_bytes) (λ l. bad (ground arith) (skip_entry-Adds _ _ notes t))
              (λ l.
                let q : not (is_dangerous n) ≡ true = ground arith in
                subst (λ b. Sorts b e.id t (keep_entry n e notes t)) (sym q)
                  (keep_entry-Adds n e notes t))))
  where
    bad :
        {t' : CheatTable}
        → not (is_dangerous n) ≡ false
        → Adds [] (e.id ∷ []) t t'
        → Sorts (not (is_dangerous n)) e.id t t'
    bad {t'} q a = subst (λ b. Sorts b e.id t t') (sym q) a

-- The type that is read does not depend on <ShowAsSigned>.
pub typed_entry-Sorts :
    (n : XmlNode) (e : CheatEntry) (notes : List Bytes) (t : CheatTable)
    (r : Result VariableType × Bool)
    → Sorts (has_value r.0 && not (is_dangerous n)) e.id t (typed_entry n e notes r t)
unfolding typed_entry
typed_entry-Sorts n e notes t (err x, s) = skip_entry-Adds _ _ notes t
typed_entry-Sorts n e notes t (ok type, s) = classify-Sorts n _ _ t

pub id-draft : (index : ℕ) (n : XmlNode) → (draft index n).0.id ≡ build_entry_id n index
unfolding draft
id-draft index n = refl

pub add_entry-Sorts :
    (index : ℕ) (n : XmlNode) (t : CheatTable)
    → Sorts (is_supported n) (build_entry_id n index) t (add_entry index n t)
unfolding add_entry parse_variable_type
add_entry-Sorts index n t =
    subst (λ id. Sorts (is_supported n) id t (add_entry index n t)) (id-draft index n)
      (typed_entry-Sorts n (draft index n).0 (draft index n).1 t
        (parse_variable_type (type_text n (variable_of n)) (draft index n).0.is_signed))
