-- ===== src/Parser/Totality.antt =====
-- src/parser.cpp: the fuel of `XmlReader`, and the errors of `parse_string`.
use gtlibcpp.Common.{
  ℕ, zero, suc, ◌+◌, ◌*◌, ◌≤◌, ◌<◌, ◌≡◌, refl, sym, ◌∙◌, true, false, [], ◌∷◌, none, some, arith,
  Bytes, length, codes, is_empty, equal, Bool-cases, inl, inr, Option-cases,
}
use gtlibcpp.Result.{Error, parse_failed, Result, ok, err}
use gtlibcpp.Scan.{skip_ws, after_word, tail, starts, Read, done, fails, out_of_fuel}
use gtlibcpp.Scan.Within.{
  Within, Within-bind, if_both, elim_both, word_both, length-skip_ws, length-tail, starts-tail,
  err_code, after_word-length,
}
use gtlibcpp.Parser.{parse_string, read_table, xml_failed}
use gtlibcpp.Parser.Types.{sanitize}
use gtlibcpp.Parser.Fields.{CheatTable}
use gtlibcpp.Parser.Xml.{
  name_of, XmlNode, skip_misc, parse_name, parse_attributes, text_loop, parse_tag, close_tag,
  parse_element, parse_children, finish_root, parse_document, parse_root, skip_prolog,
  skip_instruction, skip_bom, root_error,
}
use gtlibcpp.Parser.Reading.{
  length-skip_misc, parse_name-Within, parse_attributes-Within, text_loop-Within,
}

parse_tag-Within : (text : Bytes) → Within (length text) (parse_tag text)
unfolding parse_tag
parse_tag-Within text =
    Within-bind (length text) (length text) (parse_name text) _ (parse_name-Within text)
      (λ name after h.
        Within-bind (length text) (length text) (parse_attributes (suc (length after)) [] after) _
          (parse_attributes-Within (suc (length after)) [] after (length text) (omega arith) h)
          (λ attrs rest k. omega (arith, length-skip_ws rest)))

close_tag-Within : (name text : Bytes) → Within (length text) (close_tag name text)
unfolding close_tag
close_tag-Within name text =
    Within-bind (length text) (length text) (parse_name text) _ (parse_name-Within text)
      (λ close rest h.
        if_both (Within (length text)) (equal close name)
          (λ _.
            if_both (Within (length text)) (starts b'>' (skip_ws rest))
              (λ e. omega (arith, length-skip_ws rest, length-tail (skip_ws rest))) (λ _. refl))
          (λ _. refl))

mutual
  unfolding parse_element parse_children

  parse_element-Within :
      (f : ℕ) (text : Bytes) → 2 * length text + 1 ≤ f → Within (length text) (parse_element f text)
  parse_element-Within zero text l = absurd (omega arith)
  parse_element-Within (suc f) text l =
      let n : ℕ = length text in
      elim_both (Within n) (starts b'<' text)
        (λ e.
          elim_both (Within n) (starts b'/' (tail text)) (λ _. refl)
            (λ _.
              Within-bind (length (tail text)) n (parse_tag (tail text)) _
                (parse_tag-Within (tail text))
                (λ tag rest h.
                  elim_both (Within n) (starts b'/' rest)
                    (λ _.
                      if_both (Within n) (starts b'>' (tail rest))
                        (λ _.
                          omega
                            (arith, length-tail text, length-tail rest, length-tail (tail rest)))
                        (λ _. refl))
                    (λ _.
                      elim_both (Within n) (starts b'>' rest)
                        (λ e'.
                          Within-bind (suc (length (tail rest))) n
                            (text_loop (suc (length rest)) [] (tail rest)) _
                            (text_loop-Within (suc (length rest)) [] (tail rest)
                              (suc (length (tail rest))) (omega (arith, length-tail rest))
                              (omega arith))
                            (λ inner after k.
                              Within-bind (length after) n (parse_children f tag.0 after) _
                                (parse_children-Within f tag.0 after (
                                  omega (
                                    arith,
                                    length-tail rest,
                                    length-tail text,
                                    starts-tail b'<' text e,
                                  )))
                                (λ ns left k'. omega (arith, length-tail rest, length-tail text))))
                        (λ _. refl)))))
        (λ _. refl)

  parse_children-Within :
      (f : ℕ) (name text : Bytes)
      → 2 * length text + 2 ≤ f
      → Within (length text) (parse_children f name text)
  parse_children-Within zero name text l = absurd (omega arith)
  parse_children-Within (suc f) name text l =
      let t = skip_misc false text in
      let n : ℕ = length text in
      elim_both (Within n) (is_empty t) (λ _. refl)
        (λ _.
          elim_both (Within n) (starts b'<' t)
            (λ _.
              elim_both (Within n) (starts b'/' (tail t))
                (λ _.
                  Within-bind (length (tail (tail t))) n (close_tag name (tail (tail t))) _
                    (close_tag-Within name (tail (tail t)))
                    (λ u left h.
                      omega
                        (arith, length-tail t, length-tail (tail t), length-skip_misc false text)))
                (λ _.
                  Within-bind (length t) n (parse_element f t) _
                    (parse_element-Within f t (omega (arith, length-skip_misc false text)))
                    (λ x rest h.
                      Within-bind (length rest) n (parse_children f name rest) _
                        (parse_children-Within f name rest
                          (omega (arith, length-skip_misc false text)))
                        (λ ns left k. omega (arith, length-skip_misc false text)))))
            (λ _. refl))

finish_ok :
    (root : XmlNode) (rest : Bytes)
    → is_empty (skip_misc false rest) ≡ true
    → finish_root (done root rest) ≡ ok root
finish_ok root rest h = ground arith

finish_err :
    (root : XmlNode) (rest : Bytes)
    → is_empty (skip_misc false rest) ≡ false
    → finish_root (done root rest)
      ≡ err (root_error (codes "trailing content after the root element"))
finish_err root rest h = ground arith

finish_root-code :
    (n : ℕ) (r : Read XmlNode) (e : Error)
    → Within n r
    → finish_root r ≡ err e
    → e.code ≡ parse_failed
finish_root-code n (fails x) e w h = sym (err_code h) ∙ w
finish_root-code n out_of_fuel e w h = absurd w
finish_root-code n (done root rest) e w h = elim (Bool-cases (is_empty (skip_misc false rest))) [
  | inl t ↦ absurd (cc (finish_ok root rest t, h))
  | inr f ↦ sym (err_code (sym (finish_err root rest f) ∙ h))
]

parse_document-code :
    (text : Bytes) (e : Error) → parse_document text ≡ err e → e.code ≡ parse_failed
parse_document-code text e =
    if_both (λ (r : Result XmlNode). r ≡ err e → e.code ≡ parse_failed) (starts b'<' text)
      (λ _.
        finish_root-code (length text) (parse_element (2 * length text + 1) text) e
          (parse_element-Within (2 * length text + 1) text (omega arith)))
      (λ _ h. sym (err_code h))

pub parse_root-code : (text : Bytes) (e : Error) → parse_root text ≡ err e → e.code ≡ parse_failed
unfolding parse_root
parse_root-code text e =
    parse_document-code (skip_prolog (suc (length text)) (skip_bom (skip_ws text))) e

length-skip_instruction : (text : Bytes) → length (skip_instruction text) ≤ length text
unfolding skip_instruction
length-skip_instruction [] = omega arith
length-skip_instruction (a ∷ []) = omega arith
length-skip_instruction (a ∷ b ∷ rest) = ground (arith, length-skip_instruction (b ∷ rest))

prolog_shorter :
    (text rest : Bytes) → after_word (codes "<?") text ≡ some rest → length rest < length text
unfolding codes
prolog_shorter text rest s = omega (arith, after_word-length (codes "<?") text rest s)

-- The loop over processing instructions runs to its end: none is left in front.
skip_prolog-ends :
    (f : ℕ) (text : Bytes) → length text < f → after_word (codes "<?") (skip_prolog f text) ≡ none
unfolding skip_prolog
skip_prolog-ends zero text l = absurd (omega arith)
skip_prolog-ends (suc f) text l = elim (Option-cases (after_word (codes "<?") text)) [
  | inl n ↦ rw (n, skip_prolog) n
  | inr (rest, s) ↦
      rw (s, skip_prolog)
        (skip_prolog-ends f (skip_misc false (skip_instruction rest)) (
          omega (
            arith,
            length-skip_misc false (skip_instruction rest),
            length-skip_instruction rest,
            prolog_shorter text rest s,
          )))
]

length-skip_bom : (text : Bytes) → length (skip_bom text) ≤ length text
length-skip_bom text =
    word_both (λ (t : Bytes). length t ≤ length text) (0xef ∷ 0xbb ∷ 0xbf ∷ []) text (omega arith)
      (λ rest e. omega arith)

read_table-code : (root : XmlNode) (e : Error) → read_table root ≡ err e → e.code ≡ parse_failed
unfolding read_table
read_table-code root e =
    if_both (λ (r : Result CheatTable). r ≡ err e → e.code ≡ parse_failed)
      (equal (name_of root) (codes "CheatTable")) (λ _ h. absurd (cc h)) (λ _ h. sym (err_code h))

-- `parse_string` comes to an end on every text, and what it refuses is a parse error: the model never
-- runs out of the fuel that it is given. The loop over processing instructions ends by its test.
pub parse_string-total :
    (xml : Bytes)
    → ((e : Error) → parse_string xml ≡ err e → e.code ≡ parse_failed)
      × (after_word
            (codes "<?")
            (skip_prolog (suc (length (sanitize xml))) (skip_bom (skip_ws (sanitize xml))))
          ≡ none)
unfolding parse_string
parse_string-total xml = (
  λ e. refused (parse_root (sanitize xml)) (parse_root-code (sanitize xml)) e,
  skip_prolog-ends (suc (length (sanitize xml))) (skip_bom (skip_ws (sanitize xml)))
      (omega (arith, length-skip_bom (skip_ws (sanitize xml)), length-skip_ws (sanitize xml))),
)
  where
    refused :
        (r : Result XmlNode)
        → ((x : Error) → r ≡ err x → x.code ≡ parse_failed)
        → (e : Error)
        → ◌≡◌ {A = Result CheatTable}
            (elim r [ err x ↦ err (xml_failed x) | ok root ↦ read_table root ])
            (err e)
        → e.code ≡ parse_failed
    refused (err x) k e h = sym (err_code h) ∙ k x refl
    refused (ok root) k e h = read_table-code root e h
