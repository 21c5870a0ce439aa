-- ===== src/Parser/Reading.antt =====
-- src/parser.cpp: the fuel of the loops of `XmlReader` over names, entities, attributes and texts.
use gtlibcpp.Common.{
  ℕ, zero, suc, ◌+◌, ◌≤◌, ◌<◌, ◌≡◌, refl, Bool, true, false, [], ◌∷◌, ◌++◌, arith, ◌==◌, ◌&&◌, ◌||◌,
  Bytes, length, codes, length-append, is_empty,
}
use gtlibcpp.Scan.{skip_ws, tail, starts, Read, done, fails, out_of_fuel}
use gtlibcpp.Scan.Within.{
  Within, Within-bind, if_both, elim_both, word_both, length-skip_ws, length-tail,
}
use gtlibcpp.Parser.Xml.{
  Attributes, skip_misc, name_loop, is_name_char, parse_name, skip_semicolon, try_entity,
  parse_entity, value_loop, quoted, is_quote, emplace, parse_attributes, text_loop,
}

pub length-skip_misc : (inside : Bool) (text : Bytes) → length (skip_misc inside text) ≤ length text
unfolding skip_misc
length-skip_misc true [] = length-skip_ws []
length-skip_misc true (a ∷ []) = length-skip_ws (a ∷ [])
length-skip_misc true (a ∷ b ∷ []) = length-skip_ws (a ∷ b ∷ [])
length-skip_misc true (a ∷ b ∷ c ∷ rest) =
    ground (arith, length-skip_misc false rest, length-skip_misc true (b ∷ c ∷ rest))
length-skip_misc false [] = length-skip_ws []
length-skip_misc false (a ∷ []) = length-skip_ws (a ∷ [])
length-skip_misc false (a ∷ b ∷ []) = length-skip_ws (a ∷ b ∷ [])
length-skip_misc false (a ∷ b ∷ c ∷ []) = length-skip_ws (a ∷ b ∷ c ∷ [])
length-skip_misc false (a ∷ b ∷ c ∷ d ∷ rest) =
    ground (arith, length-skip_misc false (b ∷ c ∷ d ∷ rest), length-skip_misc true rest)

pub length-name_loop :
    (out text : Bytes)
    → length (name_loop out text).0 + length (name_loop out text).1 ≡ length out + length text
unfolding name_loop
length-name_loop out [] = refl
length-name_loop out (c ∷ rest) =
    if_both (λ (p : Bytes × Bytes). length p.0 + length p.1 ≡ length out + suc (length rest))
      (is_name_char c)
      (λ _. omega (arith, length-name_loop (out ++ c ∷ []) rest, length-append out (c ∷ [])))
      (λ _. refl)

pub length-not_empty : (text : Bytes) → is_empty text ≡ false → 0 < length text
length-not_empty [] h = absurd (cc h)
length-not_empty (c ∷ text) h = omega arith

pub parse_name-Within : (text : Bytes) → Within (length text) (parse_name text)
unfolding parse_name
parse_name-Within text =
    if_both (Within (length text)) (is_empty (name_loop [] text).0) (λ _. refl)
      (λ e. omega (arith, length-name_loop [] text, length-not_empty (name_loop [] text).0 e))

pub length-skip_semicolon : (text : Bytes) → length (skip_semicolon text) ≤ length text
length-skip_semicolon text =
    if_both (λ (t : Bytes). length t ≤ length text) (starts b';' text) (λ _. length-tail text)
      (λ _. omega arith)

pub try_entity-Within :
    (more : Bool) (w : ℕ) (word : Bytes) (c : ℕ) (text : Bytes) (other : Read Bytes)
    → Within (length text) other
    → Within (length text) (try_entity more (w ∷ word) c text other)
try_entity-Within more w word c text other h =
    word_both (Within (length text)) (w ∷ word) text h (λ rest e.
      if_both (Within (length text)) (more && is_empty rest) (λ _. h)
        (λ _. omega (arith, length-skip_semicolon rest)))

pub parse_entity-Within : (text : Bytes) → Within (length text) (parse_entity text)
unfolding parse_entity codes
parse_entity-Within text = try_entity-Within false b'&' (codes "lt") b'<' text _ (
    try_entity-Within true b'&' (codes "gt") b'>' text _ (
      try_entity-Within true b'&' (codes "amp") b'&' text _ (
        try_entity-Within true b'&' (codes "quot") b'"' text _
          (try_entity-Within true b'&' (codes "apos") 39 text _ refl))))

pub value_loop-Within :
    (f quote : ℕ) (out text : Bytes) (n : ℕ)
    → length text < f
    → length text ≤ n
    → Within n (value_loop f quote out text)
unfolding value_loop
value_loop-Within zero quote out text n l m = absurd (omega arith)
value_loop-Within (suc f) quote out [] n l m = refl
value_loop-Within (suc f) quote out (c ∷ rest) n l m =
    elim_both (Within n) (c == quote) (λ _. omega arith)
      (λ _.
        elim_both (Within n) (c == b'&')
          (λ _.
            Within-bind (suc (length rest)) n (parse_entity (c ∷ rest)) _
              (parse_entity-Within (c ∷ rest))
              (λ ent after h.
                value_loop-Within f quote (out ++ ent) after n (omega arith) (omega arith)))
          (λ _. value_loop-Within f quote (out ++ c ∷ []) rest n (omega arith) (omega arith)))

pub quoted-Within : (text : Bytes) → Within (length text) (quoted text)
unfolding quoted
quoted-Within [] = refl
quoted-Within (c ∷ rest) =
    if_both (Within (suc (length rest))) (is_quote c)
      (λ _.
        value_loop-Within (suc (length rest)) c [] rest (suc (length rest)) (omega arith)
          (omega arith))
      (λ _. refl)

pub parse_attributes-Within :
    (f : ℕ) (out : Attributes) (text : Bytes) (n : ℕ)
    → length text < f
    → length text < n
    → Within n (parse_attributes f out text)
unfolding parse_attributes
parse_attributes-Within zero out text n l m = absurd (omega arith)
parse_attributes-Within (suc f) out text n l m =
    let t = skip_ws text in
    elim_both (Within n) (is_empty t || (starts b'/' t || starts b'>' t))
      (λ _. omega (arith, length-skip_ws text))
      (λ _. Within-bind (length t) n (parse_name t) _ (parse_name-Within t) (λ key after h.
        elim_both (Within n) (starts b'=' (skip_ws after))
          (λ e.
            let u = skip_ws (tail (skip_ws after)) in
            Within-bind (length u) n (quoted u) _ (quoted-Within u) (λ v rest k.
              parse_attributes-Within f (emplace key v out) rest n
                (omega (
                  arith,
                  length-skip_ws text,
                  length-skip_ws after,
                  length-tail (skip_ws after),
                  length-skip_ws (tail (skip_ws after)),
                ))
                (omega (
                  arith,
                  length-skip_ws text,
                  length-skip_ws after,
                  length-tail (skip_ws after),
                  length-skip_ws (tail (skip_ws after)),
                ))))
          (λ _. refl)))

-- A text that starts with an entity or not.
pub entity_both {κ} :
    {A : Type 0} (P : Read A → Type κ) (text : Bytes) {x : Bytes → Bytes → Read A} {y : Read A}
    → ((ent after : Bytes) → length after < length text → P (x ent after))
    → P y
    → P (elim (parse_entity text) [
      | done ent after ↦ x ent after
      | fails _ ↦ y
      | out_of_fuel ↦ out_of_fuel
    ])
entity_both {A = A} P text {x} {y} p q = cases (parse_entity text) (parse_entity-Within text)
  where
    cases :
        (r : Read Bytes)
        → Within (length text) r
        → P (elim r [ done ent after ↦ x ent after | fails _ ↦ y | out_of_fuel ↦ out_of_fuel ])
    cases (done ent after) w = p ent after w
    cases (fails e) w = q
    cases out_of_fuel w = absurd w

pub text_loop-Within :
    (f : ℕ) (out text : Bytes) (n : ℕ)
    → length text < f
    → length text < n
    → Within n (text_loop f out text)
unfolding text_loop
text_loop-Within zero out text n l m = absurd (omega arith)
text_loop-Within (suc f) out [] n l m = omega arith
text_loop-Within (suc f) out (c ∷ rest) n l m =
    elim_both (Within n) (c == b'<') (λ _. omega arith)
      (λ _.
        elim_both (Within n) (c == b'&')
          (λ _.
            entity_both (Within n) (c ∷ rest)
              (λ ent after h. text_loop-Within f (out ++ ent) after n (omega arith) (omega arith))
              (text_loop-Within f (out ++ c ∷ []) rest n (omega arith) (omega arith)))
          (λ _. text_loop-Within f (out ++ c ∷ []) rest n (omega arith) (omega arith)))
