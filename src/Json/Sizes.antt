-- ===== src/Json/Sizes.antt =====
-- src/agent.cpp: the fuel and the errors of `JsonParser`.
use gtlibcpp.Common.{
  ℕ, zero, suc, ◌+◌, ◌*◌, ◌-◌, ◌≤◌, ◌<◌, ◌≡◌, refl, sym, ◌∙◌, Bool, true, false, [], ◌∷◌, Option,
  none, some, arith, ◌==◌, ◌||◌, ◌++◌, Bytes, length, codes,
}
use gtlibcpp.Result.{Error, parse_failed, Result, ok, err}
use gtlibcpp.Scan.{ℤ, skip_ws, tail, starts, stoll, Read, done, fails, out_of_fuel}
use gtlibcpp.Scan.Within.{
  Within, err_code, Within-mono, Within-bind, if_both, elim_both, word_both, length-skip_ws,
  starts-tail,
}
use gtlibcpp.Json.{Double, JsonValue, real, integer}
use gtlibcpp.Json.Decode.{
  unescape, bad_escape, bad_number, string_loop, parse_string_value, Token, grown, continues,
  number_loop, empty_token, parse_number, read_token, parse_bool, parse_null, parse_value, dispatch,
  parse_values, parse_members, finish, trailing, json_decode,
}

string_loop-Within :
    (escaped : Bool) (out text : Bytes) (n : ℕ)
    → length text ≤ n
    → Within n (string_loop escaped out text)
unfolding string_loop
string_loop-Within true out [] n l = refl
string_loop-Within false out [] n l = refl
string_loop-Within true out (esc ∷ rest) n l =
    escapes (unescape esc) (λ c. string_loop false (out ++ c ∷ []) rest)
      (λ c. string_loop-Within false (out ++ c ∷ []) rest n (omega arith))
  where
    escapes :
        (o : Option ℕ) (f : ℕ → Read Bytes)
        → ((c : ℕ) → Within n (f c))
        → Within n (elim o [ none ↦ fails bad_escape | some c ↦ f c ])
    escapes none f h = refl
    escapes (some c) f h = h c
string_loop-Within false out (c ∷ rest) n l =
    if_both (Within n) (c == b'"') (λ _. omega arith)
      (λ _. string_loop-Within (c == b'\\') _ rest n (omega arith))

parse_string_value-Within : (text : Bytes) → Within (length text) (parse_string_value text)
unfolding parse_string_value
parse_string_value-Within [] = refl
parse_string_value-Within (c ∷ rest) =
    if_both (Within (suc (length rest))) (c == b'"')
      (λ _. string_loop-Within false [] rest (suc (length rest)) (omega arith)) (λ _. refl)

length-number_loop : (t : Token) (text : Bytes) → length (number_loop t text).1 ≤ length text
unfolding number_loop
length-number_loop t [] = omega arith
length-number_loop t (c ∷ rest) =
    if_both (λ (p : Token × Bytes). length p.1 ≤ suc (length rest)) (continues c t)
      (λ _. omega (arith, length-number_loop (grown c t) rest)) (λ _. omega arith)

module _ (D : Double) where
  read_token-Within :
      (t : Token) (rest : Bytes) (n : ℕ) → length rest < n → Within n (read_token D t rest)
  read_token-Within t rest n l =
      if_both (Within n) (t.seen_dot || t.seen_exp) (λ _. real_case (D.stod t.text))
        (λ _. int_case (stoll 10 t.text))
    where
      real_case :
          (o : Option D.T)
          → Within {A = JsonValue D} n
              (elim o [ none ↦ fails (bad_number t.text) | some x ↦ done (real x) rest ])
      real_case none = refl
      real_case (some x) = l

      int_case :
          (o : Option ℤ)
          → Within {A = JsonValue D} n
              (elim o [ none ↦ fails (bad_number t.text) | some k ↦ done (integer k) rest ])
      int_case none = refl
      int_case (some k) = l

  parse_number-Within : (text : Bytes) → Within (length text) (parse_number D text)
  unfolding parse_number
  parse_number-Within text =
      let (t, rest) = number_loop (empty_token true) text in
      if_both (Within (length text)) (length rest == length text) (λ _. refl)
        (λ e.
          read_token-Within t rest (length text)
            (ground (arith, length-number_loop (empty_token true) text)))

  parse_bool-Within : (text : Bytes) → Within (length text) (parse_bool D text)
  unfolding parse_bool
  parse_bool-Within text =
      word_both (Within (length text)) (codes "true") text
        (word_both (Within (length text)) (codes "false") text refl (λ rest e. shorter rest e))
        (λ rest e. shorter' rest e)
    where
      shorter :
          (rest : Bytes)
          → length (codes "false") + length rest ≡ length text
          → length rest < length text
      shorter rest e = unfold codes in omega arith

      shorter' :
          (rest : Bytes)
          → length (codes "true") + length rest ≡ length text
          → length rest < length text
      shorter' rest e = unfold codes in omega arith

  parse_null-Within : (text : Bytes) → Within (length text) (parse_null D text)
  unfolding parse_null codes
  parse_null-Within text =
      word_both (Within (length text)) (codes "null") text refl (λ rest e. omega arith)

  -- What is left after blanks and one character.
  shorter_tail :
      (c : ℕ) (text : Bytes)
      → starts c (skip_ws text) ≡ true
      → length (tail (skip_ws text)) < length text
  shorter_tail c text h = omega (arith, starts-tail c (skip_ws text) h, length-skip_ws text)

  mutual
    unfolding parse_value dispatch parse_values parse_members

    parse_value-Within :
        (f : ℕ) (text : Bytes)
        → 3 * length text + 2 ≤ f
        → Within (length text) (parse_value D f text)
    parse_value-Within zero text l = absurd (omega arith)
    parse_value-Within (suc f) text l =
        Within-mono (length (skip_ws text)) (length text) _ (length-skip_ws text)
          (dispatch-Within f (skip_ws text) (omega (arith, length-skip_ws text)))

    dispatch-Within :
        (f : ℕ) (text : Bytes) → 3 * length text + 1 ≤ f → Within (length text) (dispatch D f text)
    dispatch-Within zero [] l = refl
    dispatch-Within (suc f) [] l = refl
    dispatch-Within zero (c ∷ rest) l = absurd (omega arith)
    dispatch-Within (suc f) (c ∷ rest) l =
        let n : ℕ = suc (length rest) in
        elim_both (Within n) (c == b'{')
          (λ _.
            elim_both (Within n) (starts b'}' (skip_ws rest))
              (λ e. omega (arith, shorter_tail b'}' rest e))
              (λ _.
                Within-bind (length rest) n (parse_members D f rest) _
                  (parse_members-Within f rest (omega arith)) (λ ms left h. omega arith)))
          (λ _.
            elim_both (Within n) (c == b'[')
              (λ _.
                elim_both (Within n) (starts b']' (skip_ws rest))
                  (λ e. omega (arith, shorter_tail b']' rest e))
                  (λ _.
                    Within-bind (length rest) n (parse_values D f rest) _
                      (parse_values-Within f rest (omega arith)) (λ vs left h. omega arith)))
              (λ _.
                if_both (Within n) (c == b'"')
                  (λ _.
                    Within-bind n n (parse_string_value (c ∷ rest)) _
                      (parse_string_value-Within (c ∷ rest)) (λ t left h. h))
                  (λ _.
                    if_both (Within n) (c == b't' || c == b'f') (λ _. parse_bool-Within (c ∷ rest))
                      (λ _.
                        if_both (Within n) (c == b'n') (λ _. parse_null-Within (c ∷ rest))
                          (λ _. parse_number-Within (c ∷ rest))))))

    parse_values-Within :
        (f : ℕ) (text : Bytes)
        → 3 * length text + 3 ≤ f
        → Within (length text) (parse_values D f text)
    parse_values-Within zero text l = absurd (omega arith)
    parse_values-Within (suc f) text l =
        let n : ℕ = length text in
        Within-bind n n (parse_value D f text) _ (parse_value-Within f text (omega arith))
          (λ v rest h.
            elim_both (Within n) (starts b',' (skip_ws rest))
              (λ e.
                Within-bind (length (tail (skip_ws rest))) n
                  (parse_values D f (tail (skip_ws rest))) _
                  (parse_values-Within f (tail (skip_ws rest))
                    (omega (arith, shorter_tail b',' rest e)))
                  (λ vs left k. omega (arith, shorter_tail b',' rest e)))
              (λ _.
                if_both (Within n) (starts b']' (skip_ws rest))
                  (λ e. omega (arith, shorter_tail b']' rest e)) (λ _. refl)))

    parse_members-Within :
        (f : ℕ) (text : Bytes)
        → 3 * length text + 3 ≤ f
        → Within (length text) (parse_members D f text)
    parse_members-Within zero text l = absurd (omega arith)
    parse_members-Within (suc f) text l =
        let n : ℕ = length text in
        Within-bind (length (skip_ws text)) n (parse_string_value (skip_ws text)) _
          (parse_string_value-Within (skip_ws text))
          (λ key after h.
            elim_both (Within n) (starts b':' (skip_ws after))
              (λ e.
                Within-bind (length (tail (skip_ws after))) n
                  (parse_value D f (tail (skip_ws after))) _
                  (parse_value-Within f (tail (skip_ws after))
                    (omega (arith, shorter_tail b':' after e, length-skip_ws text)))
                  (λ v rest k.
                    elim_both (Within n) (starts b',' (skip_ws rest))
                      (λ e'.
                        Within-bind (length (tail (skip_ws rest))) n
                          (parse_members D f (tail (skip_ws rest))) _
                          (parse_members-Within f (tail (skip_ws rest)) (
                            omega (
                              arith,
                              shorter_tail b',' rest e',
                              shorter_tail b':' after e,
                              length-skip_ws text,
                            )))
                          (λ ms left k'. omega (
                            arith,
                            shorter_tail b',' rest e',
                            shorter_tail b':' after e,
                            length-skip_ws text,
                          )))
                      (λ _.
                        if_both (Within n) (starts b'}' (skip_ws rest))
                          (λ e'. omega (
                            arith,
                            shorter_tail b'}' rest e',
                            shorter_tail b':' after e,
                            length-skip_ws text,
                          ))
                          (λ _. refl))))
              (λ _. refl))

  finish-code :
      (size : ℕ) (r : Read (JsonValue D)) {e : Error}
      → Within size r
      → finish D size r ≡ err e
      → e.code ≡ parse_failed
  finish-code size (fails x) w h = sym (err_code h) ∙ w
  finish-code size out_of_fuel w h = absurd w
  finish-code size (done v rest) {e} w h = left (skip_ws rest) h
    where
      left :
          (more : Bytes)
          → ◌≡◌ {A = Result (JsonValue D)}
              (elim more [ [] ↦ ok v | c ∷ others ↦ err (trailing D (size - length (c ∷ others))) ])
              (err e)
          → e.code ≡ parse_failed
      left [] g = absurd (cc g)
      left (c ∷ others) g = sym (err_code g)

  -- `json_decode` comes to an end on every text, and what it refuses is a parse error: the model never
  -- runs out of the fuel that it is given.
  pub json_decode-total :
      (text : Bytes) (e : Error) → json_decode D text ≡ err e → e.code ≡ parse_failed
  unfolding json_decode
  json_decode-total text e h =
      finish-code (length text) (parse_value D (3 * length text + 2) text)
        (parse_value-Within (3 * length text + 2) text (omega arith)) h
