-- ===== src/Json/RoundTrip.antt =====
-- src/agent.cpp: `json_decode` on what `json_encode` writes.
use gtlibcpp.Common.{
  ℕ, zero, suc, ◌+◌, ◌*◌, ◌≤◌, ◌≡◌, refl, sym, ap, ◌∙◌, true, false, [], ◌∷◌, ◌++◌, append_assoc,
  append-nil, arith, Bytes, codes, length, length-append,
}
use gtlibcpp.Result.{ok}
use gtlibcpp.Scan.{print_int, skip_ws, starts, done}
use gtlibcpp.Json.{
  Double, JsonValue, JsonArray, JsonObject, null, boolean, integer, real, string, array, object,
  no_values, value, no_members, member, json_encode, encode_values, encode_members,
}
use gtlibcpp.Json.Decode.{
  parse_string_value, parse_value, dispatch, parse_values, parse_members, finish, json_decode,
}
use gtlibcpp.Json.Numbers.{Ends}
use gtlibcpp.Json.Atoms.{
  opens, opens-starts_number, starts_number-print_int, skip_ws-opens, starts-opens, key-reads,
  IsPlain, ArePlain, HasPlain, Reads, dispatch-null, dispatch-boolean, dispatch-string,
  dispatch-integer,
}

module _ {D : Double} where
  opens-json_encode :
      (v : JsonValue D) (rest : Bytes) → IsPlain v → opens (json_encode v ++ rest) ≡ true
  unfolding json_encode IsPlain codes
  opens-json_encode null rest p = refl
  opens-json_encode (boolean true) rest p = refl
  opens-json_encode (boolean false) rest p = refl
  opens-json_encode (integer n) rest p =
      opens-starts_number (print_int n ++ rest) (starts_number-print_int n rest)
  opens-json_encode (real x) rest p = absurd p
  opens-json_encode (string text) rest p = refl
  opens-json_encode (array vs) rest p = refl
  opens-json_encode (object ms) rest p = refl

  parse_value-Reads :
      (v : JsonValue D)
      → Reads v
      → (f : ℕ) (rest : Bytes) → IsPlain v
      → Ends rest
      → 3 * length (json_encode v) + 2 ≤ f
      → parse_value D f (json_encode v ++ rest) ≡ done v rest
  unfolding parse_value
  parse_value-Reads v reads zero rest p e l = absurd (omega arith)
  parse_value-Reads v reads (suc f) rest p e l =
      ap (dispatch D f) (skip_ws-opens (json_encode v ++ rest) (opens-json_encode v rest p))
      ∙ reads f rest p e (omega arith)

  abbrev ReadsValues : JsonArray D → Type 0
  ReadsValues no_values = Unit
  ReadsValues (value v vs) =
      (f : ℕ) (rest : Bytes)
      → ArePlain (value v vs)
      → 3 * length (encode_values true (value v vs)) + 3 ≤ f
      → parse_values D f (encode_values true (value v vs) ++ b']' ∷ rest) ≡ done (value v vs) rest

  abbrev ReadsMembers : JsonObject D → Type 0
  ReadsMembers no_members = Unit
  ReadsMembers (member key v ms) =
      (f : ℕ) (rest : Bytes)
      → HasPlain (member key v ms)
      → 3 * length (encode_members true (member key v ms)) + 3 ≤ f
      → parse_members D f (encode_members true (member key v ms) ++ b'}' ∷ rest)
        ≡ done (member key v ms) rest

  parse_values-last : (v : JsonValue D) → Reads v → ReadsValues (value v no_values)
  unfolding parse_values encode_values ArePlain skip_ws
  parse_values-last v reads zero rest p l = absurd (omega arith)
  parse_values-last v reads (suc f) rest p l =
      rw
        (
          ap (parse_value D f) (append_assoc (json_encode v) [] (b']' ∷ rest))
              ∙ parse_value-Reads v reads f (b']' ∷ rest) p.0 refl
                  (omega (arith, length-append (json_encode v) [])),
          parse_values,
        )
        refl

  parse_values-next :
      (v w : JsonValue D) (vs : JsonArray D)
      → Reads v
      → ReadsValues (value w vs)
      → ReadsValues (value v (value w vs))
  unfolding parse_values encode_values ArePlain skip_ws
  parse_values-next v w vs reads more zero rest p l = absurd (omega arith)
  parse_values-next v w vs reads more (suc f) rest p l =
      let after = encode_values false (value w vs) in
      rw
        (
          ap (parse_value D f) (append_assoc (json_encode v) after (b']' ∷ rest))
              ∙ parse_value-Reads v reads f (after ++ b']' ∷ rest) p.0 refl
                  (omega (arith, length-append (json_encode v) after)),
          parse_values,
        )
        (rw (more f rest p.1 (omega (arith, length-append (json_encode v) after))) refl)

  parse_members-last :
      (key : Bytes) (v : JsonValue D) → Reads v → ReadsMembers (member key v no_members)
  unfolding parse_members encode_members HasPlain skip_ws
  parse_members-last key v reads zero rest p l = absurd (omega arith)
  parse_members-last key v reads (suc f) rest p l =
      let shut = b'}' ∷ rest in
      rw
        (
          ap parse_string_value
                (ap (◌∷◌ b'"') (append_assoc key (b'"' ∷ b':' ∷ json_encode v ++ []) shut))
              ∙ key-reads key (b':' ∷ ((json_encode v ++ []) ++ shut)) p.0,
          parse_members,
        )
        (rw
          (ap (parse_value D f) (append_assoc (json_encode v) [] shut)
            ∙ parse_value-Reads v reads f shut p.1 refl (
                omega (
                  arith,
                  length-append (json_encode v) [],
                  length-append key (b'"' ∷ b':' ∷ json_encode v ++ []),
                )))
          refl)

  parse_members-next :
      (key : Bytes) (v : JsonValue D) (k : Bytes) (w : JsonValue D) (ms : JsonObject D)
      → Reads v
      → ReadsMembers (member k w ms)
      → ReadsMembers (member key v (member k w ms))
  unfolding parse_members encode_members HasPlain skip_ws
  parse_members-next key v k w ms reads more zero rest p l = absurd (omega arith)
  parse_members-next key v k w ms reads more (suc f) rest p l =
      let shut = b'}' ∷ rest in
      let after = encode_members false (member k w ms) in
      rw
        (
          ap parse_string_value
                (ap (◌∷◌ b'"') (append_assoc key (b'"' ∷ b':' ∷ json_encode v ++ after) shut))
              ∙ key-reads key (b':' ∷ ((json_encode v ++ after) ++ shut)) p.0,
          parse_members,
        )
        (rw
          (ap (parse_value D f) (append_assoc (json_encode v) after shut)
            ∙ parse_value-Reads v reads f (after ++ shut) p.1 refl (
                omega (
                  arith,
                  length-append (json_encode v) after,
                  length-append key (b'"' ∷ b':' ∷ json_encode v ++ after),
                )))
          (rw
            (more f rest p.2 (
              omega (
                arith,
                length-append (json_encode v) after,
                length-append key (b'"' ∷ b':' ∷ json_encode v ++ after),
              )))
            refl))

  parse_values-step :
      (v : JsonValue D) (vs : JsonArray D) → Reads v → ReadsValues vs → ReadsValues (value v vs)
  parse_values-step v no_values reads more = parse_values-last v reads
  parse_values-step v (value w ws) reads more = parse_values-next v w ws reads more

  parse_members-step :
      (key : Bytes) (v : JsonValue D) (ms : JsonObject D)
      → Reads v
      → ReadsMembers ms
      → ReadsMembers (member key v ms)
  parse_members-step key v no_members reads more = parse_members-last key v reads
  parse_members-step key v (member k w ms) reads more = parse_members-next key v k w ms reads more

  opens-encode_values :
      (v : JsonValue D) (vs : JsonArray D) (rest : Bytes)
      → IsPlain v
      → opens (encode_values true (value v vs) ++ rest) ≡ true
  unfolding encode_values
  opens-encode_values v vs rest p =
      ap opens (append_assoc (json_encode v) (encode_values false vs) rest)
      ∙ opens-json_encode v (encode_values false vs ++ rest) p

  dispatch-values :
      (v : JsonValue D) (vs : JsonArray D)
      → ReadsValues (value v vs)
      → (f : ℕ) (rest : Bytes) → IsPlain (array (value v vs))
      → 3 * length (json_encode (array (value v vs))) + 1 ≤ suc f
      → dispatch D (suc f) (json_encode (array (value v vs)) ++ rest)
        ≡ done (array (value v vs)) rest
  unfolding dispatch json_encode IsPlain ArePlain
  dispatch-values v vs more f rest p l =
      let inner = encode_values true (value v vs) in
      let a = append_assoc inner (b']' ∷ []) rest in
      let o = opens-encode_values v vs (b']' ∷ rest) p.0 in
      let closed : starts b']' (skip_ws ((inner ++ b']' ∷ []) ++ rest)) ≡ false =
        ap (λ t. starts b']' (skip_ws t)) a
        ∙ ap (starts b']') (skip_ws-opens (inner ++ b']' ∷ rest) o)
        ∙ starts-opens (inner ++ b']' ∷ rest) o in
      rw (closed, dispatch)
        (rw
          (ap (parse_values D f) a ∙ more f rest p (omega (arith, length-append inner (b']' ∷ []))))
          refl)

  dispatch-real : (x : D.T) → Reads {D = D} (real x)
  unfolding IsPlain
  dispatch-real x f rest p = absurd p

  dispatch-empty :
      (f : ℕ) (rest : Bytes)
      → dispatch D (suc f) (json_encode {D = D} (array no_values) ++ rest)
        ≡ done (array no_values) rest
  unfolding dispatch json_encode encode_values skip_ws
  dispatch-empty f rest = refl

  dispatch-array : (vs : JsonArray D) → ReadsValues vs → Reads (array vs)
  dispatch-array vs more zero rest p e l = absurd (omega arith)
  dispatch-array no_values more (suc f) rest p e l = dispatch-empty f rest
  dispatch-array (value v vs) more (suc f) rest p e l = dispatch-values v vs more f rest p l

  dispatch-object : (ms : JsonObject D) → ReadsMembers ms → Reads (object ms)
  unfolding dispatch json_encode encode_members skip_ws IsPlain
  dispatch-object ms more zero rest p e l = absurd (omega arith)
  dispatch-object no_members more (suc f) rest p e l = refl
  dispatch-object (member key v ms) more (suc f) rest p e l =
      let inner = encode_members true (member key v ms) in
      rw
        (ap (parse_members D f) (append_assoc inner (b'}' ∷ []) rest)
          ∙ more f rest p (omega (arith, length-append inner (b'}' ∷ []))))
        refl

  value-Reads : (v : JsonValue D) → Reads v
  value-Reads v = elim v as Reads ReadsValues ReadsMembers [
    | null ↦ dispatch-null
    | boolean b ↦ dispatch-boolean b
    | integer n ↦ dispatch-integer n
    | real x ↦ dispatch-real x
    | string text ↦ dispatch-string text
    | array (vs → ih) ↦ dispatch-array vs ih
    | object (ms → ih) ↦ dispatch-object ms ih
    | no_values ↦ tt
    | value (w → ih) (vs → ihs) ↦ parse_values-step w vs ih ihs
    | no_members ↦ tt
    | member key (w → ih) (ms → ihs) ↦ parse_members-step key w ms ih ihs
  ]

  -- Every value with no floating-point number, with integers of 64 bits, with no control characters in
  -- its strings but tab and line ends, and with no quote or backslash in its keys, is read back from
  -- what `json_encode` writes.
  pub json_decode-json_encode : (v : JsonValue D) → IsPlain v → json_decode D (json_encode v) ≡ ok v
  unfolding json_decode skip_ws
  json_decode-json_encode v p =
      let whole =
        parse_value-Reads v (value-Reads v) (3 * length (json_encode v) + 2) [] p tt
          (omega arith) in
      ap (finish D (length (json_encode v))) (
        ap (parse_value D (3 * length (json_encode v) + 2)) (sym (append-nil (json_encode v)))
        ∙ whole)
