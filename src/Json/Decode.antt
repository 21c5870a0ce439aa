-- ===== src/Json/Decode.antt =====
-- src/agent.cpp: `JsonParser` and `json_decode`. A reader takes the text from `pos_` on.
use gtlibcpp.Common.{
  ℕ, zero, suc, ◌+◌, ◌-◌, ◌*◌, ◌==◌, ◌||◌, ◌&&◌, not, Bool, true, false, [], ◌∷◌, ◌++◌, Option,
  none, some, if◌then◌else◌, Bytes, codes, to_string, length,
}
use gtlibcpp.Result.{Error, internal, parse_failed, Result, ok, err, make_error}
use gtlibcpp.Scan.{
  is_digit, skip_ws, after_word, starts, tail, stoll, Read, done, fails, out_of_fuel, ◌>>=◌,
}
use gtlibcpp.Json.{
  Double, JsonValue, JsonArray, JsonObject, null, boolean, integer, real, string, array, object,
  no_values, value, no_members, member,
}

abbrev pub parse_error : Bytes → Bytes → Error
parse_error message operation = make_error parse_failed message operation 0 0

-- The character after a backslash.
abbrev pub unescape : ℕ → Option ℕ
unescape esc =
    if esc == b'"' || (esc == b'\\' || esc == b'/')
    then some esc
    else if esc == b'n'
    then some 10
    else if esc == b'r'
    then some 13
    else if esc == b't'
    then some 9
    else if esc == b'b'
    then some 8
    else if esc == b'f'
    then some 12
    else none

abbrev pub unterminated : Error
unterminated = parse_error (codes "unterminated string") (codes "JsonParser::parse_string_value")

abbrev pub bad_escape : Error
bad_escape = parse_error (codes "unsupported escape") (codes "JsonParser::parse_string_value")

-- The loop of `parse_string_value`; the flag tells that the last character was a backslash that
-- starts an escape. A backslash at the very end leaves the string unterminated.
unfoldable pub string_loop : Bool → Bytes → Bytes → Read Bytes
string_loop escaped out [] = fails unterminated
string_loop true out (esc ∷ rest) = elim (unescape esc) [
  | none ↦ fails bad_escape
  | some c ↦ string_loop false (out ++ c ∷ []) rest
]
string_loop false out (c ∷ rest) =
    let out' = if c == b'\\' then out else out ++ c ∷ [] in
    let more = string_loop (c == b'\\') out' rest in if c == b'"' then done out rest else more

abbrev pub no_quote : Error
no_quote =
    parse_error (codes "expected '\"' to start string") (codes "JsonParser::parse_string_value")

unfoldable pub parse_string_value : Bytes → Read Bytes
parse_string_value [] = fails no_quote
parse_string_value (c ∷ rest) = if c == b'"' then string_loop false [] rest else fails no_quote

-- What the loop of `parse_number` has read: its token, whether it has a dot or an exponent, and
-- whether the last character began an exponent, after which a sign may follow.
pub record Token : Type 0 where
  pub text : Bytes
  pub seen_dot : Bool
  pub seen_exp : Bool
  pub sign_next : Bool

abbrev pub grown : ℕ → Token → Token
grown c t = record t {
  text = t.text ++ c ∷ [];
  seen_dot = t.seen_dot || c == b'.';
  seen_exp = t.seen_exp || (c == b'e' || c == b'E');
  sign_next = c == b'e' || c == b'E';
}

abbrev pub continues : ℕ → Token → Bool
continues c t =
    is_digit c
    || ((c == b'.' && not t.seen_dot)
        || (((c == b'e' || c == b'E') && not t.seen_exp)
            || ((c == b'+' || c == b'-') && t.sign_next)))

unfoldable pub number_loop : Token → Bytes → Token × Bytes
number_loop t [] = (t, [])
number_loop t (c ∷ rest) =
    let more = number_loop (grown c t) rest in if continues c t then more else (t, c ∷ rest)

abbrev pub empty_token : Bool → Token
empty_token sign_next = record {
  text = [];
  seen_dot = false;
  seen_exp = false;
  sign_next = sign_next;
}

abbrev pub no_number : Error
no_number = parse_error (codes "expected number") (codes "JsonParser::parse_number")

abbrev pub bad_number : Bytes → Error
bad_number token =
    parse_error (codes "could not parse number " ++ token) (codes "JsonParser::parse_number")

module _ (D : Double) where
  abbrev pub read_real : Bytes → Bytes → Read (JsonValue D)
  read_real token rest = elim (D.stod token) [
    | none ↦ fails (bad_number token)
    | some x ↦ done (real x) rest
  ]

  abbrev pub read_integer : Bytes → Bytes → Read (JsonValue D)
  read_integer token rest = elim (stoll 10 token) [
    | none ↦ fails (bad_number token)
    | some n ↦ done (integer n) rest
  ]

  abbrev pub read_token : Token → Bytes → Read (JsonValue D)
  read_token t rest =
      if t.seen_dot || t.seen_exp then read_real t.text rest else read_integer t.text rest

  -- A sign in front is read like one after an exponent's letter.
  unfoldable pub parse_number : Bytes → Read (JsonValue D)
  parse_number text =
      let (t, rest) = number_loop (empty_token true) text in
      if length rest == length text then fails no_number else read_token t rest

  unfoldable pub parse_bool : Bytes → Read (JsonValue D)
  parse_bool text = elim (after_word (codes "true") text) [
    | some rest ↦ done (boolean true) rest
    | none ↦ elim (after_word (codes "false") text) [
      | some rest ↦ done (boolean false) rest
      | none ↦
          fails (parse_error (codes "expected boolean literal") (codes "JsonParser::parse_bool"))
    ]
  ]

  unfoldable pub parse_null : Bytes → Read (JsonValue D)
  parse_null text = elim (after_word (codes "null") text) [
    | some rest ↦ done null rest
    | none ↦ fails (parse_error (codes "expected null literal") (codes "JsonParser::parse_null"))
  ]

  abbrev pub array_end : Error
  array_end = parse_error (codes "expected ',' or ']' in array") (codes "JsonParser::parse_array")

  abbrev pub object_end : Error
  object_end =
      parse_error (codes "expected ',' or '}' in object") (codes "JsonParser::parse_object")

  abbrev pub no_colon : Error
  no_colon = parse_error (codes "expected ':' after object key") (codes "JsonParser::parse_object")

  abbrev pub no_value : Error
  no_value = parse_error (codes "unexpected end of input") (codes "JsonParser::parse_value")

  -- The loops over the elements read them one by one; `parse_array` and `parse_object` are the calls
  -- of them that `parse_value` makes.
  unfoldable mutual
    pub parse_value : ℕ → Bytes → Read (JsonValue D)
    parse_value zero text = out_of_fuel
    parse_value (suc f) text = dispatch f (skip_ws text)

    -- `parse_value` from its first character on.
    pub dispatch : ℕ → Bytes → Read (JsonValue D)
    dispatch f [] = fails no_value
    dispatch zero (c ∷ rest) = out_of_fuel
    dispatch (suc f) (c ∷ rest) = elim (c == b'{') [
      | true ↦ elim (starts b'}' (skip_ws rest)) [
        | true ↦ done (object no_members) (tail (skip_ws rest))
        | false ↦ do members ← parse_members f rest; done (object members)
      ]
      | false ↦ elim (c == b'[') [
        | true ↦ elim (starts b']' (skip_ws rest)) [
          | true ↦ done (array no_values) (tail (skip_ws rest))
          | false ↦ do values ← parse_values f rest; done (array values)
        ]
        | false ↦
            if c == b'"'
            then (do text ← parse_string_value (c ∷ rest); done (string text))
            else if c == b't' || c == b'f'
            then parse_bool (c ∷ rest)
            else if c == b'n'
            then parse_null (c ∷ rest)
            else parse_number (c ∷ rest)
      ]
    ]

    -- The loop of `parse_array`.
    pub parse_values : ℕ → Bytes → Read (JsonArray D)
    parse_values zero text = out_of_fuel
    parse_values (suc f) text = parse_value f text >>= λ v rest. elim (starts b',' (skip_ws rest)) [
      | true ↦ parse_values f (tail (skip_ws rest)) >>= λ vs. done (value v vs)
      | false ↦
          if starts b']' (skip_ws rest)
          then done (value v no_values) (tail (skip_ws rest))
          else fails array_end
    ]

    -- The loop of `parse_object`.
    pub parse_members : ℕ → Bytes → Read (JsonObject D)
    parse_members zero text = out_of_fuel
    parse_members (suc f) text = parse_string_value (skip_ws text) >>= λ key after_key.
        elim (starts b':' (skip_ws after_key)) [
          | false ↦ fails no_colon
          | true ↦ parse_value f (tail (skip_ws after_key)) >>= λ v rest.
              elim (starts b',' (skip_ws rest)) [
                | true ↦ parse_members f (tail (skip_ws rest)) >>= λ ms. done (member key v ms)
                | false ↦
                    if starts b'}' (skip_ws rest)
                    then done (member key v no_members) (tail (skip_ws rest))
                    else fails object_end
              ]
        ]

  abbrev pub trailing : ℕ → Error
  trailing offset =
      parse_error (codes "trailing content at offset " ++ to_string offset)
        (codes "JsonParser::parse")

  -- `JsonParser::parse` after the value. Out of fuel is an error that the source does not have;
  -- `json_decode` gives enough.
  abbrev pub finish : ℕ → Read (JsonValue D) → Result (JsonValue D)
  finish size (fails e) = err e
  finish size out_of_fuel = err (make_error internal [] [] 0 0)
  finish size (done v rest) = elim (skip_ws rest) [
    | [] ↦ ok v
    | c ∷ more ↦ err (trailing (size - length (c ∷ more)))
  ]

  unfoldable pub json_decode : Bytes → Result (JsonValue D)
  json_decode text = finish (length text) (parse_value (3 * length text + 2) text)
