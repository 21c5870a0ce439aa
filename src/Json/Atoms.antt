-- ===== src/Json/Atoms.antt =====
-- src/agent.cpp: `json_decode` on values that hold no others, and the first characters of all.
use gtlibcpp.Common.{
  ℕ, zero, suc, ◌+◌, ◌*◌, ◌≤◌, ◌<◌, ◌≡◌, refl, ap, ap₂, ◌∙◌, Bool, true, false, not, ◌&&◌, ◌||◌,
  ◌==◌, [], ◌∷◌, ◌++◌, append_assoc, Option, none, some, arith, if◌then◌else◌, Bytes, codes, length,
  length-append, All, to_string,
}
use gtlibcpp.Scan.{
  ℤ, pos, negsuc, print_int, is_space, is_digit, skip_ws, after_word, starts, stoll, Read, done,
  fails, ◌>>=◌,
}
use gtlibcpp.Json.{
  Double, JsonValue, JsonArray, JsonObject, null, boolean, integer, real, string, array, object,
  no_values, value, no_members, member, escape_all, json_encode,
}
use gtlibcpp.Json.Decode.{
  string_loop, parse_string_value, Token, number_loop, empty_token, parse_number, read_token,
  read_real, read_integer, no_number, bad_number, parse_bool, parse_null, dispatch,
}
use gtlibcpp.Json.Text.{is_readable, is_key_char, string_loop-escape_all, string_loop-key}
use gtlibcpp.Json.Numbers.{
  InI64, Ends, number_loop-print_int, stoll-print_int, to_string-Writes, Writes,
}

pub length-print_int : (n : ℤ) → 0 < length (print_int n)
unfolding print_int
length-print_int (pos n) = (to_string-Writes n).some_digit
length-print_int (negsuc n) = omega arith

-- A number begins with a digit or a minus sign.
abbrev pub starts_number : Bytes → Bool
starts_number [] = false
starts_number (c ∷ rest) = is_digit c || c == b'-'

pub starts_number-print_int : (n : ℤ) (rest : Bytes) → starts_number (print_int n ++ rest) ≡ true
unfolding print_int
starts_number-print_int (pos n) rest = first (to_string n) (to_string-Writes n)
  where
    first : (ds : Bytes) → Writes n ds → starts_number (ds ++ rest) ≡ true
    first [] w = absurd (omega (arith, w.some_digit))
    first (c ∷ ds) w = ground (arith, w.digits.0)
starts_number-print_int (negsuc n) rest = refl

-- The first character of a value is no blank and closes nothing.
abbrev pub opens : Bytes → Bool
opens [] = false
opens (c ∷ rest) = not (is_space c) && not (c == b']')

pub opens-starts_number : (text : Bytes) → starts_number text ≡ true → opens text ≡ true
opens-starts_number [] h = h
opens-starts_number (c ∷ rest) h = ground arith

pub skip_ws-opens : (text : Bytes) → opens text ≡ true → skip_ws text ≡ text
unfolding skip_ws
skip_ws-opens [] h = refl
skip_ws-opens (c ∷ rest) h = ground arith

pub starts-opens : (text : Bytes) → opens text ≡ true → starts b']' text ≡ false
starts-opens [] h = refl
starts-opens (c ∷ rest) h = ground arith

-- The key of a member and the colon.
pub key-reads :
    (key more : Bytes)
    → All (λ c. is_key_char c ≡ true) key
    → parse_string_value (b'"' ∷ key ++ b'"' ∷ more) ≡ done key more
unfolding parse_string_value
key-reads key more p = string_loop-key key [] more p

module _ {D : Double} where
  -- Values that the protocol carries: no floating-point numbers, integers of 64 bits, strings with
  -- no control characters but tab and line ends, and keys with no quote or backslash.
  unfoldable mutual
    pub IsPlain : JsonValue D → Type 0
    IsPlain null = Unit
    IsPlain (boolean b) = Unit
    IsPlain (integer n) = InI64 n
    IsPlain (real x) = ⊥
    IsPlain (string text) = All (λ c. is_readable c ≡ true) text
    IsPlain (array values) = ArePlain values
    IsPlain (object members) = HasPlain members

    pub ArePlain : JsonArray D → Type 0
    ArePlain no_values = Unit
    ArePlain (value v rest) = IsPlain v × ArePlain rest

    pub HasPlain : JsonObject D → Type 0
    HasPlain no_members = Unit
    HasPlain (member key v rest) = All (λ c. is_key_char c ≡ true) key × IsPlain v × HasPlain rest

  abbrev pub Reads : JsonValue D → Type 0
  Reads v =
      (f : ℕ) (rest : Bytes)
      → IsPlain v
      → Ends rest
      → 3 * length (json_encode v) + 1 ≤ f
      → dispatch D f (json_encode v ++ rest) ≡ done v rest

  pub dispatch-null : Reads null
  unfolding dispatch json_encode parse_null after_word codes
  dispatch-null zero rest p e l = absurd (omega arith)
  dispatch-null (suc f) rest p e l = refl

  pub dispatch-boolean : (b : Bool) → Reads (boolean b)
  unfolding dispatch json_encode parse_bool after_word codes
  dispatch-boolean b zero rest p e l = absurd (omega arith)
  dispatch-boolean true (suc f) rest p e l = refl
  dispatch-boolean false (suc f) rest p e l = refl

  abbrev pub string_read : Bytes → Bytes → Read (JsonValue D)
  string_read t left = done (string t) left

  pub dispatch-string : (text : Bytes) → Reads (string text)
  unfolding dispatch json_encode parse_string_value IsPlain
  dispatch-string text zero rest p e l = absurd (omega arith)
  dispatch-string text (suc f) rest p e l =
      ap (λ (r : Read Bytes). r >>= λ t left. string_read t left)
        (ap (string_loop false []) (append_assoc (escape_all text) (b'"' ∷ []) rest)
          ∙ string_loop-escape_all text [] rest p)

  pub dispatch_number :
      (f : ℕ) (text : Bytes)
      → starts_number text ≡ true
      → dispatch D (suc f) text ≡ parse_number D text
  unfolding dispatch
  dispatch_number f [] h = absurd (cc h)
  dispatch_number f (c ∷ rest) h = ground arith

  pub read_token-eq-done :
      (t : Token) (left word : Bytes) (n : ℤ)
      → t.seen_dot ≡ false
      → t.seen_exp ≡ false
      → t.text ≡ word
      → stoll 10 word ≡ some n
      → read_token D t left ≡ done (integer n) left
  read_token-eq-done t left word n d e w h =
      ap₂ (λ a b. if a || b then read_real D t.text left else read_integer D t.text left) d e
      ∙ ap
          (λ (o : Option ℤ). elim o [
            | none ↦ fails (bad_number t.text)
            | some k ↦ done (integer k) left
          ])
          (ap (stoll 10) w ∙ h)

  pub parse_number-print_int :
      (n : ℤ) (rest : Bytes)
      → InI64 n
      → Ends rest
      → parse_number D (print_int n ++ rest) ≡ done (integer n) rest
  unfolding parse_number
  parse_number-print_int n rest p e =
      let r = number_loop-print_int n rest e in
      let (t, left) = number_loop (empty_token true) (print_int n ++ rest) in
      let shorter : (length left == length (print_int n ++ rest)) ≡ false =
        ground (arith, ap length r.left, length-append (print_int n) rest, length-print_int n) in
      ap (λ b. if b then fails no_number else read_token D t left) shorter
      ∙ read_token-eq-done t left (print_int n) n r.no_dot r.no_exp r.whole (stoll-print_int n p)
      ∙ ap (λ k. done (integer n) k) r.left

  pub dispatch-integer : (n : ℤ) → Reads (integer n)
  unfolding json_encode IsPlain
  dispatch-integer n zero rest p e l = absurd (omega arith)
  dispatch-integer n (suc f) rest p e l =
      dispatch_number f (print_int n ++ rest) (starts_number-print_int n rest)
      ∙ parse_number-print_int n rest p e
