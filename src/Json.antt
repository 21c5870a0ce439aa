-- ===== src/Json.antt =====
-- src/agent.cpp, include/gtlibcpp/agent.hpp: `JsonValue`, `json_encode` and the look-ups. The type
-- `double` and its conversions are an interface. The unused members of a value of some kind are
-- left out, and `JsonArray` and `JsonObject` are lists of values and of members.
pub mod Decode
pub mod Text
pub mod Numbers
pub mod Atoms
pub mod Sizes
pub mod RoundTrip
use gtlibcpp.Common.{
  ℕ, ◌+◌, ◌-◌, ◌/◌, ◌%◌, ◌==◌, ltb, Bool, true, false, List, [], ◌∷◌, ◌++◌, Option, none, some,
  if◌then◌else◌, Bytes, codes, equal,
}
use gtlibcpp.Scan.{ℤ, pos, print_int}

-- `double`: `operator<<`, `std::stod` of a whole token (`none` stands for an exception), and
-- `static_cast<std::int64_t>`.
pub record Double : Type 1 where
  pub T : Type 0
  pub show : T → Bytes
  pub stod : Bytes → Option T
  pub to_int : T → ℤ

-- A lower-case hexadecimal digit.
abbrev pub hex_digit : ℕ → ℕ
hex_digit n = if ltb n 10 then b'0' + n else b'a' + n - 10

-- One character of a text between quotes.
unfoldable pub escape : ℕ → Bytes
escape c =
    if c == b'"'
    then codes "\\\""
    else if c == b'\\'
    then codes "\\\\"
    else if c == 10
    then codes "\\n"
    else if c == 13
    then codes "\\r"
    else if c == 9
    then codes "\\t"
    else if ltb c 32
    then codes "\\u00" ++ hex_digit (c / 16) ∷ hex_digit (c % 16) ∷ []
    else c ∷ []

unfoldable pub escape_all : Bytes → Bytes
escape_all [] = []
escape_all (c ∷ rest) = escape c ++ escape_all rest

module _ (D : Double) where
  mutual
    pub data JsonValue : Type 0 where
      null : JsonValue
      boolean : Bool → JsonValue
      integer : ℤ → JsonValue
      real : D.T → JsonValue
      string : Bytes → JsonValue
      array : JsonArray → JsonValue
      object : JsonObject → JsonValue

    pub data JsonArray : Type 0 where
      no_values : JsonArray
      value : JsonValue → JsonArray → JsonArray

    pub data JsonObject : Type 0 where
      no_members : JsonObject
      member : Bytes → JsonValue → JsonObject → JsonObject

-- The comma before every element but the first.
abbrev pub comma : Bool → Bytes
comma true = []
comma false = b',' ∷ []

module _ {D : Double} where
  unfoldable mutual
    pub json_encode : JsonValue D → Bytes
    json_encode null = codes "null"
    json_encode (boolean b) = if b then codes "true" else codes "false"
    json_encode (integer n) = print_int n
    json_encode (real x) = D.show x
    json_encode (string text) = b'"' ∷ escape_all text ++ b'"' ∷ []
    json_encode (array values) = b'[' ∷ encode_values true values ++ b']' ∷ []
    json_encode (object members) = b'{' ∷ encode_members true members ++ b'}' ∷ []

    pub encode_values : Bool → JsonArray D → Bytes
    encode_values first no_values = []
    encode_values first (value v rest) = comma first ++ (json_encode v ++ encode_values false rest)

    -- A key is written as it is.
    pub encode_members : Bool → JsonObject D → Bytes
    encode_members first no_members = []
    encode_members first (member key v rest) =
        comma first
        ++ (b'"' ∷ key ++ (b'"' ∷ b':' ∷ [] ++ (json_encode v ++ encode_members false rest)))

  abbrev pub find_member : Bytes → JsonObject D → Option (JsonValue D)
  find_member key no_members = none
  find_member key (member k v rest) = if equal k key then some v else find_member key rest

  unfoldable pub json_get : JsonValue D → Bytes → Option (JsonValue D)
  json_get (object members) key = find_member key members
  json_get other key = none

  abbrev pub string_or : Bytes → Option (JsonValue D) → Bytes
  string_or fallback (some (string text)) = text
  string_or fallback other = fallback

  unfoldable pub json_get_string : JsonValue D → Bytes → Bytes → Bytes
  json_get_string v key fallback = string_or fallback (json_get v key)

  abbrev pub int_or : ℤ → Option (JsonValue D) → ℤ
  int_or fallback (some (integer n)) = n
  int_or fallback (some (real x)) = D.to_int x
  int_or fallback other = fallback

  unfoldable pub json_get_int : JsonValue D → Bytes → ℤ → ℤ
  json_get_int v key fallback = int_or fallback (json_get v key)

  abbrev pub bool_or : Bool → Option (JsonValue D) → Bool
  bool_or fallback (some (boolean b)) = b
  bool_or fallback other = fallback

  unfoldable pub json_get_bool : JsonValue D → Bytes → Bool → Bool
  json_get_bool v key fallback = bool_or fallback (json_get v key)
