-- ===== src/Json/Text.antt =====
-- src/agent.cpp: `JsonParser::parse_string_value` on printed strings.
use gtlibcpp.Common.{
  ℕ, ◌≡◌, sym, ap, ◌∙◌, Bool, true, false, not, ◌||◌, ◌==◌, leb, [], ◌∷◌, ◌++◌, append_assoc,
  append-nil, arith, Bytes, codes, All,
}
use gtlibcpp.Scan.{done}
use gtlibcpp.Json.{escape, escape_all}
use gtlibcpp.Json.Decode.{string_loop}

-- A character that is written raw or by an escape that the reader knows.
abbrev pub is_readable : ℕ → Bool
is_readable c = leb 32 c || (c == 9 || (c == 10 || c == 13))

-- A character of a key, which is written raw.
abbrev pub is_key_char : ℕ → Bool
is_key_char c = not (c == b'"' || c == b'\\')

string_loop-escape :
    (c : ℕ) (out more : Bytes)
    → is_readable c ≡ true
    → string_loop false out (escape c ++ more) ≡ string_loop false (out ++ c ∷ []) more
unfolding string_loop escape codes
string_loop-escape c out more h = ground arith

pub string_loop-escape_all :
    (text out rest : Bytes)
    → All (λ c. is_readable c ≡ true) text
    → string_loop false out (escape_all text ++ b'"' ∷ rest) ≡ done (out ++ text) rest
unfolding escape_all string_loop
string_loop-escape_all [] out rest h = ap (λ t. done t rest) (sym (append-nil out))
string_loop-escape_all (c ∷ text) out rest h =
    ap (string_loop false out) (append_assoc (escape c) (escape_all text) (b'"' ∷ rest))
    ∙ string_loop-escape c out (escape_all text ++ b'"' ∷ rest) h.0
    ∙ string_loop-escape_all text (out ++ c ∷ []) rest h.1
    ∙ ap (λ t. done t rest) (append_assoc out (c ∷ []) text)

pub string_loop-key :
    (key out rest : Bytes)
    → All (λ c. is_key_char c ≡ true) key
    → string_loop false out (key ++ b'"' ∷ rest) ≡ done (out ++ key) rest
unfolding string_loop
string_loop-key [] out rest h = ap (λ t. done t rest) (sym (append-nil out))
string_loop-key (c ∷ key) out rest h =
    ground (arith, string_loop-key key (out ++ c ∷ []) rest, append_assoc out (c ∷ []) key)
