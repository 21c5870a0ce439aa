-- ===== src/Json/Numbers.antt =====
-- src/agent.cpp: `JsonParser::parse_number` on printed numbers.
use gtlibcpp.Common.{
  ℕ, zero, suc, ◌+◌, ◌-◌, ◌*◌, ◌/◌, ◌%◌, ◌^◌, ◌<◌, ◌≡◌, refl, sym, ap, ◌∙◌, ◌⊎◌, inl, inr, Bool,
  true, false, ◌||◌, ◌==◌, ltb, [], ◌∷◌, ◌++◌, append_assoc, append-nil, some, arith, Bytes, length,
  All, to_string, digits_onto, Bool-cases, length-append, ltb→lt,
}
use mathlib.Core.Path.{subst}
use gtlibcpp.Scan.{
  ℤ, pos, negsuc, print_int, is_digit, skip_ws, magnitude, prefixed, signed_number, in_i64, stoll,
}
use gtlibcpp.Json.Decode.{Token, grown, continues, number_loop, empty_token}

-- The number that digits stand for, after `n`.
abbrev pub fold : ℕ → Bytes → ℕ
fold n [] = n
fold n (c ∷ rest) = fold (n * 10 + (c - 48)) rest

fold-append : (n : ℕ) (xs ys : Bytes) → fold n (xs ++ ys) ≡ fold (fold n xs) ys
fold-append n [] ys = refl
fold-append n (c ∷ xs) ys = fold-append (n * 10 + (c - 48)) xs ys

abbrev pub AllDigits : Bytes → Type 0
AllDigits ds = All (λ c. is_digit c ≡ true) ds

AllDigits-append : (xs ys : Bytes) → AllDigits xs → AllDigits ys → AllDigits (xs ++ ys)
AllDigits-append [] ys h k = k
AllDigits-append (x ∷ xs) ys h k = (h.0, AllDigits-append xs ys h.1 k)

-- What `std::to_string` writes: digits, at least one, that stand for the number.
pub record Writes (n : ℕ) (ds : Bytes) : Type 0 where
  pub digits : AllDigits ds
  pub some_digit : 0 < length ds
  pub stands_for : fold 0 ds ≡ n

Writes-snoc : (n : ℕ) (ds : Bytes) → Writes (n / 10) ds → Writes n (ds ++ (b'0' + n % 10) ∷ [])
Writes-snoc n ds w = record {
  digits = AllDigits-append ds ((b'0' + n % 10) ∷ []) w.digits (ground arith);
  some_digit = omega (arith, length-append ds ((b'0' + n % 10) ∷ []));
  stands_for = fold-append 0 ds ((b'0' + n % 10) ∷ []) ∙ omega (arith, w.stands_for);
}

Writes-one : (n : ℕ) → n < 10 → Writes n ((b'0' + n % 10) ∷ [])
Writes-one n h = record {
  digits = ground arith;
  some_digit = omega arith;
  stands_for = omega arith;
}

digits_onto-Writes :
    (fuel n : ℕ) (acc : Bytes)
    → n < fuel
    → (ds : Bytes) × (digits_onto fuel n acc ≡ ds ++ acc) × Writes n ds
unfolding digits_onto
digits_onto-Writes zero n acc h = absurd (omega arith)
digits_onto-Writes (suc fuel) n acc h = elim (Bool-cases (ltb n 10)) [
  | inl t ↦ ((b'0' + n % 10) ∷ [], ground arith, Writes-one n (ltb→lt n 10 t))
  | inr f ↦
      let (ds, e, w) = digits_onto-Writes fuel (n / 10) ((b'0' + n % 10) ∷ acc) (ground arith) in
      (
        ds ++ (b'0' + n % 10) ∷ [],
        rw f e ∙ sym (append_assoc ds ((b'0' + n % 10) ∷ []) acc),
        Writes-snoc n ds w,
      )
]

pub to_string-Writes : (n : ℕ) → Writes n (to_string n)
unfolding to_string
to_string-Writes n =
    let (ds, e, w) = digits_onto-Writes (suc n) n [] (omega arith) in
    subst (Writes n) (sym (e ∙ append-nil ds)) w

-- All digits of a text are read.
magnitude-digits :
    (ds : Bytes) (seen : Bool) (n : ℕ)
    → AllDigits ds
    → (0 < length ds) ⊎ (seen ≡ true)
    → magnitude 10 seen n ds ≡ some (fold n ds)
unfolding magnitude
magnitude-digits [] seen n h (inl k) = absurd (omega arith)
magnitude-digits [] seen n h (inr k) = ground arith
magnitude-digits (c ∷ ds) seen n h k =
    ground (arith, magnitude-digits ds true (n * 10 + (c - 48)) h.1 (inr refl))

prefixed-digits : (ds : Bytes) → AllDigits ds → 0 < length ds → prefixed 10 ds ≡ some (fold 0 ds)
unfolding prefixed
prefixed-digits [] h k = absurd (omega arith)
prefixed-digits (c ∷ []) h k = magnitude-digits (c ∷ []) false 0 h (inl k)
prefixed-digits (c ∷ d ∷ []) h k = magnitude-digits (c ∷ d ∷ []) false 0 h (inl k)
prefixed-digits (c ∷ d ∷ e ∷ ds) h k =
    ground (arith, magnitude-digits (c ∷ d ∷ e ∷ ds) false 0 h (inl k))

signed_number-digits :
    (ds : Bytes)
    → AllDigits ds
    → 0 < length ds
    → signed_number 10 (skip_ws ds) ≡ some (false, fold 0 ds)
unfolding signed_number skip_ws
signed_number-digits [] h k = absurd (omega arith)
signed_number-digits (c ∷ ds) h k = ground (arith, prefixed-digits (c ∷ ds) h k)

signed_number-minus :
    (ds : Bytes)
    → AllDigits ds
    → 0 < length ds
    → signed_number 10 (skip_ws (b'-' ∷ ds)) ≡ some (true, fold 0 ds)
unfolding signed_number skip_ws
signed_number-minus ds h k = rw (prefixed-digits ds h k) refl

-- A number in the range of `std::int64_t`.
abbrev pub InI64 : ℤ → Type 0
InI64 (pos n) = n < 2 ^ 63
InI64 (negsuc n) = n < 2 ^ 63

stoll_range :
    (text : Bytes) (minus : Bool) (n : ℕ)
    → signed_number 10 (skip_ws text) ≡ some (minus, n)
    → stoll 10 text ≡ in_i64 minus n
unfolding stoll
stoll_range text minus n h = rw (h, stoll) refl

pub stoll-print_int : (n : ℤ) → InI64 n → stoll 10 (print_int n) ≡ some n
unfolding print_int
stoll-print_int (pos n) h =
    let w = to_string-Writes n in
    stoll_range (to_string n) false n (
      signed_number-digits (to_string n) w.digits w.some_digit
      ∙ ap (λ k. some (false, k)) w.stands_for)
    ∙ ground arith
stoll-print_int (negsuc n) h =
    let w = to_string-Writes (suc n) in
    stoll_range (b'-' ∷ to_string (suc n)) true (suc n) (
      signed_number-minus (to_string (suc n)) w.digits w.some_digit
      ∙ ap (λ k. some (true, k)) w.stands_for)
    ∙ ground arith

-- A text after a value in an array or object, or the end of the text.
abbrev pub Ends : Bytes → Type 0
Ends [] = Unit
Ends (c ∷ rest) = (c == b',' || (c == b']' || c == b'}')) ≡ true

-- What `number_loop` gives on a text that it reads whole.
pub record ReadsAs (t : Token) (text rest : Bytes) (r : Token × Bytes) : Type 0 where
  pub whole : r.0.text ≡ t.text ++ text
  pub no_dot : r.0.seen_dot ≡ false
  pub no_exp : r.0.seen_exp ≡ false
  pub left : r.1 ≡ rest

number_loop_stops :
    (t : Token) (c : ℕ) (rest : Bytes)
    → continues c t ≡ false
    → number_loop t (c ∷ rest) ≡ (t, c ∷ rest)
unfolding number_loop
number_loop_stops t c rest h = rw (h, number_loop) refl

number_loop_goes :
    (t : Token) (c : ℕ) (rest : Bytes)
    → continues c t ≡ true
    → number_loop t (c ∷ rest) ≡ number_loop (grown c t) rest
unfolding number_loop
number_loop_goes t c rest h = rw (h, number_loop) refl

number_loop-end :
    (t : Token) (rest : Bytes)
    → t.seen_dot ≡ false
    → t.seen_exp ≡ false
    → Ends rest
    → ReadsAs t [] rest (number_loop t rest)
unfolding number_loop
number_loop-end t [] d e h = record {
  whole = sym (append-nil t.text);
  no_dot = d;
  no_exp = e;
  left = refl;
}
number_loop-end t (c ∷ rest) d e h =
    subst (ReadsAs t [] (c ∷ rest)) (sym (number_loop_stops t c rest (ground arith)))
      (record { whole = sym (append-nil t.text); no_dot = d; no_exp = e; left = refl })

number_loop-digits :
    (ds rest : Bytes) (t : Token)
    → AllDigits ds
    → t.seen_dot ≡ false
    → t.seen_exp ≡ false
    → Ends rest
    → ReadsAs t ds rest (number_loop t (ds ++ rest))
number_loop-digits [] rest t h d e k = number_loop-end t rest d e k
number_loop-digits (c ∷ ds) rest t h d e k =
    let r = number_loop-digits ds rest (grown c t) h.1 (ground arith) (ground arith) k in
    subst (ReadsAs t (c ∷ ds) rest) (sym (number_loop_goes t c (ds ++ rest) (ground arith)))
      (record {
        whole = r.whole ∙ append_assoc t.text (c ∷ []) ds;
        no_dot = r.no_dot;
        no_exp = r.no_exp;
        left = r.left;
      })

-- A printed number is one token.
pub number_loop-print_int :
    (n : ℤ) (rest : Bytes)
    → Ends rest
    → ReadsAs
        (empty_token true)
        (print_int n)
        rest
        (number_loop (empty_token true) (print_int n ++ rest))
unfolding print_int
number_loop-print_int (pos n) rest k =
    number_loop-digits (to_string n) rest (empty_token true) (to_string-Writes n).digits refl refl k
number_loop-print_int (negsuc n) rest k =
    let r =
      number_loop-digits (to_string (suc n)) rest (grown b'-' (empty_token true))
        (to_string-Writes (suc n)).digits refl refl k in
    subst (ReadsAs (empty_token true) (b'-' ∷ to_string (suc n)) rest)
      (sym (number_loop_goes (empty_token true) b'-' (to_string (suc n) ++ rest) refl))
      (record { whole = r.whole; no_dot = r.no_dot; no_exp = r.no_exp; left = r.left })
