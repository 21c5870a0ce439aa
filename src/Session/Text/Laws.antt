-- ===== src/Session/Text/Laws.antt =====
-- Bounded strings: what a parsed one holds, and that writing and reading one gives it back.
use gtlibcpp.Common.{
  ℕ, zero, suc, ◌+◌, ◌≤◌, ◌<◌, ◌≡◌, ◌≢◌, refl, sym, ap, ◌∙◌, inl, inr, arith, append_assoc, ◌-◌,
  Bool, true, false, [], ◌∷◌, ◌++◌, ◌==◌, ltb, if◌then◌else◌, Bytes, All, length, length-append,
  not, ◌&&◌,
}
use gtlibcpp.Result.{Result, ok, err, Result-cases}
use gtlibcpp.Types.{u64_mod}
use gtlibcpp.Backend.{Backend}
use gtlibcpp.Backend.Memory.{IsMemory, window, window-append}
use gtlibcpp.Session.{read_bytes, write_bytes}
use gtlibcpp.Session.Reads.{read_bytes-shows, write_bytes-stores}
use gtlibcpp.Session.RoundTrip.{ReadShows-window, WriteStores-window}
use gtlibcpp.Session.Text.{
  BoundedString, up_to_nul, from_utf8, to_bytes, read_string, write_encoded, write_string,
}

abbrev pub NoNul : Bytes → Type 0
NoNul = All (λ b. b ≢ 0)

-- A string as `from_utf8` makes them: no NUL inside, at most `capacity` bytes, a capacity.
pub record IsBounded (text : BoundedString) : Type 0 where
  pub no_nul : NoNul text.storage
  pub fits : length text.storage ≤ text.capacity
  pub has_room : 0 < text.capacity

suc-ne-zero : (b : ℕ) → (suc b == 0) ≡ false
suc-ne-zero b = ground arith

up_to_nul-NoNul :
    (n : ℕ) (bytes : Bytes) → NoNul (up_to_nul n bytes).0 × (length (up_to_nul n bytes).0 ≤ n)
unfolding up_to_nul
up_to_nul-NoNul zero bs = (tt, omega arith)
up_to_nul-NoNul (suc n) [] = (tt, omega arith)
up_to_nul-NoNul (suc zero) (zero ∷ bs) = (tt, omega arith)
up_to_nul-NoNul (suc n) (zero ∷ bs) = (tt, omega arith)
up_to_nul-NoNul (suc n) (suc b ∷ bs) =
    let (none_inside, short) = up_to_nul-NoNul n bs in
    rw (suc-ne-zero b) ((λ e. omega arith, none_inside), omega arith)

-- The copy stops at the first NUL, and that NUL is the proof that one was found.
up_to_nul_stop :
    (text rest : Bytes) (n : ℕ)
    → NoNul text
    → length text < n
    → up_to_nul n (text ++ 0 ∷ rest) ≡ (text, true)
unfolding up_to_nul
up_to_nul_stop [] rest zero h lt = absurd (omega arith)
up_to_nul_stop [] rest (suc n) h lt = refl
up_to_nul_stop (b ∷ bs) rest zero h lt = absurd (omega arith)
up_to_nul_stop (zero ∷ bs) rest (suc n) h lt = absurd (h.0 refl)
up_to_nul_stop (suc b ∷ bs) rest (suc n) h lt =
    rw (suc-ne-zero b, up_to_nul_stop bs rest n h.1 (omega arith))

abbrev usable : Bytes → ℕ → ℕ
usable bytes capacity = if ltb (length bytes) capacity then length bytes else capacity

from_utf8-eq-ok :
    (bytes : Bytes) (capacity : ℕ) (require : Bool) {text : BoundedString}
    → from_utf8 bytes capacity require ≡ ok text
    → (0 < capacity)
      × (text.capacity ≡ capacity)
      × (text.storage ≡ (up_to_nul (usable bytes capacity) bytes).0)
      × ((require && not (up_to_nul (usable bytes capacity) bytes).1) ≡ false)
unfolding from_utf8
from_utf8-eq-ok bytes capacity require h = (ground arith, ground arith, ground arith, ground arith)

-- A string that `from_utf8` returns holds no NUL and at most `capacity` bytes; where a NUL was
-- required, one was found.
pub from_utf8-IsBounded :
    (bytes : Bytes) (capacity : ℕ) (require : Bool) (text : BoundedString)
    → from_utf8 bytes capacity require ≡ ok text
    → IsBounded text
unfolding from_utf8
from_utf8-IsBounded bytes capacity require text h =
    let (pos, cap, stored, _) = from_utf8-eq-ok bytes capacity require h in
    let (none_inside, short) = up_to_nul-NoNul (usable bytes capacity) bytes in
    record {
      no_nul = rw stored none_inside;
      fits = rw (stored, cap) (ground arith);
      has_room = rw cap pos;
    }

-- A bounded string written with its NUL into `n` bytes or fewer is parsed back from them, whatever
-- bytes follow.
from_utf8_back :
    (text rest : Bytes) (capacity : ℕ) (require : Bool)
    → NoNul text
    → length text < capacity
    → from_utf8 (text ++ 0 ∷ rest) capacity require
      ≡ ok (record {
        storage = text;
        capacity = capacity;
        truncated = ltb capacity (length (text ++ 0 ∷ rest));
      })
unfolding from_utf8
from_utf8_back text rest capacity require h lt =
    let stop =
      up_to_nul_stop text rest (usable (text ++ 0 ∷ rest) capacity) h
        (ground (arith, length-append text (0 ∷ rest))) in
    ground (arith, stop)

to_bytes-eq-ok :
    (text : BoundedString) (target : ℕ) {bytes : Bytes}
    → to_bytes text target ≡ ok bytes
    → (bytes ≡ text.storage ++ 0 ∷ []) × (length text.storage < target)
unfolding to_bytes
to_bytes-eq-ok text target h = (ground arith, ground arith)

read_string-eq-ok :
    (B : Backend) (address capacity : ℕ) (require : Bool) (s : B.State) {text : BoundedString}
    → (read_string B address capacity require s).0 ≡ ok text
    → (bytes : Bytes) × ((read_bytes B address capacity s).0 ≡ ok bytes)
      × (from_utf8 bytes capacity require ≡ ok text)
unfolding read_string
read_string-eq-ok B a n q s h = elim (Result-cases (read_bytes B a n s).0) [
  | inl (bytes, e) ↦ (bytes, e, ground (arith, e))
  | inr (x, e) ↦ absurd (ground (arith, e))
]

write_string-eq-ok :
    (B : Backend) (address : ℕ) (text : BoundedString) (target : ℕ) (s : B.State) {m : ℕ}
    → (write_string B address text target s).0 ≡ ok m
    → (bytes : Bytes) × (to_bytes text target ≡ ok bytes)
      × (write_string B address text target s ≡ write_bytes B address bytes s)
unfolding write_string
write_string-eq-ok B a text target s h = elim (Result-cases (to_bytes text target)) [
  | inl (bytes, e) ↦ (bytes, e, rw (e, write_encoded))
  | inr (x, e) ↦ absurd (cc (rw (e, write_encoded) at h))
]

storage_of : Result BoundedString → Bytes
storage_of (ok text) = text.storage
storage_of (err e) = []

-- A range that begins with a string and its NUL is parsed as that string.
parsed_back :
    (cell : ℕ → ℕ) (a capacity : ℕ) (text bytes : Bytes) (require : Bool) (got : BoundedString)
    → NoNul text
    → length text < capacity
    → window cell a (length text + 1) ≡ text ++ 0 ∷ []
    → bytes ≡ window cell a capacity
    → from_utf8 bytes capacity require ≡ ok got
    → got.storage ≡ text
unfolding storage_of
parsed_back cell a n text bytes q got clean room stored shown parsed =
    let m = n - (length text + 1) in
    let rest = window cell (a + (length text + 1)) m in
    let split : bytes ≡ text ++ 0 ∷ rest =
      shown
      ∙ ap (window cell a) (omega arith)
      ∙ window-append cell a (length text + 1) m
      ∙ ap (λ xs. xs ++ rest) stored
      ∙ append_assoc text (0 ∷ []) rest in
    ap storage_of
      (sym parsed ∙ ap (λ b. from_utf8 b n q) split ∙ from_utf8_back text rest n q clean room)

-- On plain memory, a string with no NUL inside that `write_string` wrote whole is read back by a
-- `read_string` at the same address whose capacity holds it and its terminator, if that read
-- succeeds, whatever lies behind it and whether or not a terminator is required.
pub read_string-write_string :
    (B : Backend) (M : IsMemory B) (address capacity target : ℕ) (require : Bool)
    (text got : BoundedString) (s : B.State)
    → address < u64_mod
    → NoNul text.storage
    → length text.storage < capacity
    → (write_string B address text target s).0 ≡ ok (length text.storage + 1)
    → (read_string B address capacity require (write_string B address text target s).1).0 ≡ ok got
    → got.storage ≡ text.storage
read_string-write_string B M a n target q text got s lt clean room wrote read =
    let (bytes, made, same) = write_string-eq-ok B a text target s wrote in
    let (content, _) = to_bytes-eq-ok text target made in
    let (shown, got_bytes, parsed) =
      read_string-eq-ok B a n q (write_string B a text target s).1 read in
    let s1 = (write_bytes B a bytes s).1 in
    let after : (write_string B a text target s).1 ≡ s1 = ap (λ p. p.1) same in
    let size : length bytes ≡ length text.storage + 1 =
      ap length content ∙ length-append text.storage (0 ∷ []) in
    let whole : (write_bytes B a bytes s).0 ≡ ok (length bytes) =
      ap (λ p. p.0) (sym same) ∙ wrote ∙ ap ok (sym size) in
    let stored = WriteStores-window B M a bytes (write_bytes-stores B a bytes s lt whole) in
    let got_here : (read_bytes B a n s1).0 ≡ ok shown =
      ap (λ x. (read_bytes B a n x).0) (sym after) ∙ got_bytes in
    parsed_back (M.peek s1) a n text.storage shown q got clean room
      (ap (window (M.peek s1) a) (sym size) ∙ stored ∙ content)
      (ReadShows-window B M (read_bytes-shows B a n s1 lt got_here)) parsed
