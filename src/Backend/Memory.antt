-- ===== src/Backend/Memory.antt =====
-- The contract of a backend of include/gtlibcpp/backend.hpp as plain memory: a read that succeeds
-- shows the content and changes none of it, a write that succeeds stores a prefix of its bytes.
-- Reads and writes may still fail, stop short or throw.
use gtlibcpp.Common.{
  ℕ, zero, suc, ◌+◌, ◌≤◌, ◌<◌, ◌≡◌, refl, ap, ap₂, ◌∙◌, ◌⊎◌, inl, inr, Bool, true, [], ◌∷◌, ◌++◌,
  arith, ◌==◌, leb, ◌&&◌, if◌then◌else◌, Bytes, length, take, take-all, codes, Exec,
}
use Prim.Native.Nat.add
use native.Mathlib.Nat.{add-zero}
use gtlibcpp.Result.{read_failed, write_failed, ok, err, make_error}
use gtlibcpp.Types.{Address, TargetIdentity}
use gtlibcpp.Backend.{Backend, Outcome, returns}

-- The `n` bytes from `a` on.
unfoldable pub window : (ℕ → ℕ) → ℕ → ℕ → Bytes
window cell a zero = []
window cell a (suc n) = cell a ∷ window cell (a + 1) n

-- The content after `bytes` are stored from `a` on.
unfoldable pub overlay : (ℕ → ℕ) → ℕ → Bytes → ℕ → ℕ
overlay cell a [] x = cell x
overlay cell a (b ∷ bs) x = if x == a then b else overlay cell (a + 1) bs x

pub length-window : (cell : ℕ → ℕ) (a n : ℕ) → length (window cell a n) ≡ n
unfolding window
length-window cell a zero = refl
length-window cell a (suc n) = ap suc (length-window cell (a + 1) n)

pub window_ext :
    (f g : ℕ → ℕ) (a n : ℕ)
    → ((x : ℕ) → a ≤ x → x < a + n → f x ≡ g x)
    → window f a n ≡ window g a n
unfolding window
window_ext f g a zero h = refl
window_ext f g a (suc n) h =
    ap₂ ◌∷◌ (h a (omega arith) (omega arith))
      (window_ext f g (a + 1) n (λ x l u. h x (omega arith) (omega arith)))

pub overlay_outside :
    (cell : ℕ → ℕ) (a : ℕ) (bs : Bytes) (x : ℕ)
    → (x < a) ⊎ (a + length bs ≤ x)
    → overlay cell a bs x ≡ cell x
unfolding overlay
overlay_outside cell a [] x h = refl
overlay_outside cell a (b ∷ bs) x (inl h) =
    ground (arith, overlay_outside cell (a + 1) bs x (inl (omega arith)))
overlay_outside cell a (b ∷ bs) x (inr h) =
    ground (arith, overlay_outside cell (a + 1) bs x (inr (omega arith)))

pub window-overlay :
    (cell : ℕ → ℕ) (a : ℕ) (bs : Bytes) → window (overlay cell a bs) a (length bs) ≡ bs
unfolding window overlay
window-overlay cell a [] = refl
window-overlay cell a (b ∷ bs) = ap₂ ◌∷◌ (ground arith) (
    window_ext (overlay cell a (b ∷ bs)) (overlay cell (a + 1) bs) (a + 1) (length bs)
      (λ x l u. ground arith)
    ∙ window-overlay cell (a + 1) bs)

pub window-append :
    (cell : ℕ → ℕ) (a n m : ℕ) → window cell a (n + m) ≡ window cell a n ++ window cell (a + n) m
unfolding window
window-append cell a zero m = rw (add.zero m, add-zero a)
window-append cell a (suc n) m = rw (add.suc n m) (
    ap (◌∷◌ (cell a)) (
      window-append cell (a + 1) n m
      ∙ ap (λ x. window cell (a + 1) n ++ window cell x m) (omega arith)))

pub record IsMemory (B : Backend) : Type 0 where
  pub peek : B.State → ℕ → ℕ
  pub read_window :
      (a n : ℕ) (s : B.State) (bs : Bytes)
      → (B.read a n s).0 ≡ returns (ok bs)
      → bs ≡ window (peek s) a (length bs)
  pub read_keeps : (a n : ℕ) (s : B.State) (x : ℕ) → peek (B.read a n s).1 x ≡ peek s x
  pub write_stores :
      (a : ℕ) (bs : Bytes) (s : B.State) (m : ℕ)
      → (B.write a bs s).0 ≡ returns (ok m)
      → (x : ℕ) → peek (B.write a bs s).1 x ≡ overlay (peek s) a (take m bs) x
  pub write_within :
      (a : ℕ) (bs : Bytes) (s : B.State) (x : ℕ)
      → (x < a) ⊎ (a + length bs ≤ x)
      → peek (B.write a bs s).1 x ≡ peek s x

-- A backend with the addresses from `lo` up to `hi` mapped. It shows that the contract can be met.
module _ (lo hi : ℕ) (who : TargetIdentity) where
  abbrev mapped : ℕ → ℕ → Bool
  mapped a n = leb lo a && leb (a + n) hi

  abbrev region_read : Address → ℕ → Exec (ℕ → ℕ) (Outcome Bytes)
  region_read a n cell =
      if mapped a n
      then (returns (ok (window cell a n)), cell)
      else (returns (err (make_error read_failed (codes "unmapped") (codes "read") a n)), cell)

  abbrev region_write : Address → Bytes → Exec (ℕ → ℕ) (Outcome ℕ)
  region_write a bs cell =
      if mapped a (length bs) then (returns (ok (length bs)), overlay cell a bs) else (
        returns (err (make_error write_failed (codes "unmapped") (codes "write") a (length bs))),
        cell,
      )

  abbrev pub region : Backend
  region = record {
    State = ℕ → ℕ;
    read = region_read;
    write = region_write;
    is_alive = λ cell. (true, cell);
    identity = λ cell. who;
  }

  region_read-window :
      (a n : ℕ) (cell : ℕ → ℕ) (bs : Bytes)
      → (region_read a n cell).0 ≡ returns (ok bs)
      → bs ≡ window cell a (length bs)
  region_read-window a n cell bs h = ground (arith, length-window cell a n)

  region_write_stores :
      (a : ℕ) (bs : Bytes) (cell : ℕ → ℕ) (m : ℕ)
      → (region_write a bs cell).0 ≡ returns (ok m)
      → (x : ℕ) → (region_write a bs cell).1 x ≡ overlay cell a (take m bs) x
  region_write_stores a bs cell m h x = ground (arith, take-all m bs)

  region_write_within :
      (a : ℕ) (bs : Bytes) (cell : ℕ → ℕ) (x : ℕ)
      → (x < a) ⊎ (a + length bs ≤ x)
      → (region_write a bs cell).1 x ≡ cell x
  region_write_within a bs cell x h = ground (arith, overlay_outside cell a bs x h)

  region_read_keeps : (a n : ℕ) (cell : ℕ → ℕ) (x : ℕ) → (region_read a n cell).1 x ≡ cell x
  region_read_keeps a n cell x = ground arith

  pub region-IsMemory : IsMemory region
  region-IsMemory = record {
    peek = λ cell. cell;
    read_window = region_read-window;
    read_keeps = region_read_keeps;
    write_stores = region_write_stores;
    write_within = region_write_within;
  }
