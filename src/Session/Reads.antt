-- ===== src/Session/Reads.antt =====
-- include/gtlibcpp/memory_session.hpp: what a call that succeeds tells of the request and of the
-- reply.
use gtlibcpp.Common.{ℕ, ◌<◌, ◌≡◌, refl, sym, arith, Bytes, length, codes}
use gtlibcpp.Result.{Result, ok, err}
use gtlibcpp.Types.{u64_mod}
use gtlibcpp.Backend.{
  Backend, Outcome, returns, settle, validate_read_request, validate_write_request,
}
use gtlibcpp.Backend.Bounds.{IsInRange, IsInRange-validate_read, IsInRange-validate_write}
use gtlibcpp.Session.{
  full_read, decoded, read_checked, read_bytes, read, write_checked, write_value, write_bytes,
  write,
}
use gtlibcpp.Session.Words.{encode, decode}

settle-full_read-eq-ok :
    (operation operation' : Bytes) (address reported size : ℕ) (reply : Outcome Bytes)
    {bytes : Bytes}
    → settle operation address reported (full_read operation' address size reply) ≡ ok bytes
    → (reply ≡ returns (ok bytes)) × (length bytes ≡ size)
unfolding settle full_read
settle-full_read-eq-ok o o' a r n (returns (ok bs)) h = ground arith
settle-full_read-eq-ok o o' a r n reply h = ground arith

settle-eq-ok :
    (operation : Bytes) (address size : ℕ) (reply : Outcome ℕ) {m : ℕ}
    → settle operation address size reply ≡ ok m
    → reply ≡ returns (ok m)
unfolding settle
settle-eq-ok o a n reply h = ground arith

module _ (B : Backend) where
  -- A read that succeeds: the request was in range, the bytes are the backend's and complete, and
  -- the target is as the backend left it.
  pub record ReadShows (address size : ℕ) (s s' : B.State) (bytes : Bytes) : Type 0 where
    pub in_range : IsInRange address size
    pub complete : length bytes ≡ size
    pub reply : (B.read address size s).0 ≡ returns (ok bytes)
    pub after : s' ≡ (B.read address size s).1

  read_checked-shows :
      (operation : Bytes) (reported address size : ℕ) (v : Result ℕ) (s : B.State) {bytes : Bytes}
      → address < u64_mod
      → v ≡ validate_read_request address size
      → (read_checked B operation reported address size v s).0 ≡ ok bytes
      → ReadShows address size s (read_checked B operation reported address size v s).1 bytes
  unfolding read_checked
  read_checked-shows o r a n (err e) s lt v h = absurd (cc h)
  read_checked-shows o r a n (ok m) s lt v h =
      let (shown, full) = settle-full_read-eq-ok o o a r n (B.read a n s).0 h in
      record {
        in_range = IsInRange-validate_read a n lt (sym v);
        complete = full;
        reply = shown;
        after = refl;
      }

  -- A `read_bytes` at an address of 64 bits that succeeds: the request was in range, the bytes are
  -- the backend's reply and as many as asked for, and the target is as the backend left it.
  pub read_bytes-shows :
      (address size : ℕ) (s : B.State) {bytes : Bytes}
      → address < u64_mod
      → (read_bytes B address size s).0 ≡ ok bytes
      → ReadShows address size s (read_bytes B address size s).1 bytes
  unfolding read_bytes
  read_bytes-shows a n s lt h =
      read_checked-shows (codes "MemorySession::read_bytes") n a n (validate_read_request a n) s lt
        refl h

  decoded-eq-ok :
      (r : Result Bytes) {v : ℕ} → decoded r ≡ ok v → (bs : Bytes) × (r ≡ ok bs) × (v ≡ decode bs)
  decoded-eq-ok (ok bs) h = (bs, refl, ground arith)
  decoded-eq-ok (err e) h = absurd (cc h)

  pub read-shows :
      (width address : ℕ) (s : B.State) {value : ℕ}
      → address < u64_mod
      → (read B width address s).0 ≡ ok value
      → (bytes : Bytes) × ReadShows address width s (read B width address s).1 bytes
        × (value ≡ decode bytes)
  unfolding read
  read-shows w a s lt h =
      let (bs, e, d) =
        decoded-eq-ok
          (read_checked B (codes "MemorySession::read") 0 a w (validate_read_request a w) s).0 h in
      (
        bs,
        read_checked-shows (codes "MemorySession::read") 0 a w (validate_read_request a w) s lt refl
            e,
        d,
      )

  -- A write that succeeds: the request was in range and the count is the backend's.
  pub record WriteStores (address : ℕ) (bytes : Bytes) (s s' : B.State) (count : ℕ) : Type 0 where
    pub in_range : IsInRange address (length bytes)
    pub reply : (B.write address bytes s).0 ≡ returns (ok count)
    pub after : s' ≡ (B.write address bytes s).1

  write_checked-stores :
      (address : ℕ) (bytes : Bytes) (v : Result ℕ) (s : B.State) {count : ℕ}
      → address < u64_mod
      → v ≡ validate_write_request address (length bytes)
      → (write_checked B address bytes v s).0 ≡ ok count
      → WriteStores address bytes s (write_checked B address bytes v s).1 count
  unfolding write_checked
  write_checked-stores a bs (err e) s lt v h = absurd (cc h)
  write_checked-stores a bs (ok m) s lt v h = record {
    in_range = IsInRange-validate_write a (length bs) lt (sym v);
    reply = settle-eq-ok (codes "MemorySession::write_bytes") a (length bs) (B.write a bs s).0 h;
    after = refl;
  }

  pub write_bytes-stores :
      (address : ℕ) (bytes : Bytes) (s : B.State) {count : ℕ}
      → address < u64_mod
      → (write_bytes B address bytes s).0 ≡ ok count
      → WriteStores address bytes s (write_bytes B address bytes s).1 count
  unfolding write_bytes
  write_bytes-stores a bs s lt h =
      write_checked-stores a bs (validate_write_request a (length bs)) s lt refl h

  write_value-stores :
      (width address value : ℕ) (v : Result ℕ) (s : B.State) {count : ℕ}
      → address < u64_mod
      → (write_value B width address value v s).0 ≡ ok count
      → WriteStores address (encode width value) s (write_value B width address value v s).1 count
  unfolding write_value
  write_value-stores w a x (err e) s lt h = absurd (cc h)
  write_value-stores w a x (ok m) s lt h = write_bytes-stores a (encode w x) s lt h

  pub write-stores :
      (width address value : ℕ) (s : B.State) {count : ℕ}
      → address < u64_mod
      → (write B width address value s).0 ≡ ok count
      → WriteStores address (encode width value) s (write B width address value s).1 count
  unfolding write
  write-stores w a x s lt h = write_value-stores w a x (validate_write_request a w) s lt h
