-- ===== src/Session/RoundTrip.antt =====
-- include/gtlibcpp/memory_session.hpp: writes and reads over plain memory.
use gtlibcpp.Common.{ℕ, ◌^◌, ◌<◌, ◌≡◌, sym, ap, ◌∙◌, arith, Bytes, length, take-all}
use gtlibcpp.Result.{ok}
use gtlibcpp.Types.{u64_mod}
use gtlibcpp.Backend.{Backend}
use gtlibcpp.Backend.Memory.{IsMemory, window, overlay, window_ext, window-overlay}
use gtlibcpp.Session.{read_bytes, read, write_bytes, write}
use gtlibcpp.Session.Words.{encode, decode, length-encode, decode-encode}
use gtlibcpp.Session.Reads.{
  read_bytes-shows, read-shows, write_bytes-stores, write-stores, ReadShows, WriteStores,
}

module _ (B : Backend) (M : IsMemory B) where
  open M use {peek}

  -- The bytes that a read shows are the content of the range.
  pub ReadShows-window :
      {address size : ℕ} {s s' : B.State} {bytes : Bytes}
      → ReadShows B address size s s' bytes
      → bytes ≡ window (peek s) address size
  ReadShows-window {address} {size} {s} {bytes = bs} r =
      M.read_window address size s bs r.reply ∙ ap (window (peek s) address) r.complete

  -- A complete write leaves its bytes in the range.
  pub WriteStores-window :
      (address : ℕ) (bytes : Bytes) {s s' : B.State}
      → WriteStores B address bytes s s' (length bytes)
      → window (peek s') address (length bytes) ≡ bytes
  WriteStores-window a bs {s} {s'} w =
      window_ext (peek s') (overlay (peek s) a bs) a (length bs) (λ x l u. rw w.after (
        M.write_stores a bs s (length bs) w.reply x
        ∙ ap (λ b. overlay (peek s) a b x) (take-all (length bs) bs (omega arith))))
      ∙ window-overlay (peek s) a bs

  -- On plain memory, after a complete `write_bytes`, a `read_bytes` of the same range that succeeds returns the bytes
  -- that were written.
  pub read_bytes-write_bytes :
      (address : ℕ) (bytes got : Bytes) (s : B.State)
      → address < u64_mod
      → (write_bytes B address bytes s).0 ≡ ok (length bytes)
      → (read_bytes B address (length bytes) (write_bytes B address bytes s).1).0 ≡ ok got
      → got ≡ bytes
  read_bytes-write_bytes a bs got s lt w r =
      ReadShows-window (read_bytes-shows B a (length bs) (write_bytes B a bs s).1 lt r)
      ∙ WriteStores-window a bs (write_bytes-stores B a bs s lt w)

  -- On plain memory, after a `write` of a value that fits in `width` bytes has stored all of them, a
  -- `read` of the same width and address that succeeds returns the value.
  pub read-write :
      (width address value got : ℕ) (s : B.State)
      → address < u64_mod
      → value < 256 ^ width
      → (write B width address value s).0 ≡ ok width
      → (read B width address (write B width address value s).1).0 ≡ ok got
      → got ≡ value
  read-write w a v got s lt fits wr rd =
      let (bs, shows, d) = read-shows B w a (write B w a v s).1 lt rd in
      let stores : WriteStores B a (encode w v) s (write B w a v s).1 (length (encode w v)) =
        rw (length-encode w v) (write-stores B w a v s lt wr) in
      let shown : bs ≡ encode w v =
        ReadShows-window shows
        ∙ ap (window (peek (write B w a v s).1) a) (sym (length-encode w v))
        ∙ WriteStores-window a (encode w v) stores in
      d ∙ ap decode shown ∙ decode-encode w v fits
