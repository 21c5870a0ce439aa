-- ===== src/Freeze/Restore.antt =====
-- src/freeze.cpp: `restore` and the snapshot of `freeze`.
use gtlibcpp.Common.{
  ◌<◌, ◌==◌, ==_iff, ◌≡◌, refl, sym, ap, ap₂, ◌∙◌, arith, codes, inl, inr, Bool-cases, length,
}
use mathlib.Core.Path.{subst}
use gtlibcpp.Result.{Result, ok, Result-cases}
use gtlibcpp.Types.{u64_mod}
use gtlibcpp.Backend.{Backend}
use gtlibcpp.Backend.Memory.{IsMemory, window}
use gtlibcpp.Session.{write_bytes}
use gtlibcpp.Session.Reads.{read_bytes-shows, write_bytes-stores}
use gtlibcpp.Session.RoundTrip.{ReadShows-window, WriteStores-window}
use gtlibcpp.Freeze.Data.{FreezeRequest, Entry}
use gtlibcpp.Freeze.{FreezeManager, freeze, restore, restore_end, stopped, change, paced, sized}
use gtlibcpp.Freeze.Steps.{Reaches, Snapshots, freeze-Snapshots}
use gtlibcpp.Freeze.Persistence.{Reaches-Kept}
use gtlibcpp.Freeze.Laws.{Snapshots-found, on_entry_ok}
use gtlibcpp.Freeze.Stopping.{stopped-Reaches}

module _ (B : Backend) where
  -- A `restore_end` that succeeds wrote the whole snapshot, and leaves the target as that write did.
  restore_end-writes :
      (e : Entry) (m : FreezeManager B)
      → (restore_end B e m).0 ≡ ok tt
      → ((write_bytes B e.request.address e.original_bytes m.target).0
          ≡ ok (length e.original_bytes))
        × ((restore_end B e m).1.target
            ≡ (write_bytes B e.request.address e.original_bytes m.target).1)
  unfolding restore_end change
  restore_end-writes e m h =
      let (written, t) = write_bytes B e.request.address e.original_bytes m.target in
      elim (Result-cases written) [
        | inl (n, q) ↦ elim (Bool-cases (n == length e.original_bytes)) [
          | inl s ↦
              (q ∙ ap ok ((==_iff n (length e.original_bytes)).0 s), rw (q, restore_end, s) refl)
          | inr s ↦ absurd (cc (rw (q, restore_end, s) at h))
        ]
        | inr (x, q) ↦ absurd (cc (rw (q, restore_end) at h))
      ]

  sized_address : (r : FreezeRequest) → (paced (sized r)).address ≡ r.address
  sized_address r = ground arith

  sized_size : (r : FreezeRequest) → (paced (sized r)).size ≡ (sized r).size
  sized_size r = ground arith

  -- The entry that `restore` finds is the one that `freeze` made, its request and bytes kept.
  restore_entry :
      (r : FreezeRequest) {m0 m m' : FreezeManager B}
      → (k : Snapshots B (paced (sized r)) m0 m) → Reaches B m m'
      → (restore B r.id m').0 ≡ ok tt
      → (e : Entry) × (e.request ≡ paced (sized r))
        × (e.original_bytes ≡ k.bytes)
        × (restore B r.id m' ≡ restore_end B e (stopped B r.id m'))
  unfolding restore
  restore_entry r {m' = m'} k reach h =
      let (e, f, c) = Reaches-Kept B r.id (Snapshots-found B r k) reach in
      let (e', f', c') = Reaches-Kept B r.id f (stopped-Reaches B r.id m' f) in
      let (x, g, q) =
        on_entry_ok B (codes "FreezeManager::restore") r.id (restore_end B) (stopped B r.id m') h in
      let same : e' ≡ x = cc (f', g) in
      (
        x,
        ap (λ (y : Entry). y.request) (sym same) ∙ c'.same_request ∙ c.same_request,
        ap (λ (y : Entry). y.original_bytes) (sym same) ∙ c'.same_original ∙ c.same_original,
        q,
      )

  module _ (M : IsMemory B) where
    open M use {peek}

    restore_end-window :
        (e : Entry) (m : FreezeManager B)
        → e.request.address < u64_mod
        → (restore_end B e m).0 ≡ ok tt
        → window (peek (restore_end B e m).1.target) e.request.address (length e.original_bytes)
          ≡ e.original_bytes
    restore_end-window e m lt h =
        let (wrote, t) = restore_end-writes e m h in
        ap (λ s. window (peek s) e.request.address (length e.original_bytes)) t
        ∙ WriteStores-window B M e.request.address e.original_bytes
            (write_bytes-stores B e.request.address e.original_bytes m.target lt wrote)

    -- On plain memory: when a `freeze` has succeeded and, after any further steps of callers,
    -- threads and the target itself, `restore` of its id succeeds, then the frozen range holds
    -- again the bytes that it held when `freeze` was called.
    pub restore_gives_back :
        (r : FreezeRequest) (m m' : FreezeManager B)
        → r.address < u64_mod
        → (freeze B r m).0 ≡ ok tt
        → Reaches B (freeze B r m).1 m'
        → (restore B r.id m').0 ≡ ok tt
        → window (peek (restore B r.id m').1.target) r.address (sized r).size
          ≡ window (peek m.target) r.address (sized r).size
    restore_gives_back r m m' lt h reach done =
        let k = freeze-Snapshots B r m h in
        let lt' : (paced (sized r)).address < u64_mod =
          subst (λ a. a < u64_mod) (sym (sized_address r)) lt in
        let shows =
          read_bytes-shows B (paced (sized r)).address (paced (sized r)).size m.target lt'
            k.reply in
        let (e, same, bytes, q) = restore_entry r k reach done in
        let at_r : e.request.address ≡ r.address =
          ap (λ (x : FreezeRequest). x.address) same ∙ sized_address r in
        let long : length e.original_bytes ≡ (sized r).size =
          ap length bytes ∙ shows.complete ∙ sized_size r in
        let done' = sym (ap (λ (p : Result (Unit {0}) × FreezeManager B). p.0) q) ∙ done in
        ap
          (λ (p : Result (Unit {0}) × FreezeManager B).
            window (peek p.1.target) r.address (sized r).size)
          q
        ∙ ap₂ (window (peek (restore_end B e (stopped B r.id m')).1.target)) (sym at_r) (sym long)
        ∙ restore_end-window e (stopped B r.id m') (subst (λ a. a < u64_mod) (sym at_r) lt) done'
        ∙ bytes
        ∙ ReadShows-window B M shows
        ∙ ap₂ (window (peek m.target)) (sized_address r) (sized_size r)
