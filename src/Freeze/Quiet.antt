-- ===== src/Freeze/Quiet.antt =====
-- src/freeze.cpp: the thread of an entry after `unfreeze`.
use gtlibcpp.Common.{
  ◌≡◌, refl, sym, ap, ◌∙◌, true, false, some, Bytes, codes, inl, inr, Option-cases,
}
use gtlibcpp.Result.{Result, ok}
use gtlibcpp.Backend.{Backend}
use gtlibcpp.Freeze.Data.{
  Phase, testing, checking, writing, finished, joined, awaited, Entry, find_entry,
}
use gtlibcpp.Freeze.{FreezeManager, worker_step, stopped, unfreeze, unfreeze_end}
use gtlibcpp.Freeze.Steps.{Reaches, has_ended}
use gtlibcpp.Freeze.Persistence.{Reaches-Kept}
use gtlibcpp.Freeze.Laws.{change_found, on_entry_ok}
use gtlibcpp.Freeze.Stopping.{worker_step_idle, stopped_ends, stopped-none}

module _ (B : Backend) where
  -- Between `m` and the later `m'` the thread of `id` did nothing and can do nothing more.
  pub record IsQuiet (id : Bytes) (m m' : FreezeManager B) : Type 0 where
    pub before : Entry
    pub after : Entry
    pub was : find_entry id m.entries ≡ some before
    pub is : find_entry id m'.entries ≡ some after
    pub same_ok : after.ok_count ≡ before.ok_count
    pub same_fail : after.fail_count ≡ before.fail_count
    pub idle : worker_step B id m' ≡ m'

  awaited_ended : (p : Phase) → has_ended p ≡ true → awaited p ≡ joined
  awaited_ended finished h = refl
  awaited_ended joined h = refl
  awaited_ended testing h = absurd (cc h)
  awaited_ended checking h = absurd (cc h)
  awaited_ended writing h = absurd (cc h)

  -- The wait of a call on a known entry has ended its thread.
  stopped_joins :
      (id : Bytes) (m : FreezeManager B) {e : Entry}
      → find_entry id (stopped B id m).entries ≡ some e
      → awaited e.worker ≡ joined
  stopped_joins id m {e} f = elim (Option-cases (find_entry id m.entries)) [
    | inl n ↦
        absurd
          (cc (n, ap (λ (k : FreezeManager B). find_entry id k.entries) (stopped-none B id m n), f))
    | inr (old, o) ↦
        let (e', f', ended) = stopped_ends B id m old o in
        let same : e' ≡ e = cc (f', f) in
        ap (λ (x : Entry). awaited x.worker) (sym same) ∙ awaited_ended e'.worker ended
  ]

  unfreeze_joins :
      (id : Bytes) (m : FreezeManager B)
      → (unfreeze B id m).0 ≡ ok tt
      → (e : Entry) × (find_entry id (unfreeze B id m).1.entries ≡ some e) × (e.worker ≡ joined)
  unfolding unfreeze unfreeze_end
  unfreeze_joins id m h =
      let (e, f, q) =
        on_entry_ok B (codes "FreezeManager::unfreeze") id (unfreeze_end B) (stopped B id m) h in
      (
        record e { worker = awaited e.worker; active = false },
        ap (λ (p : Result (Unit {0}) × FreezeManager B). find_entry id p.1.entries) q
            ∙ change_found B id (stopped B id m) f refl,
        stopped_joins id m f,
      )

  -- After an `unfreeze` that succeeds and any further steps, the thread of the entry has made no
  -- write, counted nothing, and its next step changes nothing.
  pub unfreeze-IsQuiet :
      (id : Bytes) (m m' : FreezeManager B)
      → (unfreeze B id m).0 ≡ ok tt
      → Reaches B (unfreeze B id m).1 m'
      → IsQuiet id (unfreeze B id m).1 m'
  unfreeze-IsQuiet id m m' h reach =
      let (e, f, j) = unfreeze_joins id m h in
      let (e', f', c) = Reaches-Kept B id f reach in
      record {
        before = e;
        after = e';
        was = f;
        is = f';
        same_ok = c.same_ok j;
        same_fail = c.same_fail j;
        idle = worker_step_idle B id m' f' (ap has_ended (c.stays_joined j));
      }
