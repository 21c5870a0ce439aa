-- ===== src/Freeze/Laws.antt =====
-- src/freeze.cpp: what a caller sees of an entry while other calls and threads go on.
use gtlibcpp.Common.{
  ◌≡◌, refl, ap, ◌∙◌, false, none, some, arith, Bytes, eq→equal, inl, inr, Option-cases, Exec,
}
use gtlibcpp.Result.{Result, ok, err, is_ok}
use gtlibcpp.Backend.{Backend}
use gtlibcpp.Freeze.Data.{put_entry, FreezeRequest, Entry, find_entry}
use gtlibcpp.Freeze.Entries.{find_entry-id, find_entry-put_entry, find_here}
use gtlibcpp.Freeze.{FreezeManager, freeze, change, on_entry, missing, paced, sized, started}
use gtlibcpp.Freeze.Steps.{Reaches, freeze-Comes, freeze-Snapshots, Snapshots, register_old}
use gtlibcpp.Freeze.Persistence.{Reaches-Kept}

module _ (B : Backend) where
  completed_id : (r : FreezeRequest) → (paced (sized r)).id ≡ r.id
  completed_id r = ground arith

  -- After a `freeze` that succeeded its id has the new entry.
  pub Snapshots-found :
      (r : FreezeRequest) {m m' : FreezeManager B}
      → (k : Snapshots B (paced (sized r)) m m')
      → find_entry r.id m'.entries ≡ some (started (paced (sized r)) k.bytes)
  Snapshots-found r {m} k =
      ap (λ (n : FreezeManager B). find_entry r.id n.entries) k.after
      ∙ find_here r.id (started (paced (sized r)) k.bytes) m.entries
          (eq→equal (paced (sized r)).id r.id (completed_id r))

  -- Once a `freeze` has succeeded, then after any further steps, `unfreeze` and `restore` among them,
  -- each `freeze` with the same id fails and changes nothing.
  pub refreeze_refused :
      (r again : FreezeRequest) (m m' : FreezeManager B)
      → (freeze B r m).0 ≡ ok tt
      → Reaches B (freeze B r m).1 m'
      → again.id ≡ r.id
      → (is_ok (freeze B again m').0 ≡ false) × ((freeze B again m').1 ≡ m')
  refreeze_refused r again m m' h reach same =
      let found = Snapshots-found r (freeze-Snapshots B r m h) in
      let (e, found', c) = Reaches-Kept B r.id found reach in
      let old =
        register_old B (paced (sized again)) m'
          (ap (λ i. find_entry i m'.entries) (completed_id again ∙ same) ∙ found') in
      elim (freeze-Comes B again m') [
        | inl q ↦ (ap (λ p. is_ok p.0) (q ∙ old), ap (λ p. p.1) (q ∙ old))
        | inr (x, q) ↦ (ap (λ p. is_ok p.0) q, ap (λ p. p.1) q)
      ]

  pub change_found :
      (id : Bytes) (m : FreezeManager B) {old new : Entry}
      → find_entry id m.entries ≡ some old
      → new.request ≡ old.request
      → find_entry id (change B new m).entries ≡ some new
  unfolding change
  change_found id m {old} {new} h r =
      ap (λ i. find_entry id (put_entry i new m.entries))
        (ap (λ (q : FreezeRequest). q.id) r ∙ find_entry-id id m.entries h)
      ∙ find_entry-put_entry id m.entries h r

  pub on_entry-some :
      (operation id : Bytes) (act : Entry → Exec (FreezeManager B) (Result Unit))
      (m : FreezeManager B) {e : Entry}
      → find_entry id m.entries ≡ some e
      → on_entry B operation id act m ≡ act e m
  on_entry-some operation id act m h = rw (h, on_entry) refl

  pub on_entry-none :
      (operation id : Bytes) (act : Entry → Exec (FreezeManager B) (Result Unit))
      (m : FreezeManager B)
      → find_entry id m.entries ≡ none
      → on_entry B operation id act m ≡ (err (missing operation id), m)
  on_entry-none operation id act m h = rw (h, on_entry) refl

  -- A call that succeeds found its entry.
  pub on_entry_ok :
      (operation id : Bytes) (act : Entry → Exec (FreezeManager B) (Result Unit))
      (m : FreezeManager B)
      → (on_entry B operation id act m).0 ≡ ok tt
      → (e : Entry) × (find_entry id m.entries ≡ some e) × (on_entry B operation id act m ≡ act e m)
  on_entry_ok operation id act m h = elim (Option-cases (find_entry id m.entries)) [
    | inl n ↦ absurd (
        cc (
          ap (λ (p : Result (Unit {0}) × FreezeManager B). p.0)
              (on_entry-none operation id act m n),
          h,
        ))
    | inr (e, f) ↦ (e, f, on_entry-some operation id act m f)
  ]
