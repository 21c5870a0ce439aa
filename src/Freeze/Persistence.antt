-- ===== src/Freeze/Persistence.antt =====
-- src/freeze.cpp: the entries of a `FreezeManager` from step to step.
use gtlibcpp.Common.{
  ap, ℕ, ◌==◌, length, not, ◌&&◌, arith, none, ◌≡◌, refl, sym, ◌∙◌, some, Bytes, inl, inr,
  Option-cases,
}
use mathlib.Core.Path.{subst}
use gtlibcpp.Result.{Result, ok, err, Result-cases}
use gtlibcpp.Backend.{Backend}
use gtlibcpp.Session.{read_bytes, write_bytes}
use gtlibcpp.Freeze.Data.{
  FreezeRequest, Phase, testing, checking, writing, finished, joined, awaited, joinable, Entry,
  find_entry, u64_to_bytes,
}
use gtlibcpp.Freeze.Entries.{Continues, Continues-refl, Continues-trans, Kept, Kept-map, Kept-new}
use gtlibcpp.Freeze.{
  FreezeManager, freeze, snapshot, register, change, worker_run, worker_step, stop, unfreeze_end,
  restore_end, cancel_flags, cancelled, at_phase, exited, counted, paced, sized, started,
}
use gtlibcpp.Freeze.Steps.{
  Step, freezes, works, stops, unfreezes, restores, cancels, joins, target_runs, Reaches, here,
  then_step, change-Kept, freeze-Comes, register_new, register_old, either,
}

module _ (B : Backend) where
  abbrev KeptIn : Bytes → Entry → FreezeManager B → Type 0
  KeptIn id e m = Kept id e m.entries

  -- A change of an entry whose thread still runs.
  running_Continues :
      (e new : Entry) {p : Phase}
      → e.worker ≡ p
      → ¬ (p ≡ joined)
      → new.request ≡ e.request
      → new.original_bytes ≡ e.original_bytes
      → Continues e new
  running_Continues e new w n r o = record {
    same_request = r;
    same_original = o;
    stays_joined = λ h. absurd (n (sym w ∙ h));
    same_ok = λ h. absurd (n (sym w ∙ h));
    same_fail = λ h. absurd (n (sym w ∙ h));
  }

  pub counted-request : (e : Entry) (r : Result ℕ) → (counted e r).request ≡ e.request
  counted-request e (err x) = refl
  counted-request e (ok n) = ground arith

  counted-original : (e : Entry) (r : Result ℕ) → (counted e r).original_bytes ≡ e.original_bytes
  counted-original e (err x) = refl
  counted-original e (ok n) = ground arith

  pub worker_step-some :
      (id : Bytes) (m : FreezeManager B) {e : Entry}
      → find_entry id m.entries ≡ some e
      → worker_step B id m ≡ worker_run B e.worker e m
  unfolding worker_step
  worker_step-some id m h = rw (h, worker_step) refl

  worker_step-none :
      (id : Bytes) (m : FreezeManager B) → find_entry id m.entries ≡ none → worker_step B id m ≡ m
  unfolding worker_step
  worker_step-none id m h = rw (h, worker_step) refl

  worker_run-Kept :
      (id id' : Bytes) (p : Phase) (m : FreezeManager B) {e old : Entry}
      → find_entry id m.entries ≡ some e
      → find_entry id' m.entries ≡ some old
      → old.worker ≡ p
      → KeptIn id e (worker_run B p old m)
  unfolding worker_run
  worker_run-Kept id id' testing m {e} {old} h f w =
      either (KeptIn id e) (not old.cancel && old.active)
        (change-Kept B m id id' h f
          (running_Continues old (at_phase checking old) w (λ q. absurd (cc q)) refl refl))
        (change-Kept B m id id' h f
          (running_Continues old (at_phase finished old) w (λ q. absurd (cc q)) refl refl))
  worker_run-Kept id id' checking m {e} {old} h f w =
      change-Kept B (record m { target = (B.is_alive m.target).1 }) id id' h f
        (either (Continues old) (B.is_alive m.target).0
          (running_Continues old (at_phase writing old) w (λ q. absurd (cc q)) refl refl)
          (running_Continues old (exited old) w (λ q. absurd (cc q)) refl refl))
  worker_run-Kept id id' writing m {e} {old} h f w =
      let (written, t) =
        write_bytes B old.request.address (u64_to_bytes old.request.value_u64 old.request.size)
          m.target in
      change-Kept B (record m { target = t }) id id' h f
        (running_Continues old (at_phase testing (counted old written)) w (λ q. absurd (cc q))
          (counted-request old written) (counted-original old written))
  worker_run-Kept id id' finished m h f w = (_, h, Continues-refl _)
  worker_run-Kept id id' joined m h f w = (_, h, Continues-refl _)

  pub worker_step-Kept :
      (id id' : Bytes) (m : FreezeManager B) {e : Entry}
      → find_entry id m.entries ≡ some e
      → KeptIn id e (worker_step B id' m)
  worker_step-Kept id id' m {e} h = elim (Option-cases (find_entry id' m.entries)) [
    | inl n ↦ subst (KeptIn id e) (sym (worker_step-none id' m n)) (e, h, Continues-refl e)
    | inr (old, f) ↦
        subst (KeptIn id e) (sym (worker_step-some id' m f))
          (worker_run-Kept id id' old.worker m h f refl)
  ]

  snapshot-Kept :
      (id : Bytes) (r : FreezeRequest) (m : FreezeManager B) {e : Entry}
      → find_entry r.id m.entries ≡ none
      → find_entry id m.entries ≡ some e
      → KeptIn id e (snapshot B r m).1
  unfolding snapshot
  snapshot-Kept id r m {e} n h = elim (Result-cases (read_bytes B r.address r.size m.target).0) [
    | inl (bs, q) ↦ rw (q, snapshot) (Kept-new id (started r bs) m.entries n h)
    | inr (x, q) ↦ rw (q, snapshot) (e, h, Continues-refl e)
  ]

  register-Kept :
      (id : Bytes) (r : FreezeRequest) (m : FreezeManager B) {e : Entry}
      → find_entry id m.entries ≡ some e
      → KeptIn id e (register B r m).1
  register-Kept id r m {e} h = elim (Option-cases (find_entry r.id m.entries)) [
    | inl n ↦
        subst (λ (p : Result (Unit {0}) × FreezeManager B). KeptIn id e p.1)
          (sym (register_new B r m n)) (snapshot-Kept id r m n h)
    | inr (o, f) ↦
        subst (λ (p : Result (Unit {0}) × FreezeManager B). KeptIn id e p.1)
          (sym (register_old B r m f)) (e, h, Continues-refl e)
  ]

  freeze-Kept :
      (id : Bytes) (r : FreezeRequest) (m : FreezeManager B) {e : Entry}
      → find_entry id m.entries ≡ some e
      → KeptIn id e (freeze B r m).1
  freeze-Kept id r m {e} h = elim (freeze-Comes B r m) [
    | inl c ↦
        subst (λ (p : Result (Unit {0}) × FreezeManager B). KeptIn id e p.1) (sym c)
          (register-Kept id (paced (sized r)) m h)
    | inr (x, c) ↦
        subst (λ (p : Result (Unit {0}) × FreezeManager B). KeptIn id e p.1) (sym c)
          (e, h, Continues-refl e)
  ]

  stop-Kept :
      (id id' : Bytes) (m : FreezeManager B) {e old : Entry}
      → find_entry id m.entries ≡ some e
      → find_entry id' m.entries ≡ some old
      → KeptIn id e (stop B old m)
  unfolding stop
  stop-Kept id id' m {e} {old} h f =
      either (KeptIn id e) (joinable old.worker)
        (change-Kept B m id id' h f (record {
          same_request = refl;
          same_original = refl;
          stays_joined = λ j. j;
          same_ok = λ j. refl;
          same_fail = λ j. refl;
        }))
        (e, h, Continues-refl e)

  -- An entry whose thread has been waited for, with the counters kept.
  join_Continues :
      (e new : Entry)
      → new.request ≡ e.request
      → new.original_bytes ≡ e.original_bytes
      → new.worker ≡ awaited e.worker
      → new.ok_count ≡ e.ok_count
      → new.fail_count ≡ e.fail_count
      → Continues e new
  join_Continues e new r o w k f = record {
    same_request = r;
    same_original = o;
    stays_joined = λ j. w ∙ ap awaited j;
    same_ok = λ j. k;
    same_fail = λ j. f;
  }

  restore_end-Kept :
      (id id' : Bytes) (m : FreezeManager B) {e old : Entry}
      → find_entry id m.entries ≡ some e
      → find_entry id' m.entries ≡ some old
      → KeptIn id e (restore_end B old m).1
  unfolding restore_end
  restore_end-Kept id id' m {e} {old} h f =
      let (written, t) = write_bytes B old.request.address old.original_bytes m.target in
      let Keeps : Result (Unit {0}) × FreezeManager B → Type 0 = λ p. KeptIn id e p.1 in
      let left : KeptIn id e
          (change B (at_phase (awaited old.worker) old) (record m { target = t })) =
        change-Kept B (record m { target = t }) id id' h f
          (join_Continues old _ refl refl refl refl refl) in
      elim (Result-cases written) [
        | inl (n, q) ↦
            rw (q, restore_end)
              (either Keeps (n == length old.original_bytes)
                (change-Kept B (record m { target = t }) id id' h f
                  (join_Continues old _ refl refl refl refl refl))
                left)
        | inr (x, q) ↦ rw (q, restore_end) left
      ]

  pub Step-Kept :
      (id : Bytes) {m m' : FreezeManager B} {e : Entry}
      → find_entry id m.entries ≡ some e
      → Step B m m'
      → KeptIn id e m'
  unfolding unfreeze_end cancel_flags
  Step-Kept id {m} h (freezes r) = freeze-Kept id r m h
  Step-Kept id {m} h (works id') = worker_step-Kept id id' m h
  Step-Kept id {m} h (stops id' f) = stop-Kept id id' m h f
  Step-Kept id {m} h (unfreezes id' {e = old} f w) =
      change-Kept B m id id' h f (join_Continues old _ refl refl refl refl refl)
  Step-Kept id {m} h (restores id' f w) = restore_end-Kept id id' m h f
  Step-Kept id {m} h cancels =
      Kept-map id (cancelled B) m.entries
        (λ x. record {
          same_request = refl;
          same_original = refl;
          stays_joined = λ j. j;
          same_ok = λ j. refl;
          same_fail = λ j. refl;
        })
        h
  Step-Kept id {m} h (joins id' {e = old} f w) =
      change-Kept B m id id' h f (join_Continues old _ refl refl refl refl refl)
  Step-Kept id {m} {e = e} h (target_runs t) = (e, h, Continues-refl e)

  pub Reaches-Kept :
      (id : Bytes) {m m' : FreezeManager B} {e : Entry}
      → find_entry id m.entries ≡ some e
      → Reaches B m m'
      → KeptIn id e m'
  Reaches-Kept id {e = e} h here = (e, h, Continues-refl e)
  Reaches-Kept id h (then_step s rest) =
      let (e', found, c) = Step-Kept id h s in
      let (e'', found', c') = Reaches-Kept id found rest in (e'', found', Continues-trans c c')
