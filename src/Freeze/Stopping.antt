-- ===== src/Freeze/Stopping.antt =====
-- src/freeze.cpp: a thread that is told to stop.
use gtlibcpp.Common.{
  ℕ, zero, suc, ◌≤◌, ◌≡◌, refl, sym, ap, ◌∙◌, ◌&&◌, not, if◌then◌else◌, true, false, some, none,
  arith, Bytes, inl, inr, Bool-cases,
}
use mathlib.Core.Path.{subst}
use gtlibcpp.Result.{Result, ok, err}
use gtlibcpp.Backend.{Backend}
use gtlibcpp.Session.{write_bytes}
use gtlibcpp.Freeze.Data.{
  Phase, testing, checking, writing, finished, joined, joinable, Entry, find_entry, u64_to_bytes,
}
use gtlibcpp.Freeze.{
  FreezeManager, change, worker_run, worker_step, stop, stopped, wait, at_phase, counted, exited,
}
use gtlibcpp.Freeze.Steps.{works, stops, Reaches, here, then_step, has_ended, either}
use gtlibcpp.Freeze.Persistence.{worker_step-some, counted-request}
use gtlibcpp.Freeze.Laws.{change_found}

-- The steps that a thread told to stop has left.
abbrev steps_left : Phase → ℕ
steps_left testing = 1
steps_left checking = 3
steps_left writing = 2
steps_left finished = 0
steps_left joined = 0

none_left : (p : Phase) → steps_left p ≤ 0 → has_ended p ≡ true
none_left testing h = absurd (omega arith)
none_left checking h = absurd (omega arith)
none_left writing h = absurd (omega arith)
none_left finished h = refl
none_left joined h = refl

counted-cancel : (e : Entry) (r : Result ℕ) → (counted e r).cancel ≡ e.cancel
counted-cancel e (err x) = refl
counted-cancel e (ok n) = ground arith

module _ (B : Backend) where
  -- The entry under `id` is told to stop and has at most `n` steps left.
  record Ends (id : Bytes) (n : ℕ) (m : FreezeManager B) : Type 0 where
    entry : Entry
    found : find_entry id m.entries ≡ some entry
    told : entry.cancel ≡ true
    left : steps_left entry.worker ≤ n

  Ends-change :
      (id : Bytes) (n : ℕ) (m : FreezeManager B) (new : Entry) {old : Entry}
      → find_entry id m.entries ≡ some old
      → new.request ≡ old.request
      → new.cancel ≡ true
      → steps_left new.worker ≤ n
      → Ends id n (change B new m)
  Ends-change id n m new f r c l = record {
    entry = new;
    found = change_found B id m f r;
    told = c;
    left = l;
  }

  worker_run-Ends :
      (id : Bytes) (p : Phase) (n : ℕ) (m : FreezeManager B) {e : Entry}
      → find_entry id m.entries ≡ some e
      → e.cancel ≡ true
      → e.worker ≡ p
      → steps_left p ≤ suc n
      → Ends id n (worker_run B p e m)
  unfolding worker_run
  worker_run-Ends id testing n m {e} f c w l =
      subst
        (λ b.
          Ends id n
            (if b then change B (at_phase checking e) m else change B (at_phase finished e) m))
        (sym (ap (λ b. not b && e.active) c))
        (Ends-change id n m (at_phase finished e) f refl c (omega arith))
  worker_run-Ends id checking n m {e} f c w l =
      Ends-change id n (record m { target = (B.is_alive m.target).1 })
        (if (B.is_alive m.target).0 then at_phase writing e else exited e) f
        (either (λ (x : Entry). x.request ≡ e.request) (B.is_alive m.target).0 refl refl)
        (either (λ (x : Entry). x.cancel ≡ true) (B.is_alive m.target).0 c c)
        (either (λ (x : Entry). steps_left x.worker ≤ n) (B.is_alive m.target).0 (omega arith)
          (omega arith))
  worker_run-Ends id writing n m {e} f c w l =
      let (written, t) =
        write_bytes B e.request.address (u64_to_bytes e.request.value_u64 e.request.size)
          m.target in
      Ends-change id n (record m { target = t }) (at_phase testing (counted e written)) f
        (counted-request B e written) (counted-cancel e written ∙ c) (omega arith)
  worker_run-Ends id finished n m {e} f c w l = record {
    entry = e;
    found = f;
    told = c;
    left = subst (λ q. steps_left q ≤ n) (sym w) (omega arith);
  }
  worker_run-Ends id joined n m {e} f c w l = record {
    entry = e;
    found = f;
    told = c;
    left = subst (λ q. steps_left q ≤ n) (sym w) (omega arith);
  }

  wait-Ends :
      (id : Bytes) (n : ℕ) (m : FreezeManager B)
      → Ends id n m
      → (e : Entry) × (find_entry id (wait B n id m).entries ≡ some e) × (has_ended e.worker ≡ true)
  unfolding wait
  wait-Ends id zero m k = (k.entry, k.found, none_left k.entry.worker k.left)
  wait-Ends id (suc n) m k = wait-Ends id n (worker_step B id m) (
      subst (Ends id n) (sym (worker_step-some B id m k.found))
        (worker_run-Ends id k.entry.worker n m k.found k.told refl k.left))

  worker_run_idle :
      (p : Phase) (e : Entry) (m : FreezeManager B) → has_ended p ≡ true → worker_run B p e m ≡ m
  unfolding worker_run
  worker_run_idle testing e m h = absurd (cc h)
  worker_run_idle checking e m h = absurd (cc h)
  worker_run_idle writing e m h = absurd (cc h)
  worker_run_idle finished e m h = refl
  worker_run_idle joined e m h = refl

  pub worker_step_idle :
      (id : Bytes) (m : FreezeManager B) {e : Entry}
      → find_entry id m.entries ≡ some e
      → has_ended e.worker ≡ true
      → worker_step B id m ≡ m
  worker_step_idle id m {e} f h = worker_step-some B id m f ∙ worker_run_idle e.worker e m h

  wait_idle :
      (id : Bytes) (n : ℕ) (m : FreezeManager B) {e : Entry}
      → find_entry id m.entries ≡ some e
      → has_ended e.worker ≡ true
      → wait B n id m ≡ m
  unfolding wait
  wait_idle id zero m f h = refl
  wait_idle id (suc n) m f h = ap (wait B n id) (worker_step_idle id m f h) ∙ wait_idle id n m f h

  pub wait-Reaches : (id : Bytes) (n : ℕ) (m : FreezeManager B) → Reaches B m (wait B n id m)
  unfolding wait
  wait-Reaches id zero m = here
  wait-Reaches id (suc n) m = then_step (works id) (wait-Reaches id n (worker_step B id m))

  stop-joinable :
      (m : FreezeManager B) (e : Entry)
      → joinable e.worker ≡ true
      → stop B e m ≡ change B (record e { cancel = true }) m
  unfolding stop
  stop-joinable m e j = rw (j, stop) refl

  stop_joined : (m : FreezeManager B) (e : Entry) → joinable e.worker ≡ false → stop B e m ≡ m
  unfolding stop
  stop_joined m e j = rw (j, stop) refl

  at_most_three : (p : Phase) → steps_left p ≤ 3
  at_most_three testing = omega arith
  at_most_three checking = omega arith
  at_most_three writing = omega arith
  at_most_three finished = omega arith
  at_most_three joined = omega arith

  not_joinable : (p : Phase) → joinable p ≡ false → has_ended p ≡ true
  not_joinable joined h = refl
  not_joinable testing h = absurd (cc h)
  not_joinable checking h = absurd (cc h)
  not_joinable writing h = absurd (cc h)
  not_joinable finished h = refl

  wait-stop :
      (id : Bytes) (m : FreezeManager B) {e : Entry}
      → find_entry id m.entries ≡ some e
      → (e' : Entry) × (find_entry id (wait B 3 id (stop B e m)).entries ≡ some e')
        × (has_ended e'.worker ≡ true)
  wait-stop id m {e} f = elim (Bool-cases (joinable e.worker)) [
    | inl j ↦ wait-Ends id 3 (stop B e m) (
        subst (Ends id 3) (sym (stop-joinable m e j))
          (Ends-change id 3 m (record e { cancel = true }) f refl refl (at_most_three e.worker)))
    | inr j ↦ (
      e,
      ap (λ (n : FreezeManager B). find_entry id (wait B 3 id n).entries) (stop_joined m e j)
          ∙ ap (λ (n : FreezeManager B). find_entry id n.entries)
              (wait_idle id 3 m f (not_joinable e.worker j))
          ∙ f,
      not_joinable e.worker j,
    )
  ]

  stopped_eq :
      (id : Bytes) (m : FreezeManager B) {e : Entry}
      → find_entry id m.entries ≡ some e
      → stopped B id m ≡ wait B 3 id (stop B e m)
  stopped_eq id m f = rw (f, stopped) refl

  pub stopped-none :
      (id : Bytes) (m : FreezeManager B) → find_entry id m.entries ≡ none → stopped B id m ≡ m
  stopped-none id m f = rw (f, stopped) refl

  -- A thread that is told to stop ends within three steps of its own, wherever it stands; then the
  -- wait of `unfreeze` and `restore` is over.
  pub stopped_ends :
      (id : Bytes) (m : FreezeManager B) (e : Entry)
      → find_entry id m.entries ≡ some e
      → (e' : Entry) × (find_entry id (stopped B id m).entries ≡ some e')
        × (has_ended e'.worker ≡ true)
  stopped_ends id m e f =
      subst
        (λ (n : FreezeManager B).
          (e' : Entry) × (find_entry id n.entries ≡ some e') × (has_ended e'.worker ≡ true))
        (sym (stopped_eq id m f)) (wait-stop id m f)

  pub stopped-Reaches :
      (id : Bytes) (m : FreezeManager B) {e : Entry}
      → find_entry id m.entries ≡ some e
      → Reaches B m (stopped B id m)
  stopped-Reaches id m {e} f =
      subst (Reaches B m) (sym (stopped_eq id m f))
        (then_step (stops id f) (wait-Reaches id 3 (stop B e m)))
