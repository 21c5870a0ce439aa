-- ===== src/Freeze.antt =====
-- src/freeze.cpp: `FreezeManager` over any backend. The map of entries is a list, whose order stands
-- for the unspecified one of the source. A thread is its entry's `worker` phase, and `worker_step`
-- is what it does up to its next phase; the sleep between two rounds changes nothing and is left
-- out, as are log lines. `unfreeze` and `restore` consist of `stop`, the wait for the thread, and
-- `unfreeze_end` or `restore_end`; Freeze.Steps has them as separate steps between which others run.
-- Exceptions inside the manager itself (no memory, no thread) are not modelled.
pub mod Data
pub mod Entries
pub mod Steps
pub mod Persistence
pub mod Laws
pub mod Stopping
pub mod Quiet
pub mod Restore
use gtlibcpp.Common.{
  ℕ, zero, suc, ◌+◌, ◌==◌, ltb, ◌||◌, ◌&&◌, not, Bool, true, false, List, [], ◌∷◌, ◌++◌, map,
  Option, none, some, if◌then◌else◌, Bytes, codes, is_empty, Exec, length,
}
use gtlibcpp.Result.{
  Error, not_connected, invalid_address, invalid_type, invalid_entry_id, snapshot_missing,
  partial_write, Result, ok, err, make_error,
}
use gtlibcpp.Types.{Address}
use gtlibcpp.Backend.{Backend}
use gtlibcpp.Session.{read_bytes, write_bytes}
use Data.{
  FreezeRequest, FreezeStatus, Phase, testing, checking, writing, finished, joined, awaited,
  joinable, Entry, find_entry, put_entry, size_for_type, u64_to_bytes, status_of,
}

abbrev pub freeze_error : FreezeRequest → Error
freeze_error request =
    make_error invalid_entry_id (codes "freeze id already active: " ++ request.id)
      (codes "FreezeManager::freeze") request.address 0

abbrev pub snapshot_error : FreezeRequest → Error → Error
snapshot_error request e =
    record (make_error e.code (codes "freeze could not snapshot the original value: " ++ e.message)
      (codes "FreezeManager::freeze") request.address request.size) {
        system_error = e.system_error;
      }

abbrev pub missing : Bytes → Bytes → Error
missing operation id =
    make_error snapshot_missing (codes "no freeze registered under " ++ id) operation 0 0

-- A new entry, its thread started.
abbrev pub started : FreezeRequest → Bytes → Entry
started request bytes = record {
  request = request;
  original_bytes = bytes;
  worker = testing;
  cancel = false;
  active = true;
  restored = false;
  ok_count = 0;
  fail_count = 0;
  last_error = [];
}

-- The request with its defaults filled in.
abbrev pub sized : FreezeRequest → FreezeRequest
sized request =
    if request.size == 0 then record request { size = size_for_type request.type_name } else request

abbrev pub paced : FreezeRequest → FreezeRequest
paced request = if request.interval == 0 then record request { interval = 50 } else request

abbrev pub failed_with : Bytes → Entry → Entry
failed_with message e = record e { fail_count = e.fail_count + 1; last_error = message }

-- The counters after a write of the worker.
abbrev pub counted : Entry → Result ℕ → Entry
counted e (err x) = failed_with x.message e
counted e (ok n) =
    if n == e.request.size
    then record e { ok_count = e.ok_count + 1 }
    else failed_with (codes "partial write during freeze") e

abbrev pub at_phase : Phase → Entry → Entry
at_phase phase e = record e { worker = phase }

abbrev pub exited : Entry → Entry
exited e =
    at_phase finished
      (failed_with (codes "target process exited during freeze") (record e { active = false }))

abbrev pub partial_restore : Entry → ℕ → Error
partial_restore e n =
    make_error partial_write (codes "restored only a subset of the original bytes")
      (codes "FreezeManager::restore") e.request.address n

module _ (B : Backend) where
  -- `target` is the state of the backend behind the session.
  pub record FreezeManager : Type 0 where
    pub has_session : Bool
    pub entries : List Entry
    pub target : B.State

  unfoldable pub change : Entry → FreezeManager → FreezeManager
  change e m = record m { entries = put_entry e.request.id e m.entries }

  unfoldable pub snapshot : FreezeRequest → Exec FreezeManager (Result Unit)
  snapshot request m =
      let (initial, t) = read_bytes B request.address request.size m.target in
      elim initial [
        | err e ↦ (err (snapshot_error request e), record m { target = t })
        | ok bytes ↦ (ok tt, record m { entries = started request bytes ∷ m.entries; target = t })
      ]

  -- From the look-up of the id on.
  unfoldable pub register : FreezeRequest → Exec FreezeManager (Result Unit)
  register request m = elim (find_entry request.id m.entries) [
    | some _ ↦ (err (freeze_error request), m)
    | none ↦ snapshot request m
  ]

  unfoldable pub freeze_sized : FreezeRequest → Exec FreezeManager (Result Unit)
  freeze_sized request m =
      if request.size == 0 || ltb 8 request.size
      then (
        err (
            make_error invalid_type (codes "unknown freeze type " ++ request.type_name)
              (codes "FreezeManager::freeze") request.address 0),
        m,
      )
      else if is_empty request.id
      then (
        err (
            make_error invalid_entry_id (codes "freeze id must be non-empty")
              (codes "FreezeManager::freeze") request.address 0),
        m,
      )
      else register (paced request) m

  unfoldable pub freeze : FreezeRequest → Exec FreezeManager (Result Unit)
  freeze request m =
      if not m.has_session
      then (
        err (
            make_error not_connected (codes "no session attached") (codes "FreezeManager::freeze") 0
              0),
        m,
      )
      else if request.address == 0
      then (
        err (
            make_error invalid_address (codes "freeze address is 0") (codes "FreezeManager::freeze")
              0 0),
        m,
      )
      else freeze_sized (sized request) m

  -- The worker of `e` up to its next phase.
  unfoldable pub worker_run : Phase → Entry → FreezeManager → FreezeManager
  worker_run testing e m =
      if not e.cancel && e.active
      then change (at_phase checking e) m
      else change (at_phase finished e) m
  worker_run checking e m =
      let (alive, t) = B.is_alive m.target in
      change (if alive then at_phase writing e else exited e) (record m { target = t })
  worker_run writing e m =
      let (written, t) =
        write_bytes B e.request.address (u64_to_bytes e.request.value_u64 e.request.size)
          m.target in
      change (at_phase testing (counted e written)) (record m { target = t })
  worker_run finished e m = m
  worker_run joined e m = m

  unfoldable pub worker_step : Bytes → FreezeManager → FreezeManager
  worker_step id m = elim (find_entry id m.entries) [ none ↦ m | some e ↦ worker_run e.worker e m ]

  -- `unfreeze` and `restore` up to the wait for the thread.
  unfoldable pub stop : Entry → FreezeManager → FreezeManager
  stop e m = if joinable e.worker then change (record e { cancel = true }) m else m

  -- From the wait on.
  unfoldable pub unfreeze_end : Entry → Exec FreezeManager (Result Unit)
  unfreeze_end e m = (ok tt, change (record e { worker = awaited e.worker; active = false }) m)

  unfoldable pub restore_end : Entry → Exec FreezeManager (Result Unit)
  restore_end e m =
      let (restored, t) = write_bytes B e.request.address e.original_bytes m.target in
      elim restored [
        | err x ↦ (err x, change (at_phase (awaited e.worker) e) (record m { target = t }))
        | ok n ↦
            if n == length e.original_bytes
            then (
              ok tt,
              change (record e { worker = awaited e.worker; restored = true; active = false })
                  (record m { target = t }),
            )
            else (
              err (partial_restore e n),
              change (at_phase (awaited e.worker) e) (record m { target = t }),
            )
      ]

  -- The thread runs on to its end; a thread told to stop needs at most three steps.
  unfoldable pub wait : ℕ → Bytes → FreezeManager → FreezeManager
  wait zero id m = m
  wait (suc n) id m = wait n id (worker_step id m)

  abbrev pub on_entry :
      Bytes → Bytes → (Entry → Exec FreezeManager (Result Unit)) → Exec FreezeManager (Result Unit)
  on_entry operation id act m = elim (find_entry id m.entries) [
    | none ↦ (err (missing operation id), m)
    | some e ↦ act e m
  ]

  abbrev pub stopped : Bytes → FreezeManager → FreezeManager
  stopped id m = elim (find_entry id m.entries) [ none ↦ m | some e ↦ wait 3 id (stop e m) ]

  -- The whole calls, where nothing else runs meanwhile.
  unfoldable pub unfreeze : Bytes → Exec FreezeManager (Result Unit)
  unfreeze id m = on_entry (codes "FreezeManager::unfreeze") id unfreeze_end (stopped id m)

  unfoldable pub restore : Bytes → Exec FreezeManager (Result Unit)
  restore id m = on_entry (codes "FreezeManager::restore") id restore_end (stopped id m)

  unfoldable pub status : Bytes → FreezeManager → Result FreezeStatus
  status id m = elim (find_entry id m.entries) [
    | none ↦ err (missing (codes "FreezeManager::status") id)
    | some e ↦ ok (status_of e)
  ]

  abbrev pub all_status : FreezeManager → List FreezeStatus
  all_status m = map status_of m.entries

  abbrev pub cancelled : Entry → Entry
  cancelled e = record e { cancel = true; active = false }

  -- The first loop of `cancel_all`; the second waits for the threads.
  unfoldable pub cancel_flags : FreezeManager → FreezeManager
  cancel_flags m = record m { entries = map cancelled m.entries }

  abbrev pub count_active : List Entry → ℕ
  count_active [] = 0
  count_active (e ∷ rest) = if e.active then suc (count_active rest) else count_active rest

  abbrev pub active_count : FreezeManager → ℕ
  active_count m = count_active m.entries
