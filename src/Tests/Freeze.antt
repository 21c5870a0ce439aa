-- ===== src/Tests/Freeze.antt =====
-- Freezing a value of the target of Fixture.
use gtlibcpp.Common.{◌≡◌, refl, false, true, [], ◌∷◌, some, arith, codes, equal}
use gtlibcpp.Result.{ok, is_ok}
use gtlibcpp.Backend.Memory.{window, overlay}
use gtlibcpp.Session.{read_bytes, write_bytes}
use gtlibcpp.Freeze.Data.{FreezeRequest, Entry, find_entry, put_entry, size_for_type}
use gtlibcpp.Session.Words.{encode}
use gtlibcpp.Freeze.{
  freeze_sized, register, snapshot, worker_run, change, wait, stop, unfreeze_end, restore_end,
  FreezeManager, freeze, unfreeze, restore, worker_step, stopped, sized, started, paced,
}
use gtlibcpp.Freeze.Steps.{Reaches, here, then_step, works, target_runs, has_ended}
use gtlibcpp.Freeze.Laws.{refreeze_refused}
use gtlibcpp.Freeze.Stopping.{stopped_ends}
use gtlibcpp.Freeze.Quiet.{IsQuiet, unfreeze-IsQuiet}
use gtlibcpp.Freeze.Restore.{restore_gives_back}
use gtlibcpp.Tests.Fixture.{target_memory, is_memory, content}

abbrev empty_manager : FreezeManager target_memory
empty_manager = record { has_session = true; entries = []; target = content }

abbrev health : FreezeRequest
health = record {
  id = codes "health";
  address = 0x1100;
  type_name = codes "uint32";
  value_u64 = 100;
  interval = 0;
  size = 0;
}

abbrev frozen : FreezeManager target_memory
frozen = (freeze target_memory health empty_manager).1

freeze_runs : (freeze target_memory health empty_manager).0 ≡ ok tt
unfolding freeze freeze_sized register snapshot size_for_type equal codes find_entry read_bytes
    window
freeze_runs = refl

-- The worker has tested its flags, asked for the target, and written.
abbrev run_once : FreezeManager target_memory
run_once =
    worker_step target_memory (codes "health") (
      worker_step target_memory (codes "health")
        (worker_step target_memory (codes "health") frozen))

ran : Reaches target_memory frozen run_once
ran =
    then_step (works (codes "health"))
      (then_step (works (codes "health")) (then_step (works (codes "health")) here))

refreeze_refused_example :
    (is_ok (freeze target_memory health run_once).0 ≡ false)
    × ((freeze target_memory health run_once).1 ≡ run_once)
refreeze_refused_example =
    refreeze_refused target_memory health health empty_manager run_once freeze_runs ran refl

unfreeze_runs : (unfreeze target_memory (codes "health") run_once).0 ≡ ok tt
unfolding freeze freeze_sized register snapshot size_for_type equal codes find_entry read_bytes
    window unfreeze worker_step worker_run write_bytes change put_entry overlay wait stop
    unfreeze_end encode
unfreeze_runs = refl

-- The thread is asked for three more steps, while the target changes by itself.
abbrev thawed : FreezeManager target_memory
thawed = (unfreeze target_memory (codes "health") run_once).1

abbrev later : FreezeManager target_memory
later = worker_step target_memory (codes "health") (
    worker_step target_memory (codes "health")
      (worker_step target_memory (codes "health") (record thawed { target = λ x. 7 })))

goes_on : Reaches target_memory thawed later
goes_on = then_step (target_runs (λ x. 7)) (
    then_step (works (codes "health"))
      (then_step (works (codes "health")) (then_step (works (codes "health")) here)))

unfreeze-IsQuiet_example : IsQuiet target_memory (codes "health") thawed later
unfreeze-IsQuiet_example =
    unfreeze-IsQuiet target_memory (codes "health") run_once later unfreeze_runs goes_on

abbrev bytes_found : Entry
bytes_found = started (paced (sized health)) (0 ∷ 0 ∷ 0 ∷ 0 ∷ [])

frozen_found : find_entry (codes "health") frozen.entries ≡ some bytes_found
unfolding freeze freeze_sized register snapshot size_for_type equal codes find_entry read_bytes
    window overlay
frozen_found = refl

stopped_ends_example :
    (e' : Entry) × (find_entry
        (codes "health")
        (stopped target_memory (codes "health") frozen).entries
      ≡ some e')
    × (has_ended e'.worker ≡ true)
stopped_ends_example = stopped_ends target_memory (codes "health") frozen bytes_found frozen_found

restore_runs : (restore target_memory (codes "health") run_once).0 ≡ ok tt
unfolding freeze freeze_sized register snapshot size_for_type equal codes find_entry read_bytes
    window restore worker_step worker_run write_bytes change put_entry overlay wait stop restore_end
    encode
restore_runs = refl

restore_gives_back_example :
    window (is_memory.peek (restore target_memory (codes "health") run_once).1.target) 0x1100 4
    ≡ window (is_memory.peek content) 0x1100 4
unfolding size_for_type equal codes
restore_gives_back_example =
    restore_gives_back target_memory is_memory health empty_manager run_once (omega arith)
      freeze_runs ran restore_runs
