-- ===== src/Threads/World/Owners/Tests.antt =====
-- A run of two contexts on two processors that want the same mutex.
use distributed_thread_libra.Prelude.{
  ◌≤◌, ◌≡◌, ◌≢◌, refl, true, false, Option, none, some, [], ◌∷◌, arith, sum_below, ◌==◌,
  if◌then◌else◌,
}
use distributed_thread_libra.HashTable.{Table, entry, vacant, make_table, read, ref, probe}
use distributed_thread_libra.Threads.Scheduler.{Context, nullptr, wait_self_on, wake_one}
use distributed_thread_libra.Threads.Scheduler.Places.{places}
use distributed_thread_libra.Threads.World.{
  World, runs, no_state, free, lock, take, wake_up, thread_handler, run_next, signal,
}
use distributed_thread_libra.Threads.World.Acts.{locks_it, signals_one, picks_next, perform, run}
use distributed_thread_libra.Threads.World.Handed.{handed}
use distributed_thread_libra.Threads.World.Exclusion.{Owns}
use distributed_thread_libra.Threads.World.Owners.{mutex_kept}

abbrev tids : Table
unfolding make_table
tids = vacant ∷ entry 1 1 ∷ entry 2 2 ∷ make_table 1021

-- Context 1 runs on processor 0 and context 2 on processor 1.
abbrev both_run : World
both_run = record {
  sched = record {
    ready = [];
    waiting = λ q. [];
    curr = λ c. if c == 0 then 1 else if c == 1 then 2 else 0;
  };
  mutexes = λ m. free;
  is_dead =
      λ j. record { owned_by_stack = true; owned_by_thread = true; val = false; freed = false };
  point = λ t. runs;
  status = λ c. no_state;
  tid_map = tids;
  next_tid = 3;
  total_threads = 2;
  pool = record { stacks = 16 ∷ []; tail = 1 };
}

abbrev or_start : Option World → World
or_start none = both_run
or_start (some w) = w

-- Context 1 gets mutex 5; context 2 wants it, waits, and processor 1 finds nothing to run. Context 2 has the id 2.
abbrev locked : World
unfolding perform run
locked = or_start (run both_run (locks_it 0 5 ∷ []))

abbrev waited : World
unfolding perform run
waited = or_start (run locked (locks_it 1 5 ∷ picks_next 1 ∷ signals_one 7 ∷ []))

apart : (t : Context) → t ≢ nullptr → places 8 2 t both_run.sched ≤ 1
unfolding places sum_below
apart t real = ground arith

mutex_kept_example : Owns 5 1 waited × (handed 5 waited.point waited.sched.ready ≡ 0)
unfolding perform run lock take wake_up thread_handler run_next signal read ref probe make_table
    wait_self_on wake_one
mutex_kept_example =
    mutex_kept 8 2 5 1 (omega arith) both_run refl refl (λ q. refl) apart (locks_it 0 5 ∷ [])
      (locks_it 1 5 ∷ picks_next 1 ∷ signals_one 7 ∷ []) locked waited
      ((omega arith, omega arith, omega arith), tt) refl (refl, refl)
      (
        ((omega arith, omega arith, omega arith), refl),
        (((omega arith, refl), refl), (((omega arith, omega arith), refl), tt)),
      )
      refl
