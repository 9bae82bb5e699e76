-- ===== src/Threads/World/Tests.antt =====
-- Worlds of two processors and the theorems of mutexes and threads there.
use distributed_thread_libra.Prelude.{
  ◌≡◌, refl, true, false, Option, none, some, List, [], ◌∷◌, arith, ◌⊎◌, ◌++◌, if◌then◌else◌, ◌==◌,
  replicate,
}
use distributed_thread_libra.HashTable.{
  Table, entry, vacant, make_table, remove, read, get, ref, probe, assign,
}
use distributed_thread_libra.HashTable.Map.{IsMap}
use distributed_thread_libra.HashTable.Chains.{IsChained, make_table-IsChained, assign-IsChained}
use distributed_thread_libra.Threads.StackPool.Laws.{IsPool}
use distributed_thread_libra.Threads.StackPool as StackPool
use distributed_thread_libra.Threads.Scheduler.{
  Context, nullptr, wait_self_on, wake_all, run_next_from_user,
}
use distributed_thread_libra.Threads.World.{
  World, end_state, join, wake_joiners, note_end, thread_handler, wake_up, leave_cpu, runs, locks,
  no_state, done, unlock, run_next, free, current,
}
use distributed_thread_libra.Threads.World.Acts.{
  wakes_joiners, joins_it, notes_end, leaves_it, perform, run,
}
use distributed_thread_libra.Threads.World.Mutexes.{unlock-owner, unlock-run_next}
use distributed_thread_libra.Threads.World.Lives.{join-lost, thread_handler_lem}

-- Context 1 has the id 1 and runs on processor 0; context 2 has the id 2.
abbrev tids : Table
unfolding make_table
tids = vacant ∷ entry 1 1 ∷ entry 2 2 ∷ make_table 1021

abbrev world : World
world = record {
  sched = record { ready = []; waiting = λ q. []; curr = λ c. if c == 0 then 1 else 0 };
  mutexes = λ m. free;
  is_dead =
      λ j. record { owned_by_stack = true; owned_by_thread = true; val = false; freed = false };
  point = λ t. runs;
  status = λ c. no_state;
  tid_map = tids;
  next_tid = 3;
  total_threads = 2;
  pool = record { stacks = 16 ∷ []; tail = 1 };
}

abbrev or_world : Option World → World
or_world none = world
or_world (some w) = w

known : read 1024 tids 1 ≡ some (tids, 1)
unfolding read ref probe make_table
known = refl

known_2 : read 1024 tids 2 ≡ some (tids, 2)
unfolding read ref probe make_table
known_2 = refl

-- Context 1 holds the mutexes, and context 2 waits for mutex 5.
abbrev contended : World
contended = record world {
  mutexes = λ m. record { is_locked = true; owner_id = 1 };
  sched = record {
    ready = [];
    waiting = λ q. if q == 5 then 2 ∷ [] else [];
    curr = λ c. if c == 0 then 1 else 0;
  };
  point = λ t. if t == 2 then locks 5 else runs;
}

unlock-owner_example :
    (v : World) × (unlock contended 0 5 ≡ done v)
    × (((contended.sched.waiting 5 ≡ []) × (v.mutexes 5 ≡ free) × (v.sched ≡ contended.sched))
        ⊎ ((t : Context) × (ts : List Context) × (contended.sched.waiting 5 ≡ t ∷ ts)
            × (v.mutexes 5 ≡ record { is_locked = true; owner_id = 0 })
            × (v.sched.ready ≡ contended.sched.ready ++ t ∷ [])
            × (v.sched.waiting 5 ≡ ts)))
unlock-owner_example = unlock-owner contended 0 5 1 known refl

unlock-run_next_example :
    (v u : World) × (unlock contended 0 5 ≡ done v)
    × (run_next v 1 ≡ done u)
    × (u.mutexes 5 ≡ record { is_locked = true; owner_id = 2 })
    × (current u 1 ≡ 2)
    × (u.sched.waiting 5 ≡ [])
unlock-run_next_example =
    unlock-run_next contended 0 1 5 1 2 2 known refl refl refl (omega arith) refl known_2

-- Context 2 runs on processor 1.
abbrev both_run : World
both_run = record world {
  sched = record { ready = []; waiting = λ q. []; curr = λ c. if c == 0 then 1 else 2 };
}

-- Context 2 joins the thread of context 1 before the end of that is noted; then context 1 leaves processor 0.
abbrev missed : World
unfolding run perform
missed =
    or_world (run both_run (wakes_joiners 7 ∷ joins_it 1 3 7 ∷ notes_end 0 3 16 ∷ leaves_it 0 ∷ []))

join-lost_example :
    (v : World) × (join (wake_joiners both_run 7) 1 3 7 ≡ done v)
    × (((note_end v 0 3 16).is_dead 3).val ≡ true)
    × (current (note_end v 0 3 16) 1 ≡ nullptr)
    × (run (note_end v 0 3 16) (leaves_it 0 ∷ []) ≡ some missed)
    × (more : List Context) × (missed.sched.waiting 7 ≡ 2 ∷ more)
unfolding run perform join wake_joiners note_end leave_cpu wake_up thread_handler wait_self_on
    wake_all run_next_from_user StackPool.push remove probe make_table
join-lost_example =
    join-lost both_run 0 1 3 7 16 refl refl refl refl (leaves_it 0 ∷ []) missed refl refl

-- The map with the id of context 1 only.
abbrev one_tid : Table
unfolding make_table
one_tid = vacant ∷ entry 1 1 ∷ make_table 1022

one_tid-IsChained : IsChained 1024 one_tid
unfolding assign ref probe make_table
one_tid-IsChained =
    assign-IsChained (omega arith) (make_table 1024) (make_table-IsChained 1024) 1 1 refl

abbrev alone : World
alone = record world { tid_map = one_tid; next_tid = 2; total_threads = 1 }

-- The thread of context 1, with the stack 16, has ended on processor 0.
abbrev ended : World
ended = record alone {
  status = λ c. end_state 1 16;
  pool = record { stacks = replicate 40 0; tail = 0 };
}

thread_handler_lem_example :
    (v : World) × (thread_handler ended 0 ≡ done v)
    × (get 1024 v.tid_map 1 ≡ none)
    × IsMap 1024 v.tid_map
    × IsPool v.pool
    × ((StackPool.pop v.pool).1 ≡ some 16)
    × (v.status 0 ≡ no_state)
    × (v.total_threads ≡ 0)
    × (v.sched ≡ ended.sched)
thread_handler_lem_example =
    thread_handler_lem ended 0 1 16 1 refl one_tid-IsChained.is_map
      (record {
        entries = refl;
        within = omega arith;
        distinct = λ i j hi hj e. absurd (omega arith);
      })
      (omega arith) (λ (i, h, e). omega arith)

-- Before the first thread.
abbrev before : World
before = record world {
  sched = record { ready = []; waiting = λ q. []; curr = λ c. 0 };
  tid_map = make_table 1024;
  next_tid = 1;
  total_threads = 0;
}
