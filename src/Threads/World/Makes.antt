-- ===== src/Threads/World/Makes.antt =====
-- src/lib/threadlib/thread.cpp: the outcomes of the constructor of `thread`.
use distributed_thread_libra.Prelude.{ℕ, ◌+◌, true, false, Option, none, some, change}
use distributed_thread_libra.HashTable.{Table, table_size, assign}
use distributed_thread_libra.Threads.StackPool.{Pool}
use distributed_thread_libra.Threads.StackPool as StackPool
use distributed_thread_libra.Threads.Scheduler.{Context, put_in_ready}
use distributed_thread_libra.Threads.World.{
  World, fresh, Outcome, done, left_locked, aborted, set_point, make_thread,
}

module _ (G : Outcome → Type 0) (w : World) (j : ℕ) (t : Context) where
  -- The world with the stack taken, and with the context ready.
  abbrev pub made : Pool → World
  made pool' = record w {
    pool = pool';
    next_tid = w.next_tid + 1;
    is_dead =
        change w.is_dead j
          (record { owned_by_stack = true; owned_by_thread = true; val = false; freed = false });
  }

  abbrev pub entered : Pool → Table → World
  entered pool' tids = record (set_point (made pool') t fresh) {
    tid_map = tids;
    sched = put_in_ready w.sched t;
    total_threads = w.total_threads + 1;
  }

  pub make_thread-cases :
      G aborted
      → ((pool' : Pool) → G (left_locked (made pool')))
      → ((pool' : Pool) (tids : Table) → G (done (entered pool' tids)))
      → G (make_thread w j t)
  unfolding make_thread
  make_thread-cases dead full fine = popped (StackPool.pop w.pool)
    where
      assigned :
          (pool' : Pool) (o : Option Table)
          → G (elim o [ none ↦ left_locked (made pool') | some tids ↦ done (entered pool' tids) ])
      assigned pool' none = full pool'
      assigned pool' (some tids) = fine pool' tids

      popped :
          (r : Pool × Option ℕ)
          → G (elim r.1 [
            | none ↦ aborted
            | some stack ↦ elim (assign table_size w.tid_map t w.next_tid) [
              | none ↦ left_locked (made r.0)
              | some tids ↦ done (entered r.0 tids)
            ]
          ])
      popped (pool', none) = dead
      popped (pool', some stack) = assigned pool' (assign table_size w.tid_map t w.next_tid)
