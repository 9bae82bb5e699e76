-- ===== src/Threads/World/Start.antt =====
-- src/lib/threadlib/thread.cpp: the start of a thread, and the start of `cpu::run`.
use distributed_thread_libra.Prelude.{
  ℕ, ◌+◌, ◌-◌, ◌≡◌, ◌≢◌, refl, inl, inr, not, true, false, some, [], ◌∷◌, ◌++◌, get_or, change,
  arith, change_self, sym, subst, ap, ◌∙◌,
}
use distributed_thread_libra.HashTable.{Table, make_table, at, is_free, table_size, get}
use distributed_thread_libra.HashTable.Map.{IsFull}
use distributed_thread_libra.HashTable.Chains.{IsChained, make_table-IsChained, assign_lem}
use distributed_thread_libra.Threads.Scheduler.{Context, nullptr, put_in_ready, ctx_switch}
use distributed_thread_libra.Threads.StackPool.{total_possible_stacks}
use distributed_thread_libra.Threads.StackPool as StackPool
use distributed_thread_libra.Threads.World.Switch.{wake_up-thread, run_next-cons}
use distributed_thread_libra.Threads.World.{
  start_run, run_next, runs, World, SharedBool, fresh, no_state, done, current, continue_at,
  set_point, make_thread, drop_thread,
}

pop-suc :
    (p : StackPool.Pool) → p.tail ≢ 0 → (StackPool.pop p).1 ≡ some (get_or p.stacks (p.tail - 1) 0)
unfolding StackPool.pop
pop-suc p ne = ground arith

no_slot : ¬ (is_free (at (make_table table_size) 0) ≡ false)
unfolding make_table
no_slot e = cc

-- The first thread: with a free stack and an empty map of ids, `cpu::run` starts its loop with one ready
-- context, whose thread has the next id and is not dead, and keeps the thread's flag, which only the
-- thread still owns.
pub start_run-run_next :
    (w : World) (c j : ℕ) (t : Context)
    → w.tid_map ≡ make_table table_size
    → w.pool.tail ≢ 0
    → w.sched.ready ≡ []
    → t ≢ nullptr
    → w.status c ≡ no_state
    → (v u : World) × (start_run w c j t ≡ done v)
      × (run_next v c ≡ done u)
      × (current u c ≡ t)
      × (u.sched.ready ≡ [])
      × (get table_size u.tid_map t ≡ some w.next_tid)
      × (u.is_dead j
          ≡ record { owned_by_stack = true; owned_by_thread = false; val = false; freed = false })
unfolding start_run make_thread put_in_ready drop_thread
start_run-run_next w c j t none_yet stack none_ready real idle =
    elim (assign_lem (omega arith) w.tid_map chained t w.next_tid) [
      | inl (no_room, absent, full) ↦ absurd (not_full full)
      | inr (tids, stored, _, ids) ↦ (
        started tids,
        set_point (settled tids) (current (settled tids) c) runs,
        rw (pop-suc w.pool stack, stored, make_thread),
        run_next-cons (started tids) c t [] (ap (λ us. us ++ t ∷ []) none_ready)
            ∙ wake_up-thread (switched tids) c (change_self w.status c no_state) t
                (change_self (change w.sched.curr c nullptr) c t) real
            ∙ ap (continue_at (settled tids) c) (change_self w.point t fresh),
        change_self (change w.sched.curr c nullptr) c t,
        refl,
        ids t ∙ ground arith,
        change_self prepared.is_dead j (dropped (prepared.is_dead j))
            ∙ ap dropped (change_self w.is_dead j new),
      )
    ]
  where
    chained : IsChained table_size w.tid_map
    chained = subst (IsChained table_size) (sym none_yet) (make_table-IsChained table_size)

    not_full : ¬ (IsFull table_size w.tid_map)
    not_full full = no_slot (subst (IsFull table_size) none_yet full 0 (omega arith))

    dropped : SharedBool → SharedBool
    dropped b = record b { owned_by_thread = false; freed = not b.owned_by_stack }

    new : SharedBool
    new = record { owned_by_stack = true; owned_by_thread = true; val = false; freed = false }

    prepared : World
    prepared = record w {
      sched = ctx_switch w.sched c nullptr;
      pool = (StackPool.pop w.pool).0;
      next_tid = w.next_tid + 1;
      is_dead = change w.is_dead j new;
    }

    started : Table → World
    started tids =
        drop_thread
          (record (set_point prepared t fresh) {
            tid_map = tids;
            sched = put_in_ready prepared.sched t;
            total_threads = w.total_threads + 1;
          })
          j

    switched : Table → World
    switched tids = record (started tids) {
      status = change w.status c no_state;
      sched = ctx_switch (record (started tids).sched { ready = [] }) c t;
    }

    settled : Table → World
    settled tids = record (switched tids) { status = change (switched tids).status c no_state }
