-- ===== src/Threads/World/Lives.antt =====
-- src/lib/threadlib/thread.cpp: the end of a thread, and the threads that join it.
use distributed_thread_libra.Prelude.{
  ℕ, List, Option, ◌∙◌, sym, ◌-◌, ◌<◌, ◌≡◌, refl, true, false, none, some, [], ◌∷◌, ◌++◌, ◌==◌,
  if◌then◌else◌, length, change, arith, change_self, ap,
}
use distributed_thread_libra.HashTable.{table_size, get, remove}
use distributed_thread_libra.HashTable.Map.{IsMap}
use distributed_thread_libra.Threads.Scheduler.{
  Context, nullptr, Sched, wake_all, wake_loop, enqueue, ctx_switch,
}
use distributed_thread_libra.HashTable.Laws.{get-remove, remove-IsMap}
use distributed_thread_libra.Threads.StackPool.{total_possible_stacks}
use distributed_thread_libra.Threads.StackPool.Laws.{IsPool, IsFree, push_lem}
use distributed_thread_libra.Threads.StackPool as StackPool
use distributed_thread_libra.Threads.Scheduler.Ready.{wait_self_on-nil}
use distributed_thread_libra.Threads.World.Switch.{wake_up-main}
use distributed_thread_libra.Threads.World.Acts.{
  Act, wakes_joiners, joins_it, notes_end, perform, after, run,
}
use distributed_thread_libra.Threads.World.Waits.{all_quiet, run-Waits}
use distributed_thread_libra.Threads.World.{
  World, joins, no_state, end_state, done, current, after_status, set_point, wait_at, wake_up,
  thread_handler, join, wake_joiners, note_end,
}

wake_all-nil : (s : Sched) (q : ℕ) → s.waiting q ≡ [] → wake_all s q ≡ s
unfolding wake_all wake_loop
wake_all-nil s q e = ap (λ us. wake_loop (length us) s q) e

-- A thread that ends wakes its joiners, of which there are none, while nothing else is ready. Before it notes its end a
-- processor `d` runs `join`: it puts its context on the queue of joiners and goes back to its main context. Then the
-- end is noted, and through any further calls on all processors, the rest of the thread's end among them, that are no
-- `signal`, `broadcast`, `unlock`, `wait` or wake of joiners on that queue, the context still waits there.
pub join-lost :
    (w : World) (c d j q stack : ℕ)
    → (w.is_dead j).val ≡ false
    → w.sched.ready ≡ []
    → w.sched.waiting q ≡ []
    → w.status d ≡ no_state
    → (acts : List Act) (u : World) → all_quiet q acts ≡ true
    → run w (wakes_joiners q ∷ joins_it d j q ∷ notes_end c j stack ∷ acts) ≡ some u
    → (v : World) × (join (wake_joiners w q) d j q ≡ done v)
      × (((note_end v c j stack).is_dead j).val ≡ true)
      × (current (note_end v c j stack) d ≡ nullptr)
      × (run (note_end v c j stack) acts ≡ some u)
      × (more : List Context) × (u.sched.waiting q ≡ current w d ∷ more)
unfolding wake_joiners join note_end run perform
join-lost w c d j q stack alive none_ready alone idle acts u quiet runs =
    let after_join : run w (wakes_joiners q ∷ joins_it d j q ∷ notes_end c j stack ∷ acts)
        ≡ run (note_end v c j stack) acts =
      ap
        (λ o. elim (after o) as (λ x. Option World) [
          | none ↦ none
          | some z ↦ run (note_end z c j stack) acts
        ])
        joined in
    let rest : run (note_end v c j stack) acts ≡ some u = sym after_join ∙ runs in
    let (more, behind) = run-Waits q acts (note_end v c j stack) u quiet rest in
    (
      v,
      joined,
      ground arith,
      change_self w.sched.curr d nullptr,
      rest,
      more,
      behind ∙ ap (λ us. us ++ more) in_queue,
    )
  where
    waits : World
    waits = record (set_point w (current w d) joins) {
      sched = ctx_switch (enqueue w.sched q (current w d)) d nullptr;
    }

    v : World
    v = record waits { status = change w.status d no_state }

    joined : join (wake_joiners w q) d j q ≡ done v
    joined =
        ap (λ s. join (record w { sched = s }) d j q) (wake_all-nil w.sched q alone)
        ∙ ap (λ b. if b then done w else wait_at w d q joins) alive
        ∙ ap (λ s. wake_up (record (set_point w (current w d) joins) { sched = s }) d)
            (wait_self_on-nil w.sched d q none_ready)
        ∙ wake_up-main waits d idle (change_self w.sched.curr d nullptr)

    in_queue : v.sched.waiting q ≡ current w d ∷ []
    in_queue =
        change_self w.sched.waiting q (w.sched.waiting q ++ current w d ∷ [])
        ∙ ap (λ us. us ++ current w d ∷ []) alone

-- The next context on a processor whose last thread ended takes that thread's id out of the map and no
-- other, and puts its stack back, as the one that `pop` gives next; it needs a map with each key
-- in one entry at most, a pool of different stacks, a stack in use and one that is not free.
pub thread_handler_lem :
    (w : World) (c garbage stack k : ℕ)
    → w.status c ≡ end_state garbage stack
    → IsMap table_size w.tid_map
    → IsPool w.pool
    → w.pool.tail < total_possible_stacks
    → ¬ (IsFree w.pool stack)
    → (v : World) × (thread_handler w c ≡ done v)
      × (get table_size v.tid_map k ≡ (if k == garbage then none else get table_size w.tid_map k))
      × IsMap table_size v.tid_map
      × IsPool v.pool
      × ((StackPool.pop v.pool).1 ≡ some stack)
      × (v.status c ≡ no_state)
      × (v.total_threads ≡ w.total_threads - 1)
      × (v.sched ≡ w.sched)
unfolding thread_handler
thread_handler_lem w c garbage stack k ended map pool room used =
    let (p, pushed, pool', popped) = push_lem w.pool stack pool room used in
    (
      record w {
        tid_map = (remove table_size w.tid_map garbage).0;
        pool = p;
        total_threads = w.total_threads - 1;
        status = change w.status c no_state;
      },
      ap (after_status w c) ended ∙ rw (pushed, after_status),
      (get-remove (omega arith) w.tid_map map.size garbage map).1 k,
      remove-IsMap (omega arith) w.tid_map map.size garbage map,
      pool',
      popped,
      change_self w.status c no_state,
      refl,
      refl,
    )
