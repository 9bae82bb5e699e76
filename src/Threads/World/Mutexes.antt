-- ===== src/Threads/World/Mutexes.antt =====
-- src/lib/threadlib/mutex.cpp: who owns a mutex after `lock` and `unlock`.
use distributed_thread_libra.Prelude.{
  ℕ, ◌≡◌, ◌≢◌, refl, ◌⊎◌, inl, inr, true, some, List, [], ◌∷◌, ◌++◌, change, arith, change_self, ap,
  ◌∙◌,
}
use distributed_thread_libra.HashTable.{Table, table_size, read}
use distributed_thread_libra.Threads.Scheduler.{
  Context, nullptr, Sched, empty, wake_one, wake_front, ctx_switch,
}
use distributed_thread_libra.Threads.World.Switch.{wake_up-thread, run_next-cons}
use distributed_thread_libra.Threads.World.{
  World, locks, runs, no_state, done, current, set_mutex, set_point, free, take, continue_at,
  unlock, release, run_next, wake_up,
}

-- What the map of thread ids gives the context that runs on `c`: its id, and the map after that look.
abbrev pub Knows : World → (c : ℕ) → Table → ℕ → Type 0
Knows w c tids id = read table_size w.tid_map (current w c) ≡ some (tids, id)

-- The owner's `unlock` frees a mutex that no context waits for; else it keeps the mutex locked with no
-- owner and moves the first context that waits to the end of the ready queue.
pub unlock-owner :
    (w : World) (c m id : ℕ) {tids : Table}
    → Knows w c tids id
    → (w.mutexes m).owner_id ≡ id
    → (v : World) × (unlock w c m ≡ done v)
      × (((w.sched.waiting m ≡ []) × (v.mutexes m ≡ free) × (v.sched ≡ w.sched))
          ⊎ ((t : Context) × (ts : List Context) × (w.sched.waiting m ≡ t ∷ ts)
              × (v.mutexes m ≡ record { is_locked = true; owner_id = 0 })
              × (v.sched.ready ≡ w.sched.ready ++ t ∷ [])
              × (v.sched.waiting m ≡ ts)))
unfolding unlock wake_one
unlock-owner w c m id {tids} known owner =
    (release u m, rw (known, unlock) (ground arith), by_queue (w.sched.waiting m) refl)
  where
    u : World
    u = record w { tid_map = tids }

    by_queue :
        (us : List Context)
        → w.sched.waiting m ≡ us
        → ((w.sched.waiting m ≡ [])
            × ((release u m).mutexes m ≡ free)
            × ((release u m).sched ≡ w.sched))
          ⊎ ((t : Context) × (ts : List Context) × (w.sched.waiting m ≡ t ∷ ts)
              × ((release u m).mutexes m ≡ record { is_locked = true; owner_id = 0 })
              × ((release u m).sched.ready ≡ w.sched.ready ++ t ∷ [])
              × ((release u m).sched.waiting m ≡ ts))
    by_queue [] e = inl (e, ground (arith, ap empty e), ground (arith, ap empty e))
    by_queue (t ∷ ts) e = inr (
      t,
      ts,
      e,
      ground (arith, ap empty e),
      ground (arith, ap empty e),
      ground (arith, ap empty e),
    )

-- A context that a processor switches to inside `lock` owns the mutex.
wake_up-locks :
    (w : World) (d m id : ℕ) (t : Context) {tids : Table}
    → w.status d ≡ no_state
    → current w d ≡ t
    → t ≢ nullptr
    → w.point t ≡ locks m
    → read table_size w.tid_map t ≡ some (tids, id)
    → (u : World) × (wake_up w d ≡ done u)
      × (u.mutexes m ≡ record { is_locked = true; owner_id = id })
      × (u.sched ≡ w.sched)
unfolding take
wake_up-locks w d m id t {tids} idle on real inside known = (
  set_point
      (set_mutex (record settled { tid_map = tids }) m (record { is_locked = true; owner_id = id }))
      (current w d) runs,
  wake_up-thread w d idle t on real ∙ ap (continue_at settled d) inside ∙ granted,
  change_self w.mutexes m (record { is_locked = true; owner_id = id }),
  refl,
)
  where
    settled : World
    settled = record w { status = change w.status d no_state }

    granted :
        take settled d m
        ≡ done (
            set_point
              (set_mutex
                (record settled { tid_map = tids })
                m
                (record { is_locked = true; owner_id = id }))
              (current w d)
              runs)
    granted = rw (ap (read table_size w.tid_map) on ∙ known, take)

release-cons :
    (w : World) (m : ℕ) (t : Context) (ts : List Context)
    → w.sched.waiting m ≡ t ∷ ts
    → release w m ≡ record (set_mutex w m (record { is_locked = true; owner_id = 0 })) {
      sched = wake_front w.sched m (t ∷ ts);
    }
unfolding wake_one
release-cons w m t ts e = rw e

-- When the owner of a mutex unlocks it, nothing is ready, the context `t` is the first that waits inside
-- `lock`, and the ids of both are in the map, then the loop of `cpu::run` on a processor `d` goes on
-- with `t`, and `t` owns the mutex; the others still wait.
pub unlock-run_next :
    (w : World) (c d m id next_id : ℕ) (t : Context) {ts : List Context} {tids tids' : Table}
    → Knows w c tids id
    → (w.mutexes m).owner_id ≡ id
    → w.sched.waiting m ≡ t ∷ ts
    → w.sched.ready ≡ []
    → t ≢ nullptr
    → w.point t ≡ locks m
    → read table_size tids t ≡ some (tids', next_id)
    → (v u : World) × (unlock w c m ≡ done v)
      × (run_next v d ≡ done u)
      × (u.mutexes m ≡ record { is_locked = true; owner_id = next_id })
      × (current u d ≡ t)
      × (u.sched.waiting m ≡ ts)
unfolding unlock
unlock-run_next w c d m id next_id t {ts} {tids} {tids'} known owner waits none_ready real waiting
      known_next =
    let (u, ran, owned, kept) =
      wake_up-locks switched d m next_id t (change_self w.status d no_state)
        (change_self w.sched.curr d t) real waiting known_next in
    (
      handed,
      u,
      rw (known, unlock) (ground (arith, release-cons (record w { tid_map = tids }) m t ts waits)),
      run_next-cons handed d t [] (ap (λ us. us ++ t ∷ []) none_ready) ∙ ran,
      owned,
      ap (λ (s : Sched). s.curr d) kept ∙ change_self w.sched.curr d t,
      ap (λ (s : Sched). s.waiting m) kept ∙ change_self w.sched.waiting m ts,
    )
  where
    handed : World
    handed =
        record (set_mutex (record w { tid_map = tids }) m
          (record { is_locked = true; owner_id = 0 })) { sched = wake_front w.sched m (t ∷ ts) }

    switched : World
    switched = record handed {
      status = change w.status d no_state;
      sched = ctx_switch (record handed.sched { ready = [] }) d t;
    }
