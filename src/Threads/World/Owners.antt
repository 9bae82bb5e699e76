-- ===== src/Threads/World/Owners.antt =====
-- src/lib/threadlib: a mutex and its owner through the calls of the thread library, in any order.
mod Tests
use distributed_thread_libra.Prelude.{
  one_if, ℕ, ◌+◌, ◌<◌, ◌≤◌, ◌≡◌, ◌≢◌, refl, Bool, true, false, not, ◌&&◌, Option, none, some, List,
  [], ◌∷◌, ◌==◌, if◌then◌else◌, change, Bool-cases, inl, inr, arith, ap, ◌∙◌, sym, subst,
  some-injective,
}
use distributed_thread_libra.HashTable.{Table, table_size, assign}
use distributed_thread_libra.Threads.StackPool.{Pool}
use distributed_thread_libra.Threads.StackPool as StackPool
use distributed_thread_libra.Threads.Scheduler.{Context, nullptr, put_in_ready}
use distributed_thread_libra.Threads.Scheduler.Places.{places}
use distributed_thread_libra.Threads.World.{
  World, fresh, relocks, Outcome, done, thrown, left_locked, aborted, current, set_point, free,
  make_thread, signal, broadcast, wake_joiners, note_end, drop_thread,
}
use distributed_thread_libra.Threads.World.Makes.{make_thread-cases}
use distributed_thread_libra.Threads.World.Acts.{
  Act, locks_it, unlocks_it, waits_on, locks_again, signals_one, signals_all, joins_it, yields_cpu,
  picks_next, wakes_joiners, notes_end, leaves_it, starts, drops, perform, after, run, AllFit,
  run_induction,
}
use distributed_thread_libra.Threads.World.Handed.{handed, held, IsExclusive}
use distributed_thread_libra.Threads.World.Queues.{
  wake_one-IsExclusive, wake_all-IsExclusive, put_in_ready-IsExclusive,
}
use distributed_thread_libra.Threads.World.Exclusion.{Owns, Excl, Good, Ensures, Ensures-after}
use distributed_thread_libra.Threads.World.Calls.{
  id_of, leave_cpu-Ensures, run_next-Ensures, lock-Ensures, lock_again-Ensures, join-Ensures,
  yield_now-Ensures,
}
use distributed_thread_libra.Threads.World.Releases.{unlock-Ensures, cv_wait-Ensures}

-- What a call asks of the world: the processor and the queue are there, a context that may wait runs on its processor
-- and is known by an id, the loop of `run` is in the main context, and a new context is nowhere yet. The queue of `m`
-- is that of no condition variable and of no thread.
abbrev pub Fits : (nq nc m : ℕ) → World → Act → Type 0
Fits nq nc m w (locks_it c k) = (c < nc) × (k < nq) × (current w c ≢ nullptr)
Fits nq nc m w (unlocks_it c k) = (k < nq) × (id_of w c ≢ 0)
Fits nq nc m w (waits_on c q k) =
    (c < nc) × (q < nq) × (k < nq) × (current w c ≢ nullptr) × (id_of w c ≢ 0)
Fits nq nc m w (locks_again c) =
    (c < nc) × (current w c ≢ nullptr) × ((k : ℕ) → w.point (current w c) ≡ relocks k → k < nq)
Fits nq nc m w (signals_one q) = (q < nq) × (q ≢ m)
Fits nq nc m w (signals_all q) = (q < nq) × (q ≢ m)
Fits nq nc m w (joins_it c j q) = (c < nc) × (q < nq) × (current w c ≢ nullptr)
Fits nq nc m w (yields_cpu c) = (c < nc) × (current w c ≢ nullptr)
Fits nq nc m w (picks_next c) = (c < nc) × (current w c ≡ nullptr)
Fits nq nc m w (wakes_joiners q) = (q < nq) × (q ≢ m)
Fits nq nc m w (notes_end c j stack) = Unit
Fits nq nc m w (leaves_it c) = c < nc
Fits nq nc m w (starts j t) = (t ≢ nullptr) × (places nq nc t w.sched ≡ 0)
Fits nq nc m w (drops j) = Unit

-- The thread `i` gives `m` up, itself.
abbrev pub gives_up : (m i : ℕ) → World → Act → Bool
gives_up m i w (unlocks_it c k) = k == m && id_of w c == i
gives_up m i w (waits_on c q k) = k == m && id_of w c == i
gives_up m i w a = false

make_thread-Ensures :
    (nq nc m i : ℕ) (w : World)
    → Excl nq nc m i 0 w
    → (j : ℕ) (t : Context) → t ≢ nullptr
    → places nq nc t w.sched ≡ 0
    → Ensures nq nc m i w (make_thread w j t)
make_thread-Ensures nq nc m i w v j t real absent =
    make_thread-cases (Ensures nq nc m i w) w j t tt (λ pool'. tt)
      λ pool' tids. (
        put_in_ready-IsExclusive nq nc m (w.mutexes m) w.point w.sched v t real absent,
        λ owns. owns,
      )

perform-Ensures :
    (nq nc m i : ℕ)
    → i ≢ 0
    → (w : World) → Excl nq nc m i 0 w
    → (a : Act) → Fits nq nc m w a
    → gives_up m i w a ≡ false
    → Ensures nq nc m i w (perform w a)
unfolding perform signal broadcast wake_joiners note_end drop_thread
perform-Ensures nq nc m i pos w v (locks_it c k) (hc, l, real) h =
    lock-Ensures nq nc m i pos w v c hc real k l
perform-Ensures nq nc m i pos w v (unlocks_it c k) (l, known) h =
    unlock-Ensures nq nc m i pos w v k l c known (λ km own. ground (arith, h))
perform-Ensures nq nc m i pos w v (waits_on c q k) (hc, lq, l, real, known) h =
    cv_wait-Ensures nq nc m i pos w v k l c known (λ km own. ground (arith, h)) real q lq hc
perform-Ensures nq nc m i pos w v (locks_again c) (hc, real, below) h =
    lock_again-Ensures nq nc m i pos w v c hc real (w.point (current w c)) below
perform-Ensures nq nc m i pos w v (signals_one q) (l, ne) h =
    (wake_one-IsExclusive nq nc m (w.mutexes m) w.point w.sched v q l ne, λ owns. owns)
perform-Ensures nq nc m i pos w v (signals_all q) (l, ne) h =
    (wake_all-IsExclusive nq nc m (w.mutexes m) w.point w.sched v q l ne, λ owns. owns)
perform-Ensures nq nc m i pos w v (joins_it c j q) (hc, l, real) h =
    join-Ensures nq nc m i pos w v c hc real j q l
perform-Ensures nq nc m i pos w v (yields_cpu c) (hc, real) h =
    yield_now-Ensures nq nc m i pos w v c hc real
perform-Ensures nq nc m i pos w v (picks_next c) (hc, main) h =
    run_next-Ensures nq nc m i pos w v c hc main
perform-Ensures nq nc m i pos w v (wakes_joiners q) (l, ne) h =
    (wake_all-IsExclusive nq nc m (w.mutexes m) w.point w.sched v q l ne, λ owns. owns)
perform-Ensures nq nc m i pos w v (notes_end c j stack) fits h = (v, λ owns. owns)
perform-Ensures nq nc m i pos w v (leaves_it c) hc h = leave_cpu-Ensures nq nc m i pos w v c hc
perform-Ensures nq nc m i pos w v (starts j t) (real, absent) h =
    make_thread-Ensures nq nc m i w v j t real absent
perform-Ensures nq nc m i pos w v (drops j) fits h = (v, λ owns. owns)

-- `i` is no id of a thread that gives `m` up in this call.
other_id : (m : ℕ) (w : World) (a : Act) → (i : ℕ) × (i ≢ 0) × (gives_up m i w a ≡ false)
other_id m w (unlocks_it c k) = (id_of w c + 1, omega arith, ground arith)
other_id m w (waits_on c q k) = (id_of w c + 1, omega arith, ground arith)
other_id m w a = (1, omega arith, refl)

perform-Excl :
    (nq nc m : ℕ) (w u : World) (a : Act)
    → IsExclusive nq nc m 0 w.sched (w.mutexes m) w.point
    → Fits nq nc m w a
    → after (perform w a) ≡ some u
    → IsExclusive nq nc m 0 u.sched (u.mutexes m) u.point
perform-Excl nq nc m w u a v fits e =
    let (i, pos, other) = other_id m w a in
    (Ensures-after nq nc m i w (perform w a) (perform-Ensures nq nc m i pos w v a fits other) e).0

-- Each call fits, and `i` does not give `m` up in it.
abbrev pub Keeps : (nq nc m i : ℕ) → World → Act → Type 0
Keeps nq nc m i w a = Fits nq nc m w a × (gives_up m i w a ≡ false)

perform-Good :
    (nq nc m i : ℕ)
    → i ≢ 0
    → (v w u : World) (a : Act) → Good nq nc m i v w
    → Keeps nq nc m i w a
    → after (perform w a) ≡ some u
    → Good nq nc m i v u
perform-Good nq nc m i pos v w u a (excl, keep) (fit, keeps) e =
    let (excl', keep') =
      Ensures-after nq nc m i w (perform w a) (perform-Ensures nq nc m i pos w excl a fit keeps)
        e in
    (excl', λ owns. keep' (keep owns))

-- The program starts with `m` free and no context in a queue, each on one processor at most. A thread with an id other
-- than 0 that owns `m` after any calls keeps it through any further calls, on all processors, in which it does not
-- itself give `m` up by `unlock` or `wait`; and then no context of the ready queue is inside `lock` of `m`. Each call is
-- made as `Fits` asks: the queue of `m` is that of no condition variable and of no thread, and who unlocks is known.
pub mutex_kept :
    (nq nc m i : ℕ)
    → i ≢ 0
    → (w : World) → w.mutexes m ≡ free
    → w.sched.ready ≡ []
    → ((q : ℕ) → w.sched.waiting q ≡ [])
    → ((t : Context) → t ≢ nullptr → places nq nc t w.sched ≤ 1)
    → (before during : List Act) (v u : World) → AllFit (Fits nq nc m) w before
    → run w before ≡ some v
    → Owns m i v
    → AllFit (Keeps nq nc m i) v during
    → run v during ≡ some u
    → Owns m i u × (handed m u.point u.sched.ready ≡ 0)
mutex_kept nq nc m i pos w is_free ready waiting once before during v u fits reaches owns keeps
      ends =
    let start : Excl nq nc m i 0 w = record {
      once = once;
      told = ground (arith, ap (handed m w.point) ready, ap held is_free);
      apart = λ q l ne. ap (handed m w.point) (waiting q);
    } in
    let there =
      run_induction (Fits nq nc m) (λ z. IsExclusive nq nc m 0 z.sched (z.mutexes m) z.point)
        (perform-Excl nq nc m) before w v start fits reaches in
    let (excl, keep) =
      run_induction (Keeps nq nc m i) (Good nq nc m i v) (perform-Good nq nc m i pos v) during v u
        (there, λ owns'. owns') keeps ends in
    let told = excl.told in let owns' = keep owns in (owns', ground (arith, owns'.0, owns'.1))
