-- ===== src/Threads/World/Census.antt =====
-- src/lib/threadlib/cpu.cpp: `total_threads`, which the loop of `run` compares with 0.
pub mod Calls
pub mod Runs
mod Tests
use distributed_thread_libra.Prelude.{
  one_if, ℕ, ◌+◌, ◌-◌, ◌<◌, ◌≤◌, ◌≡◌, ◌≢◌, refl, Bool, true, false, not, ◌&&◌, Option, none, some,
  List, [], ◌∷◌, ◌==◌, if◌then◌else◌, change, arith, ap, ◌∙◌, sym, subst, inl, inr, Bool-cases,
  some-injective,
}
use distributed_thread_libra.HashTable.{Table, table_size, read, remove, assign}
use distributed_thread_libra.Threads.StackPool.{Pool}
use distributed_thread_libra.Threads.StackPool as StackPool
use distributed_thread_libra.Threads.Scheduler.{
  Context, nullptr, Sched, empty, has_next, put_in_ready, put_self_in_ready, run_next_from_kernel,
  run_next_from_user, wait_self_on, wake_one, wake_all,
}
use distributed_thread_libra.Threads.Scheduler.Weights.{
  weighs, wake_one-weighs, wake_all-weighs, put_in_ready-weighs, wait_self_on-weighs,
  put_self_in_ready-weighs, run_next_from_kernel-weighs, run_next_from_user-weighs,
}
use distributed_thread_libra.Threads.World.{
  World, Mutex, Point, runs, fresh, yields, joins, relocks, locks, Outcome, done, thrown,
  left_locked, aborted, Status, no_state, end_state, current, set_point, set_mutex, then_do,
  after_status, take, thread_handler, continue_at, wake_up, wait_at, free, lock, unlock, release,
  cv_wait, join, yield_now, run_next, leave_cpu, make_thread,
}
use distributed_thread_libra.Threads.World.Acts.{lock_again}

-- The main context is no thread.
abbrev pub alive : Context → ℕ
alive t = one_if (not (t == nullptr))

-- A thread that ended on the processor and that `thread_handler` has not seen.
abbrev pub ended : Status → ℕ
ended no_state = 0
ended (end_state garbage stack) = 1

-- A call that leaves the queues and the processors as they are, and takes `d` from `total_threads`.
abbrev pub Counts : (d : ℕ) → World → Outcome → Type 0
Counts d w (done v) = (v.sched ≡ w.sched) × (v.total_threads ≡ w.total_threads - d)
Counts d w (thrown v) = (v.sched ≡ w.sched) × (v.total_threads ≡ w.total_threads - d)
Counts d w (left_locked v) = Unit
Counts d w aborted = Unit

pub take-Counts : (w : World) (c m : ℕ) → Counts 0 w (take w c m)
unfolding take
take-Counts w c m = go (read table_size w.tid_map (current w c))
  where
    go :
        (r : Option (Table × ℕ))
        → Counts 0 w (elim r [
          | none ↦ left_locked (set_mutex w m (record (w.mutexes m) { is_locked = true }))
          | some (tids, id) ↦ done (
              set_point
                (set_mutex
                  (record w { tid_map = tids })
                  m
                  (record { is_locked = true; owner_id = id }))
                (current w c)
                runs)
        ])
    go none = tt
    go (some (tids, id)) = (refl, omega arith)

continue_at-Counts : (w : World) (c : ℕ) (x : Point) → Counts 0 w (continue_at w c x)
continue_at-Counts w c (locks m) = take-Counts w c m
continue_at-Counts w c (relocks m) = (refl, omega arith)
continue_at-Counts w c runs = (refl, omega arith)
continue_at-Counts w c fresh = (refl, omega arith)
continue_at-Counts w c yields = (refl, omega arith)
continue_at-Counts w c joins = (refl, omega arith)

settled-Counts :
    (w : World) (c : ℕ)
    → Counts 0 w
        (if current w c == nullptr then done w else continue_at w c (w.point (current w c)))
settled-Counts w c = elim (Bool-cases (current w c == nullptr)) [
  | inl e ↦
      subst (λ b. Counts 0 w (if b then done w else continue_at w c (w.point (current w c))))
        (sym e) (refl, omega arith)
  | inr e ↦
      subst (λ b. Counts 0 w (if b then done w else continue_at w c (w.point (current w c))))
        (sym e) (continue_at-Counts w c (w.point (current w c)))
]

after_status-Counts : (w : World) (c : ℕ) (st : Status) → Counts (ended st) w (after_status w c st)
after_status-Counts w c no_state = (refl, omega arith)
after_status-Counts w c (end_state garbage stack) = go (StackPool.push w.pool stack)
  where
    go :
        (o : Option Pool)
        → Counts 1 w (elim o [
          | none ↦ aborted
          | some pool' ↦ done (record w {
            tid_map = (remove table_size w.tid_map garbage).0;
            pool = pool';
            total_threads = w.total_threads - 1;
            status = change w.status c no_state;
          })
        ])
    go none = tt
    go (some pool') = (refl, refl)

pub thread_handler-Counts : (w : World) (c : ℕ) → Counts (ended (w.status c)) w (thread_handler w c)
unfolding thread_handler
thread_handler-Counts w c = after_status-Counts w c (w.status c)

then_do-Counts :
    (d : ℕ) (w : World) (o : Outcome) (f : World → Outcome)
    → Counts d w o
    → ((v : World) → Counts 0 v (f v))
    → Counts d w (then_do o f)
then_do-Counts d w (done v) f (s, n) h = go (f v) (h v)
  where
    go : (o : Outcome) → Counts 0 v o → Counts d w o
    go (done u) (s', n') = (s' ∙ s, n' ∙ ap (λ k. k - 0) n ∙ omega arith)
    go (thrown u) (s', n') = (s' ∙ s, n' ∙ ap (λ k. k - 0) n ∙ omega arith)
    go (left_locked u) e = tt
    go aborted e = tt
then_do-Counts d w (thrown v) f k h = k
then_do-Counts d w (left_locked v) f k h = tt
then_do-Counts d w aborted f k h = tt

pub wake_up-Counts : (w : World) (c : ℕ) → Counts (ended (w.status c)) w (wake_up w c)
unfolding wake_up
wake_up-Counts w c =
    then_do-Counts (ended (w.status c)) w (thread_handler w c)
      (λ v. if current v c == nullptr then done v else continue_at v c (v.point (current v c)))
      (thread_handler-Counts w c) (λ v. settled-Counts v c)
