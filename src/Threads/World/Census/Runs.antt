-- ===== src/Threads/World/Census/Runs.antt =====
-- src/lib/threadlib/cpu.cpp: `total_threads` through whole runs, and the end of the program.
use distributed_thread_libra.Prelude.{
  ℕ, ◌<◌, ◌≡◌, ◌≢◌, some, List, [], arith, ap, ◌∙◌, sym, subst, some-injective, sum_below-zero,
}
use distributed_thread_libra.Threads.Scheduler.{nullptr}
use distributed_thread_libra.Threads.Scheduler.Weights.{
  weight, weighs, wake_one-weighs, wake_all-weighs,
}
use distributed_thread_libra.Threads.World.{
  World, Outcome, done, thrown, left_locked, aborted, relocks, no_state, current, signal, broadcast,
  wake_joiners, note_end, drop_thread,
}
use distributed_thread_libra.Threads.World.Acts.{
  Act, locks_it, unlocks_it, waits_on, locks_again, signals_one, signals_all, joins_it, yields_cpu,
  picks_next, wakes_joiners, notes_end, leaves_it, starts, drops, perform, after, run, AllFit,
  run_induction,
}
use distributed_thread_libra.Threads.World.Census.{alive, ended}
use distributed_thread_libra.Threads.World.Census.Calls.{
  living, Counted, run_next-Counted, leave_cpu-Counted, lock-Counted, lock_again-Counted,
  join-Counted, yield_now-Counted, make_thread-Counted, unlock-Counted, cv_wait-Counted,
}

-- The order of the calls on a processor: a thread that noted its end leaves the processor, and makes no other call that
-- switches contexts; the loop of `run` is in the main context.
abbrev pub InOrder : (nq nc : ℕ) → World → Act → Type 0
InOrder nq nc w (locks_it c k) = (c < nc) × (k < nq) × (w.status c ≡ no_state)
InOrder nq nc w (unlocks_it c k) = k < nq
InOrder nq nc w (waits_on c q k) = (c < nc) × (q < nq) × (k < nq) × (w.status c ≡ no_state)
InOrder nq nc w (locks_again c) =
    (c < nc) × (w.status c ≡ no_state) × ((k : ℕ) → w.point (current w c) ≡ relocks k → k < nq)
InOrder nq nc w (signals_one q) = q < nq
InOrder nq nc w (signals_all q) = q < nq
InOrder nq nc w (joins_it c j q) = (c < nc) × (q < nq) × (w.status c ≡ no_state)
InOrder nq nc w (yields_cpu c) = (c < nc) × (w.status c ≡ no_state)
InOrder nq nc w (picks_next c) = (c < nc) × (current w c ≡ nullptr)
InOrder nq nc w (wakes_joiners q) = q < nq
InOrder nq nc w (notes_end c j stack) = Unit
InOrder nq nc w (leaves_it c) = (c < nc) × (ended (w.status c) ≡ 1) × (current w c ≢ nullptr)
InOrder nq nc w (starts j t) = t ≢ nullptr
InOrder nq nc w (drops j) = Unit

perform-Counted :
    (nq nc : ℕ) (w : World)
    → w.total_threads ≡ living nq nc w
    → (a : Act) → InOrder nq nc w a
    → Counted nq nc (perform w a)
unfolding perform signal broadcast wake_joiners note_end drop_thread
perform-Counted nq nc w h (locks_it c k) (hc, l, st) = lock-Counted nq nc w h c hc st k l
perform-Counted nq nc w h (unlocks_it c k) l = unlock-Counted nq nc w h c k l
perform-Counted nq nc w h (waits_on c q k) (hc, lq, l, st) =
    cv_wait-Counted nq nc w h c k l q lq hc st
perform-Counted nq nc w h (locks_again c) (hc, st, below) =
    lock_again-Counted nq nc w h c hc st (w.point (current w c)) below
perform-Counted nq nc w h (signals_one q) l = h ∙ sym (wake_one-weighs nq nc alive w.sched q l)
perform-Counted nq nc w h (signals_all q) l = h ∙ sym (wake_all-weighs nq nc alive w.sched q l)
perform-Counted nq nc w h (joins_it c j q) (hc, l, st) = join-Counted nq nc w h c hc st j q l
perform-Counted nq nc w h (yields_cpu c) (hc, st) = yield_now-Counted nq nc w h c hc st
perform-Counted nq nc w h (picks_next c) (hc, main) = run_next-Counted nq nc w h c hc main
perform-Counted nq nc w h (wakes_joiners q) l = h ∙ sym (wake_all-weighs nq nc alive w.sched q l)
perform-Counted nq nc w h (notes_end c j stack) fits = h
perform-Counted nq nc w h (leaves_it c) (hc, over, real) =
    leave_cpu-Counted nq nc w h c hc over real
perform-Counted nq nc w h (starts j t) real = make_thread-Counted nq nc w h j t real
perform-Counted nq nc w h (drops j) fits = h

Counted-after :
    (nq nc : ℕ) (o : Outcome) {u : World}
    → Counted nq nc o
    → after o ≡ some u
    → u.total_threads ≡ living nq nc u
Counted-after nq nc (done v) k e =
    subst (λ z. z.total_threads ≡ living nq nc z) (some-injective e) k
Counted-after nq nc (thrown v) k e =
    subst (λ z. z.total_threads ≡ living nq nc z) (some-injective e) k
Counted-after nq nc (left_locked v) k e = cc
Counted-after nq nc aborted k e = cc

-- From a start with no thread, calls on all processors in any order keep `total_threads` the number of threads that are
-- ready, wait or run. Each call is made as `InOrder` asks: a thread that noted its end leaves the processor in the next
-- call there that switches contexts.
pub run-total_threads :
    (nq nc : ℕ) (w : World)
    → w.total_threads ≡ 0
    → w.sched.ready ≡ []
    → ((q : ℕ) → w.sched.waiting q ≡ [])
    → ((c : ℕ) → w.sched.curr c ≡ nullptr)
    → (acts : List Act) (u : World) → AllFit (InOrder nq nc) w acts
    → run w acts ≡ some u
    → u.total_threads ≡ living nq nc u
unfolding weighs
run-total_threads nq nc w zero ready waiting curr acts u fits e =
    let none_yet : living nq nc w ≡ 0 = omega (
      arith,
      ap (weight alive) ready,
      sum_below-zero (λ q. weight alive (w.sched.waiting q)) nq
          (λ q l. ap (weight alive) (waiting q)),
      sum_below-zero (λ c. alive (w.sched.curr c)) nc (λ c l. ap alive (curr c)),
    ) in
    run_induction (InOrder nq nc) (λ z. z.total_threads ≡ living nq nc z)
      (λ v z a h fit after_a.
        Counted-after nq nc (perform v a) (perform-Counted nq nc v h a fit) after_a)
      acts w u (zero ∙ sym none_yet) fits e
