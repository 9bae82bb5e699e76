-- ===== src/Threads/Scheduler/Laws.antt =====
-- src/include/threadlib/schedulerState.h: the operations that switch contexts, and the places of a context.
use distributed_thread_libra.Prelude.{one_if, ℕ, ◌+◌, ◌<◌, ◌≡◌, ◌≢◌, ◌==◌, arith}
use distributed_thread_libra.Threads.Scheduler.{
  Context, nullptr, Sched, run_next_from_kernel, run_next_from_user, put_self_in_ready,
  wait_self_on,
}
use distributed_thread_libra.Threads.Scheduler.Weights.{
  wait_self_on-weighs, put_self_in_ready-weighs, run_next_from_kernel-weighs,
  run_next_from_user-weighs,
}
use distributed_thread_libra.Threads.Scheduler.Places.{places, is, places-weighs}

module _ (nq nc : ℕ) (t : Context) (real : t ≢ nullptr) (s : Sched) (c : ℕ) (hc : c < nc) where
  not_main : is t nullptr ≡ 0
  not_main = ground (arith, real)

  -- A context that waits moves to the wait queue, and the next ready one to the processor.
  pub wait_self_on-places :
      (q : ℕ) → q < nq → places nq nc t (wait_self_on s c q) ≡ places nq nc t s
  wait_self_on-places q l = omega (
    arith,
    places-weighs nq nc t s,
    places-weighs nq nc t (wait_self_on s c q),
    wait_self_on-weighs nq nc (is t) not_main s c hc q l,
  )

  pub put_self_in_ready-places : places nq nc t (put_self_in_ready s c).0 ≡ places nq nc t s
  put_self_in_ready-places = omega (
    arith,
    places-weighs nq nc t s,
    places-weighs nq nc t (put_self_in_ready s c).0,
    put_self_in_ready-weighs nq nc (is t) not_main s c hc,
  )

  -- From the main context nothing is left behind.
  pub run_next_from_kernel-places :
      s.curr c ≡ nullptr → places nq nc t (run_next_from_kernel s c) ≡ places nq nc t s
  run_next_from_kernel-places main = omega (
    arith,
    places-weighs nq nc t s,
    places-weighs nq nc t (run_next_from_kernel s c),
    run_next_from_kernel-weighs nq nc (is t) not_main s c hc main,
  )

  -- The running context leaves, once, and no other.
  pub run_next_from_user-places :
      places nq nc t (run_next_from_user s c) + one_if (s.curr c == t) ≡ places nq nc t s
  run_next_from_user-places = omega (
    arith,
    places-weighs nq nc t s,
    places-weighs nq nc t (run_next_from_user s c),
    run_next_from_user-weighs nq nc (is t) not_main s c hc,
  )
