-- ===== src/Threads/Scheduler/Places.antt =====
-- src/include/threadlib/schedulerState.h: where a context stands, in the ready queue, in the wait queues
-- and on the processors, and what waking does to that.
use distributed_thread_libra.Prelude.{
  one_if, count, ℕ, ◌+◌, ◌<◌, ◌≡◌, refl, List, [], ◌∷◌, ◌==◌, ap, sum_below, sum_below-congr, arith,
}
use distributed_thread_libra.Threads.Scheduler.{Context, Sched, put_in_ready, wake_one, wake_all}
use distributed_thread_libra.Threads.Scheduler.Weights.{
  weight, weighs, wake_one-weighs, wake_all-weighs, put_in_ready-weighs,
}

-- The places of a context among `nq` wait queues and `nc` processors.
unfoldable pub places : (nq nc : ℕ) → Context → Sched → ℕ
places nq nc t s =
    count t s.ready
    + sum_below (λ q. count t (s.waiting q)) nq
    + sum_below (λ c. one_if (s.curr c == t)) nc

abbrev pub is : Context → Context → ℕ
is t u = one_if (u == t)

weight-is : (t : Context) (ts : List Context) → weight (is t) ts ≡ count t ts
weight-is t [] = refl
weight-is t (u ∷ us) = ap (λ n. one_if (u == t) + n) (weight-is t us)

pub places-weighs : (nq nc : ℕ) (t : Context) (s : Sched) → places nq nc t s ≡ weighs nq nc (is t) s
unfolding places weighs
places-weighs nq nc t s = omega (
  arith,
  weight-is t s.ready,
  sum_below-congr (λ q. weight (is t) (s.waiting q)) (λ q. count t (s.waiting q)) nq
      (λ q l. weight-is t (s.waiting q)),
)

module _ (nq nc : ℕ) (t : Context) (s : Sched) where
  pub wake_one_lem : (q : ℕ) → q < nq → places nq nc t (wake_one s q) ≡ places nq nc t s
  wake_one_lem q l = omega (
    arith,
    places-weighs nq nc t s,
    places-weighs nq nc t (wake_one s q),
    wake_one-weighs nq nc (is t) s q l,
  )

  pub wake_all_lem : (q : ℕ) → q < nq → places nq nc t (wake_all s q) ≡ places nq nc t s
  wake_all_lem q l = omega (
    arith,
    places-weighs nq nc t s,
    places-weighs nq nc t (wake_all s q),
    wake_all-weighs nq nc (is t) s q l,
  )

  pub put_in_ready_lem :
      (u : Context) → places nq nc t (put_in_ready s u) ≡ places nq nc t s + one_if (u == t)
  put_in_ready_lem u = omega (
    arith,
    places-weighs nq nc t s,
    places-weighs nq nc t (put_in_ready s u),
    put_in_ready-weighs nq nc (is t) s u,
  )
