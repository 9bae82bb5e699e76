-- ===== src/Threads/Scheduler/Weights.antt =====
-- src/include/threadlib/schedulerState.h: any number given to each context, summed over the ready queue, the wait
-- queues and the processors, and what the queue operations do to the sum.
use distributed_thread_libra.Prelude.{
  ℕ, zero, suc, ◌+◌, ◌<◌, ◌≡◌, refl, inl, inr, some, List, [], ◌∷◌, ◌++◌, ◌==◌, length, change,
  arith, ap, ◌∙◌, sum_below, sum_below-change, change_self, change_ne, Bool-cases, Option-cases,
}
use distributed_thread_libra.Threads.Scheduler.{
  Context, nullptr, Sched, empty, next_of, get_next, put_in_ready, ctx_switch, enqueue, wake_front,
  wake_one, wake_loop, wake_all, run_next_from_kernel, run_next_from_user, put_self_in_ready,
  wait_self_on,
}

abbrev pub weight : (Context → ℕ) → List Context → ℕ
weight g [] = 0
weight g (t ∷ ts) = g t + weight g ts

weight-append :
    (g : Context → ℕ) (ts us : List Context) → weight g (ts ++ us) ≡ weight g ts + weight g us
weight-append g [] us = omega arith
weight-append g (t ∷ ts) us = omega (arith, weight-append g ts us)

-- Among `nq` wait queues and `nc` processors.
unfoldable pub weighs : (nq nc : ℕ) → (Context → ℕ) → Sched → ℕ
weighs nq nc g s =
    weight g s.ready + sum_below (λ q. weight g (s.waiting q)) nq + sum_below (λ c. g (s.curr c)) nc

module _ (nq nc : ℕ) (g : Context → ℕ) where
  -- A queue or a processor changes.
  waiting-change :
      (w : ℕ → List Context) (q : ℕ) (ts : List Context)
      → q < nq
      → sum_below (λ r. weight g (change w q ts r)) nq + weight g (w q)
        ≡ sum_below (λ r. weight g (w r)) nq + weight g ts
  waiting-change w q ts l =
      sum_below-change (λ r. weight g (change w q ts r)) (λ r. weight g (w r)) q nq l
        (λ r ne. ap (weight g) (change_ne w q ts r ne))
      ∙ ap (λ x. sum_below (λ r. weight g (w r)) nq + weight g x) (change_self w q ts)

  curr-change :
      (k : ℕ → Context) (c : ℕ) (u : Context)
      → c < nc
      → sum_below (λ d. g (change k c u d)) nc + g (k c) ≡ sum_below (λ d. g (k d)) nc + g u
  curr-change k c u l =
      sum_below-change (λ d. g (change k c u d)) (λ d. g (k d)) c nc l
        (λ d ne. ap g (change_ne k c u d ne))
      ∙ ap (λ x. sum_below (λ d. g (k d)) nc + g x) (change_self k c u)

  -- The next ready context leaves the ready queue.
  next-count :
      (s s' : Sched) (u : Context)
      → get_next s ≡ some (u, s')
      → (weight g s.ready ≡ g u + weight g s'.ready) × (s'.waiting ≡ s.waiting) × (s'.curr ≡ s.curr)
  unfolding get_next
  next-count s s' u e = go s.ready refl e
    where
      go :
          (us : List Context)
          → s.ready ≡ us
          → next_of s us ≡ some (u, s')
          → (weight g s.ready ≡ g u + weight g s'.ready)
            × (s'.waiting ≡ s.waiting)
            × (s'.curr ≡ s.curr)
      go [] r h = cc
      go (v ∷ vs) r h =
          let first : v ≡ u = cc in
          let same : s' ≡ record s { ready = vs } = cc in
          (rw (r, same) (ap (λ x. g x + weight g vs) first), rw same, rw same)

  -- Waking moves contexts from a wait queue to the ready queue.
  pub wake_one-weighs :
      (s : Sched) (q : ℕ) → q < nq → weighs nq nc g (wake_one s q) ≡ weighs nq nc g s
  unfolding wake_one weighs
  wake_one-weighs s q l = go (s.waiting q) refl
    where
      go :
          (ts : List Context)
          → s.waiting q ≡ ts
          → weighs nq nc g (wake_front s q ts) ≡ weighs nq nc g s
      go [] e = refl
      go (u ∷ us) e = omega (
        arith,
        waiting-change s.waiting q us l,
        ap (weight g) e,
        weight-append g s.ready (u ∷ []),
      )

  wake_loop_lem :
      (f : ℕ) (s : Sched) (q : ℕ) → q < nq → weighs nq nc g (wake_loop f s q) ≡ weighs nq nc g s
  unfolding wake_loop
  wake_loop_lem zero s q l = refl
  wake_loop_lem (suc f) s q l = elim (Bool-cases (empty (s.waiting q))) [
    | inl e ↦ rw (e, wake_loop)
    | inr e ↦ rw (e, wake_loop) (wake_loop_lem f (wake_one s q) q l ∙ wake_one-weighs s q l)
  ]

  pub wake_all-weighs :
      (s : Sched) (q : ℕ) → q < nq → weighs nq nc g (wake_all s q) ≡ weighs nq nc g s
  unfolding wake_all
  wake_all-weighs s q l = wake_loop_lem (length (s.waiting q)) s q l

  pub put_in_ready-weighs :
      (s : Sched) (u : Context) → weighs nq nc g (put_in_ready s u) ≡ weighs nq nc g s + g u
  unfolding put_in_ready weighs
  put_in_ready-weighs s u = omega (arith, weight-append g s.ready (u ∷ []))

  module _ (s : Sched) (c : ℕ) (hc : c < nc) where
    switch_lem :
        (u : Context) → weighs nq nc g (ctx_switch s c u) + g (s.curr c) ≡ weighs nq nc g s + g u
    unfolding weighs
    switch_lem u = omega (arith, curr-change s.curr c u hc)

    enqueue_lem :
        (q : ℕ) (u : Context) → q < nq → weighs nq nc g (enqueue s q u) ≡ weighs nq nc g s + g u
    unfolding weighs
    enqueue_lem q u l = omega (
      arith,
      waiting-change s.waiting q (s.waiting q ++ u ∷ []) l,
      weight-append g (s.waiting q) (u ∷ []),
    )

  next-weighs :
      (s s' : Sched) (u : Context)
      → get_next s ≡ some (u, s')
      → (weighs nq nc g s ≡ weighs nq nc g s' + g u) × ((c : ℕ) → s'.curr c ≡ s.curr c)
  unfolding weighs
  next-weighs s s' u e =
      let (first, w, k) = next-count s s' u e in
      (rw (first, w, k) (omega arith), λ c. ap (λ (x : ℕ → Context). x c) k)

module _ (nq nc : ℕ) (g : Context → ℕ) (none_there : g nullptr ≡ 0) (s : Sched) (c : ℕ)
    (hc : c < nc) where
  -- A context that waits moves to the wait queue, and the next ready one to the processor.
  pub wait_self_on-weighs :
      (q : ℕ) → q < nq → weighs nq nc g (wait_self_on s c q) ≡ weighs nq nc g s
  unfolding wait_self_on
  wait_self_on-weighs q l = elim (Option-cases (get_next s)) [
    | inl e ↦
        rw (e, wait_self_on)
          (ground (
            arith,
            switch_lem nq nc g (enqueue s q (s.curr c)) c hc nullptr,
            enqueue_lem nq nc g s c hc q (s.curr c) l,
          ))
    | inr ((u, s'), e) ↦
        let (p, k) = next-weighs nq nc g s s' u e in
        rw (e, wait_self_on)
          (ground (
            arith,
            switch_lem nq nc g (enqueue s' q (s.curr c)) c hc u,
            enqueue_lem nq nc g s' c hc q (s.curr c) l,
            p,
            k c,
          ))
  ]

  pub put_self_in_ready-weighs : weighs nq nc g (put_self_in_ready s c).0 ≡ weighs nq nc g s
  unfolding put_self_in_ready
  put_self_in_ready-weighs = elim (Bool-cases (s.curr c == nullptr)) [
    | inl idle ↦ rw idle
    | inr busy ↦ rw busy (elim (Option-cases (get_next s)) [
      | inl e ↦ rw (e, put_self_in_ready)
      | inr ((u, s'), e) ↦
          let (p, k) = next-weighs nq nc g s s' u e in
          rw (e, put_self_in_ready)
            (ground (
              arith,
              switch_lem nq nc g (put_in_ready s' (s.curr c)) c hc u,
              put_in_ready-weighs nq nc g s' (s.curr c),
              p,
              k c,
            ))
    ])
  ]

  -- From the main context nothing is left behind.
  pub run_next_from_kernel-weighs :
      s.curr c ≡ nullptr → weighs nq nc g (run_next_from_kernel s c) ≡ weighs nq nc g s
  unfolding run_next_from_kernel
  run_next_from_kernel-weighs main = elim (Option-cases (get_next s)) [
    | inl e ↦ rw (e, run_next_from_kernel)
    | inr ((u, s'), e) ↦
        let (p, k) = next-weighs nq nc g s s' u e in
        rw (e, run_next_from_kernel) (ground (arith, switch_lem nq nc g s' c hc u, p, k c))
  ]

  -- The running context leaves, once, and no other.
  pub run_next_from_user-weighs :
      weighs nq nc g (run_next_from_user s c) + g (s.curr c) ≡ weighs nq nc g s
  unfolding run_next_from_user
  run_next_from_user-weighs = elim (Option-cases (get_next s)) [
    | inl e ↦ rw (e, run_next_from_user) (ground (arith, switch_lem nq nc g s c hc nullptr))
    | inr ((u, s'), e) ↦
        let (p, k) = next-weighs nq nc g s s' u e in
        rw (e, run_next_from_user) (ground (arith, switch_lem nq nc g s' c hc u, p, k c))
  ]
