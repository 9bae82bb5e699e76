-- ===== src/Threads/World/Census/Calls.antt =====
-- src/lib/threadlib: what each call does to the number of threads.
use distributed_thread_libra.Prelude.{
  ℕ, ◌+◌, ◌<◌, ◌≡◌, ◌≢◌, refl, Option, none, some, ◌==◌, if◌then◌else◌, change, change_self, arith,
  ap, ◌∙◌, sym, subst, inl, inr, Bool-cases,
}
use distributed_thread_libra.HashTable.{Table, table_size, read}
use distributed_thread_libra.Threads.Scheduler.{
  Context, nullptr, empty, has_next, put_self_in_ready, run_next_from_kernel, run_next_from_user,
  wait_self_on,
}
use distributed_thread_libra.Threads.Scheduler.Weights.{
  weighs, wake_one-weighs, put_in_ready-weighs, wait_self_on-weighs, put_self_in_ready-weighs,
  run_next_from_kernel-weighs, run_next_from_user-weighs,
}
use distributed_thread_libra.Threads.World.{
  World, Point, runs, fresh, yields, joins, relocks, locks, Outcome, done, thrown, left_locked,
  aborted, no_state, current, set_point, then_do, take, thread_handler, wake_up, wait_at, lock,
  unlock, release, cv_wait, join, yield_now, run_next, leave_cpu, make_thread,
}
use distributed_thread_libra.Threads.World.Makes.{make_thread-cases}
use distributed_thread_libra.Threads.World.Acts.{lock_again}
use distributed_thread_libra.Threads.World.Census.{
  alive, ended, Counts, take-Counts, thread_handler-Counts, wake_up-Counts,
}

module _ (nq nc : ℕ) where
  -- The threads that are ready, wait or run.
  abbrev pub living : World → ℕ
  living w = weighs nq nc alive w.sched

  abbrev pub Counted : Outcome → Type 0
  Counted (done v) = v.total_threads ≡ living v
  Counted (thrown v) = v.total_threads ≡ living v
  Counted (left_locked v) = Unit
  Counted aborted = Unit

  settle :
      (d : ℕ) (u : World) (o : Outcome) → Counts d u o → u.total_threads ≡ living u + d → Counted o
  settle d u (done v) (s, n) h = omega (arith, ap (weighs nq nc alive) s)
  settle d u (thrown v) (s, n) h = omega (arith, ap (weighs nq nc alive) s)
  settle d u (left_locked v) k h = tt
  settle d u aborted k h = tt

  module _ (w : World) (total : w.total_threads ≡ living w) where
    module _ (c : ℕ) (hc : c < nc) where
      pub run_next-Counted : current w c ≡ nullptr → Counted (run_next w c)
      unfolding run_next
      run_next-Counted main =
          let v : World = record w { status = change w.status c no_state } in
          let u : World = record v { sched = run_next_from_kernel w.sched c } in
          let none_ended : ended (v.status c) ≡ 0 = ap ended (change_self w.status c no_state) in
          (elim (Bool-cases (has_next w.sched)) [
            | inl e ↦
                subst (λ b. Counted (if b then wake_up u c else thread_handler v c)) (sym e)
                  (settle (ended (v.status c)) u (wake_up u c) (wake_up-Counts u c) (
                    omega (
                      arith,
                      none_ended,
                      run_next_from_kernel-weighs nq nc alive refl w.sched c hc main,
                    )))
            | inr e ↦
                subst (λ b. Counted (if b then wake_up u c else thread_handler v c)) (sym e)
                  (settle (ended (v.status c)) v (thread_handler v c) (thread_handler-Counts v c)
                    (omega (arith, none_ended)))
          ])

      pub leave_cpu-Counted :
          ended (w.status c) ≡ 1 → current w c ≢ nullptr → Counted (leave_cpu w c)
      unfolding leave_cpu
      leave_cpu-Counted over real =
          let u : World = record w { sched = run_next_from_user w.sched c } in
          settle (ended (w.status c)) u (wake_up u c) (wake_up-Counts u c)
            (ground (arith, run_next_from_user-weighs nq nc alive refl w.sched c hc, real))

      module _ (steady : w.status c ≡ no_state) where
        none_ended : ended (w.status c) ≡ 0
        none_ended = ap ended steady

        pub wait_at-Counted : (q : ℕ) → q < nq → (x : Point) → Counted (wait_at w c q x)
        wait_at-Counted q l x =
            let u : World = record (set_point w (current w c) x) {
              sched = wait_self_on w.sched c q;
            } in
            settle (ended (w.status c)) u (wake_up u c) (wake_up-Counts u c)
              (omega (arith, none_ended, wait_self_on-weighs nq nc alive refl w.sched c hc q l))

        pub lock-Counted : (k : ℕ) → k < nq → Counted (lock w c k)
        unfolding lock
        lock-Counted k l = elim (Bool-cases (w.mutexes k).is_locked) [
          | inl e ↦
              subst (λ b. Counted (if b then wait_at w c k (locks k) else take w c k)) (sym e)
                (wait_at-Counted k l (locks k))
          | inr e ↦
              subst (λ b. Counted (if b then wait_at w c k (locks k) else take w c k)) (sym e)
                (settle 0 w (take w c k) (take-Counts w c k) (omega arith))
        ]

        pub lock_again-Counted :
            (x : Point) → ((k : ℕ) → x ≡ relocks k → k < nq) → Counted (lock_again w c x)
        lock_again-Counted (relocks k) fits = lock-Counted k (fits k refl)
        lock_again-Counted runs fits = tt
        lock_again-Counted fresh fits = tt
        lock_again-Counted yields fits = tt
        lock_again-Counted joins fits = tt
        lock_again-Counted (locks k) fits = tt

        pub join-Counted : (j q : ℕ) → q < nq → Counted (join w c j q)
        unfolding join
        join-Counted j q l = elim (Bool-cases (w.is_dead j).val) [
          | inl e ↦ subst (λ b. Counted (if b then done w else wait_at w c q joins)) (sym e) total
          | inr e ↦
              subst (λ b. Counted (if b then done w else wait_at w c q joins)) (sym e)
                (wait_at-Counted q l joins)
        ]

        pub yield_now-Counted : Counted (yield_now w c)
        unfolding yield_now
        yield_now-Counted =
            let u : World = record (set_point w (current w c) yields) {
              sched = (put_self_in_ready w.sched c).0;
            } in
            (elim (Bool-cases (put_self_in_ready w.sched c).1) [
              | inl e ↦
                  subst (λ b. Counted (if b then wake_up u c else done w)) (sym e)
                    (settle (ended (w.status c)) u (wake_up u c) (wake_up-Counts u c) (
                      omega (
                        arith,
                        none_ended,
                        put_self_in_ready-weighs nq nc alive refl w.sched c hc,
                      )))
              | inr e ↦ subst (λ b. Counted (if b then wake_up u c else done w)) (sym e) total
            ])

    pub make_thread-Counted : (j : ℕ) (t : Context) → t ≢ nullptr → Counted (make_thread w j t)
    make_thread-Counted j t real =
        make_thread-cases Counted w j t tt (λ pool'. tt)
          λ pool' tids. ground (arith, real, put_in_ready-weighs nq nc alive w.sched t)

  -- `unlock` moves a waiting context to the ready queue at most.
  abbrev Unlocked : World → Outcome → Type 0
  Unlocked w (done v) =
      (living v ≡ living w) × (v.total_threads ≡ w.total_threads) × (v.status ≡ w.status)
  Unlocked w (thrown v) =
      (living v ≡ living w) × (v.total_threads ≡ w.total_threads) × (v.status ≡ w.status)
  Unlocked w (left_locked v) = ⊥
  Unlocked w aborted = ⊥

  release-Unlocked : (w : World) (k : ℕ) → k < nq → Unlocked w (done (release w k))
  release-Unlocked w k l = elim (Bool-cases (empty (w.sched.waiting k))) [
    | inl e ↦ rw e (refl, refl, refl)
    | inr e ↦ rw e (wake_one-weighs nq nc alive w.sched k l, refl, refl)
  ]

  unlock-Unlocked : (w : World) (c k : ℕ) → k < nq → Unlocked w (unlock w c k)
  unfolding unlock
  unlock-Unlocked w c k l = go (read table_size w.tid_map (current w c))
    where
      go :
          (r : Option (Table × ℕ))
          → Unlocked w (elim r [
            | none ↦ thrown w
            | some (tids, id) ↦
                if (w.mutexes k).owner_id == id
                then done (release (record w { tid_map = tids }) k)
                else thrown (record w { tid_map = tids })
          ])
      go none = (refl, refl, refl)
      go (some (tids, id)) = elim (Bool-cases ((w.mutexes k).owner_id == id)) [
        | inl own ↦ rw own (release-Unlocked (record w { tid_map = tids }) k l)
        | inr ne ↦ rw ne (refl, refl, refl)
      ]

  module _ (w : World) (total : w.total_threads ≡ living w) (c k : ℕ) (l : k < nq) where
    pub unlock-Counted : Counted (unlock w c k)
    unlock-Counted = go (unlock w c k) (unlock-Unlocked w c k l)
      where
        go : (o : Outcome) → Unlocked w o → Counted o
        go (done v) (s, n, st) = n ∙ total ∙ sym s
        go (thrown v) (s, n, st) = n ∙ total ∙ sym s
        go (left_locked v) u = absurd u
        go aborted u = absurd u

    pub cv_wait-Counted :
        (q : ℕ) → q < nq → c < nc → w.status c ≡ no_state → Counted (cv_wait w c q k)
    unfolding cv_wait
    cv_wait-Counted q lq hc steady = go (unlock w c k) (unlock-Unlocked w c k l)
      where
        go : (o : Outcome) → Unlocked w o → Counted (then_do o λ v. wait_at v c q (relocks k))
        go (done v) (s, n, st) =
            wait_at-Counted v (n ∙ total ∙ sym s) c hc (ap (λ f. f c) st ∙ steady) q lq (relocks k)
        go (thrown v) (s, n, st) = n ∙ total ∙ sym s
        go (left_locked v) u = absurd u
        go aborted u = absurd u
