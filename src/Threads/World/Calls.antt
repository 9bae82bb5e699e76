-- ===== src/Threads/World/Calls.antt =====
-- src/lib/threadlib: what each call of the thread library does to the owner of a mutex.
use distributed_thread_libra.Prelude.{
  ℕ, ◌<◌, ◌≡◌, ◌≢◌, refl, Bool, true, false, not, none, some, List, [], ◌∷◌, if◌then◌else◌, change,
  arith, ap, ◌∙◌, sym, subst, inl, inr, Bool-cases,
}
use distributed_thread_libra.HashTable.{table_size, read}
use distributed_thread_libra.Threads.Scheduler.{
  Context, nullptr, Sched, empty, put_self_in_ready, run_next_from_kernel, run_next_from_user,
  wait_self_on,
}
use distributed_thread_libra.Threads.Scheduler.Ready.{put_self_in_ready-cons, put_self_in_ready-nil}
use distributed_thread_libra.Threads.World.{
  World, Point, runs, fresh, yields, joins, relocks, locks, Outcome, done, no_state, current,
  set_point, take, thread_handler, wake_up, wait_at, lock, join, yield_now, run_next, leave_cpu,
}
use distributed_thread_libra.Threads.World.Acts.{lock_again}
use distributed_thread_libra.Threads.World.Handed.{is_at, wait_self_on-IsExclusive}
use distributed_thread_libra.Threads.World.Queues.{
  run_next_from_kernel-IsExclusive, run_next_from_user-IsExclusive, put_self_in_ready-IsExclusive,
}
use distributed_thread_libra.Threads.World.Exclusion.{Excl, Good, Ensures, take-Ensures}
use distributed_thread_libra.Threads.World.Resumes.{
  after-Ensures, thread_handler-Ensures, wake_up-Ensures,
}

-- The id of the context that runs on a processor, 0 where the map has none.
abbrev pub id_of : World → (c : ℕ) → ℕ
id_of w c = elim (read table_size w.tid_map (current w c)) [ none ↦ 0 | some (tids, id) ↦ id ]

module _ (nq nc m i : ℕ) (pos : i ≢ 0) (w : World) (v : Excl nq nc m i 0 w) where
  kept : Good nq nc m i w w
  kept = (v, λ h. h)

  module _ (c : ℕ) (hc : c < nc) where
    pub leave_cpu-Ensures : Ensures nq nc m i w (leave_cpu w c)
    unfolding leave_cpu
    leave_cpu-Ensures =
        let u : World = record w { sched = run_next_from_user w.sched c } in
        after-Ensures nq nc m i w u (λ h. h) (wake_up u c)
          (wake_up-Ensures nq nc m i pos u c hc (
            run_next_from_user-IsExclusive nq nc m (w.mutexes m) w.point w.sched v c hc
              w.sched.ready refl))

    pub run_next-Ensures : current w c ≡ nullptr → Ensures nq nc m i w (run_next w c)
    unfolding run_next
    run_next-Ensures main = go w.sched.ready refl
      where
        u : World
        u = record w { status = change w.status c no_state }

        go :
            (ts : List Context)
            → w.sched.ready ≡ ts
            → Ensures nq nc m i w (
                if not (empty ts)
                then wake_up (record u { sched = run_next_from_kernel w.sched c }) c
                else thread_handler u c)
        go [] e =
            after-Ensures nq nc m i w u (λ h. h) (thread_handler u c)
              (thread_handler-Ensures nq nc m i pos u c hc v)
        go (t ∷ ts) e =
            let u' : World = record u { sched = run_next_from_kernel w.sched c } in
            after-Ensures nq nc m i w u' (λ h. h) (wake_up u' c)
              (wake_up-Ensures nq nc m i pos u' c hc (
                run_next_from_kernel-IsExclusive nq nc m (w.mutexes m) w.point w.sched v c hc main t
                  ts e))

    module _ (real : current w c ≢ nullptr) where
      pub wait_at-Ensures :
          (q : ℕ)
          → q < nq
          → (x : Point) → (is_at m x ≡ true → q ≡ m)
          → Ensures nq nc m i w (wait_at w c q x)
      wait_at-Ensures q l x fits =
          let u : World = record (set_point w (current w c) x) {
            sched = wait_self_on w.sched c q;
          } in
          after-Ensures nq nc m i w u (λ h. h) (wake_up u c)
            (wake_up-Ensures nq nc m i pos u c hc (
              wait_self_on-IsExclusive nq nc m (w.mutexes m) w.point w.sched v c hc real q l x
                fits))

      pub lock-Ensures : (k : ℕ) → k < nq → Ensures nq nc m i w (lock w c k)
      unfolding lock
      lock-Ensures k l = elim (Bool-cases (w.mutexes k).is_locked) [
        | inl e ↦
            subst (λ b. Ensures nq nc m i w (if b then wait_at w c k (locks k) else take w c k))
              (sym e) (wait_at-Ensures k l (locks k) (λ h. ground (arith, h)))
        | inr e ↦
            subst (λ b. Ensures nq nc m i w (if b then wait_at w c k (locks k) else take w c k))
              (sym e)
              (take-Ensures nq nc m i pos w c hc real k v λ km.
                let told = v.told in
                let open_m : (w.mutexes m).is_locked ≡ false =
                  ap (λ j. (w.mutexes j).is_locked) (sym km) ∙ e in
                (ground (arith, open_m), ground (arith, open_m)))
      ]

      pub lock_again-Ensures :
          (x : Point) → ((k : ℕ) → x ≡ relocks k → k < nq) → Ensures nq nc m i w (lock_again w c x)
      lock_again-Ensures (relocks k) fits = lock-Ensures k (fits k refl)
      lock_again-Ensures runs fits = tt
      lock_again-Ensures fresh fits = tt
      lock_again-Ensures yields fits = tt
      lock_again-Ensures joins fits = tt
      lock_again-Ensures (locks k) fits = tt

      pub join-Ensures : (j q : ℕ) → q < nq → Ensures nq nc m i w (join w c j q)
      unfolding join
      join-Ensures j q l = elim (Bool-cases (w.is_dead j).val) [
        | inl e ↦
            subst (λ b. Ensures nq nc m i w (if b then done w else wait_at w c q joins)) (sym e)
              kept
        | inr e ↦
            subst (λ b. Ensures nq nc m i w (if b then done w else wait_at w c q joins)) (sym e)
              (wait_at-Ensures q l joins (λ h. absurd (ground (arith, h))))
      ]

      pub yield_now-Ensures : Ensures nq nc m i w (yield_now w c)
      unfolding yield_now
      yield_now-Ensures = go w.sched.ready refl
        where
          yielded : Sched × Bool → Outcome
          yielded r =
              if r.1
              then wake_up (record (set_point w (current w c) yields) { sched = r.0 }) c
              else done w

          go :
              (ts : List Context)
              → w.sched.ready ≡ ts
              → Ensures nq nc m i w (yielded (put_self_in_ready w.sched c))
          go [] e =
              subst (λ r. Ensures nq nc m i w (yielded r)) (sym (put_self_in_ready-nil w.sched c e))
                kept
          go (t ∷ ts) e =
              let r = put_self_in_ready w.sched c in
              let u : World = record (set_point w (current w c) yields) { sched = r.0 } in
              let switched : r.1 ≡ true =
                ap (λ (p : Sched × Bool). p.1) (put_self_in_ready-cons w.sched c t ts real e) in
              subst (λ b. Ensures nq nc m i w (if b then wake_up u c else done w)) (sym switched)
                (after-Ensures nq nc m i w u (λ h. h) (wake_up u c)
                  (wake_up-Ensures nq nc m i pos u c hc (
                    put_self_in_ready-IsExclusive nq nc m (w.mutexes m) w.point w.sched v c hc real
                      t ts e)))
