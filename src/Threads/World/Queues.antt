-- ===== src/Threads/World/Queues.antt =====
-- src/include/threadlib/schedulerState.h: what the queue operations do to the contexts that a mutex was handed to.
use distributed_thread_libra.Prelude.{
  count, ℕ, ◌<◌, ◌≤◌, ◌≡◌, ◌≢◌, refl, Bool, true, false, List, [], ◌∷◌, change, change_self, arith,
  ap, ◌∙◌, sym, subst, le-sum_below, ℕ_discrete,
}
use distributed_thread_libra.Threads.Scheduler.{
  Context, nullptr, Sched, ctx_switch, put_in_ready, put_self_in_ready, run_next_from_kernel,
  run_next_from_user, wake_one, wake_front, wake_all,
}
use distributed_thread_libra.Threads.Scheduler.Ready.{
  run_next_from_kernel-cons, run_next_from_user-cons, run_next_from_user-nil,
  put_self_in_ready-cons,
}
use distributed_thread_libra.Threads.Scheduler.Places.{
  places, wake_one_lem, wake_all_lem, put_in_ready_lem,
}
use distributed_thread_libra.Threads.Scheduler.Laws.{
  put_self_in_ready-places, run_next_from_kernel-places, run_next_from_user-places,
}
use distributed_thread_libra.Threads.Scheduler.Runs.{wake_all-order}
use distributed_thread_libra.Threads.World.{Mutex, Point, fresh, yields}
use distributed_thread_libra.Threads.World.Handed.{
  handed, owed, handed-append, handed-change, IsExclusive, moved-apart, popped,
}

absent_lem :
    (nq nc : ℕ) (t : Context) (s : Sched)
    → places nq nc t s ≡ 0
    → (count t s.ready ≡ 0) × ((q : ℕ) → q < nq → count t (s.waiting q) ≡ 0)
unfolding places
absent_lem nq nc t s h =
    (omega arith, λ q lq. omega (arith, le-sum_below (λ r. count t (s.waiting r)) q nq lq))

module _ (nq nc m : ℕ) (x : Mutex) (f : Context → Point) (s : Sched)
    (v : IsExclusive nq nc m 0 s x f) where
  -- A processor gives up what it runs and takes the first ready context, or its main context.
  switched :
      (c : ℕ) (u : Context) (us : List Context)
      → s.ready ≡ u ∷ us
      → ((t : Context)
          → t ≢ nullptr
          → places nq nc t (ctx_switch (record s { ready = us }) c u) ≤ 1)
      → IsExclusive nq nc m (owed m f u) (ctx_switch (record s { ready = us }) c u) x f
  switched c u us e once = record {
    once = once;
    told =
        let same : handed m f s.ready ≡ handed m f (u ∷ us) = ap (handed m f) e in
        let told = v.told in ground arith;
    apart = v.apart;
  }

  from_switch :
      (s' : Sched) (c : ℕ) (u : Context) (us : List Context)
      → s' ≡ ctx_switch (record s { ready = us }) c u
      → s.ready ≡ u ∷ us
      → ((t : Context) → t ≢ nullptr → places nq nc t s' ≤ 1)
      → IsExclusive nq nc m (owed m f (s'.curr c)) s' x f
  from_switch s' c u us same e once =
      subst (λ z. IsExclusive nq nc m (owed m f (z.curr c)) z x f) (sym same)
        (subst
          (λ z. IsExclusive nq nc m (owed m f z) (ctx_switch (record s { ready = us }) c u) x f)
          (sym (change_self s.curr c u))
          (switched c u us e (λ t ne. subst (λ z. places nq nc t z ≤ 1) same (once t ne))))

  pub run_next_from_kernel-IsExclusive :
      (c : ℕ)
      → c < nc
      → s.curr c ≡ nullptr
      → (u : Context) (us : List Context) → s.ready ≡ u ∷ us
      → IsExclusive nq nc m
          (owed m f ((run_next_from_kernel s c).curr c))
          (run_next_from_kernel s c)
          x
          f
  run_next_from_kernel-IsExclusive c hc main u us e =
      let same = run_next_from_kernel-cons s c u us e in
      from_switch (run_next_from_kernel s c) c u us same e
        (λ t ne. omega (arith, run_next_from_kernel-places nq nc t ne s c hc main, v.once t ne))

  pub run_next_from_user-IsExclusive :
      (c : ℕ)
      → c < nc
      → (us : List Context) → s.ready ≡ us
      → IsExclusive nq nc m
          (owed m f ((run_next_from_user s c).curr c))
          (run_next_from_user s c)
          x
          f
  run_next_from_user-IsExclusive c hc (u ∷ us) e =
      from_switch (run_next_from_user s c) c u us (run_next_from_user-cons s c u us e) e
        (λ t ne. omega (arith, run_next_from_user-places nq nc t ne s c hc, v.once t ne))
  run_next_from_user-IsExclusive c hc [] e =
      let same = run_next_from_user-nil s c e in
      subst (λ z. IsExclusive nq nc m (owed m f (z.curr c)) z x f) (sym same)
        (record {
          once = λ t ne. omega (
            arith,
            ap (places nq nc t) same,
            run_next_from_user-places nq nc t ne s c hc,
            v.once t ne,
          );
          told = let told = v.told in ground (arith, change_self s.curr c nullptr);
          apart = v.apart;
        })

  pub wake_one-IsExclusive : (q : ℕ) → q < nq → q ≢ m → IsExclusive nq nc m 0 (wake_one s q) x f
  unfolding wake_one
  wake_one-IsExclusive q l other = go (s.waiting q) refl
    where
      go : (ts : List Context) → s.waiting q ≡ ts → IsExclusive nq nc m 0 (wake_front s q ts) x f
      go [] e = v
      go (t ∷ ts) e =
          let none_m : handed m f (t ∷ ts) ≡ 0 = ap (handed m f) (sym e) ∙ v.apart q l other in
          record {
            once = λ u ne.
                subst (λ us. places nq nc u (wake_front s q us) ≤ 1) e
                  (omega (arith, wake_one_lem nq nc u s q l, v.once u ne));
            told = omega (arith, v.told, handed-append m f s.ready (t ∷ []));
            apart = λ r lr ne. ground (arith, v.apart r lr ne);
          }

  pub wake_all-IsExclusive : (q : ℕ) → q < nq → q ≢ m → IsExclusive nq nc m 0 (wake_all s q) x f
  wake_all-IsExclusive q l other = record {
    once = λ u ne. omega (arith, wake_all_lem nq nc u s q l, v.once u ne);
    told = omega (
      arith,
      v.told,
      ap (handed m f) (wake_all-order s q q).0,
      handed-append m f s.ready (s.waiting q),
      v.apart q l other,
    );
    apart = λ r lr ne. ap (handed m f) (wake_all-order s q r).1 ∙ ground (arith, v.apart r lr ne);
  }

  -- A new context enters the ready queue, at the start of its function.
  pub put_in_ready-IsExclusive :
      (t : Context)
      → t ≢ nullptr
      → places nq nc t s ≡ 0
      → IsExclusive nq nc m 0 (put_in_ready s t) x (change f t fresh)
  unfolding put_in_ready
  put_in_ready-IsExclusive t real absent = record {
    once = λ u ne. elim (ℕ_discrete t u) [
      | yes e ↦
          let none_here : places nq nc u s ≡ 0 = ap (λ y. places nq nc y s) (sym e) ∙ absent in
          ground (arith, put_in_ready_lem nq nc u s t)
      | no other ↦ ground (arith, put_in_ready_lem nq nc u s t, v.once u ne)
    ];
    told =
        let told = v.told in
        ground (
          arith,
          handed-append m (change f t fresh) s.ready (t ∷ []),
          handed-change m f t fresh s.ready (absent_lem nq nc t s absent).0,
          change_self f t fresh,
        );
    apart = λ r lr ne.
        handed-change m f t fresh (s.waiting r) ((absent_lem nq nc t s absent).1 r lr)
        ∙ v.apart r lr ne;
  }

  -- The running context goes to the end of the ready queue, outside any `lock`.
  pub put_self_in_ready-IsExclusive :
      (c : ℕ)
      → c < nc
      → s.curr c ≢ nullptr
      → (u : Context) (us : List Context) → s.ready ≡ u ∷ us
      → IsExclusive nq nc m
          (owed m (change f (s.curr c) yields) ((put_self_in_ready s c).0.curr c))
          (put_self_in_ready s c).0
          x
          (change f (s.curr c) yields)
  unfolding put_in_ready
  put_self_in_ready-IsExclusive c hc real u us e =
      let t = s.curr c in
      let f' = change f t yields in
      let s' = ctx_switch (put_in_ready (record s { ready = us }) t) c u in
      let same : (put_self_in_ready s c).0 ≡ s' =
        ap (λ (r : Sched × Bool). r.0) (put_self_in_ready-cons s c u us real e) in
      subst (λ z. IsExclusive nq nc m (owed m f' (z.curr c)) z x f') (sym same)
        (subst (λ z. IsExclusive nq nc m (owed m f' z) s' x f') (sym (change_self s.curr c u))
          (record {
            once = λ y ne. omega (
              arith,
              ap (places nq nc y) same,
              put_self_in_ready-places nq nc y ne s c hc,
              v.once y ne,
            );
            told =
                let told = v.told in
                ground (
                  arith,
                  handed-append m f' us (t ∷ []),
                  change_self f t yields,
                  popped nq nc m x f s v c hc real yields u us e,
                );
            apart = λ r lr ne. moved-apart nq nc m x f s v c hc real yields r lr ∙ v.apart r lr ne;
          }))

  module _ (owned : x.owner_id ≢ 0) where
    none_handed : handed m f s.ready ≡ 0
    none_handed = let told = v.told in ground arith

    -- The mutex is free, or is handed to the first context that waits for it.
    pub freed-IsExclusive : IsExclusive nq nc m 0 s (record { is_locked = false; owner_id = 0 }) f
    freed-IsExclusive = record { once = v.once; told = omega (arith, none_handed); apart = v.apart }

    pub handed_on-IsExclusive :
        m < nq → IsExclusive nq nc m 0 (wake_one s m) (record { is_locked = true; owner_id = 0 }) f
    unfolding wake_one
    handed_on-IsExclusive l = go (s.waiting m) refl
      where
        go :
            (ts : List Context)
            → s.waiting m ≡ ts
            → IsExclusive nq nc m 0
                (wake_front s m ts)
                (record { is_locked = true; owner_id = 0 })
                f
        go [] e = record { once = v.once; told = omega (arith, none_handed); apart = v.apart }
        go (t ∷ ts) e = record {
          once = λ u ne.
              subst (λ us. places nq nc u (wake_front s m us) ≤ 1) e
                (omega (arith, wake_one_lem nq nc u s m l, v.once u ne));
          told = ground (arith, none_handed, handed-append m f s.ready (t ∷ []));
          apart = λ r lr ne. ground (arith, v.apart r lr ne);
        }
