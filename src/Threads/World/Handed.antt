-- ===== src/Threads/World/Handed.antt =====
-- src/lib/threadlib/mutex.cpp: the contexts that a mutex was handed to. They stand in the ready queue, inside `lock`.
use distributed_thread_libra.Prelude.{
  one_if, count, ℕ, ◌+◌, ◌<◌, ◌≤◌, ◌≡◌, ◌≢◌, refl, Bool, true, false, not, ◌&&◌, List, [], ◌∷◌,
  ◌++◌, ◌==◌, if◌then◌else◌, change, change_self, arith, ap, ◌∙◌, sym, subst, sum_below,
  le-sum_below, ℕ_discrete,
}
use distributed_thread_libra.Threads.Scheduler.{
  Context, nullptr, Sched, ctx_switch, enqueue, wait_self_on,
}
use distributed_thread_libra.Threads.Scheduler.Ready.{wait_self_on-nil, wait_self_on-cons}
use distributed_thread_libra.Threads.Scheduler.Places.{places}
use distributed_thread_libra.Threads.Scheduler.Laws.{wait_self_on-places}
use distributed_thread_libra.Threads.World.{Mutex, Point, locks}

module _ (m : ℕ) where
  abbrev pub is_at : Point → Bool
  is_at (locks k) = k == m
  is_at x = false

  -- How many of the contexts stand inside `lock` of `m`.
  abbrev pub handed : (Context → Point) → List Context → ℕ
  handed f [] = 0
  handed f (t ∷ ts) = one_if (is_at (f t)) + handed f ts

  -- One more, where the context on a processor has yet to go on.
  abbrev pub owed : (Context → Point) → Context → ℕ
  owed f u = one_if (not (u == nullptr) && is_at (f u))

  pub handed-append :
      (f : Context → Point) (ts us : List Context) → handed f (ts ++ us) ≡ handed f ts + handed f us
  handed-append f [] us = omega arith
  handed-append f (t ∷ ts) us = omega (arith, handed-append f ts us)

  pub handed-change :
      (f : Context → Point) (t : Context) (x : Point) (ts : List Context)
      → count t ts ≡ 0
      → handed (change f t x) ts ≡ handed f ts
  handed-change f t x [] h = refl
  handed-change f t x (u ∷ us) h = ground (arith, handed-change f t x us)

abbrev pub held : Mutex → ℕ
held x = one_if (x.is_locked && not (x.owner_id == 0))

-- Of the owner of `m` and the contexts that it was handed to there is at most one, and none while it is not locked;
-- a context has one place; and only the queue of `m` holds contexts that wait for `m`. `d` more are owed.
pub record IsExclusive (nq nc m d : ℕ) (s : Sched) (x : Mutex) (f : Context → Point) : Type 0 where
  pub once : (t : Context) → t ≢ nullptr → places nq nc t s ≤ 1
  pub told : handed m f s.ready + d + held x ≤ one_if x.is_locked
  pub apart : (q : ℕ) → q < nq → q ≢ m → handed m f (s.waiting q) ≡ 0

-- A context that runs stands in no queue.
pub running_lem :
    (nq nc : ℕ) (s : Sched) (c : ℕ)
    → c < nc
    → places nq nc (s.curr c) s ≤ 1
    → (count (s.curr c) s.ready ≡ 0) × ((q : ℕ) → q < nq → count (s.curr c) (s.waiting q) ≡ 0)
unfolding places
running_lem nq nc s c l one = (
  omega (arith, runs_here),
  λ q lq. omega (arith, runs_here, le-sum_below (λ r. count (s.curr c) (s.waiting r)) q nq lq),
)
  where
    runs_here : 1 ≤ sum_below (λ d. one_if (s.curr d == s.curr c)) nc
    runs_here = ground (arith, le-sum_below (λ d. one_if (s.curr d == s.curr c)) c nc l)

-- What `waitSelfOn` does with nothing ready, and with something.
wait_self_on-waiting :
    (s : Sched) (c q r : ℕ) (us : List Context)
    → s.ready ≡ us
    → (wait_self_on s c q).waiting r
      ≡ (if q == r then s.waiting q ++ s.curr c ∷ [] else s.waiting r)
wait_self_on-waiting s c q r [] e = ap (λ (t : Sched). t.waiting r) (wait_self_on-nil s c q e)
wait_self_on-waiting s c q r (u ∷ us) e =
    ap (λ (t : Sched). t.waiting r) (wait_self_on-cons s c q u us e)

module _ (nq nc m : ℕ) (x : Mutex) (f : Context → Point) (s : Sched)
    (v : IsExclusive nq nc m 0 s x f) (c : ℕ) (hc : c < nc) (real : s.curr c ≢ nullptr) where
  pub alone :
      (count (s.curr c) s.ready ≡ 0) × ((q : ℕ) → q < nq → count (s.curr c) (s.waiting q) ≡ 0)
  alone = running_lem nq nc s c hc (v.once (s.curr c) real)

  -- The running context gets a new point.
  pub moved-told : (y : Point) → handed m (change f (s.curr c) y) s.ready ≡ handed m f s.ready
  moved-told y = handed-change m f (s.curr c) y s.ready alone.0

  pub moved-apart :
      (y : Point) (q : ℕ)
      → q < nq
      → handed m (change f (s.curr c) y) (s.waiting q) ≡ handed m f (s.waiting q)
  moved-apart y q l = handed-change m f (s.curr c) y (s.waiting q) (alone.1 q l)

  -- The next context leaves the ready queue and is owed what it was handed.
  pub popped :
      (y : Point) (u : Context) (us : List Context)
      → s.ready ≡ u ∷ us
      → handed m (change f (s.curr c) y) us + owed m (change f (s.curr c) y) u ≤ handed m f s.ready
  popped y u us e =
      let none_here : count (s.curr c) (u ∷ us) ≡ 0 = ap (count (s.curr c)) (sym e) ∙ alone.0 in
      let same : handed m f s.ready ≡ handed m f (u ∷ us) = ap (handed m f) e in
      ground (arith, handed-change m f (s.curr c) y us)

  wait-told :
      (q : ℕ) (y : Point) (us : List Context)
      → s.ready ≡ us
      → let f' = change f (s.curr c) y in
        handed m f' (wait_self_on s c q).ready + owed m f' ((wait_self_on s c q).curr c)
        ≤ handed m f s.ready
  wait-told q y [] e =
      let t = ctx_switch (enqueue s q (s.curr c)) c nullptr in
      subst
        (λ (z : Sched).
          handed m (change f (s.curr c) y) z.ready + owed m (change f (s.curr c) y) (z.curr c)
          ≤ handed m f s.ready)
        (sym (wait_self_on-nil s c q e))
        (ground (arith, change_self s.curr c nullptr, moved-told y))
  wait-told q y (u ∷ us) e =
      subst
        (λ (z : Sched).
          handed m (change f (s.curr c) y) z.ready + owed m (change f (s.curr c) y) (z.curr c)
          ≤ handed m f s.ready)
        (sym (wait_self_on-cons s c q u us e))
        (subst
          (λ z.
            handed m (change f (s.curr c) y) us + owed m (change f (s.curr c) y) z
            ≤ handed m f s.ready)
          (sym (change_self s.curr c u)) (popped y u us e))

  wait-apart :
      (q : ℕ) (y : Point)
      → (is_at m y ≡ true → q ≡ m)
      → (r : ℕ) → r < nq
      → r ≢ m
      → handed m (change f (s.curr c) y) ((wait_self_on s c q).waiting r) ≡ 0
  wait-apart q y fits r lr ne =
      ap (handed m (change f (s.curr c) y)) (wait_self_on-waiting s c q r s.ready refl)
      ∙ (elim (ℕ_discrete q r) [
        | yes e ↦
            let not_m : is_at m y ≡ false = ground (arith, fits) in
            let lq : q < nq = omega arith in
            let none_m : handed m (change f (s.curr c) y) (s.waiting q) ≡ 0 =
              moved-apart y q lq ∙ v.apart q lq (λ qm. ne (sym e ∙ qm)) in
            ground (
              arith,
              handed-append m (change f (s.curr c) y) (s.waiting q) (s.curr c ∷ []),
              change_self f (s.curr c) y,
            )
        | no other ↦ ground (arith, moved-apart y r lr, v.apart r lr ne)
      ])

  -- The running context waits on `q`, at a point that is inside `lock` of `m` only where `q` is `m`.
  pub wait_self_on-IsExclusive :
      (q : ℕ)
      → q < nq
      → (y : Point) → (is_at m y ≡ true → q ≡ m)
      → IsExclusive nq nc m
          (owed m (change f (s.curr c) y) ((wait_self_on s c q).curr c))
          (wait_self_on s c q)
          x
          (change f (s.curr c) y)
  wait_self_on-IsExclusive q l y fits = record {
    once = λ t ne. omega (arith, wait_self_on-places nq nc t ne s c hc q l, v.once t ne);
    told = omega (arith, v.told, wait-told q y s.ready refl);
    apart = wait-apart q y fits;
  }
