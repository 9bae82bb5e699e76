-- ===== src/Threads/World/Waits.antt =====
-- src/lib/threadlib: the contexts that wait on a queue, through calls that do not wake it.
use distributed_thread_libra.Prelude.{
  ℕ, ◌≡◌, refl, Bool, true, false, not, ◌&&◌, Option, none, some, List, [], ◌∷◌, ◌++◌, append-nil,
  append_assoc, ◌==◌, if◌then◌else◌, change, arith, ap, ◌∙◌, sym, subst, inl, inr, Bool-cases,
  some-injective,
}
use distributed_thread_libra.HashTable.{Table, table_size, read}
use distributed_thread_libra.Threads.Scheduler.{
  Context, Sched, empty, has_next, put_self_in_ready, run_next_from_kernel, run_next_from_user,
  wait_self_on, wake_one, wake_all,
}
use distributed_thread_libra.Threads.Scheduler.Runs.{
  Op, kernel, leave, yield_on, wait_on, wake, wake_every, add,
}
use distributed_thread_libra.Threads.Scheduler.Runs as Runs
use distributed_thread_libra.Threads.Scheduler.Order.{wait_line, taken, put, perform-order}
use distributed_thread_libra.Threads.World.{
  World, Point, runs, fresh, yields, joins, relocks, locks, Outcome, done, thrown, left_locked,
  aborted, no_state, current, set_point, then_do, take, thread_handler, wake_up, wait_at, lock,
  unlock, release, cv_wait, join, yield_now, run_next, leave_cpu, make_thread, signal, broadcast,
  wake_joiners, note_end, drop_thread,
}
use distributed_thread_libra.Threads.World.Acts.{
  Act, locks_it, unlocks_it, waits_on, locks_again, signals_one, signals_all, joins_it, yields_cpu,
  picks_next, wakes_joiners, notes_end, leaves_it, starts, drops, lock_again, perform, after, run,
}
use distributed_thread_libra.Threads.World.Makes.{make_thread-cases}
use distributed_thread_libra.Threads.World.Census.{
  ended, Counts, take-Counts, thread_handler-Counts, wake_up-Counts,
}

-- The call takes no context out of the queue.
abbrev pub is_quiet : (q : ℕ) → Act → Bool
is_quiet q (unlocks_it c m) = not (m == q)
is_quiet q (waits_on c r m) = not (m == q)
is_quiet q (signals_one r) = not (r == q)
is_quiet q (signals_all r) = not (r == q)
is_quiet q (wakes_joiners r) = not (r == q)
is_quiet q a = true

abbrev pub all_quiet : (q : ℕ) → List Act → Bool
all_quiet q [] = true
all_quiet q (a ∷ acts) = is_quiet q a && all_quiet q acts

module _ (q : ℕ) where
  -- Those who waited still wait, in front of others.
  abbrev pub Waits : Sched → Sched → Type 0
  Waits s s' = (more : List Context) × (s'.waiting q ≡ s.waiting q ++ more)

  abbrev Leaves : World → Outcome → Type 0
  Leaves w (done v) = Waits w.sched v.sched
  Leaves w (thrown v) = Waits w.sched v.sched
  Leaves w (left_locked v) = Unit
  Leaves w aborted = Unit

  same-Waits : (s : Sched) → Waits s s
  same-Waits s = ([], sym (append-nil (s.waiting q)))

  Waits-trans : (s s' s'' : Sched) → Waits s s' → Waits s' s'' → Waits s s''
  Waits-trans s s' s'' (a, e) (b, f) =
      (a ++ b, f ∙ ap (λ ts. ts ++ b) e ∙ append_assoc (s.waiting q) a b)

  -- An operation of the scheduler that takes none out.
  op-Waits : (s : Sched) (op : Op) → taken (wait_line q) s op ≡ [] → Waits s (Runs.perform s op)
  op-Waits s op e = (
    put (wait_line q) s op,
    ap (λ ts. ts ++ (Runs.perform s op).waiting q) (sym e) ∙ perform-order (wait_line q) s op,
  )

  -- A context switch does not change the queues any more.
  settle : (d : ℕ) (w u : World) (o : Outcome) → Waits w.sched u.sched → Counts d u o → Leaves w o
  settle d w u (done v) h (s, n) = subst (Waits w.sched) (sym s) h
  settle d w u (thrown v) h (s, n) = subst (Waits w.sched) (sym s) h
  settle d w u (left_locked v) h k = tt
  settle d w u aborted h k = tt

  module _ (w : World) where
    wait_at-Leaves : (c r : ℕ) (x : Point) → Leaves w (wait_at w c r x)
    unfolding Runs.perform
    wait_at-Leaves c r x =
        let u : World = record (set_point w (current w c) x) { sched = wait_self_on w.sched c r } in
        settle (ended (w.status c)) w u (wake_up u c) (op-Waits w.sched (wait_on c r) refl)
          (wake_up-Counts u c)

    take-Leaves : (c m : ℕ) → Leaves w (take w c m)
    take-Leaves c m = settle 0 w w (take w c m) (same-Waits w.sched) (take-Counts w c m)

    lock-Leaves : (c m : ℕ) → Leaves w (lock w c m)
    unfolding lock
    lock-Leaves c m = elim (Bool-cases (w.mutexes m).is_locked) [
      | inl e ↦
          subst (λ b. Leaves w (if b then wait_at w c m (locks m) else take w c m)) (sym e)
            (wait_at-Leaves c m (locks m))
      | inr e ↦
          subst (λ b. Leaves w (if b then wait_at w c m (locks m) else take w c m)) (sym e)
            (take-Leaves c m)
    ]

    lock_again-Leaves : (c : ℕ) (x : Point) → Leaves w (lock_again w c x)
    lock_again-Leaves c (relocks m) = lock-Leaves c m
    lock_again-Leaves c runs = tt
    lock_again-Leaves c fresh = tt
    lock_again-Leaves c yields = tt
    lock_again-Leaves c joins = tt
    lock_again-Leaves c (locks m) = tt

    join-Leaves : (c j r : ℕ) → Leaves w (join w c j r)
    unfolding join
    join-Leaves c j r = elim (Bool-cases (w.is_dead j).val) [
      | inl e ↦
          subst (λ b. Leaves w (if b then done w else wait_at w c r joins)) (sym e)
            (same-Waits w.sched)
      | inr e ↦
          subst (λ b. Leaves w (if b then done w else wait_at w c r joins)) (sym e)
            (wait_at-Leaves c r joins)
    ]

    yield_now-Leaves : (c : ℕ) → Leaves w (yield_now w c)
    unfolding yield_now Runs.perform
    yield_now-Leaves c =
        let u : World = record (set_point w (current w c) yields) {
          sched = (put_self_in_ready w.sched c).0;
        } in
        (elim (Bool-cases (put_self_in_ready w.sched c).1) [
          | inl e ↦
              subst (λ b. Leaves w (if b then wake_up u c else done w)) (sym e)
                (settle (ended (w.status c)) w u (wake_up u c) (op-Waits w.sched (yield_on c) refl)
                  (wake_up-Counts u c))
          | inr e ↦
              subst (λ b. Leaves w (if b then wake_up u c else done w)) (sym e) (same-Waits w.sched)
        ])

    run_next-Leaves : (c : ℕ) → Leaves w (run_next w c)
    unfolding run_next Runs.perform
    run_next-Leaves c =
        let v : World = record w { status = change w.status c no_state } in
        let u : World = record v { sched = run_next_from_kernel w.sched c } in
        (elim (Bool-cases (has_next w.sched)) [
          | inl e ↦
              subst (λ b. Leaves w (if b then wake_up u c else thread_handler v c)) (sym e)
                (settle (ended (v.status c)) w u (wake_up u c) (op-Waits w.sched (kernel c) refl)
                  (wake_up-Counts u c))
          | inr e ↦
              subst (λ b. Leaves w (if b then wake_up u c else thread_handler v c)) (sym e)
                (settle (ended (v.status c)) w v (thread_handler v c) (same-Waits w.sched)
                  (thread_handler-Counts v c))
        ])

    leave_cpu-Leaves : (c : ℕ) → Leaves w (leave_cpu w c)
    unfolding leave_cpu Runs.perform
    leave_cpu-Leaves c =
        let u : World = record w { sched = run_next_from_user w.sched c } in
        settle (ended (w.status c)) w u (wake_up u c) (op-Waits w.sched (leave c) refl)
          (wake_up-Counts u c)

    make_thread-Leaves : (j : ℕ) (t : Context) → Leaves w (make_thread w j t)
    unfolding Runs.perform
    make_thread-Leaves j t =
        make_thread-cases (Leaves w) w j t tt (λ pool'. tt)
          (λ pool' tids. op-Waits w.sched (add t) refl)

  wake-Waits : (s : Sched) (r : ℕ) → (r == q) ≡ false → Waits s (wake_one s r)
  unfolding Runs.perform
  wake-Waits s r ne = op-Waits s (wake r) (rw ne)

  wake_all-Waits : (s : Sched) (r : ℕ) → (r == q) ≡ false → Waits s (wake_all s r)
  unfolding Runs.perform
  wake_all-Waits s r ne = op-Waits s (wake_every r) (rw ne)

  release-Waits : (w : World) (m : ℕ) → (m == q) ≡ false → Waits w.sched (release w m).sched
  release-Waits w m ne = elim (Bool-cases (empty (w.sched.waiting m))) [
    | inl e ↦ rw e (same-Waits w.sched)
    | inr e ↦ rw e (wake-Waits w.sched m ne)
  ]

  unlock-Leaves : (w : World) (c m : ℕ) → (m == q) ≡ false → Leaves w (unlock w c m)
  unfolding unlock
  unlock-Leaves w c m ne = go (read table_size w.tid_map (current w c))
    where
      go :
          (r : Option (Table × ℕ))
          → Leaves w (elim r [
            | none ↦ thrown w
            | some (tids, id) ↦
                if (w.mutexes m).owner_id == id
                then done (release (record w { tid_map = tids }) m)
                else thrown (record w { tid_map = tids })
          ])
      go none = same-Waits w.sched
      go (some (tids, id)) = elim (Bool-cases ((w.mutexes m).owner_id == id)) [
        | inl own ↦ rw own (release-Waits (record w { tid_map = tids }) m ne)
        | inr other ↦ rw other (same-Waits w.sched)
      ]

  then-Leaves : (w u : World) (o : Outcome) → Waits w.sched u.sched → Leaves u o → Leaves w o
  then-Leaves w u (done v) h k = Waits-trans w.sched u.sched v.sched h k
  then-Leaves w u (thrown v) h k = Waits-trans w.sched u.sched v.sched h k
  then-Leaves w u (left_locked v) h k = tt
  then-Leaves w u aborted h k = tt

  cv_wait-Leaves : (w : World) (c r m : ℕ) → (m == q) ≡ false → Leaves w (cv_wait w c r m)
  unfolding cv_wait
  cv_wait-Leaves w c r m ne = go (unlock w c m) (unlock-Leaves w c m ne)
    where
      go : (o : Outcome) → Leaves w o → Leaves w (then_do o λ v. wait_at v c r (relocks m))
      go (done v) h =
          then-Leaves w v (wait_at v c r (relocks m)) h (wait_at-Leaves v c r (relocks m))
      go (thrown v) h = h
      go (left_locked v) h = tt
      go aborted h = tt

  perform-Leaves : (w : World) (a : Act) → is_quiet q a ≡ true → Leaves w (perform w a)
  unfolding perform signal broadcast wake_joiners note_end drop_thread
  perform-Leaves w (locks_it c m) h = lock-Leaves w c m
  perform-Leaves w (unlocks_it c m) h = unlock-Leaves w c m (ground arith)
  perform-Leaves w (waits_on c r m) h = cv_wait-Leaves w c r m (ground arith)
  perform-Leaves w (locks_again c) h = lock_again-Leaves w c (w.point (current w c))
  perform-Leaves w (signals_one r) h = wake-Waits w.sched r (ground arith)
  perform-Leaves w (signals_all r) h = wake_all-Waits w.sched r (ground arith)
  perform-Leaves w (joins_it c j r) h = join-Leaves w c j r
  perform-Leaves w (yields_cpu c) h = yield_now-Leaves w c
  perform-Leaves w (picks_next c) h = run_next-Leaves w c
  perform-Leaves w (wakes_joiners r) h = wake_all-Waits w.sched r (ground arith)
  perform-Leaves w (notes_end c j stack) h = same-Waits w.sched
  perform-Leaves w (leaves_it c) h = leave_cpu-Leaves w c
  perform-Leaves w (starts j t) h = make_thread-Leaves w j t
  perform-Leaves w (drops j) h = same-Waits w.sched

  Leaves-after :
      (w : World) (o : Outcome) {u : World} → Leaves w o → after o ≡ some u → Waits w.sched u.sched
  Leaves-after w (done v) k e = subst (λ (z : World). Waits w.sched z.sched) (some-injective e) k
  Leaves-after w (thrown v) k e = subst (λ (z : World). Waits w.sched z.sched) (some-injective e) k
  Leaves-after w (left_locked v) k e = cc
  Leaves-after w aborted k e = cc

  pub run-Waits :
      (acts : List Act) (w u : World)
      → all_quiet q acts ≡ true
      → run w acts ≡ some u
      → Waits w.sched u.sched
  unfolding run
  run-Waits [] w u h e =
      subst (λ (z : World). Waits w.sched z.sched) (some-injective e) (same-Waits w.sched)
  run-Waits (a ∷ acts) w u h e =
      go (after (perform w a)) refl (λ z. run-Waits acts z u (ground arith)) e
    where
      go :
          (o : Option World)
          → after (perform w a) ≡ o
          → ((z : World) → run z acts ≡ some u → Waits z.sched u.sched)
          → elim o as (λ x. Option World) [ none ↦ none | some z ↦ run z acts ] ≡ some u
          → Waits w.sched u.sched
      go none e' rec k = cc
      go (some z) e' rec k =
          Waits-trans w.sched z.sched u.sched
            (Leaves-after w (perform w a) (perform-Leaves w a (ground arith)) e') (rec z k)
