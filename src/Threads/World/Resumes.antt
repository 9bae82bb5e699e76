-- ===== src/Threads/World/Resumes.antt =====
-- src/lib/threadlib/cpu.cpp: what `thread_handler`, and the context that a processor switches to, do to the owner of a
-- mutex.
use distributed_thread_libra.Prelude.{
  ℕ, ◌-◌, ◌<◌, ◌≡◌, ◌≢◌, refl, true, Option, none, some, ◌==◌, if◌then◌else◌, change, ap, ◌∙◌, sym,
  subst,
}
use distributed_thread_libra.HashTable.{table_size, remove}
use distributed_thread_libra.Threads.StackPool.{Pool}
use distributed_thread_libra.Threads.StackPool as StackPool
use distributed_thread_libra.Threads.Scheduler.{nullptr, Sched}
use distributed_thread_libra.Threads.World.{
  World, Outcome, done, thrown, left_locked, aborted, Status, no_state, end_state, current,
  after_status, then_do, thread_handler, continue_at, wake_up,
}
use distributed_thread_libra.Threads.World.Handed.{owed, IsExclusive}
use distributed_thread_libra.Threads.World.Exclusion.{Owns, Excl, Ensures, settled-Ensures}

-- `thread_handler` changes neither the queues nor the mutexes nor where a context stands.
abbrev pub Aside : World → Outcome → Type 0
Aside w (done v) = (v.sched ≡ w.sched) × (v.mutexes ≡ w.mutexes) × (v.point ≡ w.point)
Aside w (thrown v) = ⊥
Aside w (left_locked v) = ⊥
Aside w aborted = Unit

after_status-Aside : (w : World) (c : ℕ) (st : Status) → Aside w (after_status w c st)
after_status-Aside w c no_state = (refl, refl, refl)
after_status-Aside w c (end_state garbage stack) = go (StackPool.push w.pool stack)
  where
    go :
        (o : Option Pool)
        → Aside w (elim o [
          | none ↦ aborted
          | some pool' ↦ done (record w {
            tid_map = (remove table_size w.tid_map garbage).0;
            pool = pool';
            total_threads = w.total_threads - 1;
            status = change w.status c no_state;
          })
        ])
    go none = tt
    go (some pool') = (refl, refl, refl)

module _ (nq nc m i : ℕ) (w u : World) (es : u.sched ≡ w.sched) (em : u.mutexes ≡ w.mutexes)
    (ep : u.point ≡ w.point) where
  aside-Excl : (d : ℕ) → Excl nq nc m i d w → Excl nq nc m i d u
  aside-Excl d v =
      subst (λ s. IsExclusive nq nc m d s (u.mutexes m) u.point) (sym es)
        (subst (λ f. IsExclusive nq nc m d w.sched (f m) u.point) (sym em)
          (subst (IsExclusive nq nc m d w.sched (w.mutexes m)) (sym ep) v))

  aside-Owns : Owns m i w → Owns m i u
  aside-Owns = subst (λ f. ((f m).is_locked ≡ true) × ((f m).owner_id ≡ i)) (sym em)

-- What the next world keeps, the first keeps.
module _ (nq nc m i : ℕ) (w u : World) (owns : Owns m i w → Owns m i u) where
  pub after-Ensures : (o : Outcome) → Ensures nq nc m i u o → Ensures nq nc m i w o
  after-Ensures (done v) (e, k) = (e, λ h. k (owns h))
  after-Ensures (thrown v) (e, k) = (e, λ h. k (owns h))
  after-Ensures (left_locked v) e = tt
  after-Ensures aborted e = tt

module _ (nq nc m i : ℕ) (pos : i ≢ 0) (w : World) (c : ℕ) (hc : c < nc) where
  pub thread_handler-Ensures : Excl nq nc m i 0 w → Ensures nq nc m i w (thread_handler w c)
  unfolding thread_handler
  thread_handler-Ensures v =
      go (after_status w c (w.status c)) (after_status-Aside w c (w.status c))
    where
      go : (o : Outcome) → Aside w o → Ensures nq nc m i w o
      go (done u) (es, em, ep) =
          (aside-Excl nq nc m i w u es em ep 0 v, aside-Owns nq nc m i w u es em ep)
      go (thrown u) a = absurd a
      go (left_locked u) a = absurd a
      go aborted a = tt

  pub wake_up-Ensures :
      Excl nq nc m i (owed m w.point (current w c)) w → Ensures nq nc m i w (wake_up w c)
  unfolding wake_up thread_handler
  wake_up-Ensures v = go (after_status w c (w.status c)) (after_status-Aside w c (w.status c))
    where
      go :
          (o : Outcome)
          → Aside w o
          → Ensures nq nc m i w (
              then_do o λ u.
                if current u c == nullptr then done u else continue_at u c (u.point (current u c)))
      go (done u) (es, em, ep) =
          let same : owed m w.point (current w c) ≡ owed m u.point (current u c) =
            ap (λ f. owed m f (current w c)) (sym ep)
            ∙ ap (λ (s : Sched). owed m u.point (s.curr c)) (sym es) in
          after-Ensures nq nc m i w u (aside-Owns nq nc m i w u es em ep)
            (if current u c == nullptr then done u else continue_at u c (u.point (current u c)))
            (settled-Ensures nq nc m i pos u c hc (
              subst (λ d. Excl nq nc m i d u) same
                (aside-Excl nq nc m i w u es em ep (owed m w.point (current w c)) v)))
      go (thrown u) a = absurd a
      go (left_locked u) a = absurd a
      go aborted a = tt
