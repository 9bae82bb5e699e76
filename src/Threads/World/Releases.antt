-- ===== src/Threads/World/Releases.antt =====
-- src/lib/threadlib/mutex.cpp, cv.cpp: `unlock` and `cv::wait`, and the owner of a mutex.
use distributed_thread_libra.Prelude.{
  ℕ, ◌<◌, ◌≡◌, ◌≢◌, refl, true, Option, none, some, List, [], ◌∷◌, ◌==◌, if◌then◌else◌, change,
  change_self, change_ne, arith, ap, ◌∙◌, sym, subst, ℕ_discrete, inl, inr, Bool-cases,
}
use distributed_thread_libra.HashTable.{Table, table_size, read}
use distributed_thread_libra.Threads.Scheduler.{
  Context, nullptr, Sched, empty, wake_one, wake_front,
}
use distributed_thread_libra.Threads.World.{
  World, Mutex, relocks, Outcome, done, thrown, left_locked, aborted, current, set_mutex, then_do,
  wait_at, free, unlock, release, cv_wait,
}
use distributed_thread_libra.Threads.World.Handed.{IsExclusive}
use distributed_thread_libra.Threads.World.Queues.{
  wake_one-IsExclusive, freed-IsExclusive, handed_on-IsExclusive,
}
use distributed_thread_libra.Threads.World.Exclusion.{Owns, Excl, Good, Ensures}
use distributed_thread_libra.Threads.World.Resumes.{after-Ensures}
use distributed_thread_libra.Threads.World.Calls.{id_of, wait_at-Ensures}

wake_one-curr : (s : Sched) (q c : ℕ) → (wake_one s q).curr c ≡ s.curr c
unfolding wake_one
wake_one-curr s q c = go (s.waiting q)
  where
    go : (ts : List Context) → (wake_front s q ts).curr c ≡ s.curr c
    go [] = refl
    go (t ∷ ts) = refl

release-current : (w : World) (k c : ℕ) → current (release w k) c ≡ current w c
release-current w k c = elim (Bool-cases (empty (w.sched.waiting k))) [
  | inl e ↦ rw e refl
  | inr e ↦ rw e (wake_one-curr w.sched k c)
]

abbrev RunsOn : World → (c : ℕ) → Outcome → Type 0
RunsOn w c (done u) = current u c ≡ current w c
RunsOn w c (thrown u) = Unit
RunsOn w c (left_locked u) = Unit
RunsOn w c aborted = Unit

module _ (nq nc m i : ℕ) (pos : i ≢ 0) (w : World) (v : Excl nq nc m i 0 w) (k : ℕ)
    (l : k < nq) where
  same_mutex : k ≡ m → (x : Mutex) → change w.mutexes k x m ≡ x
  same_mutex e x = ap (change w.mutexes k x) (sym e) ∙ change_self w.mutexes k x

  with_mutex :
      (s : Sched) (x y : Mutex)
      → change w.mutexes k x m ≡ y
      → IsExclusive nq nc m 0 s y w.point
      → (Owns m i w → (y.is_locked ≡ true) × (y.owner_id ≡ i))
      → Good nq nc m i w (record (set_mutex w k x) { sched = s })
  with_mutex s x y e h g =
      subst
        (λ (z : Mutex).
          IsExclusive nq nc m 0 s z w.point
          × (Owns m i w → (z.is_locked ≡ true) × (z.owner_id ≡ i)))
        (sym e) (h, g)

  pub release-Good :
      (w.mutexes k).owner_id ≢ 0
      → (k ≡ m → (w.mutexes k).owner_id ≢ i)
      → Good nq nc m i w (release w k)
  release-Good owned keeps = elim (ℕ_discrete k m) [
    | yes e ↦
        let at_k : (w.mutexes k).owner_id ≡ (w.mutexes m).owner_id =
          ap (λ j. (w.mutexes j).owner_id) e in
        let owned_m : (w.mutexes m).owner_id ≢ 0 = λ h. owned (at_k ∙ h) in
        let lost : Owns m i w → ⊥ = λ owns. keeps e (at_k ∙ owns.1) in
        let handed_m : Mutex = record { is_locked = true; owner_id = 0 } in
        let next : IsExclusive nq nc m 0 (wake_one w.sched k) handed_m w.point =
          subst (λ q. IsExclusive nq nc m 0 (wake_one w.sched q) handed_m w.point) (sym e)
            (handed_on-IsExclusive nq nc m (w.mutexes m) w.point w.sched v owned_m
              (subst (λ q. q < nq) e l)) in
        (elim (Bool-cases (empty (w.sched.waiting k))) [
          | inl none_wait ↦ rw none_wait (
              with_mutex w.sched free free (same_mutex e free)
                (freed-IsExclusive nq nc m (w.mutexes m) w.point w.sched v owned_m)
                (λ owns. absurd (lost owns)))
          | inr one_waits ↦ rw one_waits (
              with_mutex (wake_one w.sched k) handed_m handed_m (same_mutex e handed_m) next
                (λ owns. absurd (lost owns)))
        ])
    | no ne ↦
        let other : (x : Mutex) → change w.mutexes k x m ≡ w.mutexes m =
          λ x. change_ne w.mutexes k x m ne in
        let handed_k : Mutex = record { is_locked = true; owner_id = 0 } in
        (elim (Bool-cases (empty (w.sched.waiting k))) [
          | inl none_wait ↦
              rw none_wait (with_mutex w.sched free (w.mutexes m) (other free) v (λ owns. owns))
          | inr one_waits ↦ rw one_waits (
              with_mutex (wake_one w.sched k) handed_k (w.mutexes m) (other handed_k)
                (wake_one-IsExclusive nq nc m (w.mutexes m) w.point w.sched v k l ne)
                (λ owns. owns))
        ])
  ]

module _ (nq nc m i : ℕ) (pos : i ≢ 0) (w : World) (v : Excl nq nc m i 0 w) (k : ℕ) (l : k < nq)
    (c : ℕ) (known : id_of w c ≢ 0) (keeps : k ≡ m → id_of w c ≢ i) where
  pub unlock-Ensures : Ensures nq nc m i w (unlock w c k)
  unfolding unlock
  unlock-Ensures = go (read table_size w.tid_map (current w c)) refl
    where
      go :
          (r : Option (Table × ℕ))
          → read table_size w.tid_map (current w c) ≡ r
          → Ensures nq nc m i w (elim r [
            | none ↦ thrown w
            | some (tids, id) ↦
                if (w.mutexes k).owner_id == id
                then done (release (record w { tid_map = tids }) k)
                else thrown (record w { tid_map = tids })
          ])
      go none e = (v, λ owns. owns)
      go (some (tids, id)) e =
          let is_id : id_of w c ≡ id = ap (λ r. elim r [ none ↦ 0 | some (t, j) ↦ j ]) e in
          (elim (Bool-cases ((w.mutexes k).owner_id == id)) [
            | inl own ↦
                let same : (w.mutexes k).owner_id ≡ id_of w c = ground (arith, own) in
                rw own (
                  release-Good nq nc m i pos (record w { tid_map = tids }) v k l
                    (λ h. known (sym same ∙ h)) (λ km h. keeps km (sym same ∙ h)))
            | inr ne ↦ rw ne (v, λ owns. owns)
          ])

  -- `unlock` leaves the processor to its context.
  unlock-runs : RunsOn w c (unlock w c k)
  unfolding unlock
  unlock-runs = go (read table_size w.tid_map (current w c))
    where
      go :
          (r : Option (Table × ℕ))
          → RunsOn w c (elim r [
            | none ↦ thrown w
            | some (tids, id) ↦
                if (w.mutexes k).owner_id == id
                then done (release (record w { tid_map = tids }) k)
                else thrown (record w { tid_map = tids })
          ])
      go none = tt
      go (some (tids, id)) = elim (Bool-cases ((w.mutexes k).owner_id == id)) [
        | inl own ↦ rw own (release-current (record w { tid_map = tids }) k c)
        | inr ne ↦ rw ne tt
      ]

  pub cv_wait-Ensures :
      current w c ≢ nullptr → (q : ℕ) → q < nq → c < nc → Ensures nq nc m i w (cv_wait w c q k)
  unfolding cv_wait
  cv_wait-Ensures real q lq hc = go (unlock w c k) unlock-Ensures unlock-runs
    where
      go :
          (o : Outcome)
          → Ensures nq nc m i w o
          → RunsOn w c o
          → Ensures nq nc m i w (then_do o λ u. wait_at u c q (relocks k))
      go (done u) (e, keep) on = after-Ensures nq nc m i w u keep (wait_at u c q (relocks k)) (
          wait_at-Ensures nq nc m i pos u e c hc (λ h. real (sym on ∙ h)) q lq (relocks k)
            (λ h. absurd (ground (arith, h))))
      go (thrown u) g on = g
      go (left_locked u) g on = tt
      go aborted g on = tt
