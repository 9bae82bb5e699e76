-- ===== src/Threads/World/Exclusion.antt =====
-- src/lib/threadlib/mutex.cpp: what a context switch does to the owner of a mutex.
use distributed_thread_libra.Prelude.{
  one_if, ℕ, ◌<◌, ◌≤◌, ◌≡◌, ◌≢◌, refl, Bool, true, false, Option, none, some, ◌==◌, if◌then◌else◌,
  change, change_self, change_ne, arith, ap, ◌∙◌, sym, subst, ℕ_discrete, inl, inr, Bool-cases,
  some-injective,
}
use distributed_thread_libra.HashTable.{Table, table_size, read}
use distributed_thread_libra.Threads.Scheduler.{nullptr}
use distributed_thread_libra.Threads.World.{
  World, Mutex, Point, runs, fresh, yields, joins, relocks, locks, Outcome, done, thrown,
  left_locked, aborted, current, set_point, set_mutex, take, continue_at,
}
use distributed_thread_libra.Threads.World.Acts.{after}
use distributed_thread_libra.Threads.World.Handed.{
  is_at, handed, owed, held, IsExclusive, moved-told, moved-apart,
}

-- The id `i` owns the mutex.
abbrev pub Owns : (m i : ℕ) → World → Type 0
Owns m i w = ((w.mutexes m).is_locked ≡ true) × ((w.mutexes m).owner_id ≡ i)

module _ (nq nc m i : ℕ) where
  abbrev pub Excl : (d : ℕ) → World → Type 0
  Excl d w = IsExclusive nq nc m d w.sched (w.mutexes m) w.point

  -- The mutex is exclusive after a call that went through, and `i` owns it where `i` did before.
  abbrev pub Good : World → World → Type 0
  Good w v = Excl 0 v × (Owns m i w → Owns m i v)

  abbrev pub Ensures : World → Outcome → Type 0
  Ensures w (done v) = Good w v
  Ensures w (thrown v) = Good w v
  Ensures w (left_locked v) = Unit
  Ensures w aborted = Unit

  pub Ensures-after :
      (w : World) (o : Outcome) {t : World} → Ensures w o → after o ≡ some t → Good w t
  Ensures-after w (done v) g h = subst (Good w) (some-injective h) g
  Ensures-after w (thrown v) g h = subst (Good w) (some-injective h) g
  Ensures-after w (left_locked v) g h = cc
  Ensures-after w aborted g h = cc

module _ (nq nc m i : ℕ) (pos : i ≢ 0) (w : World) (c : ℕ) (hc : c < nc)
    (real : current w c ≢ nullptr) where
  -- The context that runs goes on outside any `lock`.
  pub goes_on-Excl : Excl nq nc m i 0 w → Excl nq nc m i 0 (set_point w (current w c) runs)
  goes_on-Excl v = record {
    once = v.once;
    told =
        let told = v.told in
        let same = moved-told nq nc m (w.mutexes m) w.point w.sched v c hc real runs in omega arith;
    apart = λ q l ne.
        moved-apart nq nc m (w.mutexes m) w.point w.sched v c hc real runs q l ∙ v.apart q l ne;
  }

  -- It gets the mutex `k`, which was handed to it or is not locked.
  pub take-Ensures :
      (k : ℕ)
      → Excl nq nc m i 0 w
      → (k ≡ m → (handed m w.point w.sched.ready ≡ 0) × (held (w.mutexes m) ≡ 0))
      → Ensures nq nc m i w (take w c k)
  unfolding take
  take-Ensures k v free = go (read table_size w.tid_map (current w c))
    where
      go :
          (r : Option (Table × ℕ))
          → Ensures nq nc m i w (elim r [
            | none ↦ left_locked (set_mutex w k (record (w.mutexes k) { is_locked = true }))
            | some (tids, id) ↦ done (
                set_point
                  (set_mutex
                    (record w { tid_map = tids })
                    k
                    (record { is_locked = true; owner_id = id }))
                  (current w c)
                  runs)
          ])
      go none = tt
      go (some (tids, id)) = elim (ℕ_discrete k m) [
        | yes e ↦
            let (none_handed, not_held) = free e in
            let x' : Mutex = record { is_locked = true; owner_id = id } in
            let at_m : change w.mutexes k x' m ≡ x' =
              ap (change w.mutexes k x') (sym e) ∙ change_self w.mutexes k x' in
            (
              subst (λ x. IsExclusive nq nc m 0 w.sched x (change w.point (current w c) runs))
                  (sym at_m)
                  (record {
                    once = v.once;
                    told =
                        let same =
                          moved-told nq nc m (w.mutexes m) w.point w.sched v c hc real runs in
                        ground (arith, none_handed);
                    apart = (goes_on-Excl v).apart;
                  }),
              λ owns. absurd (ground (arith, owns.0, owns.1, not_held)),
            )
        | no ne ↦
            let x' : Mutex = record { is_locked = true; owner_id = id } in
            let at_m : change w.mutexes k x' m ≡ w.mutexes m = change_ne w.mutexes k x' m ne in
            (
              subst (λ x. IsExclusive nq nc m 0 w.sched x (change w.point (current w c) runs))
                  (sym at_m) (goes_on-Excl v),
              λ owns. (
                ap (λ (x : Mutex). x.is_locked) at_m ∙ owns.0,
                ap (λ (x : Mutex). x.owner_id) at_m ∙ owns.1,
              ),
            )
      ]

one_if_bound : (b : Bool) → one_if b ≤ 1
one_if_bound true = omega arith
one_if_bound false = omega arith

module _ (nq nc m i : ℕ) (pos : i ≢ 0) (w : World) (c : ℕ) (hc : c < nc) where
  forgiven : (d : ℕ) → Excl nq nc m i d w → Excl nq nc m i 0 w
  forgiven d v = record { once = v.once; told = let told = v.told in omega arith; apart = v.apart }

  -- The context that a processor switched to goes on.
  continue_at-Ensures :
      (y : Point)
      → w.point (current w c) ≡ y
      → current w c ≢ nullptr
      → Excl nq nc m i (owed m w.point (current w c)) w
      → Ensures nq nc m i w (continue_at w c y)
  continue_at-Ensures (locks k) e real v =
      take-Ensures nq nc m i pos w c hc real k (forgiven (owed m w.point (current w c)) v) λ km.
        let told = v.told in
        let inside : is_at m (w.point (current w c)) ≡ (k == m) = ap (is_at m) e in
        let locked : one_if (w.mutexes m).is_locked ≤ 1 = one_if_bound (w.mutexes m).is_locked in
        (ground (arith, inside, km), ground (arith, inside, km))
  continue_at-Ensures (relocks k) e real v =
      (forgiven (owed m w.point (current w c)) v, λ owns. owns)
  continue_at-Ensures runs e real v = (
    goes_on-Excl nq nc m i pos w c hc real (forgiven (owed m w.point (current w c)) v),
    λ owns. owns,
  )
  continue_at-Ensures fresh e real v = (
    goes_on-Excl nq nc m i pos w c hc real (forgiven (owed m w.point (current w c)) v),
    λ owns. owns,
  )
  continue_at-Ensures yields e real v = (
    goes_on-Excl nq nc m i pos w c hc real (forgiven (owed m w.point (current w c)) v),
    λ owns. owns,
  )
  continue_at-Ensures joins e real v = (
    goes_on-Excl nq nc m i pos w c hc real (forgiven (owed m w.point (current w c)) v),
    λ owns. owns,
  )

  pub settled-Ensures :
      Excl nq nc m i (owed m w.point (current w c)) w
      → Ensures nq nc m i w
          (if current w c == nullptr then done w else continue_at w c (w.point (current w c)))
  settled-Ensures v = elim (Bool-cases (current w c == nullptr)) [
    | inl e ↦
        subst
          (λ b. Ensures nq nc m i w (if b then done w else continue_at w c (w.point (current w c))))
          (sym e) (forgiven (owed m w.point (current w c)) v, λ owns. owns)
    | inr e ↦
        subst
          (λ b. Ensures nq nc m i w (if b then done w else continue_at w c (w.point (current w c))))
          (sym e) (continue_at-Ensures (w.point (current w c)) refl (ground arith) v)
  ]
