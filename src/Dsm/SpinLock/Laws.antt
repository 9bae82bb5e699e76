-- ===== src/Dsm/SpinLock/Laws.antt =====
-- src/lib/dsm_lock.cpp: the callers that hold the lock.
use distributed_thread_libra.Prelude.{
  ℕ, ◌≡◌, ◌≢◌, refl, Bool, true, false, not, none, some, List, [], ◌∷◌, ◌==◌, if◌then◌else◌, change,
  change_self, change_ne, arith, ℕ_discrete, ap, ◌∙◌, sym, subst, some-injective, Option-cases, inl,
  inr,
}
use distributed_thread_libra.Dsm.SpinLock.{
  Place, outside, tries, syncs, holds, Lock, Event, calls, turns, refreshes, unlocks, move, step_at,
  actor, step, run, fresh_lock,
}

abbrev pub is_in : Place → Bool
is_in syncs = true
is_in holds = true
is_in _ = false

-- At most one caller has left the loop with the lock, and then the word is not 0.
pub record IsExclusive (s : Lock) : Type 0 where
  pub one : (i j : ℕ) → is_in (s.place i) ≡ true → is_in (s.place j) ≡ true → i ≡ j
  pub taken : (i : ℕ) → is_in (s.place i) ≡ true → s.mu ≢ 0

fresh_lock-IsExclusive : IsExclusive fresh_lock
fresh_lock-IsExclusive = record { one = λ i j p q. cc; taken = λ i p. cc }

-- Caller `i` moves to `p`, and the word is written.
move-IsExclusive :
    (s : Lock) (mu' i : ℕ) (p : Place)
    → IsExclusive s
    → (is_in p ≡ true → mu' ≢ 0)
    → ((j : ℕ) → is_in p ≡ true → is_in (s.place j) ≡ true → i ≡ j)
    → ((j : ℕ) → i ≢ j → is_in (s.place j) ≡ true → mu' ≢ 0)
    → IsExclusive (move (record s { mu = mu' }) i p)
move-IsExclusive s mu' i p v word alone others = record {
  one = λ j k a b. elim (ℕ_discrete i j) [
    | yes ij ↦ elim (ℕ_discrete i k) [
      | yes ik ↦ sym ij ∙ ik
      | no nk ↦ sym ij ∙ alone k (at_i j ij a) (at_other k nk b)
    ]
    | no nj ↦ elim (ℕ_discrete i k) [
      | yes ik ↦ sym (alone j (at_i k ik b) (at_other j nj a)) ∙ ik
      | no nk ↦ v.one j k (at_other j nj a) (at_other k nk b)
    ]
  ];
  taken = λ j a. elim (ℕ_discrete i j) [
    | yes ij ↦ word (at_i j ij a)
    | no nj ↦ others j nj (at_other j nj a)
  ];
}
  where
    at_i : (j : ℕ) → i ≡ j → is_in (change s.place i p j) ≡ true → is_in p ≡ true
    at_i j ij a =
        ap is_in (sym (change_self s.place i p)) ∙ ap (λ k. is_in (change s.place i p k)) ij ∙ a

    at_other : (j : ℕ) → i ≢ j → is_in (change s.place i p j) ≡ true → is_in (s.place j) ≡ true
    at_other j nj a = ap is_in (sym (change_ne s.place i p j nj)) ∙ a

step_at-IsExclusive :
    (s : Lock) (e : Event) (p : Place) {t : Lock}
    → IsExclusive s
    → s.place (actor e) ≡ p
    → step_at s e p ≡ some t
    → IsExclusive t
step_at-IsExclusive s (calls i) outside v at_p h =
    subst IsExclusive (some-injective h)
      (move-IsExclusive s s.mu i tries v (λ e. cc) (λ j e. cc) (λ j ne e. v.taken j e))
step_at-IsExclusive s (turns i) tries v at_p h = subst IsExclusive (some-injective h) (
    move-IsExclusive s 1 i (if not (s.mu == 0) then tries else syncs) v (λ e. omega arith)
      (λ j e k. absurd (v.taken j k (ground arith))) (λ j ne e. omega arith))
step_at-IsExclusive s (refreshes i) syncs v at_p h = subst IsExclusive (some-injective h) (
    move-IsExclusive s s.mu i holds v (λ e. v.taken i (ap is_in at_p))
      (λ j e k. v.one i j (ap is_in at_p) k) (λ j ne e. v.taken j e))
step_at-IsExclusive s (unlocks i) holds v at_p h = subst IsExclusive (some-injective h) (
    move-IsExclusive s 0 i outside v (λ e. cc) (λ j e. cc)
      (λ j ne e. absurd (ne (v.one i j (ap is_in at_p) e))))
step_at-IsExclusive s e p v at_p h = cc

step-IsExclusive :
    (s : Lock) (e : Event) {t : Lock} → IsExclusive s → step s e ≡ some t → IsExclusive t
unfolding step
step-IsExclusive s e v h = step_at-IsExclusive s e (s.place (actor e)) v refl h

run-IsExclusive :
    (s : Lock) (es : List Event) {t : Lock} → IsExclusive s → run s es ≡ some t → IsExclusive t
unfolding run
run-IsExclusive s [] v h = subst IsExclusive (some-injective h) v
run-IsExclusive s (e ∷ es) v h = elim (Option-cases (step s e)) [
  | inl stuck ↦ cc
  | inr (u, stepped) ↦
      run-IsExclusive u es (step-IsExclusive s e v stepped)
        (sym (ap (λ o. elim o [ none ↦ none | some w ↦ run w es ]) stepped) ∙ h)
]

-- Through any sequence of steps of any callers from a fresh lock, at most one caller holds the lock.
pub run-holds :
    (es : List Event) {t : Lock}
    → run fresh_lock es ≡ some t
    → (i j : ℕ) → t.place i ≡ holds
    → t.place j ≡ holds
    → i ≡ j
run-holds es h i j p q =
    (run-IsExclusive fresh_lock es fresh_lock-IsExclusive h).one i j (ap is_in p) (ap is_in q)
