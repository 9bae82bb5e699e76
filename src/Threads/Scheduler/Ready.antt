-- ===== src/Threads/Scheduler/Ready.antt =====
-- src/include/threadlib/schedulerState.h: what the operations that switch contexts do when a context is ready, and when
-- none is.
use distributed_thread_libra.Prelude.{
  ℕ, ◌≡◌, ◌≢◌, refl, true, false, none, some, List, [], ◌∷◌, ◌==◌, inl, inr, Bool-cases, arith, ap,
}
use distributed_thread_libra.Threads.Scheduler.{
  Context, nullptr, Sched, next_of, get_next, ctx_switch, enqueue, put_in_ready,
  run_next_from_kernel, run_next_from_user, put_self_in_ready, wait_self_on,
}

pub run_next_from_kernel-nil : (s : Sched) (c : ℕ) → s.ready ≡ [] → run_next_from_kernel s c ≡ s
unfolding run_next_from_kernel get_next
run_next_from_kernel-nil s c e =
    ap (λ o. elim o [ none ↦ s | some (next, s') ↦ ctx_switch s' c next ]) (ap (next_of s) e)

pub run_next_from_kernel-cons :
    (s : Sched) (c : ℕ) (u : Context) (us : List Context)
    → s.ready ≡ u ∷ us
    → run_next_from_kernel s c ≡ ctx_switch (record s { ready = us }) c u
unfolding run_next_from_kernel get_next
run_next_from_kernel-cons s c u us e =
    ap (λ o. elim o [ none ↦ s | some (next, s') ↦ ctx_switch s' c next ]) (ap (next_of s) e)

pub run_next_from_user-cons :
    (s : Sched) (c : ℕ) (u : Context) (us : List Context)
    → s.ready ≡ u ∷ us
    → run_next_from_user s c ≡ ctx_switch (record s { ready = us }) c u
unfolding run_next_from_user get_next
run_next_from_user-cons s c u us e =
    ap (λ o. elim o [ none ↦ ctx_switch s c nullptr | some (next, s') ↦ ctx_switch s' c next ])
      (ap (next_of s) e)

pub run_next_from_user-nil :
    (s : Sched) (c : ℕ) → s.ready ≡ [] → run_next_from_user s c ≡ ctx_switch s c nullptr
unfolding run_next_from_user get_next
run_next_from_user-nil s c e =
    ap (λ o. elim o [ none ↦ ctx_switch s c nullptr | some (next, s') ↦ ctx_switch s' c next ])
      (ap (next_of s) e)

pub put_self_in_ready-cons :
    (s : Sched) (c : ℕ) (u : Context) (us : List Context)
    → s.curr c ≢ nullptr
    → s.ready ≡ u ∷ us
    → put_self_in_ready s c
      ≡ (ctx_switch (put_in_ready (record s { ready = us }) (s.curr c)) c u, true)
unfolding put_self_in_ready get_next
put_self_in_ready-cons s c u us real e =
    let busy : (s.curr c == nullptr) ≡ false = ground arith in
    rw busy (
      ap
        (λ o. elim o [
          | none ↦ (s, false)
          | some (next, s') ↦ (ctx_switch (put_in_ready s' (s.curr c)) c next, true)
        ])
        (ap (next_of s) e))

pub put_self_in_ready-nil : (s : Sched) (c : ℕ) → s.ready ≡ [] → put_self_in_ready s c ≡ (s, false)
unfolding put_self_in_ready get_next
put_self_in_ready-nil s c e = elim (Bool-cases (s.curr c == nullptr)) [
  | inl main ↦ rw main refl
  | inr busy ↦ rw busy (
      ap
        (λ o. elim o [
          | none ↦ (s, false)
          | some (next, s') ↦ (ctx_switch (put_in_ready s' (s.curr c)) c next, true)
        ])
        (ap (next_of s) e))
]

pub wait_self_on-nil :
    (s : Sched) (c q : ℕ)
    → s.ready ≡ []
    → wait_self_on s c q ≡ ctx_switch (enqueue s q (s.curr c)) c nullptr
unfolding wait_self_on get_next
wait_self_on-nil s c q e =
    ap
      (λ o. elim o [
        | none ↦ ctx_switch (enqueue s q (s.curr c)) c nullptr
        | some (next, s') ↦ ctx_switch (enqueue s' q (s.curr c)) c next
      ])
      (ap (next_of s) e)

pub wait_self_on-cons :
    (s : Sched) (c q : ℕ) (u : Context) (us : List Context)
    → s.ready ≡ u ∷ us
    → wait_self_on s c q ≡ ctx_switch (enqueue (record s { ready = us }) q (s.curr c)) c u
unfolding wait_self_on get_next
wait_self_on-cons s c q u us e =
    ap
      (λ o. elim o [
        | none ↦ ctx_switch (enqueue s q (s.curr c)) c nullptr
        | some (next, s') ↦ ctx_switch (enqueue s' q (s.curr c)) c next
      ])
      (ap (next_of s) e)

pub put_self_in_ready-main :
    (s : Sched) (c : ℕ) → (s.curr c == nullptr) ≡ true → put_self_in_ready s c ≡ (s, false)
unfolding put_self_in_ready
put_self_in_ready-main s c main = rw main
