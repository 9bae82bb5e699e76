-- ===== src/Threads/Scheduler/Order.antt =====
-- src/include/threadlib/schedulerState.h: the order of the ready queue and of the wait queues.
use distributed_thread_libra.Prelude.{
  ℕ, ◌≡◌, ◌≢◌, refl, Bool, true, List, [], ◌∷◌, ◌++◌, append-nil, append_assoc, ◌==◌, if◌then◌else◌,
  arith, ap, ◌∙◌, sym, inl, inr, Bool-cases, change,
}
use distributed_thread_libra.Threads.Scheduler.{
  Context, nullptr, Sched, empty, put_in_ready, put_self_in_ready, run_next_from_kernel,
  run_next_from_user, wait_self_on, wake_one, wake_front,
}
use distributed_thread_libra.Threads.Scheduler.Ready.{
  run_next_from_kernel-nil, run_next_from_kernel-cons, run_next_from_user-cons,
  run_next_from_user-nil, put_self_in_ready-cons, put_self_in_ready-nil, put_self_in_ready-main,
  wait_self_on-nil, wait_self_on-cons,
}
use distributed_thread_libra.Threads.Scheduler.Runs.{
  Op, kernel, leave, yield_on, wait_on, wake, wake_every, add, perform, perform_all, wake_all-order,
}

-- A line: the ready queue, or a wait queue.
pub data Line : Type 0 where
  ready_line : Line
  wait_line : (q : ℕ) → Line

abbrev pub in_line : Line → Sched → List Context
in_line ready_line s = s.ready
in_line (wait_line q) s = s.waiting q

abbrev pub first : List Context → List Context
first [] = []
first (t ∷ ts) = t ∷ []

-- The contexts that an operation takes out of a line, in order.
abbrev pub taken : Line → Sched → Op → List Context
taken ready_line s (kernel c) = first s.ready
taken ready_line s (leave c) = first s.ready
taken ready_line s (yield_on c) = if s.curr c == nullptr then [] else first s.ready
taken ready_line s (wait_on c q) = first s.ready
taken ready_line s (wake q) = []
taken ready_line s (wake_every q) = []
taken ready_line s (add t) = []
taken (wait_line q) s (wake r) = if r == q then first (s.waiting r) else []
taken (wait_line q) s (wake_every r) = if r == q then s.waiting r else []
taken (wait_line q) s (kernel c) = []
taken (wait_line q) s (leave c) = []
taken (wait_line q) s (yield_on c) = []
taken (wait_line q) s (wait_on c r) = []
taken (wait_line q) s (add t) = []

-- The contexts that it puts into a line.
abbrev pub put : Line → Sched → Op → List Context
put ready_line s (kernel c) = []
put ready_line s (leave c) = []
put ready_line s (yield_on c) =
    if s.curr c == nullptr then [] else if empty s.ready then [] else s.curr c ∷ []
put ready_line s (wait_on c q) = []
put ready_line s (wake q) = first (s.waiting q)
put ready_line s (wake_every q) = s.waiting q
put ready_line s (add t) = t ∷ []
put (wait_line q) s (wait_on c r) = if r == q then s.curr c ∷ [] else []
put (wait_line q) s (kernel c) = []
put (wait_line q) s (leave c) = []
put (wait_line q) s (yield_on c) = []
put (wait_line q) s (wake r) = []
put (wait_line q) s (wake_every r) = []
put (wait_line q) s (add t) = []

same_queue : (r q : ℕ) → (r == q) ≡ true → r ≡ q
same_queue r q b = ground arith

module _ (s : Sched) where
  kernel-order :
      (c : ℕ) (ts : List Context)
      → s.ready ≡ ts
      → (first ts ++ (run_next_from_kernel s c).ready ≡ ts)
        × ((run_next_from_kernel s c).waiting ≡ s.waiting)
  kernel-order c [] e =
      let same = run_next_from_kernel-nil s c e in
      (ap (λ (z : Sched). z.ready) same ∙ e, ap (λ (z : Sched). z.waiting) same)
  kernel-order c (u ∷ us) e =
      let same = run_next_from_kernel-cons s c u us e in
      (ap (λ (z : Sched). u ∷ z.ready) same, ap (λ (z : Sched). z.waiting) same)

  user-order :
      (c : ℕ) (ts : List Context)
      → s.ready ≡ ts
      → (first ts ++ (run_next_from_user s c).ready ≡ ts)
        × ((run_next_from_user s c).waiting ≡ s.waiting)
  user-order c [] e =
      let same = run_next_from_user-nil s c e in
      (ap (λ (z : Sched). z.ready) same ∙ e, ap (λ (z : Sched). z.waiting) same)
  user-order c (u ∷ us) e =
      let same = run_next_from_user-cons s c u us e in
      (ap (λ (z : Sched). u ∷ z.ready) same, ap (λ (z : Sched). z.waiting) same)

  wait-order :
      (c r : ℕ) (ts : List Context)
      → s.ready ≡ ts
      → (first ts ++ (wait_self_on s c r).ready ≡ ts)
        × ((wait_self_on s c r).waiting ≡ change s.waiting r (s.waiting r ++ s.curr c ∷ []))
  wait-order c r [] e =
      let same = wait_self_on-nil s c r e in
      (ap (λ (z : Sched). z.ready) same ∙ e, ap (λ (z : Sched). z.waiting) same)
  wait-order c r (u ∷ us) e =
      let same = wait_self_on-cons s c r u us e in
      (ap (λ (z : Sched). u ∷ z.ready) same, ap (λ (z : Sched). z.waiting) same)

  yield-order :
      (c : ℕ) (ts : List Context)
      → s.ready ≡ ts
      → s.curr c ≢ nullptr
      → (first ts ++ (put_self_in_ready s c).0.ready
          ≡ ts ++ (if empty ts then [] else s.curr c ∷ []))
        × ((put_self_in_ready s c).0.waiting ≡ s.waiting)
  unfolding put_in_ready
  yield-order c [] e real =
      let same = ap (λ (r : Sched × Bool). r.0) (put_self_in_ready-nil s c e) in
      (ap (λ (z : Sched). z.ready) same ∙ e, ap (λ (z : Sched). z.waiting) same)
  yield-order c (u ∷ us) e real =
      let same = ap (λ (r : Sched × Bool). r.0) (put_self_in_ready-cons s c u us real e) in
      (ap (λ (z : Sched). u ∷ z.ready) same, ap (λ (z : Sched). z.waiting) same)

  wake_front-order :
      (r q : ℕ) (ts : List Context)
      → s.waiting r ≡ ts
      → ((wake_front s r ts).ready ≡ s.ready ++ first ts)
        × ((if r == q then first ts else []) ++ (wake_front s r ts).waiting q ≡ s.waiting q)
  wake_front-order r q [] e = (sym (append-nil s.ready), ground arith)
  wake_front-order r q (t ∷ ts) e = (
    refl,
    elim (Bool-cases (r == q)) [
      | inl b ↦ rw b (sym e ∙ ap s.waiting (same_queue r q b))
      | inr b ↦ rw b
    ],
  )

pub perform-order :
    (l : Line) (s : Sched) (op : Op)
    → taken l s op ++ in_line l (perform s op) ≡ in_line l s ++ put l s op
unfolding perform wake_one put_in_ready
perform-order ready_line s (kernel c) = (kernel-order s c s.ready refl).0 ∙ sym (append-nil s.ready)
perform-order ready_line s (leave c) = (user-order s c s.ready refl).0 ∙ sym (append-nil s.ready)
perform-order ready_line s (yield_on c) = elim (Bool-cases (s.curr c == nullptr)) [
  | inl main ↦ rw main (
      ap (λ (r : Sched × Bool). r.0.ready) (put_self_in_ready-main s c main)
      ∙ sym (append-nil s.ready))
  | inr busy ↦ rw busy (yield-order s c s.ready refl (ground arith)).0
]
perform-order ready_line s (wait_on c q) =
    (wait-order s c q s.ready refl).0 ∙ sym (append-nil s.ready)
perform-order ready_line s (wake q) = (wake_front-order s q q (s.waiting q) refl).0
perform-order ready_line s (wake_every q) = (wake_all-order s q q).0
perform-order ready_line s (add t) = refl
perform-order (wait_line q) s (kernel c) =
    ap (λ (f : ℕ → List Context). f q) (kernel-order s c s.ready refl).1
    ∙ sym (append-nil (s.waiting q))
perform-order (wait_line q) s (leave c) =
    ap (λ (f : ℕ → List Context). f q) (user-order s c s.ready refl).1
    ∙ sym (append-nil (s.waiting q))
perform-order (wait_line q) s (yield_on c) = elim (Bool-cases (s.curr c == nullptr)) [
  | inl main ↦
      ap (λ (r : Sched × Bool). r.0.waiting q) (put_self_in_ready-main s c main)
      ∙ sym (append-nil (s.waiting q))
  | inr busy ↦
      ap (λ (f : ℕ → List Context). f q) (yield-order s c s.ready refl (ground arith)).1
      ∙ sym (append-nil (s.waiting q))
]
perform-order (wait_line q) s (wait_on c r) =
    ap (λ (f : ℕ → List Context). f q) (wait-order s c r s.ready refl).1
    ∙ (elim (Bool-cases (r == q)) [
      | inl b ↦ rw b (ap (λ z. s.waiting z ++ s.curr c ∷ []) (same_queue r q b))
      | inr b ↦ rw b (sym (append-nil (s.waiting q)))
    ])
perform-order (wait_line q) s (wake r) =
    (wake_front-order s r q (s.waiting r) refl).1 ∙ sym (append-nil (s.waiting q))
perform-order (wait_line q) s (wake_every r) = elim (Bool-cases (r == q)) [
  | inl b ↦ rw b (
      ap (λ ts. s.waiting r ++ ts) ((wake_all-order s r q).1 ∙ rw b)
      ∙ ap (λ z. s.waiting z ++ []) (same_queue r q b))
  | inr b ↦ rw b ((wake_all-order s r q).1 ∙ rw b (sym (append-nil (s.waiting q))))
]
perform-order (wait_line q) s (add t) = sym (append-nil (s.waiting q))

-- All that a sequence of operations takes out of a line, and all that it puts in, in order.
abbrev pub all_taken : Line → Sched → List Op → List Context
all_taken l s [] = []
all_taken l s (op ∷ ops) = taken l s op ++ all_taken l (perform s op) ops

abbrev pub all_put : Line → Sched → List Op → List Context
all_put l s [] = []
all_put l s (op ∷ ops) = put l s op ++ all_put l (perform s op) ops

-- The ready queue and each wait queue are first in, first out through any sequence of operations: the contexts taken
-- out of one, and then those still in it, are those that were in it at the start and then those put in, in order.
pub perform_all-order :
    (l : Line) (ops : List Op) (s : Sched)
    → all_taken l s ops ++ in_line l (perform_all s ops) ≡ in_line l s ++ all_put l s ops
unfolding perform_all
perform_all-order l [] s = sym (append-nil (in_line l s))
perform_all-order l (op ∷ ops) s =
    append_assoc (taken l s op) (all_taken l (perform s op) ops)
      (in_line l (perform_all (perform s op) ops))
    ∙ ap (λ ts. taken l s op ++ ts) (perform_all-order l ops (perform s op))
    ∙ sym (append_assoc (taken l s op) (in_line l (perform s op)) (all_put l (perform s op) ops))
    ∙ ap (λ ts. ts ++ all_put l (perform s op) ops) (perform-order l s op)
    ∙ append_assoc (in_line l s) (put l s op) (all_put l (perform s op) ops)
