-- ===== src/Threads/Scheduler/Runs.antt =====
-- src/include/threadlib/schedulerState.h: any sequence of scheduler operations.
use distributed_thread_libra.Prelude.{
  one_if, ℕ, zero, suc, ◌+◌, ◌<◌, ◌≡◌, ◌≢◌, refl, List, [], ◌∷◌, ◌++◌, ◌==◌, if◌then◌else◌, length,
  arith, ap, ◌∙◌, ℕ_discrete, append-nil, append_assoc, change_self, change_ne, sym,
}
use distributed_thread_libra.Threads.Scheduler.{
  Context, nullptr, Sched, empty, run_next_from_kernel, run_next_from_user, put_self_in_ready,
  put_in_ready, wait_self_on, wake_one, wake_front, wake_loop, wake_all,
}
use distributed_thread_libra.Threads.Scheduler.Places.{
  places, put_in_ready_lem, wake_one_lem, wake_all_lem,
}
use distributed_thread_libra.Threads.Scheduler.Laws.{
  wait_self_on-places, put_self_in_ready-places, run_next_from_kernel-places,
  run_next_from_user-places,
}

-- An operation with the processor that it runs on and the queue that it works on.
pub data Op : Type 0 where
  kernel : (c : ℕ) → Op
  leave : (c : ℕ) → Op
  yield_on : (c : ℕ) → Op
  wait_on : (c q : ℕ) → Op
  wake : (q : ℕ) → Op
  wake_every : (q : ℕ) → Op
  add : Context → Op

unfoldable pub perform : Sched → Op → Sched
perform s (kernel c) = run_next_from_kernel s c
perform s (leave c) = run_next_from_user s c
perform s (yield_on c) = (put_self_in_ready s c).0
perform s (wait_on c q) = wait_self_on s c q
perform s (wake q) = wake_one s q
perform s (wake_every q) = wake_all s q
perform s (add t) = put_in_ready s t

-- The processors and queues exist, and `runNextFromKernel` runs in the main context.
abbrev pub Fits : (nq nc : ℕ) → Sched → Op → Type 0
Fits nq nc s (kernel c) = (c < nc) × (s.curr c ≡ nullptr)
Fits nq nc s (leave c) = c < nc
Fits nq nc s (yield_on c) = c < nc
Fits nq nc s (wait_on c q) = (c < nc) × (q < nq)
Fits nq nc s (wake q) = q < nq
Fits nq nc s (wake_every q) = q < nq
Fits nq nc s (add t) = Unit

-- The context that an operation brings in, and the one that it ends.
abbrev pub enters : Context → Op → ℕ
enters t (add u) = one_if (u == t)
enters t _ = 0

abbrev pub leaves : Context → Sched → Op → ℕ
leaves t s (leave c) = one_if (s.curr c == t)
leaves t s _ = 0

perform-places :
    (nq nc : ℕ) (t : Context)
    → t ≢ nullptr
    → (s : Sched) (op : Op) → Fits nq nc s op
    → places nq nc t (perform s op) + leaves t s op ≡ places nq nc t s + enters t op
unfolding perform
perform-places nq nc t real s (kernel c) (l, main) =
    omega (arith, run_next_from_kernel-places nq nc t real s c l main)
perform-places nq nc t real s (leave c) l =
    omega (arith, run_next_from_user-places nq nc t real s c l)
perform-places nq nc t real s (yield_on c) l =
    omega (arith, put_self_in_ready-places nq nc t real s c l)
perform-places nq nc t real s (wait_on c q) (l, m) =
    omega (arith, wait_self_on-places nq nc t real s c l q m)
perform-places nq nc t real s (wake q) l = omega (arith, wake_one_lem nq nc t s q l)
perform-places nq nc t real s (wake_every q) l = omega (arith, wake_all_lem nq nc t s q l)
perform-places nq nc t real s (add u) l = omega (arith, put_in_ready_lem nq nc t s u)

unfoldable pub perform_all : Sched → List Op → Sched
perform_all s [] = s
perform_all s (op ∷ ops) = perform_all (perform s op) ops

abbrev pub FitAll : (nq nc : ℕ) → Sched → List Op → Type 0
FitAll nq nc s [] = Unit
FitAll nq nc s (op ∷ ops) = Fits nq nc s op × FitAll nq nc (perform s op) ops

abbrev pub all_enter : Context → List Op → ℕ
all_enter t [] = 0
all_enter t (op ∷ ops) = enters t op + all_enter t ops

abbrev pub all_leave : Context → Sched → List Op → ℕ
all_leave t s [] = 0
all_leave t s (op ∷ ops) = leaves t s op + all_leave t (perform s op) ops

-- Through any sequence of operations on processors and queues that exist, with `runNextFromKernel` only
-- on a processor in its main context, the places of a context are those it had, one more for each time
-- that it was added and one less for each time that it ended.
pub perform_all-places :
    (nq nc : ℕ) (t : Context)
    → t ≢ nullptr
    → (ops : List Op) (s : Sched) → FitAll nq nc s ops
    → places nq nc t (perform_all s ops) + all_leave t s ops ≡ places nq nc t s + all_enter t ops
unfolding perform_all
perform_all-places nq nc t real [] s fits = refl
perform_all-places nq nc t real (op ∷ ops) s (f, fits) = omega (
  arith,
  perform_all-places nq nc t real ops (perform s op) fits,
  perform-places nq nc t real s op f,
)

-- The rounds of `wakeAll` on a queue that holds `ts`.
wake_loop_lem :
    (f : ℕ) (s : Sched) (q : ℕ) (ts : List Context)
    → s.waiting q ≡ ts
    → f ≡ length ts
    → ((wake_loop f s q).ready ≡ s.ready ++ ts)
      × ((wake_loop f s q).waiting q ≡ [])
      × ((r : ℕ) → q ≢ r → (wake_loop f s q).waiting r ≡ s.waiting r)
unfolding wake_loop wake_one
wake_loop_lem zero s q [] e n = (sym (append-nil s.ready), e, λ r ne. refl)
wake_loop_lem zero s q (t ∷ ts) e n = absurd (omega arith)
wake_loop_lem (suc f) s q [] e n = absurd (omega arith)
wake_loop_lem (suc f) s q (t ∷ ts) e n =
    let (r, w, o) = wake_loop_lem f woken q ts (change_self s.waiting q ts) (omega arith) in
    rw rounds
      (r ∙ append_assoc s.ready (t ∷ []) ts, w, λ p ne. o p ne ∙ change_ne s.waiting q ts p ne)
  where
    woken : Sched
    woken = wake_front s q (t ∷ ts)

    rounds : wake_loop (suc f) s q ≡ wake_loop f woken q
    rounds = rw (ap empty e, wake_loop) (ap (λ us. wake_loop f (wake_front s q us) q) e)

-- `wakeAll` moves the contexts of a wait queue to the end of the ready queue in their order, empties
-- that queue and leaves every other wait queue as it is.
pub wake_all-order :
    (s : Sched) (q r : ℕ)
    → ((wake_all s q).ready ≡ s.ready ++ s.waiting q)
      × ((wake_all s q).waiting r ≡ (if q == r then [] else s.waiting r))
unfolding wake_all
wake_all-order s q r =
    let (order, emptied, others) =
      wake_loop_lem (length (s.waiting q)) s q (s.waiting q) refl refl in
    (
      order,
      elim (ℕ_discrete q r) [
        | yes same ↦ ground (arith, emptied, ap (wake_all s q).waiting same)
        | no other ↦ ground (arith, others r other)
      ],
    )
