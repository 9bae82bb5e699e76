-- ===== src/Threads/Scheduler.antt =====
-- src/include/threadlib/schedulerState.h and waitable.h: the ready queue, the wait queues and what each
-- processor runs. A context is the address of its `ucontext_t`; 0 is the null pointer, which
-- `currContext` holds while a processor runs its main context. Queues are lists, front first. Each operation runs under the lock `cpu::guard`, which a switch hands on, so
-- it is one step. `cpu::cpus` is always empty and `interrupt_send` does nothing, so `ipi_send` does not
-- appear.
pub mod Weights
pub mod Places
pub mod Laws
pub mod Ready
pub mod Runs
pub mod Order
mod Tests
use distributed_thread_libra.Prelude.{
  ℕ, zero, suc, ◌+◌, Bool, true, false, not, ◌&&◌, Option, none, some, List, [], ◌∷◌, ◌++◌, ◌==◌,
  if◌then◌else◌, length, change,
}

abbrev pub Context : Type 0
Context = ℕ

abbrev pub nullptr : Context
nullptr = 0

pub record Sched : Type 0 where
  pub ready : List Context  -- `readyQueue`
  pub waiting : ℕ → List Context  -- the queue of each waitable
  pub curr : ℕ → Context  -- `currContext` of each cpu

-- `Queue::isEmpty`
abbrev pub empty : List Context → Bool
empty [] = true
empty (t ∷ ts) = false

abbrev pub has_next : Sched → Bool
has_next s = not (empty s.ready)

-- `getNext`; `none` is the throw of the empty queue.
abbrev pub next_of : Sched → List Context → Option (Context × Sched)
next_of s [] = none
next_of s (t ∷ ts) = some (t, record s { ready = ts })

unfoldable pub get_next : Sched → Option (Context × Sched)
get_next s = next_of s s.ready

-- What `ctx_set` and `ctx_switch` do to the processor `c`; `nullptr` stands for its main context.
abbrev pub ctx_switch : Sched → (c : ℕ) → Context → Sched
ctx_switch s c next = record s { curr = change s.curr c next }

unfoldable pub put_in_ready : Sched → Context → Sched
put_in_ready s t = record s { ready = s.ready ++ t ∷ [] }

abbrev pub enqueue : Sched → (q : ℕ) → Context → Sched
enqueue s q t = record s { waiting = change s.waiting q (s.waiting q ++ t ∷ []) }

-- `runNextFromKernel`
unfoldable pub run_next_from_kernel : Sched → (c : ℕ) → Sched
unfolding get_next
run_next_from_kernel s c = elim (get_next s) [ none ↦ s | some (next, s') ↦ ctx_switch s' c next ]

-- `runNextFromUser`: the running context is left for good.
unfoldable pub run_next_from_user : Sched → (c : ℕ) → Sched
unfolding get_next
run_next_from_user s c = elim (get_next s) [
  | none ↦ ctx_switch s c nullptr
  | some (next, s') ↦ ctx_switch s' c next
]

-- `putSelfInReady`, and whether it switched.
unfoldable pub put_self_in_ready : Sched → (c : ℕ) → Sched × Bool
unfolding get_next put_in_ready
put_self_in_ready s c = if s.curr c == nullptr then (s, false) else (elim (get_next s) [
  | none ↦ (s, false)
  | some (next, s') ↦ (ctx_switch (put_in_ready s' (s.curr c)) c next, true)
])

-- `waitSelfOn`
unfoldable pub wait_self_on : Sched → (c q : ℕ) → Sched
unfolding get_next
wait_self_on s c q = elim (get_next s) [
  | none ↦ ctx_switch (enqueue s q (s.curr c)) c nullptr
  | some (next, s') ↦ ctx_switch (enqueue s' q (s.curr c)) c next
]

-- `putInReady(wait->dequeue())` on a queue that holds `ts`
abbrev pub wake_front : Sched → (q : ℕ) → List Context → Sched
wake_front s q [] = s
wake_front s q (t ∷ ts) = record s { ready = s.ready ++ t ∷ []; waiting = change s.waiting q ts }

-- `wakeOne`
unfoldable pub wake_one : Sched → (q : ℕ) → Sched
wake_one s q = wake_front s q (s.waiting q)

-- The loop of `wakeAll`, with a round for each context of the queue.
unfoldable pub wake_loop : (fuel : ℕ) → Sched → (q : ℕ) → Sched
unfolding wake_one
wake_loop zero s q = s
wake_loop (suc f) s q = elim (empty (s.waiting q)) [
  | true ↦ s
  | false ↦ wake_loop f (wake_one s q) q
]

unfoldable pub wake_all : Sched → (q : ℕ) → Sched
unfolding wake_loop
wake_all s q = wake_loop (length (s.waiting q)) s q
