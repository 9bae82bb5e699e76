-- ===== src/Threads/StackPool/Tests.antt =====
-- The pool of thread.h at its start, and the theorems there.
use distributed_thread_libra.Prelude.{◌+◌, ◌*◌, ◌≡◌, refl, none, some, arith, replicate}
use distributed_thread_libra.Threads.StackPool.{Pool, init, push, pop}
use distributed_thread_libra.Threads.StackPool.Laws.{IsPool, push_lem}

abbrev start : Pool
unfolding init
start = init 4096

last_stack : (pop start).1 ≡ some (4096 + 39 * 250 * 4096)
unfolding pop init
last_stack = refl

full : push start 4096 ≡ none
unfolding push init
full = refl

-- Every stack is in use.
abbrev drained : Pool
drained = record { stacks = replicate 40 0; tail = 0 }

push_lem_example : (t : Pool) × (push drained 4096 ≡ some t) × IsPool t × ((pop t).1 ≡ some 4096)
push_lem_example =
    push_lem drained 4096
      (record {
        entries = refl;
        within = omega arith;
        distinct = λ i j hi hj e. absurd (omega arith);
      })
      (omega arith) (λ (i, h, e). omega arith)
