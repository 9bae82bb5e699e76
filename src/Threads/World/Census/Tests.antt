-- ===== src/Threads/World/Census/Tests.antt =====
-- The run of a program with one thread, from its start to its end.
use distributed_thread_libra.Prelude.{
  ◌≡◌, refl, true, false, Option, none, some, List, [], ◌∷◌, arith, replicate,
}
use distributed_thread_libra.HashTable.{make_table, ref, probe, assign, remove}
use distributed_thread_libra.Threads.StackPool as StackPool
use distributed_thread_libra.Threads.Scheduler.{
  nullptr, put_in_ready, run_next_from_kernel, run_next_from_user, get_next,
}
use distributed_thread_libra.Threads.World.{
  World, runs, no_state, free, make_thread, run_next, note_end, leave_cpu, wake_up, thread_handler,
}
use distributed_thread_libra.Threads.World.Acts.{
  Act, starts, picks_next, notes_end, leaves_it, perform, run,
}
use distributed_thread_libra.Threads.World.Census.Calls.{living}
use distributed_thread_libra.Threads.World.Census.Runs.{run-total_threads}

abbrev boot : World
unfolding make_table
boot = record {
  sched = record { ready = []; waiting = λ q. []; curr = λ c. nullptr };
  mutexes = λ m. free;
  is_dead =
      λ j. record { owned_by_stack = true; owned_by_thread = true; val = false; freed = false };
  point = λ t. runs;
  status = λ c. no_state;
  tid_map = make_table 1024;
  next_tid = 1;
  total_threads = 0;
  pool = record { stacks = replicate 40 16; tail = 1 };
}

-- Context 32 starts with the stack 16, runs on processor 0, ends and leaves it.
abbrev acts : List Act
acts = starts 4 32 ∷ picks_next 0 ∷ notes_end 0 4 16 ∷ leaves_it 0 ∷ []

abbrev or_boot : Option World → World
or_boot none = boot
or_boot (some w) = w

abbrev over : World
unfolding perform run
over = or_boot (run boot acts)

run-total_threads_example : over.total_threads ≡ living 8 2 over
unfolding perform run make_thread put_in_ready run_next run_next_from_kernel get_next note_end
    leave_cpu run_next_from_user wake_up thread_handler assign remove ref probe make_table
    StackPool.pop StackPool.push
run-total_threads_example =
    run-total_threads 8 2 boot refl refl (λ q. refl) (λ c. refl) acts over
      (omega arith, ((omega arith, refl), (tt, ((omega arith, refl, omega arith), tt)))) refl
