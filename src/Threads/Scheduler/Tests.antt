-- ===== src/Threads/Scheduler/Tests.antt =====
-- Two processors, three contexts and two wait queues, and the theorems of the scheduler there.
use distributed_thread_libra.Prelude.{◌+◌, ◌++◌, ◌≡◌, refl, List, [], ◌∷◌, arith}
use distributed_thread_libra.Threads.Scheduler.{
  Sched, run_next_from_kernel, run_next_from_user, put_self_in_ready, put_in_ready, wait_self_on,
  wake_one, wake_all,
}
use distributed_thread_libra.Threads.Scheduler.Places.{places}
use distributed_thread_libra.Threads.Scheduler.Runs.{
  Op, kernel, leave, yield_on, wait_on, wake_every, add, perform, perform_all, all_enter, all_leave,
  perform_all-places,
}
use distributed_thread_libra.Threads.Scheduler.Order.{
  ready_line, in_line, all_taken, all_put, perform_all-order,
}

abbrev start : Sched
start = record { ready = []; waiting = λ q. []; curr = λ c. 0 }

-- Contexts 16, 32 and 48: 16 runs and waits, 32 yields to 48 and 48 wakes 16.
abbrev day : List Op
day = add 16 ∷ kernel 0 ∷ add 32 ∷ add 48 ∷ wait_on 0 1 ∷ yield_on 0 ∷ wake_every 1 ∷ leave 0 ∷ []

end_of_day :
    ((perform_all start day).ready ≡ 16 ∷ [])
    × ((perform_all start day).curr 0 ≡ 32)
    × ((perform_all start day).waiting 1 ≡ [])
unfolding perform_all perform run_next_from_kernel run_next_from_user put_self_in_ready put_in_ready
    wait_self_on wake_one wake_all
end_of_day = (refl, refl, refl)

perform_all-places_example :
    places 2 2 48 (perform_all start day) + all_leave 48 start day
    ≡ places 2 2 48 start + all_enter 48 day
unfolding perform run_next_from_kernel run_next_from_user put_self_in_ready put_in_ready
    wait_self_on wake_one wake_all
perform_all-places_example = perform_all-places 2 2 48 (omega arith) day start (omega arith)

perform_all-order_example :
    all_taken ready_line start day ++ in_line ready_line (perform_all start day)
    ≡ in_line ready_line start ++ all_put ready_line start day
perform_all-order_example = perform_all-order ready_line day start

line_of_day : all_put ready_line start day ≡ 16 ∷ 32 ∷ 48 ∷ 32 ∷ 16 ∷ []
unfolding perform run_next_from_kernel run_next_from_user put_self_in_ready put_in_ready
    wait_self_on wake_one wake_all
line_of_day = refl
