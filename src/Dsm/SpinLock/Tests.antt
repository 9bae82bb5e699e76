-- ===== src/Dsm/SpinLock/Tests.antt =====
-- Two callers of the lock.
use distributed_thread_libra.Prelude.{ℕ, ◌≡◌, refl, Option, none, some, List, [], ◌∷◌, ◌++◌}
use distributed_thread_libra.Dsm.SpinLock.{
  tries, Lock, Event, calls, turns, refreshes, unlocks, step, run, fresh_lock,
}
use distributed_thread_libra.Dsm.SpinLock.Laws.{run-holds}

-- Both call; the second gets the lock, the first turns in vain until the second unlocks.
abbrev contest : List Event
contest = calls 1 ∷ calls 2 ∷ turns 2 ∷ turns 1 ∷ refreshes 2 ∷ turns 1 ∷ []

abbrev handed_on : List Event
handed_on = contest ++ unlocks 2 ∷ turns 1 ∷ refreshes 1 ∷ []

abbrev or_fresh : Option Lock → Lock
or_fresh none = fresh_lock
or_fresh (some s) = s

first_waits : (or_fresh (run fresh_lock contest)).place 1 ≡ tries
unfolding run step
first_waits = refl

run-holds_example : ◌≡◌ {A = ℕ} 1 1
unfolding run step
run-holds_example = run-holds handed_on {t = or_fresh (run fresh_lock handed_on)} refl 1 1 refl refl
