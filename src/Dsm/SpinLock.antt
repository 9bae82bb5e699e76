-- ===== src/Dsm/SpinLock.antt =====
-- src/lib/dsm_lock.cpp and src/include/dsm_lock.hpp: the lock word in the shared memory. The exchange is one
-- step, as the processor and the single owner of the page make it. Each caller has a number; an event is
-- the next step of one caller, in any order.
pub mod Laws
mod Tests
use distributed_thread_libra.Prelude.{
  ℕ, Bool, true, false, Option, none, some, List, [], ◌∷◌, ◌==◌, not, change, if◌then◌else◌,
}

-- Where a caller stands: outside, in the loop of `dsm_mutex_lock`, in the `sync` behind it, or inside.
pub data Place : Type 0 where
  outside tries syncs holds : Place

pub record Lock : Type 0 where
  pub mu : ℕ
  pub place : ℕ → Place

-- `xchgl`: the new word and the old value.
abbrev pub xchgl : (word newval : ℕ) → ℕ × ℕ
xchgl word newval = (newval, word)

abbrev pub test_and_set : (mu : ℕ) → ℕ × Bool
test_and_set mu = let (mu', old) = xchgl mu 1 in (mu', not (old == 0))

pub data Event : Type 0 where
  calls : (i : ℕ) → Event  -- `dsm_mutex_lock` is called
  turns : (i : ℕ) → Event  -- one round of its loop
  refreshes : (i : ℕ) → Event  -- its `sync`
  unlocks : (i : ℕ) → Event  -- `dsm_mutex_unlock`

abbrev pub move : Lock → (i : ℕ) → Place → Lock
move s i p = record s { place = change s.place i p }

abbrev pub step_at : Lock → Event → Place → Option Lock
step_at s (calls i) outside = some (move s i tries)
step_at s (turns i) tries =
    let (mu', taken) = test_and_set s.mu in
    some (move (record s { mu = mu' }) i (if taken then tries else syncs))
step_at s (refreshes i) syncs = some (move s i holds)
step_at s (unlocks i) holds = some (move (record s { mu = 0 }) i outside)
step_at s e p = none

abbrev pub actor : Event → ℕ
actor (calls i) = i
actor (turns i) = i
actor (refreshes i) = i
actor (unlocks i) = i

-- `none` where the event cannot happen.
unfoldable pub step : Lock → Event → Option Lock
step s e = step_at s e (s.place (actor e))

unfoldable pub run : Lock → List Event → Option Lock
run s [] = some s
run s (e ∷ es) = elim (step s e) [ none ↦ none | some t ↦ run t es ]

-- A word of 0 and no caller.
abbrev pub fresh_lock : Lock
fresh_lock = record { mu = 0; place = λ i. outside }
