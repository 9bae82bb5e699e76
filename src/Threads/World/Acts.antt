-- ===== src/Threads/World/Acts.antt =====
-- src/lib/threadlib: the calls of the thread library, one after another in any order. `nc` processors and `nq` queues
-- are there; a call is one step from the lock of `cpu::guard` to its unlock.
use distributed_thread_libra.Prelude.{
  ℕ, Option, none, some, List, [], ◌∷◌, some-injective, subst, refl, ◌≡◌,
}
use distributed_thread_libra.Threads.Scheduler.{Context}
use distributed_thread_libra.Threads.World.{
  World, Outcome, done, thrown, left_locked, aborted, Point, relocks, current, lock, unlock,
  cv_wait, signal, broadcast, join, yield_now, run_next, wake_joiners, note_end, leave_cpu,
  make_thread, drop_thread,
}

pub data Act : Type 0 where
  locks_it : (c m : ℕ) → Act
  unlocks_it : (c m : ℕ) → Act
  waits_on : (c q m : ℕ) → Act  -- `cv::wait` up to its `mu.lock`
  locks_again : (c : ℕ) → Act  -- the `mu.lock` of `cv::wait`
  signals_one : (q : ℕ) → Act
  signals_all : (q : ℕ) → Act
  joins_it : (c j q : ℕ) → Act
  yields_cpu : (c : ℕ) → Act
  picks_next : (c : ℕ) → Act  -- the loop of `cpu::run`
  wakes_joiners : (q : ℕ) → Act
  notes_end : (c j stack : ℕ) → Act
  leaves_it : (c : ℕ) → Act
  starts : (j : ℕ) → Context → Act
  drops : (j : ℕ) → Act

abbrev pub lock_again : World → (c : ℕ) → Point → Outcome
lock_again w c (relocks m) = lock w c m
lock_again w c x = aborted

unfoldable pub perform : World → Act → Outcome
perform w (locks_it c m) = lock w c m
perform w (unlocks_it c m) = unlock w c m
perform w (waits_on c q m) = cv_wait w c q m
perform w (locks_again c) = lock_again w c (w.point (current w c))
perform w (signals_one q) = done (signal w q)
perform w (signals_all q) = done (broadcast w q)
perform w (joins_it c j q) = join w c j q
perform w (yields_cpu c) = yield_now w c
perform w (picks_next c) = run_next w c
perform w (wakes_joiners q) = done (wake_joiners w q)
perform w (notes_end c j stack) = done (note_end w c j stack)
perform w (leaves_it c) = leave_cpu w c
perform w (starts j t) = make_thread w j t
perform w (drops j) = done (drop_thread w j)

-- The world after a call, where the program goes on.
abbrev pub after : Outcome → Option World
after (done w) = some w
after (thrown w) = some w
after (left_locked w) = none
after aborted = none

unfoldable pub run : World → List Act → Option World
run w [] = some w
run w (a ∷ acts) = elim (after (perform w a)) [ none ↦ none | some v ↦ run v acts ]

-- Each call fits the world that it is made in, where there is one.
abbrev pub AllFit : (World → Act → Type 0) → World → List Act → Type 0
AllFit Fit w [] = Unit
AllFit Fit w (a ∷ acts) =
    Fit w a
    × (elim (after (perform w a)) as (λ x. Type 0) [ none ↦ Unit | some u ↦ AllFit Fit u acts ])

-- What each call keeps, a run keeps.
pub run_induction :
    (Fit : World → Act → Type 0) (Keeps : World → Type 0)
    → ((w u : World) (a : Act) → Keeps w → Fit w a → after (perform w a) ≡ some u → Keeps u)
    → (acts : List Act) (w u : World) → Keeps w
    → AllFit Fit w acts
    → run w acts ≡ some u
    → Keeps u
unfolding run
run_induction Fit Keeps step [] w u k fits e = subst Keeps (some-injective e) k
run_induction Fit Keeps step (a ∷ acts) w u k (fit, fits) e =
    go (run_induction Fit Keeps step acts) (after (perform w a)) refl fits e
  where
    go :
        ((z y : World) → Keeps z → AllFit Fit z acts → run z acts ≡ some y → Keeps y)
        → (o : Option World) → after (perform w a) ≡ o
        → (elim o as (λ x. Type 0) [ none ↦ Unit | some z ↦ AllFit Fit z acts ])
        → (elim o as (λ x. Option World) [ none ↦ none | some z ↦ run z acts ]) ≡ some u
        → Keeps u
    go rec none h rest e' = cc
    go rec (some z) h rest e' = rec z u (step w z a k fit h) rest e'
