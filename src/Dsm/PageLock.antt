-- ===== src/Dsm/PageLock.antt =====
-- src/lib/dsm_node.cpp: the lock `mu` of one node, between `response_read` on an rpc thread and `grant_write` or
-- `grant_read` on the thread of the signal handler. `response_read` holds `mu` while it waits until that thread carries
-- out its request. A node serves one `response_read` here, and `grant_prot` has got its page.
pub mod States
pub mod Laws
mod Tests
use distributed_thread_libra.Prelude.{
  ℕ, Bool, true, false, not, ◌&&◌, Option, none, some, List, [], ◌∷◌, if◌then◌else◌,
}

pub data Holder : Type 0 where
  nobody by_responder by_granter : Holder

-- The rpc thread: before LOCK, behind it, in `wait_to_compelete`, before UNLOCK, behind it.
pub data Responder : Type 0 where
  arrives holds waits leaves returned : Responder

-- The signal handler: in the loop of `grant_prot`, before it takes `mu`, behind that, and back in `dsm_init`.
pub data Granter : Type 0 where
  loops takes has_mu finished : Granter

-- `pending`: the request of `response_read` is not complete.
pub record PageLock : Type 0 where
  pub mu : Holder
  pub responder : Responder
  pub granter : Granter
  pub pending : Bool

pub data Event : Type 0 where
  responder_locks : Event
  responder_tests : (owns : Bool) → Event  -- the node owns the page, and asks, or not
  responder_goes_on : Event  -- `wait_to_compelete` returns
  responder_unlocks : Event
  granter_serves : Event  -- `user_mprotect_respond`, with a request
  granter_returns : Event  -- the end of `grant_prot`
  granter_locks : Event
  granter_unlocks : Event

-- Where the thread of the signal handler calls `user_mprotect_respond`: in `grant_prot`, in the trylock loop of
-- `grant_write`, and in `dsm_init`.
unfoldable pub responds : (is_write : Bool) → Granter → Bool
responds is_write loops = true
responds is_write takes = is_write
responds is_write has_mu = false
responds is_write finished = true

abbrev pub lock_by : PageLock → Holder → Option PageLock
lock_by s nobody = some (record s { mu = by_responder; responder = holds })
lock_by s h = none

abbrev pub respond_lock : PageLock → Responder → Option PageLock
respond_lock s arrives = lock_by s s.mu
respond_lock s r = none

abbrev pub respond_test : PageLock → (owns : Bool) → Responder → Option PageLock
respond_test s true holds = some (record s { responder = waits; pending = true })
respond_test s false holds = some (record s { responder = leaves })
respond_test s owns r = none

abbrev pub respond_go_on : PageLock → Responder → Option PageLock
respond_go_on s waits = if s.pending then none else some (record s { responder = leaves })
respond_go_on s r = none

abbrev pub respond_unlock : PageLock → Responder → Option PageLock
respond_unlock s leaves = some (record s { mu = nobody; responder = returned })
respond_unlock s r = none

abbrev pub grant_return : PageLock → Granter → Option PageLock
grant_return s loops = some (record s { granter = takes })
grant_return s g = none

abbrev pub grant_lock : PageLock → Granter → Holder → Option PageLock
grant_lock s takes nobody = some (record s { mu = by_granter; granter = has_mu })
grant_lock s g h = none

abbrev pub grant_unlock : PageLock → Granter → Option PageLock
grant_unlock s has_mu = some (record s { mu = nobody; granter = finished })
grant_unlock s g = none

-- `none` where the event cannot happen.
unfoldable pub step : (is_write : Bool) → PageLock → Event → Option PageLock
step is_write s responder_locks = respond_lock s s.responder
step is_write s (responder_tests owns) = respond_test s owns s.responder
step is_write s responder_goes_on = respond_go_on s s.responder
step is_write s responder_unlocks = respond_unlock s s.responder
step is_write s granter_serves =
    if s.pending && responds is_write s.granter then some (record s { pending = false }) else none
step is_write s granter_returns = grant_return s s.granter
step is_write s granter_locks = grant_lock s s.granter s.mu
step is_write s granter_unlocks = grant_unlock s s.granter

unfoldable pub run : (is_write : Bool) → PageLock → List Event → Option PageLock
run is_write s [] = some s
run is_write s (e ∷ es) = elim (step is_write s e) [ none ↦ none | some t ↦ run is_write t es ]

abbrev pub start : PageLock
start = record { mu = nobody; responder = arrives; granter = loops; pending = false }

abbrev pub both_over : Responder → Granter → Bool
both_over returned finished = true
both_over r g = false

-- Both threads are through.
abbrev pub is_over : PageLock → Bool
is_over s = both_over s.responder s.granter
