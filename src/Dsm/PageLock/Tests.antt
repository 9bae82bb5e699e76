-- ===== src/Dsm/PageLock/Tests.antt =====
-- `response_read` at its request when `grant_prot` returns.
use distributed_thread_libra.Prelude.{
  ◌≤◌, ◌≡◌, ◌⊎◌, refl, Bool, true, false, Option, none, some, List, [], ◌∷◌, length,
}
use distributed_thread_libra.Dsm.PageLock.{
  PageLock, Event, responder_locks, responder_tests, responder_goes_on, granter_returns, responds,
  step, run, start, is_over,
}
use distributed_thread_libra.Dsm.PageLock.States.{GoesOn}
use distributed_thread_libra.Dsm.PageLock.Laws.{grant_write-GoesOn, grant_read-stuck}

abbrev asks : List Event
asks = responder_locks ∷ responder_tests true ∷ granter_returns ∷ []

abbrev or_start : Option PageLock → PageLock
or_start none = start
or_start (some s) = s

abbrev asked : (is_write : Bool) → PageLock
unfolding run step responds
asked is_write = or_start (run is_write start asks)

grant_write-GoesOn_example :
    (length asks ≤ 8) × ((is_over (asked true) ≡ true) ⊎ GoesOn true (asked true))
unfolding run step responds
grant_write-GoesOn_example = grant_write-GoesOn asks (asked true) refl

grant_read-stuck_example : step false (asked false) responder_goes_on ≡ none
unfolding run step responds
grant_read-stuck_example = grant_read-stuck asks (asked false) refl refl refl responder_goes_on
