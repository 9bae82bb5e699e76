-- ===== src/Dsm/Mailbox/Tests.antt =====
-- Runs of the mailbox.
use distributed_thread_libra.Prelude.{◌≡◌, refl, true, false, Option, none, some, List, [], ◌∷◌}
use distributed_thread_libra.Dsm.Mailbox.{
  Request, Mailbox, Event, produces, fills, consumes, carries_out, completes, returns, step, run,
  init, half_written,
}
use distributed_thread_libra.Dsm.Mailbox.Laws.{races}
use distributed_thread_libra.Dsm.Mailbox.Runs.{Serves, run-Serves, run-half_written}

-- A page is closed to writes and copied to the buffer at 512; then another is opened.
abbrev close_page : Request
close_page = record {
  pid = 7;
  addr = 8192;
  size = 4096;
  prot = 1;
  read_page_flag = true;
  page = 512;
}

abbrev open_page : Request
open_page = record {
  pid = 7;
  addr = 12288;
  size = 4096;
  prot = 3;
  read_page_flag = false;
  page = 0;
}

abbrev two_calls : List Event
two_calls =
    produces 1 close_page
    ∷ fills 1
    ∷ consumes
    ∷ carries_out
    ∷ completes
    ∷ returns 1
    ∷ produces 2 open_page
    ∷ fills 2
    ∷ consumes
    ∷ carries_out
    ∷ []

abbrev or_init : Option Mailbox → Mailbox
or_init none = init close_page
or_init (some s) = s

after_two : (or_init (run (init close_page) two_calls)).served ≡ open_page ∷ close_page ∷ []
unfolding run step
after_two = refl

second_waits : run (init close_page) (produces 1 close_page ∷ produces 2 open_page ∷ []) ≡ none
unfolding run step
second_waits = refl

cut_call : races (or_init (run (init close_page) (produces 1 close_page ∷ []))) consumes ≡ true
unfolding run step
cut_call = refl

run-Serves_example : Serves (or_init (run (init close_page) two_calls))
unfolding run step
run-Serves_example =
    run-Serves close_page two_calls {t = or_init (run (init close_page) two_calls)} refl refl

run-half_written_example :
    (t : Mailbox) × (run
        (init open_page)
        (produces 1 close_page ∷ consumes ∷ carries_out ∷ completes ∷ fills 1 ∷ returns 1 ∷ [])
      ≡ some t)
    × (t.served ≡ half_written open_page close_page ∷ [])
    × (t.returned ≡ close_page ∷ [])
run-half_written_example = run-half_written open_page close_page 1
