-- ===== src/Dsm/Cluster/Tests.antt =====
-- Runs of small clusters.
use distributed_thread_libra.Prelude.{
  ℕ, zero, suc, ◌≡◌, refl, Bool, true, false, Option, none, some, List, [], ◌∷◌, ◌++◌, arith, ◌<◌,
  ◌≤◌, ◌+◌, ◌*◌, length,
}
use distributed_thread_libra.Dsm.Node.{
  make_node, response_write, response_write_copy, response_read, handler, update_prot_test, sent,
  update_prot_set, grant_prot_end, receive, sync, is_owner,
}
use distributed_thread_libra.Dsm.Cluster.{
  Cluster, Event, stores, syncs, faults, tests, updates, answers, copies, receives, ends, step, act,
  run, init,
}
use distributed_thread_libra.Dsm.Cluster.Weights.{tokens}
use distributed_thread_libra.Dsm.Cluster.Runs.{run-tokens, single_owner, single_writer}
use distributed_thread_libra.Dsm.Cluster.Coherence.{last_stored}
use distributed_thread_libra.Dsm.Cluster.LastStored.{owner_value}
use distributed_thread_libra.Dsm.Cluster.Race.{race-tokens}
use distributed_thread_libra.Dsm.Cluster.Bound.{run-handled}

-- Two nodes that share a page.
abbrev conns : ℕ → List ℕ
conns zero = 1 ∷ []
conns (suc j) = 0 ∷ []

abbrev pair : Cluster
pair = init 1 conns (λ p. 7)

-- Node 1 reads the page, then takes it to write, and writes 8.
abbrev take_over : List Event
take_over =
    faults 1 0 false
    ∷ answers 1 0
    ∷ receives 1 0
    ∷ ends 1
    ∷ faults 1 0 true
    ∷ answers 1 0
    ∷ copies 1 0
    ∷ receives 1 0
    ∷ ends 1
    ∷ stores 1 0 8
    ∷ []

abbrev look : Option Cluster → Option (Bool × Bool × ℕ × ℕ)
look none = none
look (some s) = some (is_owner (s 0) 0, is_owner (s 1) 0, (s 0).mem 0, (s 1).mem 0)

run-take_over : look (run 2 pair take_over) ≡ some (false, true, 7, 8)
unfolding run step act init make_node response_write response_write_copy response_read handler
    update_prot_test update_prot_set grant_prot_end receive sync
run-take_over = refl

abbrev or_start : Option Cluster → Cluster
or_start none = pair
or_start (some s) = s

abbrev taken_over : Cluster
taken_over = or_start (run 2 pair take_over)

run-tokens_example : tokens 2 0 taken_over ≡ 1
unfolding run step act init make_node response_write response_write_copy response_read handler
    update_prot_test update_prot_set grant_prot_end receive sync
run-tokens_example =
    run-tokens 2 1 conns (λ p. 7) (omega arith) take_over {t = taken_over} refl refl 0 (omega arith)

single_owner_example : ◌≡◌ {A = ℕ} 1 1
unfolding run step act init make_node response_write response_write_copy response_read handler
    update_prot_test update_prot_set grant_prot_end receive sync
single_owner_example =
    single_owner 2 1 conns (λ p. 7) (omega arith) take_over {t = taken_over} refl refl 0 1 1
      (omega arith) (omega arith) refl refl

single_writer_example : ◌≡◌ {A = ℕ} 1 1
unfolding run step act init make_node response_write response_write_copy response_read handler
    update_prot_test update_prot_set grant_prot_end receive sync
single_writer_example =
    single_writer 2 1 conns (λ p. 7) (omega arith) take_over {t = taken_over} refl refl 0 1 1
      (omega arith) (omega arith) (omega arith) (omega arith) refl refl

owner_value_example : (taken_over 1).mem 0 ≡ last_stored 0 take_over 7
unfolding run step act init make_node response_write response_write_copy response_read handler
    update_prot_test update_prot_set grant_prot_end receive sync
owner_value_example =
    owner_value 2 1 conns (λ p. 7) (omega arith) take_over {t = taken_over} refl refl 0 1
      (omega arith) refl

-- The page is asked for while node 0 stands inside `update_prot`.
abbrev before_race : List Event
before_race =
    faults 1 0 false
    ∷ answers 1 0
    ∷ receives 1 0
    ∷ ends 1
    ∷ syncs 0 1
    ∷ faults 0 0 false
    ∷ tests 0
    ∷ faults 1 0 true
    ∷ []

abbrev race : List Event
race = before_race ++ answers 1 0 ∷ updates 0 ∷ copies 1 0 ∷ receives 1 0 ∷ ends 1 ∷ []

run-race : look (run 2 pair race) ≡ some (true, true, 7, 7)
unfolding run step act init make_node response_write response_write_copy response_read handler
    update_prot_test update_prot_set grant_prot_end receive sync
run-race = refl

abbrev racing : Cluster
racing = or_start (run 2 pair before_race)

race-tokens_example :
    (t : Cluster) × (run 2 racing (answers 1 0 ∷ updates 0 ∷ []) ≡ some t)
    × (is_owner (t 0) 0 ≡ true)
    × (tokens 2 0 t ≡ suc (tokens 2 0 racing))
unfolding run step act init make_node response_write response_write_copy response_read handler
    update_prot_test update_prot_set grant_prot_end receive sync
race-tokens_example =
    race-tokens 2 racing 1 0 0 0 7 {rs = sent 0 ∷ []} {d = none} (omega arith) (omega arith) refl
      refl refl refl refl

conns-few : (i : ℕ) → i < 2 → length (conns i) ≤ 1
conns-few zero l = omega arith
conns-few (suc j) l = omega arith

-- Node 1 reads the page.
abbrev reading : List Event
reading = faults 1 0 false ∷ answers 1 0 ∷ receives 1 0 ∷ ends 1 ∷ []

run-handled_example : 3 ≤ 1 * (3 * 1 + 2)
unfolding run step act init make_node response_write response_write_copy response_read handler
    update_prot_test update_prot_set grant_prot_end receive sync
run-handled_example =
    run-handled 2 1 1 conns (λ p. 7) conns-few reading (or_start (run 2 pair reading)) refl
