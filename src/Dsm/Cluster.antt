-- ===== src/Dsm/Cluster.antt =====
-- src/lib/dsm_node.cpp: `n` nodes that run side by side. An event is the next thing that happens at one
-- node; the order is free. A request is answered on a thread of the answering node while everything
-- else goes on, and `update_prot` takes no lock.
pub mod Cases
pub mod Weights
pub mod Writers
pub mod Handlers
pub mod Moves
pub mod Answers
pub mod Ownership
pub mod Rights
pub mod Runs
pub mod Race
pub mod Values
pub mod Copies
pub mod Stores
pub mod Coherence
pub mod LastStored
pub mod Work
pub mod Conns
pub mod Bound
mod Tests
use distributed_thread_libra.Prelude.{
  ℕ, zero, suc, ◌+◌, ◌≡◌, Bool, true, false, not, ◌&&◌, ◌||◌, Option, none, some, List, [], ◌∷◌,
  ltb, ◌==◌, if◌then◌else◌, length, get_or, set, change,
}
use distributed_thread_libra.Dsm.Node.{
  Node, Phase, idle, checked, updating, asking, Request, sent, copying, replied, done, HwProt,
  no_access, read_only, read_write, dsm_prot_read, make_node, is_owner, response_write,
  response_write_copy, response_read, handler, update_prot_test, update_prot_set, grant_prot_end,
  receive, sync,
}

abbrev pub Cluster : Type 0
Cluster = ℕ → Node

pub data Event : Type 0 where
  stores : (i page c : ℕ) → Event  -- the program of node `i` writes to a page of the region that it may write
  syncs : (i total : ℕ) → Event  -- the program calls `dsm::sync`
  faults : (i page : ℕ) → (writes : Bool) → Event  -- an access that the page's protection forbids
  tests : (i : ℕ) → Event  -- the test of `update_prot`
  updates : (i : ℕ) → Event  -- the rest of `update_prot`
  answers : (i k : ℕ) → Event  -- the request of thread `k` of node `i` is answered
  copies : (i k : ℕ) → Event  -- `response_write` for that thread copies the page
  receives : (i k : ℕ) → Event  -- the answer arrives
  ends : (i : ℕ) → Event  -- every thread of `grant_prot` is joined

abbrev pub allows : HwProt → (writes : Bool) → Bool
allows no_access w = false
allows read_only w = not w
allows read_write w = true

abbrev pub is_idle : Phase → Bool
is_idle idle = true
is_idle _ = false

abbrev pub all_done : List Request → Bool
all_done [] = true
all_done (done ∷ rs) = all_done rs
all_done (_ ∷ rs) = false

abbrev pub thread : List Request → ℕ → Request
thread rs k = get_or rs k done

-- The thread that runs `handler` also carries out what `user_mprotect_req` asks for: between two
-- faults, and in the loops of `grant_prot` that call `user_mprotect_respond`.
abbrev pub serves : Phase → Bool
serves (checked p) = false
serves (updating p) = false
serves _ = true

-- Thread `k` of node `i` gets a new state.
abbrev pub set_thread :
    Cluster → (i page prot : ℕ) → List Request → Option ℕ → (k : ℕ) → Request → Cluster
set_thread s i p prot rs d k r = change s i (record (s i) { phase = asking p prot (set rs k r) d })

abbrev pub tests_in : Cluster → (i : ℕ) → Phase → Option Cluster
tests_in s i (checked p) = some (change s i (update_prot_test (s i) p))
tests_in s i _ = none

abbrev pub updates_in : Cluster → (i : ℕ) → Phase → Option Cluster
updates_in s i (updating p) = some (change s i (update_prot_set (s i) p))
updates_in s i _ = none

-- `request_read` or `request_write`, by `arg->prot`, at a node that is there. An owner answers a read by way of its
-- signal thread, and any other node at once.
abbrev pub answer :
    (n : ℕ)
    → Cluster
    → (i page prot : ℕ) → List Request
    → Option ℕ
    → (k : ℕ) → Request
    → Option Cluster
answer n s i p prot rs d k (sent j) =
    if ltb j n
    then (if prot == dsm_prot_read
        then (let (node, res) = response_read (s j) p in
            if serves (s j).phase || not (is_owner (s j) p)
            then some (set_thread (change s j node) i p prot rs d k (replied res))
            else none)
        else (let (node, given) = response_write (s j) p in
            some (
              set_thread (change s j node) i p prot rs d k
                (if given then copying j else replied none))))
    else none
answer n s i p prot rs d k _ = none

abbrev pub answers_in : (n : ℕ) → Cluster → (i k : ℕ) → Phase → Option Cluster
answers_in n s i k (asking p prot rs d) = answer n s i p prot rs d k (thread rs k)
answers_in n s i k _ = none

abbrev pub copy :
    (n : ℕ)
    → Cluster
    → (i page prot : ℕ) → List Request
    → Option ℕ
    → (k : ℕ) → Request
    → Option Cluster
copy n s i p prot rs d k (copying j) =
    if ltb j n && serves (s j).phase
    then (let (node, c) = response_write_copy (s j) p in
        some (set_thread (change s j node) i p prot rs d k (replied (some c))))
    else none
copy n s i p prot rs d k _ = none

abbrev pub copies_in : (n : ℕ) → Cluster → (i k : ℕ) → Phase → Option Cluster
copies_in n s i k (asking p prot rs d) = copy n s i p prot rs d k (thread rs k)
copies_in n s i k _ = none

abbrev pub take_reply :
    Cluster → (i page prot : ℕ) → List Request → Option ℕ → (k : ℕ) → Request → Option Cluster
take_reply s i p prot rs d k (replied r) = some (set_thread s i p prot rs (receive r d) k done)
take_reply s i p prot rs d k _ = none

abbrev pub receives_in : Cluster → (i k : ℕ) → Phase → Option Cluster
receives_in s i k (asking p prot rs d) = take_reply s i p prot rs d k (thread rs k)
receives_in s i k _ = none

abbrev pub ends_in : Cluster → (i : ℕ) → Phase → Option Cluster
ends_in s i (asking p prot rs d) =
    if all_done rs then some (change s i (grant_prot_end (s i) p prot d)) else none
ends_in s i _ = none

-- What an event of a node does; `none` where it cannot happen.
unfoldable pub act : (n : ℕ) → Cluster → Event → Option Cluster
act n s (stores i p c) =
    if is_idle (s i).phase && (ltb p (length (s i).page_info) && allows ((s i).prot p) true)
    then some (change s i (record (s i) { mem = change (s i).mem p c }))
    else none
act n s (syncs i total) = if is_idle (s i).phase then some (change s i (sync (s i) total)) else none
act n s (faults i p w) =
    if is_idle (s i).phase && (ltb p (length (s i).page_info) && not (allows ((s i).prot p) w))
    then some (change s i (handler (s i) p))
    else none
act n s (tests i) = tests_in s i (s i).phase
act n s (updates i) = updates_in s i (s i).phase
act n s (answers i k) = answers_in n s i k (s i).phase
act n s (copies i k) = copies_in n s i k (s i).phase
act n s (receives i k) = receives_in s i k (s i).phase
act n s (ends i) = ends_in s i (s i).phase

abbrev pub actor : Event → ℕ
actor (stores i p c) = i
actor (syncs i total) = i
actor (faults i p w) = i
actor (tests i) = i
actor (updates i) = i
actor (answers i k) = i
actor (copies i k) = i
actor (receives i k) = i
actor (ends i) = i

-- An event of one of the `n` nodes.
unfoldable pub step : (n : ℕ) → Cluster → Event → Option Cluster
unfolding act
step n s e = if ltb (actor e) n then act n s e else none

-- A run of events in order.
unfoldable pub run : (n : ℕ) → Cluster → List Event → Option Cluster
run n s [] = some s
run n s (e ∷ es) = elim (step n s e) [ none ↦ none | some t ↦ run n t es ]

-- `main`: node 0 is the master, every node has `pages` pages and knows the others.
unfoldable pub init : (pages : ℕ) → (conn : ℕ → List ℕ) → (ℕ → ℕ) → Cluster
init pages conn mem i = make_node pages (i == 0) (conn i) mem
