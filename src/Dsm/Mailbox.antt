-- ===== src/Dsm/Mailbox.antt =====
-- src/lib/user_mprotect.cpp: `mprotect_req`, by which the threads that answer requests of other nodes ask the
-- thread that traces the program to change a page's protection. An event is the next step of one thread,
-- in any order. `produce` returns with `mu_` locked, and writes `status_` before its last two fields, so
-- it is cut there; `empty`, `consume` and `compelete` take no lock. What `user_mprotect` does by ptrace is
-- noted in `served`.
pub mod Laws
pub mod Steps
pub mod Runs
mod Tests
use distributed_thread_libra.Prelude.{
  ℕ, Bool, true, false, Option, none, some, List, [], ◌∷◌, change,
}

pub record Request : Type 0 where
  pub pid : ℕ
  pub addr : ℕ
  pub size : ℕ
  pub prot : ℕ
  pub read_page_flag : Bool
  pub page : ℕ

-- A thread in `user_mprotect_req`: outside, inside `produce`, or in `wait_to_compelete`.
pub data Caller : Type 0 where
  outside : Caller
  writes : Request → Caller
  waits : Request → Caller

-- The thread that runs `user_mprotect_respond`: outside, behind `consume`, or behind `user_mprotect`.
pub data Responder : Type 0 where
  ready : Responder
  took : Request → Responder
  carried_out : Responder

-- `status_` is REQ_INCOMPLETE or REQ_COMPLETE; `holder` is the thread that has locked `mu_`. The last
-- request stands first in `served` and `returned`.
pub record Mailbox : Type 0 where
  pub holder : Option ℕ
  pub request : Request
  pub incomplete : Bool
  pub caller : ℕ → Caller
  pub responder : Responder
  pub served : List Request
  pub returned : List Request

pub data Event : Type 0 where
  produces : (i : ℕ) → Request → Event  -- `produce` up to `status_`
  fills : (i : ℕ) → Event  -- the rest of `produce`
  consumes : Event
  carries_out : Event
  completes : Event
  returns : (i : ℕ) → Event  -- the end of `wait_to_compelete`

-- The fields that the first part of `produce` writes, over those of the request before.
abbrev pub half_written : (old new : Request) → Request
half_written old new = record new { read_page_flag = old.read_page_flag; page = old.page }

abbrev pub produce : Mailbox → (i : ℕ) → Request → Caller → Option ℕ → Option Mailbox
produce s i r outside none = some (record s {
  holder = some i;
  request = half_written s.request r;
  incomplete = true;
  caller = change s.caller i (writes r);
})
produce s i r c h = none

abbrev pub fill : Mailbox → (i : ℕ) → Caller → Option Mailbox
fill s i (writes r) = some (record s {
  request = record s.request { read_page_flag = r.read_page_flag; page = r.page };
  caller = change s.caller i (waits r);
})
fill s i c = none

-- `empty` and then `consume`
abbrev pub consume : Mailbox → Bool → Responder → Option Mailbox
consume s true ready = some (record s { responder = took s.request })
consume s b r = none

abbrev pub user_mprotect : Mailbox → Responder → Option Mailbox
user_mprotect s (took r) = some (record s { responder = carried_out; served = r ∷ s.served })
user_mprotect s r = none

abbrev pub compelete : Mailbox → Responder → Option Mailbox
compelete s carried_out = some (record s { responder = ready; incomplete = false })
compelete s r = none

abbrev pub wait_to_compelete : Mailbox → (i : ℕ) → Caller → Bool → Option Mailbox
wait_to_compelete s i (waits r) false =
    some (record s { holder = none; caller = change s.caller i outside; returned = r ∷ s.returned })
wait_to_compelete s i c b = none

-- `none` where the event cannot happen.
unfoldable pub step : Mailbox → Event → Option Mailbox
step s (produces i r) = produce s i r (s.caller i) s.holder
step s (fills i) = fill s i (s.caller i)
step s consumes = consume s s.incomplete s.responder
step s carries_out = user_mprotect s s.responder
step s completes = compelete s s.responder
step s (returns i) = wait_to_compelete s i (s.caller i) s.incomplete

unfoldable pub run : Mailbox → List Event → Option Mailbox
run s [] = some s
run s (e ∷ es) = elim (step s e) [ none ↦ none | some t ↦ run t es ]

-- After `init`; the fields hold anything.
abbrev pub init : Request → Mailbox
init r = record {
  holder = none;
  request = r;
  incomplete = false;
  caller = λ i. outside;
  responder = ready;
  served = [];
  returned = [];
}
