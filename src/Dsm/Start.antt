-- ===== src/Dsm/Start.antt =====
-- src/lib/main.cpp and the start of src/lib/dsm_node.cpp (`dsm_init_master`, `dsm_init_node`, `dsm_init`): how a node's
-- program is let run. `main` forks: the child is the program, traced, and waits until `pr->x` is not -1; the
-- parent traces it in the loop of `dsm_init`; and a thread of the parent makes the `DSMNode`. An event is the
-- next step of one of the three, in any order. A signal to a child that is not traced yet ends it; a signal to
-- a traced child stops it until the loop of `dsm_init` has seen to it.
pub mod Laws
mod Tests
use distributed_thread_libra.Prelude.{
  ℕ, Bool, true, false, not, ◌&&◌, Option, none, some, List, [], ◌∷◌, if◌then◌else◌,
}

-- The child: before PTRACE_TRACEME, in the loop on `pr->x`, ended by a signal, or behind the loop with the
-- number at `cpuid`.
pub data Child : Type 0 where
  forked waits killed : Child
  runs : (cpuid : ℕ) → Child

-- The thread that makes the node: before the constructor, in its `user_mprotect_req`, before `connect`, before
-- the SIGUSR1 for the child, and behind it.
pub data Builder : Type 0 where
  makes asks connects tells ended : Builder

-- `closed`, `built` and `connected`: the program has lost its access to the region, the constructor is through, and so
-- is `connect`. `usr1` and `usr2`: the signal has stopped the child. `x` is the child's `pr->x`, `none` its -1.
pub record Start : Type 0 where
  pub child : Child
  pub builder : Builder
  pub closed : Bool
  pub built : Bool
  pub connected : Bool
  pub usr1 : Bool
  pub usr2 : Bool
  pub x : Option ℕ

pub data Event : Type 0 where
  traces : Event  -- PTRACE_TRACEME of the child
  looks : Event  -- the child finds `pr->x` other than -1
  makes_node : Event  -- the constructor, on a node that is not the master up to its `user_mprotect_req`
  connects_node : Event  -- `connect`
  tells_child : Event  -- `kill(args->child, SIGUSR1)`
  sees_usr1 : Event  -- a round of `dsm_init` after SIGUSR1
  sees_usr2 : Event  -- a round of `dsm_init` after SIGUSR2

-- The number that `dsm_init_master` and `dsm_init_node` give `dsm_init`.
abbrev pub node_id : (is_master : Bool) → ℕ
node_id is_master = if is_master then 0 else 1

-- SIGUSR1 and SIGUSR2 for the child.
abbrev pub send_usr1 : Start → Child → Start
send_usr1 s forked = record s { child = killed }
send_usr1 s waits = record s { usr1 = true }
send_usr1 s c = s

abbrev pub send_usr2 : Start → Child → Start
send_usr2 s forked = record s { child = killed }
send_usr2 s waits = record s { usr2 = true }
send_usr2 s c = s

abbrev pub trace_me : Start → Child → Option Start
trace_me s forked = some (record s { child = waits })
trace_me s c = none

abbrev pub look : Start → Child → Option ℕ → Option Start
look s waits (some v) =
    if s.usr1 then none else if s.usr2 then none else some (record s { child = runs v })
look s c x = none

abbrev pub make_node : (is_master : Bool) → Start → Builder → Option Start
make_node true s makes = some (record s { builder = tells; built = true })
make_node false s makes = some (send_usr2 (record s { builder = asks }) s.child)
make_node is_master s b = none

abbrev pub connect : Start → Builder → Option Start
connect s connects = some (record s { builder = tells; connected = true })
connect s b = none

abbrev pub tell : Start → Builder → Option Start
tell s tells = some (send_usr1 (record s { builder = ended }) s.child)
tell s b = none

-- A round of `dsm_init` after SIGUSR1: `pr->x` of the child is written.
abbrev pub see_usr1 : (is_master : Bool) → Start → (usr1 : Bool) → Option Start
see_usr1 is_master s true = some (record s { usr1 = false; x = some (node_id is_master) })
see_usr1 is_master s false = none

-- A round after SIGUSR2: `user_mprotect_respond` carries out the request, and the constructor goes on.
abbrev pub see_usr2 : Start → (usr2 : Bool) → Builder → Option Start
see_usr2 s true asks =
    some (record s { usr2 = false; closed = true; built = true; builder = connects })
see_usr2 s true b = some (record s { usr2 = false })
see_usr2 s false b = none

-- `none` where the event cannot happen.
unfoldable pub step : (is_master : Bool) → Start → Event → Option Start
step is_master s traces = trace_me s s.child
step is_master s looks = look s s.child s.x
step is_master s makes_node = make_node is_master s s.builder
step is_master s connects_node = connect s s.builder
step is_master s tells_child = tell s s.builder
step is_master s sees_usr1 = see_usr1 is_master s s.usr1
step is_master s sees_usr2 = see_usr2 s s.usr2 s.builder

unfoldable pub run : (is_master : Bool) → Start → List Event → Option Start
run is_master s [] = some s
run is_master s (e ∷ es) = elim (step is_master s e) [ none ↦ none | some t ↦ run is_master t es ]

-- Behind `fork`.
abbrev pub after_fork : Start
after_fork = record {
  child = forked;
  builder = makes;
  closed = false;
  built = false;
  connected = false;
  usr1 = false;
  usr2 = false;
  x = none;
}
