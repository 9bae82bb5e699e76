-- ===== src/Dsm/Start/Laws.antt =====
-- src/lib/main.cpp: what has been done when the program runs.
use distributed_thread_libra.Prelude.{ℕ, ◌≡◌, Bool, true, not, ◌&&◌, ◌||◌, Option, none, some, ◌==◌}
use distributed_thread_libra.Dsm.Start.{
  Child, runs, Builder, makes, asks, connects, tells, ended, Start, node_id,
}

-- The node is there, and a node that is not the master has closed its region and knows the others.
abbrev pub is_ready : (is_master : Bool) → Start → Bool
is_ready is_master s = s.built && (is_master || (s.closed && s.connected))

abbrev is_shut : Start → Bool
is_shut s = s.built && s.closed

abbrev builder_fits : (is_master ready shut : Bool) → Builder → Bool
builder_fits is_master ready shut makes = true
builder_fits is_master ready shut asks = not is_master
builder_fits is_master ready shut connects = not is_master && shut
builder_fits is_master ready shut tells = ready
builder_fits is_master ready shut ended = ready

abbrev x_fits : (is_master ready : Bool) → Option ℕ → Bool
x_fits is_master ready none = true
x_fits is_master ready (some v) = ready && (v == node_id is_master)

abbrev child_fits : (is_master ready : Bool) → Child → Bool
child_fits is_master ready (runs v) = ready && (v == node_id is_master)
child_fits is_master ready c = true

record IsOrdered (is_master : Bool) (s : Start) : Type 0 where
  builder : builder_fits is_master (is_ready is_master s) (is_shut s) s.builder ≡ true
  x : x_fits is_master (is_ready is_master s) s.x ≡ true
  child : child_fits is_master (is_ready is_master s) s.child ≡ true
  told : (not s.usr1 || is_ready is_master s) ≡ true
