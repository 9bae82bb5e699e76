-- ===== src/Dsm/Start/Tests.antt =====
-- Runs of the start.
use distributed_thread_libra.Prelude.{◌≡◌, refl, true, Option, none, some, List, [], ◌∷◌}
use distributed_thread_libra.Dsm.Start.{
  killed, Start, Event, traces, looks, makes_node, connects_node, tells_child, sees_usr1, sees_usr2,
  step, run, after_fork,
}

abbrev or_fork : Option Start → Start
or_fork none = after_fork
or_fork (some s) = s

-- A node that is not the master.
abbrev in_order : List Event
in_order = traces ∷ makes_node ∷ sees_usr2 ∷ connects_node ∷ tells_child ∷ sees_usr1 ∷ looks ∷ []

-- The node of the master is made before the child is traced: its signal ends the child.
untraced : (or_fork (run true after_fork (makes_node ∷ tells_child ∷ []))).child ≡ killed
unfolding run step
untraced = refl
