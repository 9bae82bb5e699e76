-- ===== src/Dsm/Mesh/Tests.antt =====
-- Three nodes that join one after the other.
use distributed_thread_libra.Prelude.{◌≡◌, refl, true, false, [], ◌∷◌, arith}
use distributed_thread_libra.Dsm.Mesh.{Conns, hand_shakes, connect}
use distributed_thread_libra.Dsm.Mesh.Laws.{IsMesh, connect-IsMesh}

abbrev master : Conns
master i = []

joined : connect (connect master 1 0 true) 2 0 true 1 ≡ 0 ∷ 2 ∷ []
unfolding connect hand_shakes
joined = refl

-- The second node does not get the list of the first.
lost : connect master 1 0 false 1 ≡ 0 ∷ []
unfolding connect hand_shakes
lost = refl

master-IsMesh : IsMesh 1 master
master-IsMesh = record { once = λ i j h. ground arith }

connect-IsMesh_example : IsMesh 3 (connect (connect master 1 0 true) 2 1 true)
connect-IsMesh_example =
    connect-IsMesh 2 1 (connect master 1 0 true) (omega arith)
      (connect-IsMesh 1 0 master (omega arith) master-IsMesh)
