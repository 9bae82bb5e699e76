-- ===== src/Dsm/Mesh.antt =====
-- src/lib/dsm_node.cpp: `connect`, by which a node joins the others. `conn i` are the addresses that node
-- `i` knows, and the address of a node is its number.
pub mod Laws
mod Tests
use distributed_thread_libra.Prelude.{
  ℕ, Bool, Option, none, some, List, [], ◌∷◌, ◌++◌, if◌then◌else◌, change,
}

abbrev pub Conns : Type 0
Conns = ℕ → List ℕ

-- `respond_hand_shake` of node `i`
abbrev pub respond_hand_shake : Conns → (i src : ℕ) → Conns
respond_hand_shake conn i src = change conn i (conn i ++ src ∷ [])

-- `respond_join` of node `i`
abbrev pub respond_join : Conns → (i : ℕ) → List ℕ
respond_join conn i = conn i

-- `request_join`, with the answer that came; `none` is an error of the call.
abbrev pub request_join : Option (List ℕ) → List ℕ
request_join none = []
request_join (some conn) = conn

-- The threads of `connect`, one hand shake each; the order of the calls is the list's.
unfoldable pub hand_shakes : Conns → (src : ℕ) → List ℕ → Conns
hand_shakes conn src [] = conn
hand_shakes conn src (i ∷ is) = hand_shakes (respond_hand_shake conn i src) src is

-- `connect` of node `i` to node `dst`; `reached` tells whether the call of `join` got through. The array
-- of the threads' arguments, which it allocates with one byte for each, is left out.
unfoldable pub connect : Conns → (i dst : ℕ) → (reached : Bool) → Conns
unfolding hand_shakes
connect conn i dst reached =
    let known = request_join (if reached then some (respond_join conn dst) else none) ++ dst ∷ [] in
    hand_shakes (change conn i known) i known
