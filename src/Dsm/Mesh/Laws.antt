-- ===== src/Dsm/Mesh/Laws.antt =====
-- src/lib/dsm_node.cpp: what `connect` does to a full mesh of nodes.
use distributed_thread_libra.Prelude.{
  ℕ, suc, ◌+◌, ◌<◌, ◌≡◌, true, not, ◌&&◌, List, [], ◌∷◌, ◌++◌, ltb, ◌==◌, if◌then◌else◌, one_if,
  count, count-append, change, change_self, change_ne, arith, ap, ◌∙◌, sym, ℕ_discrete,
}
use distributed_thread_libra.Dsm.Mesh.{Conns, respond_hand_shake, hand_shakes, connect}

-- Each of the first `n` nodes knows each other one of them once, and no other node.
pub record IsMesh (n : ℕ) (conn : Conns) : Type 0 where
  pub once : (i j : ℕ) → i < n → count j (conn i) ≡ one_if (ltb j n && not (j == i))

-- A hand shake puts `src` once more into the list of each node that it goes to.
count-hand_shakes :
    (conn : Conns) (src : ℕ) (is : List ℕ) (i j : ℕ)
    → count j (hand_shakes conn src is i) ≡ count j (conn i) + (if j == src then count i is else 0)
unfolding hand_shakes
count-hand_shakes conn src [] i j = ground arith
count-hand_shakes conn src (k ∷ is) i j = elim (ℕ_discrete k i) [
  | yes same ↦ ground (
    arith,
    count-hand_shakes (respond_hand_shake conn k src) src is i j,
    ap (count j) (
        ap (change conn k (conn k ++ src ∷ [])) (sym same)
        ∙ change_self conn k (conn k ++ src ∷ [])
        ∙ ap (λ l. conn l ++ src ∷ []) same),
    count-append j (conn i) (src ∷ []),
  )
  | no other ↦ ground (
    arith,
    count-hand_shakes (respond_hand_shake conn k src) src is i j,
    ap (count j) (change_ne conn k (conn k ++ src ∷ []) i other),
  )
]

-- A node with the next number that connects to any node of a full mesh makes a full mesh with them.
pub connect-IsMesh :
    (n dst : ℕ) (conn : Conns) → dst < n → IsMesh n conn → IsMesh (suc n) (connect conn n dst true)
unfolding connect
connect-IsMesh n dst conn l mesh = record { once = once' }
  where
    known : List ℕ
    known = conn dst ++ dst ∷ []

    count-known : (j : ℕ) → count j known ≡ one_if (ltb j n)
    count-known j = ground (arith, count-append j (conn dst) (dst ∷ []), mesh.once dst j l)

    once' :
        (i j : ℕ)
        → i < suc n
        → count j (hand_shakes (change conn n known) n known i)
          ≡ one_if (ltb j (suc n) && not (j == i))
    once' i j h = elim (ℕ_discrete n i) [
      | yes new ↦ ground (
        arith,
        count-hand_shakes (change conn n known) n known i j,
        ap (count j) (ap (change conn n known) (sym new) ∙ change_self conn n known),
        count-known j,
        count-known i,
      )
      | no old ↦ ground (
        arith,
        count-hand_shakes (change conn n known) n known i j,
        ap (count j) (change_ne conn n known i old),
        mesh.once i j (omega arith),
        count-known i,
      )
    ]
