-- ===== src/Dsm/Cluster/Rights.antt =====
-- src/lib/dsm_node.cpp: one right to write a page makes one owner and one writer.
use distributed_thread_libra.Prelude.{
  length, ◌≢◌, suc, ◌⊎◌, ap, ◌+◌, ℕ, ◌<◌, ◌≤◌, ◌≡◌, refl, true, arith, Bool-cases, inl, inr, ◌∙◌,
  ℕ_discrete,
}
use distributed_thread_libra.Dsm.Node.{is_owner, Node, Phase}
use distributed_thread_libra.Dsm.Cluster.{Cluster}
use distributed_thread_libra.Dsm.Cluster.Weights.{
  carried, tokens, weight, weight-le-tokens, add-weights-le-tokens,
}
use distributed_thread_libra.Dsm.Cluster.Writers.{Lent, nobody, gives, may_write, gives-carried}

pub owner-weight : (m : Node) (p : ℕ) → is_owner m p ≡ true → 1 ≤ weight p m
unfolding weight
owner-weight m p o = ground arith

pub carried-weight : (m : Node) (p : ℕ) → carried p m.phase ≤ weight p m
unfolding weight
carried-weight m p = omega arith

pub owner-carried : (m : Node) (p : ℕ) → is_owner m p ≡ true → 1 + carried p m.phase ≤ weight p m
unfolding weight
owner-carried m p o = ground arith

pub gives-pos : (p j : ℕ) (ph : Phase) → gives p j ph ≡ true → 1 ≤ carried p ph
gives-pos p j ph g = ground (arith, gives-carried p (suc j) j ph (omega arith))

-- With at most one right to write the page, and every stray writer about to copy it, one node at most is the
-- owner or such a writer.
module _ (n p : ℕ) (t : Cluster) (few : tokens n p t ≤ 1) where
  pub owner-gives :
      (i j k : ℕ) → i < n → k < n → is_owner (t i) p ≡ true → gives p j (t k).phase ≡ true → ⊥
  owner-gives i j k hi hk o g = elim (ℕ_discrete i k) [
    | yes e ↦
        let g' : gives p j (t i).phase ≡ true = ap (λ x. gives p j (t x).phase) e ∙ g in
        omega (
          arith,
          owner-carried (t i) p o,
          gives-pos p j (t i).phase g',
          weight-le-tokens n p t i hi,
        )
    | no ne ↦ omega (
      arith,
      owner-weight (t i) p o,
      carried-weight (t k) p,
      gives-pos p j (t k).phase g,
      add-weights-le-tokens n p t i k hi hk ne,
    )
  ]

  gives-gives :
      (i j k l : ℕ)
      → k < n
      → l < n
      → i ≢ j
      → gives p i (t k).phase ≡ true
      → gives p j (t l).phase ≡ true
      → ⊥
  gives-gives i j k l hk hl ne g h = elim (ℕ_discrete k l) [
    | yes e ↦
        let h' : gives p j (t k).phase ≡ true = ap (λ x. gives p j (t x).phase) e ∙ h in
        ground (
          arith,
          gives-carried p i j (t k).phase ne,
          carried-weight (t k) p,
          weight-le-tokens n p t k hk,
        )
    | no other ↦ omega (
      arith,
      carried-weight (t k) p,
      carried-weight (t l) p,
      gives-pos p i (t k).phase g,
      gives-pos p j (t l).phase h,
      add-weights-le-tokens n p t k l hk hl other,
    )
  ]

  pub owner-owner :
      (i j : ℕ) → i < n → j < n → i ≢ j → is_owner (t i) p ≡ true → is_owner (t j) p ≡ true → ⊥
  owner-owner i j hi hj ne oi oj = omega (
    arith,
    add-weights-le-tokens n p t i j hi hj ne,
    owner-weight (t i) p oi,
    owner-weight (t j) p oj,
  )

  module _ (lent : Lent n p nobody t) where
    abbrev pub Rightful : ℕ → Type 0
    Rightful i = (is_owner (t i) p ≡ true) ⊎ ((k : ℕ) × (k < n) × (gives p i (t k).phase ≡ true))

    pub writer_lem :
        (i : ℕ) → i < n → p < length (t i).page_info → may_write (t i) p ≡ true → Rightful i
    writer_lem i hi there writes = elim (Bool-cases (is_owner (t i) p)) [
      | inl o ↦ inl o
      | inr o ↦ inr (lent i hi (ground arith) refl)
    ]

    pub one_writer : (i j : ℕ) → i < n → j < n → i ≢ j → Rightful i → Rightful j → ⊥
    one_writer i j hi hj ne (inl oi) (inl oj) = owner-owner i j hi hj ne oi oj
    one_writer i j hi hj ne (inl oi) (inr (k, hk, g)) = owner-gives i j k hi hk oi g
    one_writer i j hi hj ne (inr (k, hk, g)) (inl oj) = owner-gives j i k hj hk oj g
    one_writer i j hi hj ne (inr (k, hk, g)) (inr (l, hl, h)) = gives-gives i j k l hk hl ne g h
