-- ===== src/Dsm/Cluster/Stores.antt =====
-- src/lib/dsm_node.cpp: a program writes to a page, and nobody else has the right to.
use distributed_thread_libra.Prelude.{
  ℕ, ◌<◌, ◌≤◌, ◌≡◌, ◌≢◌, inl, inr, Bool, true, length, change, arith, ap, ◌∙◌, sym, ℕ_discrete,
  change_self, change_ne, subst,
}
use distributed_thread_libra.Dsm.Node.{Node, is_owner}
use distributed_thread_libra.Dsm.Cluster.{Cluster}
use distributed_thread_libra.Dsm.Cluster.Weights.{
  carried, weight, tokens, weight-le-tokens, add-weights-le-tokens,
}
use distributed_thread_libra.Dsm.Cluster.Writers.{Lent, nobody, gives, may_write}
use distributed_thread_libra.Dsm.Cluster.Rights.{
  owner-owner, owner-gives, Rightful, writer_lem, carried-weight, owner-carried, gives-pos,
  owner-weight,
}
use distributed_thread_libra.Dsm.Cluster.Values.{
  fresh, phase_says, node_says, node_says_mono, Current, phase_says-nothing, phase_says-gives,
  gives-says,
}

-- Node `i` changes, keeps the value where it has it, and says nothing wrong.
pub Current-change :
    (n p v : ℕ) (s : Cluster)
    → Current n p v s
    → (i : ℕ) (m : Node) → (fresh p v (s i) ≡ true → fresh p v m ≡ true)
    → node_says p v (λ j. fresh p v (s j)) m ≡ true
    → Current n p v (change s i m)
Current-change n p v s cur i m stays says j hj = elim (ℕ_discrete i j) [
  | yes e ↦
      ap (node_says p v (λ k. fresh p v (change s i m k)))
        (ap (change s i m) (sym e) ∙ change_self s i m)
      ∙ node_says_mono (λ k. fresh p v (s k)) (λ k. fresh p v (change s i m k)) v grows p m says
  | no ne ↦
      ap (node_says p v (λ k. fresh p v (change s i m k))) (change_ne s i m j ne)
      ∙ node_says_mono (λ k. fresh p v (s k)) (λ k. fresh p v (change s i m k)) v grows p (s j)
          (cur j hj)
]
  where
    grows : (k : ℕ) → fresh p v (s k) ≡ true → fresh p v (change s i m k) ≡ true
    grows k h = elim (ℕ_discrete i k) [
      | yes e ↦
          ap (fresh p v) (ap (change s i m) (sym e) ∙ change_self s i m)
          ∙ stays (ap (λ x. fresh p v (s x)) e ∙ h)
      | no ne ↦ ap (fresh p v) (change_ne s i m k ne) ∙ h
    ]

module _ (n p v : ℕ) (s : Cluster) (cur : Current n p v s) (few : tokens n p s ≤ 1) (i : ℕ)
    (hi : i < n) (c : ℕ) where
  abbrev pub written : Node
  written = record (s i) { mem = change (s i).mem p c }

  abbrev now_fresh : ℕ → Bool
  now_fresh k = fresh p c (change s i written k)

  -- Where no other node is the owner and nothing wrong is on its way, the new value is the current one.
  written-Current :
      ((x : ℕ)
        → x < n
        → (is_owner (s x) p ≡ true → x ≡ i) × (phase_says p c now_fresh (s x).phase ≡ true))
      → Current n p c (change s i written)
  written-Current right x hx = elim (ℕ_discrete i x) [
    | yes e ↦
        ap (node_says p c now_fresh) (ap (change s i written) (sym e) ∙ change_self s i written)
        ∙ ground (arith, cur i hi, right i hi)
    | no ne ↦
        ap (node_says p c now_fresh) (change_ne s i written x ne)
        ∙ ground (arith, cur x hx, right x hx)
  ]

  idle_weight : (x k : ℕ) → x < n → k < n → k ≢ x → 1 ≤ weight p (s k) → carried p (s x).phase ≡ 0
  idle_weight x k hx hk ne w =
      omega (arith, carried-weight (s x) p, add-weights-le-tokens n p s k x hk hx ne)

  owner_writes : is_owner (s i) p ≡ true → Current n p c (change s i written)
  owner_writes o = written-Current λ x hx. (
    λ ox. elim (ℕ_discrete x i) [
      | yes e ↦ e
      | no ne ↦ absurd (owner-owner n p s few x i hx hi ne ox o)
    ],
    phase_says-nothing now_fresh c p (s x).phase (elim (ℕ_discrete i x) [
      | yes e ↦
          subst (λ y. carried p (s y).phase ≡ 0) e
            (omega (arith, owner-carried (s i) p o, weight-le-tokens n p s i hi))
      | no ne ↦ idle_weight x i hx hi ne (owner-weight (s i) p o)
    ]),
  )

  giver_writes : (k : ℕ) → k < n → gives p i (s k).phase ≡ true → Current n p c (change s i written)
  giver_writes k hk g = written-Current λ x hx. (
    λ ox. absurd (owner-gives n p s few x i k hx hk ox g),
    elim (ℕ_discrete k x) [
      | yes e ↦
          subst (λ y. phase_says p c now_fresh (s y).phase ≡ true) e
            (phase_says-gives now_fresh c p i (s k).phase now g
              (omega (arith, carried-weight (s k) p, weight-le-tokens n p s k hk)))
      | no ne ↦ phase_says-nothing now_fresh c p (s x).phase (
          idle_weight x k hx hk ne
            (omega (arith, carried-weight (s k) p, gives-pos p i (s k).phase g)))
    ],
  )
    where
      was : fresh p v (s i) ≡ true
      was = gives-says (λ j. fresh p v (s j)) v p i (s k).phase g (ground (arith, cur k hk))

      now : now_fresh i ≡ true
      now = ap (fresh p c) (change_self s i written) ∙ ground (arith, was)

  -- The value that a program writes is the current one from then on.
  pub stores-Current :
      Lent n p nobody s
      → p < length (s i).page_info
      → may_write (s i) p ≡ true
      → Current n p c (change s i written)
  stores-Current lent there writes = go (writer_lem n p s few lent i hi there writes)
    where
      go : Rightful n p s few lent i → Current n p c (change s i written)
      go (inl o) = owner_writes o
      go (inr (k, hk, g)) = giver_writes k hk g
