-- ===== src/Dsm/Cluster/Moves.antt =====
-- src/lib/dsm_node.cpp: what a change of one node, or of one request, does to the right to write.
use distributed_thread_libra.Prelude.{
  ℕ, ◌+◌, ◌<◌, ◌≡◌, Bool, true, false, Option, List, set, change, arith, ap, change_self, change_ne,
  ℕ_discrete, ◌∙◌, sym, subst,
}
use distributed_thread_libra.Dsm.Node.{Node, Phase, asking, Request}
use distributed_thread_libra.Dsm.Cluster.{Cluster, thread, set_thread}
use distributed_thread_libra.Dsm.Cluster.Weights.{carried, weight, tokens, tokens-change, IsSound}
use distributed_thread_libra.Dsm.Cluster.Handlers.{Keeps}
use distributed_thread_libra.Dsm.Cluster.Writers.{
  Lent, nobody, stray, gives, is_copying, copies_from-set, Lent-change, Lent-phase,
}

-- Every node's phase agrees with its page table.
abbrev pub Inv : ℕ → Cluster → Type 0
Inv n s = (i : ℕ) → i < n → IsSound (s i).page_info (s i).phase

-- No program gets to write a page that its node neither owns nor is about to copy for another.
abbrev pub KeepLent : ℕ → Cluster → Cluster → Type 0
KeepLent n s t = (p : ℕ) → Lent n p nobody s → Lent n p nobody t

-- The same rights to write page after page.
abbrev pub SameTokens : ℕ → Cluster → Cluster → Type 0
SameTokens n s t = (p : ℕ) → tokens n p t ≡ tokens n p s

module _ (n : ℕ) (s : Cluster) (inv : Inv n s) (i : ℕ) (hi : i < n) where
  pub Inv-change : (m : Node) → IsSound m.page_info m.phase → Inv n (change s i m)
  Inv-change m v j hj = elim (ℕ_discrete i j) [
    | yes e ↦
        subst (λ (x : Node). IsSound x.page_info x.phase)
          (sym (subst (λ k. change s i m k ≡ m) e (change_self s i m))) v
    | no ne ↦
        subst (λ (x : Node). IsSound x.page_info x.phase) (sym (change_ne s i m j ne)) (inv j hj)
  ]

  pub Keeps-change :
      (m : Node)
      → Keeps (s i) m
      → Inv n (change s i m) × SameTokens n s (change s i m) × KeepLent n s (change s i m)
  Keeps-change m keeps = (
    Inv-change m keeps.1,
    λ p. omega (arith, tokens-change n p s i m hi, keeps.0 p),
    λ p lent j l h no.
        Lent-change n p s lent i m false (keeps.2 p).0 (λ h' e. (keeps.2 p).1 h') j l h
          (ground arith),
  )

pub weight-phase :
    (q : ℕ) (m : Node) (ph : Phase)
    → weight q (record m { phase = ph }) + carried q m.phase ≡ weight q m + carried q ph
unfolding weight
weight-phase q m ph = omega arith

module _ (n : ℕ) (s : Cluster) (i : ℕ) (hi : i < n) (k : ℕ) {p prot : ℕ} {rs : List Request}
    {d : Option ℕ} (e : (s i).phase ≡ asking p prot rs d) where
  -- A thread's new state that shows the stray writers that the old one showed.
  pub set_thread-Lent :
      (q : ℕ) (but : ℕ → Bool) (d' : Option ℕ) (r : Request)
      → Lent n q but s
      → ((j : ℕ) → stray (s j) q ≡ true → q ≡ p → is_copying j (thread rs k) ≡ false)
      → ((j : ℕ)
          → stray (s j) q ≡ true
          → but j ≡ true
          → gives q j (asking p prot (set rs k r) d') ≡ true)
      → Lent n q nobody (set_thread s i p prot rs d' k r)
  set_thread-Lent q but d' r lent old new =
      Lent-phase n q but s lent i hi (asking p prot (set rs k r) d')
        (λ j h g.
          let g' : gives q j (asking p prot rs d) ≡ true = ap (gives q j) (sym e) ∙ g in
          let at_p : q ≡ p = ground arith in
          ground (arith, copies_from-set j rs k r (old j h at_p)))
        new

module _ (n : ℕ) (s : Cluster) (inv : Inv n s) (i : ℕ) (hi : i < n) (k : ℕ) {p prot : ℕ}
    {rs : List Request} {d : Option ℕ} (e : (s i).phase ≡ asking p prot rs d) where
  -- A thread's new state changes what the request carries, and nothing else.
  pub set_thread_lem :
      (d' : Option ℕ) (r : Request)
      → Inv n (set_thread s i p prot rs d' k r)
        × ((q : ℕ)
            → tokens n q (set_thread s i p prot rs d' k r) + carried q (asking p prot rs d)
              ≡ tokens n q s + carried q (asking p prot (set rs k r) d'))
  set_thread_lem d' r = (
    Inv-change n s inv i hi m (subst (IsSound (s i).page_info) e (inv i hi)),
    λ q. omega (
      arith,
      tokens-change n q s i m hi,
      weight-phase q (s i) (asking p prot (set rs k r) d'),
      ap (carried q) e,
    ),
  )
    where
      m : Node
      m = record (s i) { phase = asking p prot (set rs k r) d' }
