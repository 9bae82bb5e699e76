-- ===== src/Dsm/Cluster/Runs.antt =====
-- src/lib/dsm_node.cpp: whole runs from the start that `main` gives, one master and nodes without pages.
use distributed_thread_libra.Prelude.{
  length, one_if, ℕ, ◌<◌, ◌≤◌, ◌≡◌, refl, Bool, true, false, not, ◌&&◌, Option, none, some, List,
  [], ◌∷◌, ltb, ◌==◌, arith, Bool-cases, inl, inr, ◌∙◌, length-replicate, get_or-replicate, subst,
  ℕ_discrete, sum_below-zero, sum_below-change,
}
use distributed_thread_libra.Dsm.Node.{is_owner, make_node}
use distributed_thread_libra.Dsm.Cluster.{Cluster, Event, actor, step, run, init}
use distributed_thread_libra.Dsm.Cluster.Weights.{tokens, weight}
use distributed_thread_libra.Dsm.Cluster.Writers.{Lent, nobody, may_write}
use distributed_thread_libra.Dsm.Cluster.Moves.{Inv}
use distributed_thread_libra.Dsm.Cluster.Ownership.{Good, races, act-Good}
use distributed_thread_libra.Dsm.Cluster.Rights.{owner-owner, one_writer, writer_lem}

-- No event of the run races.
abbrev pub is_calm : (n : ℕ) → Cluster → List Event → Bool
is_calm n s [] = true
is_calm n s (e ∷ es) =
    not (races s e) && elim (step n s e) [ none ↦ true | some t ↦ is_calm n t es ]

pub step-Good :
    (n : ℕ) (s : Cluster)
    → Inv n s
    → ((q : ℕ) → tokens n q s ≤ 1)
    → (e : Event) {t : Cluster} → races s e ≡ false
    → step n s e ≡ some t
    → Good n s t
unfolding step
step-Good n s inv few e calm h = elim (Bool-cases (ltb (actor e) n)) [
  | inl l ↦ act-Good n s inv few e (ground arith) calm (rw (l, step) at h)
  | inr g ↦ cc
]

run-Good :
    (n : ℕ) (es : List Event) (s : Cluster)
    → Inv n s
    → ((q : ℕ) → tokens n q s ≤ 1)
    → {t : Cluster} → is_calm n s es ≡ true
    → run n s es ≡ some t
    → Good n s t
unfolding run
run-Good n [] s inv few {t} calm h =
    let same : s ≡ t = cc in subst (Good n s) same (inv, λ q. refl, λ q lent. lent)
run-Good n (e ∷ es) s inv few {t} calm h =
    go (step n s e) refl (λ u i f c g. run-Good n es u i f c g) calm h
  where
    go :
        (r : Option Cluster)
        → step n s e ≡ r
        → ((u : Cluster)
            → Inv n u
            → ((q : ℕ) → tokens n q u ≤ 1)
            → is_calm n u es ≡ true
            → run n u es ≡ some t
            → Good n u t)
        → (not (races s e) && elim r [ none ↦ true | some u ↦ is_calm n u es ]) ≡ true
        → elim r [ none ↦ none | some u ↦ run n u es ] ≡ some t
        → Good n s t
    go none q rec c h' = cc
    go (some u) q rec c h' =
        let (inv', same, kept) = step-Good n s inv few e (ground arith) q in
        let (inv'', same', kept') = rec u inv' (λ p. rw (same p) (few p)) (ground arith) h' in
        (inv'', λ p. same' p ∙ same p, λ p lent. kept' p (kept p lent))

weight-init :
    (pages : ℕ) (conn : ℕ → List ℕ) (mem : ℕ → ℕ) (p i : ℕ)
    → weight p (init pages conn mem i) ≡ one_if ((i == 0) && ltb p pages)
unfolding init make_node weight
weight-init pages conn mem p i = ground (
  arith,
  get_or-replicate {A = ℕ} pages p 7 0,
  get_or-replicate {A = ℕ} pages p 0 0,
  length-replicate {A = ℕ} pages 7,
  length-replicate {A = ℕ} pages 0,
)

pub one_if-le : (b : Bool) → one_if b ≤ 1
one_if-le true = omega arith
one_if-le false = omega arith

module _ (n pages : ℕ) (conn : ℕ → List ℕ) (mem : ℕ → ℕ) where
  pub Inv-init : Inv n (init pages conn mem)
  unfolding init make_node
  Inv-init i l = tt

  pub tokens-init : 0 < n → (p : ℕ) → tokens n p (init pages conn mem) ≡ one_if (ltb p pages)
  unfolding tokens
  tokens-init pos p = omega (
    arith,
    sum_below-change (λ i. weight p (init pages conn mem i)) (λ i. 0) 0 n pos
        (λ j ne. ground (arith, weight-init pages conn mem p j)),
    sum_below-zero (λ i. 0) n (λ j l. refl),
    weight-init pages conn mem p 0,
  )

  pub Lent-init : (p : ℕ) → Lent n p nobody (init pages conn mem)
  unfolding init make_node
  Lent-init p j l h b = absurd (
      ground (
        arith,
        get_or-replicate {A = ℕ} pages p 7 0,
        length-replicate {A = ℕ} pages 7,
        length-replicate {A = ℕ} pages 0,
      ))

  module _ (pos : 0 < n) (es : List Event) {t : Cluster}
      (calm : is_calm n (init pages conn mem) es ≡ true)
      (ran : run n (init pages conn mem) es ≡ some t) where
    final : Good n (init pages conn mem) t
    final =
        run-Good n es (init pages conn mem) Inv-init (λ q. ground (arith, tokens-init pos q)) calm
          ran

    few : (p : ℕ) → tokens n p t ≤ 1
    few p = omega (arith, final.1 p ∙ tokens-init pos p, one_if-le (ltb p pages))

    -- After a run from `init` in which no request to write is answered while its page's owner stands
    -- between the test and the write of `update_prot`, each page of the region has exactly one right to
    -- write, at a node that owns the page or on its way to a node that asked to write.
    pub run-tokens : (p : ℕ) → p < pages → tokens n p t ≡ 1
    run-tokens p l = final.1 p ∙ tokens-init pos p ∙ ground arith

    -- After a run from `init` in which no request to write is answered while its page's owner stands
    -- between the test and the write of `update_prot`, no page is owned by two nodes.
    pub single_owner :
        (p i j : ℕ) → i < n → j < n → is_owner (t i) p ≡ true → is_owner (t j) p ≡ true → i ≡ j
    single_owner p i j hi hj oi oj = elim (ℕ_discrete i j) [
      | yes e ↦ e
      | no ne ↦ absurd (owner-owner n p t (few p) i j hi hj ne oi oj)
    ]

    -- After a run from `init` in which no request to write is answered while its page's owner stands
    -- between the test and the write of `update_prot`, and in which each `user_mprotect` and each request for
    -- one is carried out with its own arguments, no page of the nodes' tables is open to the writes of the
    -- programs of two nodes, also while an owner that gave the page up has yet to close it.
    pub single_writer :
        (p i j : ℕ)
        → i < n
        → j < n
        → p < length (t i).page_info
        → p < length (t j).page_info
        → may_write (t i) p ≡ true
        → may_write (t j) p ≡ true
        → i ≡ j
    single_writer p i j hi hj pi pj wi wj = elim (ℕ_discrete i j) [
      | yes e ↦ e
      | no ne ↦
          let lent = final.2 p (Lent-init p) in
          absurd (
            one_writer n p t (few p) lent i j hi hj ne (writer_lem n p t (few p) lent i hi pi wi)
              (writer_lem n p t (few p) lent j hj pj wj))
    ]
