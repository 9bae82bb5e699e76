-- ===== src/Dsm/Cluster/Writers.antt =====
-- src/lib/dsm_node.cpp: the nodes whose programs may write a page, by the protection of their memory. Such a node
-- owns the page, or gave it up and has yet to take the protection back, which the request it answers
-- shows.
use distributed_thread_libra.Prelude.{
  one_if, ℕ, zero, suc, ◌+◌, ◌<◌, ◌≤◌, ◌≡◌, ◌≢◌, refl, Bool, true, false, not, ◌&&◌, ◌||◌, List, [],
  ◌∷◌, ◌==◌, ltb, length, set, change, arith, ap, change_self, change_ne, ◌∙◌, ℕ_discrete, sym,
}
use distributed_thread_libra.Dsm.Node.{
  Node, Phase, idle, checked, updating, asking, Request, sent, copying, replied, done,
  dsm_prot_read, ownership, prot_check,
}
use distributed_thread_libra.Dsm.Cluster.{Cluster, allows, all_done, thread}
use distributed_thread_libra.Dsm.Cluster.Weights.{in_flights, carried}

abbrev pub may_write : Node → ℕ → Bool
may_write m p = allows (m.prot p) true

-- The program of the node may write a page of the region that the node does not own.
abbrev pub stray : Node → ℕ → Bool
stray m p = may_write m p && (ltb p (length m.page_info) && not (ownership (prot_check m p)))

abbrev pub is_copying : ℕ → Request → Bool
is_copying j (copying l) = l == j
is_copying j _ = false

abbrev pub copies_from : ℕ → List Request → Bool
copies_from j [] = false
copies_from j (r ∷ rs) = is_copying j r || copies_from j rs

-- Node `j` gave page `p` up for a request of the node in this phase, and has yet to copy it.
abbrev pub gives : (p j : ℕ) → Phase → Bool
gives p j (asking q prot rs d) = q == p && (not (prot == dsm_prot_read) && copies_from j rs)
gives p j _ = false

-- The stray writers of page `p`, but for those in `but`, are about to copy it for some node's request.
abbrev pub Lent : (n p : ℕ) → (but : ℕ → Bool) → Cluster → Type 0
Lent n p but s =
    (j : ℕ)
    → j < n
    → stray (s j) p ≡ true
    → but j ≡ false
    → (i : ℕ) × (i < n) × (gives p j (s i).phase ≡ true)

abbrev pub nobody : ℕ → Bool
nobody j = false

-- A change of one node that makes no stray writer and forgets no page that is to be copied.
abbrev pub KeepsLent : Node → Node → Type 0
KeepsLent m m' =
    (p : ℕ)
    → ((j : ℕ) → gives p j m.phase ≡ true → gives p j m'.phase ≡ true)
      × (stray m' p ≡ true → stray m p ≡ true)

module _ (n p : ℕ) (s : Cluster) (lent : Lent n p nobody s) (i : ℕ) (m : Node) where
  -- Node `i` becomes `m`, and may become a stray writer itself where `x` holds.
  pub Lent-change :
      (x : Bool)
      → ((j : ℕ) → gives p j (s i).phase ≡ true → gives p j m.phase ≡ true)
      → (stray m p ≡ true → x ≡ false → stray (s i) p ≡ true)
      → Lent n p (λ j. i == j && x) (change s i m)
  Lent-change x keeps none_new j l h but = elim (ℕ_discrete i j) [
    | yes e ↦
        let at_m : change s i m j ≡ m = ap (change s i m) (sym e) ∙ change_self s i m in
        let old = none_new (ap (λ (y : Node). stray y p) (sym at_m) ∙ h) (ground arith) in
        moved (lent j l (ap (λ k. stray (s k) p) (sym e) ∙ old) refl)
    | no ne ↦ moved (lent j l (ap (λ (y : Node). stray y p) (sym (change_ne s i m j ne)) ∙ h) refl)
  ]
    where
      moved :
          (k : ℕ) × (k < n) × (gives p j (s k).phase ≡ true)
          → (k : ℕ) × (k < n) × (gives p j (change s i m k).phase ≡ true)
      moved (k, lk, g) = (
        k,
        lk,
        elim (ℕ_discrete i k) [
          | yes e ↦
              ap (λ (y : Node). gives p j y.phase) (ap (change s i m) (sym e) ∙ change_self s i m)
              ∙ keeps j (ap (λ y. gives p j (s y).phase) e ∙ g)
          | no ne ↦ ap (λ (y : Node). gives p j y.phase) (change_ne s i m k ne) ∙ g
        ],
      )

-- The phase of node `i` changes to one that shows the stray writers that it showed, and those in `but`.
pub Lent-phase :
    (n p : ℕ) (but : ℕ → Bool) (s : Cluster)
    → Lent n p but s
    → (i : ℕ) → i < n
    → (ph : Phase)
    → ((j : ℕ) → stray (s j) p ≡ true → gives p j (s i).phase ≡ true → gives p j ph ≡ true)
    → ((j : ℕ) → stray (s j) p ≡ true → but j ≡ true → gives p j ph ≡ true)
    → Lent n p nobody (change s i (record (s i) { phase = ph }))
Lent-phase n p but s lent i hi ph keeps new j l h no_but = by_but (but j) refl
  where
    m : Node
    m = record (s i) { phase = ph }

    at_i : change s i m i ≡ m
    at_i = change_self s i m

    same : stray (change s i m j) p ≡ stray (s j) p
    same = elim (ℕ_discrete i j) [
      | yes e ↦
          ap (λ (y : Node). stray y p) (ap (change s i m) (sym e) ∙ at_i)
          ∙ ap (λ k. stray (s k) p) e
      | no ne ↦ ap (λ (y : Node). stray y p) (change_ne s i m j ne)
    ]

    old : stray (s j) p ≡ true
    old = sym same ∙ h

    by_but : (b : Bool) → but j ≡ b → (k : ℕ) × (k < n) × (gives p j (change s i m k).phase ≡ true)
    by_but true e = (i, hi, ap (λ (y : Node). gives p j y.phase) at_i ∙ new j old e)
    by_but false e =
        let (k, lk, g) = lent j l old e in
        (
          k,
          lk,
          elim (ℕ_discrete i k) [
            | yes ik ↦
                ap (λ (y : Node). gives p j y.phase) (ap (change s i m) (sym ik) ∙ at_i)
                ∙ keeps j old (ap (λ y. gives p j (s y).phase) ik ∙ g)
            | no ne ↦ ap (λ (y : Node). gives p j y.phase) (change_ne s i m k ne) ∙ g
          ],
        )

-- A thread's new state.
pub copies_from-set :
    (j : ℕ) (rs : List Request) (k : ℕ) (r : Request)
    → is_copying j (thread rs k) ≡ false
    → copies_from j rs ≡ true
    → copies_from j (set rs k r) ≡ true
copies_from-set j [] k r h e = e
copies_from-set j (x ∷ xs) zero r h e = ground arith
copies_from-set j (x ∷ xs) (suc k) r h e = ground (arith, copies_from-set j xs k r h)

pub copies_from-new :
    (j l : ℕ) (rs : List Request) (k : ℕ)
    → thread rs k ≡ sent l
    → copies_from j (set rs k (copying j)) ≡ true
copies_from-new j l [] k h = cc
copies_from-new j l (x ∷ xs) zero h = ground arith
copies_from-new j l (x ∷ xs) (suc k) h = ground (arith, copies_from-new j l xs k h)

pub copies_from-done : (j : ℕ) (rs : List Request) → all_done rs ≡ true → copies_from j rs ≡ false
copies_from-done j [] h = refl
copies_from-done j (done ∷ rs) h = copies_from-done j rs h
copies_from-done j (sent l ∷ rs) h = cc
copies_from-done j (copying l ∷ rs) h = cc
copies_from-done j (replied r ∷ rs) h = cc

pub copies_from-in_flights :
    (i j : ℕ) (rs : List Request)
    → i ≢ j
    → one_if (copies_from i rs) + one_if (copies_from j rs) ≤ in_flights rs
copies_from-in_flights i j [] ne = omega arith
copies_from-in_flights i j (r ∷ rs) ne = ground (arith, copies_from-in_flights i j rs ne)

pub gives-carried :
    (p i j : ℕ) (ph : Phase) → i ≢ j → one_if (gives p i ph) + one_if (gives p j ph) ≤ carried p ph
gives-carried p i j (asking q prot rs d) ne = ground (arith, copies_from-in_flights i j rs ne)
gives-carried p i j idle ne = omega arith
gives-carried p i j (checked q) ne = omega arith
gives-carried p i j (updating q) ne = omega arith
