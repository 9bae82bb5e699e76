-- ===== src/Dsm/Cluster/LastStored.antt =====
-- src/lib/dsm_node.cpp: through a run, the owner of a page has the value that was written last.
use distributed_thread_libra.Prelude.{
  ℕ, ◌<◌, ◌≤◌, ◌≡◌, ◌≢◌, refl, true, not, ◌&&◌, Option, none, some, List, [], ◌∷◌, ◌==◌, arith, ap,
  ◌∙◌, sym, subst,
}
use distributed_thread_libra.Dsm.Node.{asking, Request, replied, is_owner, make_node, dsm_prot_read}
use distributed_thread_libra.Dsm.Cluster.{Cluster, Event, step, run, init, thread}
use distributed_thread_libra.Dsm.Cluster.Weights.{tokens}
use distributed_thread_libra.Dsm.Cluster.Writers.{Lent, nobody}
use distributed_thread_libra.Dsm.Cluster.Moves.{Inv}
use distributed_thread_libra.Dsm.Cluster.Ownership.{races}
use distributed_thread_libra.Dsm.Cluster.Runs.{is_calm, step-Good, Inv-init, tokens-init, Lent-init}
use distributed_thread_libra.Dsm.Cluster.Values.{
  fresh, request_says, all_say-thread, phase_says, node_says, Current,
}
use distributed_thread_libra.Dsm.Cluster.Coherence.{stored, last_stored, step-Current}

run-Current :
    (n p v : ℕ) (es : List Event) (s : Cluster)
    → Inv n s
    → ((q : ℕ) → tokens n q s ≤ 1)
    → Lent n p nobody s
    → Current n p v s
    → {t : Cluster} → is_calm n s es ≡ true
    → run n s es ≡ some t
    → Current n p (last_stored p es v) t
unfolding run
run-Current n p v [] s inv few lent cur {t} calm h =
    let same : s ≡ t = cc in subst (Current n p v) same cur
run-Current n p v (e ∷ es) s inv few lent cur {t} calm h =
    go (step n s e) refl (λ u a b c f. run-Current n p (stored p e v) es u a b c f) calm h
  where
    go :
        (r : Option Cluster)
        → step n s e ≡ r
        → ((u : Cluster)
            → Inv n u
            → ((q : ℕ) → tokens n q u ≤ 1)
            → Lent n p nobody u
            → Current n p (stored p e v) u
            → is_calm n u es ≡ true
            → run n u es ≡ some t
            → Current n p (last_stored p es (stored p e v)) t)
        → (not (races s e) && elim r [ none ↦ true | some u ↦ is_calm n u es ]) ≡ true
        → elim r [ none ↦ none | some u ↦ run n u es ] ≡ some t
        → Current n p (last_stored p es (stored p e v)) t
    go none q rec c h' = cc
    go (some u) q rec c h' =
        let (inv', same, kept) = step-Good n s inv few e (ground arith) q in
        rec u inv' (λ x. rw (same x) (few x)) (kept p lent)
          (step-Current n p v s inv (few p) lent cur e q) (ground arith) h'

module _ (n pages : ℕ) (conn : ℕ → List ℕ) (mem : ℕ → ℕ) where
  Current-init : (p : ℕ) → Current n p (mem p) (init pages conn mem)
  unfolding init make_node
  Current-init p i l = ground arith

  module _ (pos : 0 < n) (es : List Event) {t : Cluster}
      (calm : is_calm n (init pages conn mem) es ≡ true)
      (ran : run n (init pages conn mem) es ≡ some t) (p i : ℕ) (hi : i < n) where
    abbrev value : ℕ
    value = last_stored p es (mem p)

    says : node_says p value (λ x. fresh p value (t x)) (t i) ≡ true
    says =
        run-Current n p (mem p) es (init pages conn mem) (Inv-init n pages conn mem)
          (λ q. ground (arith, tokens-init n pages conn mem pos q)) (Lent-init n pages conn mem p)
          (Current-init p) calm ran i hi

    -- After a run from `init` in which no request to write is answered while its page's owner stands between
    -- the test and the write of `update_prot`, and in which each `user_mprotect` and each request for one is carried
    -- out with its own arguments, a node that owns a page has in its memory the value that a program of any node
    -- wrote there last, or the value of the start where none wrote.
    pub owner_value : is_owner (t i) p ≡ true → (t i).mem p ≡ last_stored p es (mem p)
    owner_value o = ground (arith, says)

    -- So has an answer on its way to a node that asked to write the page.
    pub answer_value :
        (prot k c : ℕ) (rs : List Request) (d : Option ℕ)
        → (t i).phase ≡ asking p prot rs d
        → prot ≢ dsm_prot_read
        → thread rs k ≡ replied (some c)
        → c ≡ last_stored p es (mem p)
    answer_value prot k c rs d e w h =
        let said : phase_says p value (λ x. fresh p value (t x)) (asking p prot rs d) ≡ true =
          ap (phase_says p value (λ x. fresh p value (t x))) (sym e) ∙ ground (arith, says) in
        let right : request_says (λ x. fresh p value (t x)) value (thread rs k) ≡ true =
          all_say-thread (λ x. fresh p value (t x)) value rs k (ground arith) in
        let it : (c == value) ≡ true =
          ap (request_says (λ x. fresh p value (t x)) value) (sym h) ∙ right in
        ground arith
