-- ===== src/Dsm/Cluster/Copies.antt =====
-- src/lib/dsm_node.cpp: what each handler of a node does to the bytes of a page.
use distributed_thread_libra.Prelude.{
  ℕ, ◌<◌, ◌≡◌, Bool, true, false, not, ◌&&◌, Option, none, some, List, ◌==◌, length, set,
  Bool-cases, inl, inr, get_or, arith, ap, ◌∙◌, sym, get_or-set, length-set,
}
use distributed_thread_libra.Dsm.Node.{
  Node, Phase, idle, checked, updating, asking, Request, dsm_prot_read, ownership, prot_check,
  handler, update_prot_test, update_prot_set, grant_prot_end, response_read, response_write, sync,
}
use distributed_thread_libra.Dsm.Cluster.{thread}
use distributed_thread_libra.Dsm.Cluster.Weights.{IsSound}
use distributed_thread_libra.Dsm.Cluster.Values.{
  fresh, request_says, all_say, answer_says, phase_says, asks_to_read, node_says, all_say-set,
  all_say-thread, all_say-requests,
}

-- The node still has the value where it had it, and still says nothing wrong.
abbrev pub Stays : (p v : ℕ) → (ℕ → Bool) → Node → Node → Type 0
Stays p v F m m' = (fresh p v m ≡ true → fresh p v m' ≡ true) × (node_says p v F m' ≡ true)

reads-not_owned :
    (p : ℕ) (info : List ℕ) (ph : Phase)
    → IsSound info ph
    → asks_to_read p ph ≡ true
    → ownership (get_or info p 0) ≡ false
reads-not_owned p info (asking q prot rs d) (l, o) h = ground arith
reads-not_owned p info idle w h = cc
reads-not_owned p info (checked q) w h = cc
reads-not_owned p info (updating q) w h = cc

module _ (p v : ℕ) (F : ℕ → Bool) (m : Node) (says : node_says p v F m ≡ true) where
  pub sync-Stays : (total : ℕ) → m.phase ≡ idle → Stays p v F m (sync m total)
  unfolding sync
  sync-Stays total e = (λ f. f, says)

  pub handler-Stays : (q : ℕ) → m.phase ≡ idle → Stays p v F m (handler m q)
  unfolding handler
  handler-Stays q e = (λ f. ground arith, ground (arith, all_say-requests F v m.conn))

  pub update_prot_test-Stays : (q : ℕ) → m.phase ≡ checked q → Stays p v F m (update_prot_test m q)
  unfolding update_prot_test
  update_prot_test-Stays q e = (λ f. ground arith, ground arith)

  pub update_prot_set-Stays :
      (q : ℕ)
      → m.phase ≡ updating q
      → q < length m.page_info
      → ownership (prot_check m q) ≡ true
      → Stays p v F m (update_prot_set m q)
  unfolding update_prot_set
  update_prot_set-Stays q e l o = (
    λ f. ground (arith, get_or-set m.page_info q p 7 0 l),
    ground (arith, get_or-set m.page_info q p 7 0 l, length-set m.page_info q 7),
  )

  pub grant_prot_end-Stays :
      (q prot : ℕ) (rs : List Request) (d : Option ℕ)
      → m.phase ≡ asking q prot rs d
      → q < length m.page_info
      → ownership (prot_check m q) ≡ false
      → Stays p v F m (grant_prot_end m q prot d)
  unfolding grant_prot_end
  grant_prot_end-Stays q prot rs none e l o = (λ f. ground arith, ground arith)
  grant_prot_end-Stays q prot rs (some c) e l o = (
    λ f. ground (arith, get_or-set m.page_info q p 7 0 l, get_or-set m.page_info q p 1 0 l),
    ground (
      arith,
      get_or-set m.page_info q p 7 0 l,
      length-set m.page_info q 7,
      get_or-set m.page_info q p 1 0 l,
      length-set m.page_info q 1,
    ),
  )

  pub response_read-Stays : (q : ℕ) → Stays p v F m (response_read m q).0
  unfolding response_read
  response_read-Stays q = (λ f. ground arith, ground arith)

  -- A node that gives the page up keeps its value.
  pub response_write-Stays :
      (q : ℕ) → IsSound m.page_info m.phase → Stays p v F m (response_write m q).0
  unfolding response_write
  response_write-Stays q sound = (
    λ f. ground (arith, get_or-set m.page_info q p 1 0),
    ground (
      arith,
      get_or-set m.page_info q p 1 0,
      length-set m.page_info q 1,
      reads-not_owned p m.page_info m.phase sound,
    ),
  )

  pub response_write-fresh : (response_write m p).1 ≡ true → fresh p v (response_write m p).0 ≡ true
  unfolding response_write
  response_write-fresh given = ground (arith, get_or-set m.page_info p p 1 0)

  -- A thread's new state that says nothing wrong, where the request is to write the page.
  pub thread-says :
      (q prot : ℕ) (rs : List Request) (d d' : Option ℕ) (k : ℕ) (r : Request)
      → m.phase ≡ asking q prot rs d
      → (q ≡ p
          → (prot == dsm_prot_read) ≡ false
          → request_says F v (thread rs k) ≡ true
          → answer_says v d ≡ true
          → (request_says F v r ≡ true) × (answer_says v d' ≡ true))
      → node_says p v F (record m { phase = asking q prot (set rs k r) d' }) ≡ true
  thread-says q prot rs d d' k r e right =
      elim (Bool-cases (q == p && not (prot == dsm_prot_read))) [
        | inl writes ↦
            let before : phase_says p v F (asking q prot rs d) ≡ true =
              ap (phase_says p v F) (sym e) ∙ ground arith in
            let said : all_say F v rs ≡ true = ground arith in
            let (new, ans) =
              right (ground arith) (ground arith) (all_say-thread F v rs k said) (ground arith) in
            ground (arith, all_say-set F v rs k r said new)
        | inr reads ↦ ground arith
      ]
