-- ===== src/Dsm/Cluster/Race.antt =====
-- src/lib/dsm_node.cpp: a request to write that is answered while the owner stands between the test and
-- the write of `update_prot`, which takes no lock.
use distributed_thread_libra.Prelude.{
  ℕ, suc, ◌+◌, ◌<◌, ◌≡◌, ◌≢◌, refl, true, false, Option, some, List, [], ◌∷◌, ◌==◌, set, get_or-set,
  length-set, change, arith, ap, ◌∙◌, change_self, change_ne, sym, subst, lt→ltb,
}
use distributed_thread_libra.Dsm.Node.{
  Node, Phase, updating, asking, Request, sent, copying, dsm_prot_read, response_write,
  update_prot_set, is_owner, set_info,
}
use distributed_thread_libra.Dsm.Cluster.{
  Cluster, answers, updates, thread, set_thread, act, step, run, answers_in, updates_in, answer,
}
use distributed_thread_libra.Dsm.Cluster.Weights.{
  tokens, tokens-change, weight, carried, in_flights-set,
}
use distributed_thread_libra.Dsm.Cluster.Moves.{weight-phase}

module _ (n : ℕ) (s : Cluster) (i j k p prot : ℕ) {rs : List Request} {d : Option ℕ} (hi : i < n)
    (hj : j < n) (asks : (s i).phase ≡ asking p prot rs d)
    (to_write : (prot == dsm_prot_read) ≡ false) (to_j : thread rs k ≡ sent j)
    (inside : (s j).phase ≡ updating p) (owns : is_owner (s j) p ≡ true) where
  apart : j ≢ i
  apart same = cc (subst (λ l. (s l).phase ≡ updating p) same inside)

  abbrev given : Cluster
  given = set_thread (change s j (set_info (s j) p dsm_prot_read)) i p prot rs d k (copying j)

  answered : step n s (answers i k) ≡ some given
  unfolding step act response_write
  answered = rw (lt→ltb i n hi) (
      ap (answers_in n s i k) asks
      ∙ ap (answer n s i p prot rs d k) to_j
      ∙ rw (lt→ltb j n hj, to_write, owns) refl)

  given_j : given j ≡ set_info (s j) p dsm_prot_read
  given_j =
      change_ne (change s j (set_info (s j) p dsm_prot_read)) i _ j (λ e. apart (sym e))
      ∙ change_self s j (set_info (s j) p dsm_prot_read)

  abbrev written : Cluster
  written = change given j (update_prot_set (given j) p)

  updated : step n given (updates j) ≡ some written
  unfolding step act
  updated =
      rw (lt→ltb j n hj) (ap (updates_in given j) (ap (λ (x : Node). x.phase) given_j ∙ inside))

  before_i : (change s j (set_info (s j) p dsm_prot_read) i) ≡ s i
  before_i = change_ne s j (set_info (s j) p dsm_prot_read) i apart

  share_j : weight p (s j) ≡ 1
  unfolding weight
  share_j = ground arith

  left_j : weight p (set_info (s j) p dsm_prot_read) ≡ 0
  unfolding weight
  left_j = ground (arith, get_or-set (s j).page_info p p 1 0)

  again_j : weight p (update_prot_set (set_info (s j) p dsm_prot_read) p) ≡ 1
  unfolding weight update_prot_set
  again_j = ground (
    arith,
    length-set (s j).page_info p 1,
    length-set (set (s j).page_info p 1) p 7,
    get_or-set (set (s j).page_info p 1) p p 7 0,
  )

  tokens-given : tokens n p given ≡ tokens n p s
  tokens-given = omega (
    arith,
    tokens-change n p s j (set_info (s j) p dsm_prot_read) hj,
    share_j,
    left_j,
    tokens-change n p between i (record (between i) { phase = asks_more }) hi,
    weight-phase p (between i) asks_more,
    ap (λ (x : Node). carried p x.phase) before_i ∙ ap (carried p) asks,
    carries_more,
  )
    where
      between : Cluster
      between = change s j (set_info (s j) p dsm_prot_read)

      asks_more : Phase
      asks_more = asking p prot (set rs k (copying j)) d

      carries_more : carried p asks_more ≡ carried p (asking p prot rs d) + 1
      carries_more = ground (arith, in_flights-set rs k (copying j))

  written_j : written j ≡ update_prot_set (set_info (s j) p dsm_prot_read) p
  written_j =
      change_self given j (update_prot_set (given j) p)
      ∙ ap (λ (x : Node). update_prot_set x p) given_j

  owner_again : is_owner (update_prot_set (set_info (s j) p dsm_prot_read) p) p ≡ true
  unfolding update_prot_set
  owner_again = ground (
    arith,
    length-set (s j).page_info p 1,
    length-set (set (s j).page_info p 1) p 7,
    get_or-set (set (s j).page_info p 1) p p 7 0,
  )

  -- Node `j` owns page `p` and stands between the test and the write of `update_prot`; the request of
  -- thread `k` of node `i` to write `p` is under way to `j`. Then the request can be answered and
  -- `update_prot` finished, after which `j` owns the page and one more right to write it exists than
  -- before.
  pub race-tokens :
      (t : Cluster) × (run n s (answers i k ∷ updates j ∷ []) ≡ some t)
      × (is_owner (t j) p ≡ true)
      × (tokens n p t ≡ suc (tokens n p s))
  unfolding run
  race-tokens = (
    written,
    rw (answered, run) (rw (updated, run)),
    ap (λ (x : Node). is_owner x p) written_j ∙ owner_again,
    omega (
      arith,
      tokens-change n p given j (update_prot_set (given j) p) hj,
      ap (weight p) given_j ∙ left_j,
      ap (λ (x : Node). weight p (update_prot_set x p)) given_j ∙ again_j,
      tokens-given,
    ),
  )
