-- ===== src/Dsm/Cluster/Weights.antt =====
-- src/lib/dsm_node.cpp: who holds the right to write a page. A node that owns the page holds it, and so
-- does a request to write on its way from a node that gave the page up to the node that asked.
use distributed_thread_libra.Prelude.{
  one_if, ℕ, zero, suc, ◌+◌, ◌<◌, ◌≤◌, ◌≡◌, refl, Bool, true, false, not, ◌&&◌, none, some, List,
  [], ◌∷◌, ◌==◌, if◌then◌else◌, is_some, length, get_or, set, change, arith, sum_below,
  sum_below-change, le-sum_below, add-le-sum_below, ◌≢◌, ap, change_self, change_ne, ◌∙◌,
}
use distributed_thread_libra.Dsm.Node.{
  Node, Phase, idle, checked, updating, asking, Request, sent, copying, replied, done,
  dsm_prot_read, ownership, is_owner, requests,
}
use distributed_thread_libra.Dsm.Cluster.{Cluster, all_done, thread}

abbrev pub in_flight : Request → ℕ
in_flight (sent j) = 0
in_flight (copying j) = 1
in_flight (replied none) = 0
in_flight (replied (some c)) = 1
in_flight done = 0

abbrev pub in_flights : List Request → ℕ
in_flights [] = 0
in_flights (r ∷ rs) = in_flight r + in_flights rs

-- What a `grant_prot` that asks to write page `p` has been given.
abbrev pub carried : ℕ → Phase → ℕ
carried p (asking q prot rs d) =
    if q == p && not (prot == dsm_prot_read) then in_flights rs + one_if (is_some d) else 0
carried p _ = 0

unfoldable pub weight : ℕ → Node → ℕ
weight p m = one_if (is_owner m p) + carried p m.phase

unfoldable pub tokens : (n page : ℕ) → Cluster → ℕ
tokens n p s = sum_below (λ i. weight p (s i)) n

pub tokens-change :
    (n p : ℕ) (s : Cluster) (i : ℕ) (m : Node)
    → i < n
    → tokens n p (change s i m) + weight p (s i) ≡ tokens n p s + weight p m
unfolding tokens
tokens-change n p s i m l =
    sum_below-change (λ j. weight p (change s i m j)) (λ j. weight p (s j)) i n l
      (λ j ne. ap (weight p) (change_ne s i m j ne))
    ∙ ap (λ x. tokens n p s + weight p x) (change_self s i m)

pub weight-le-tokens : (n p : ℕ) (s : Cluster) (i : ℕ) → i < n → weight p (s i) ≤ tokens n p s
unfolding tokens
weight-le-tokens n p s i l = le-sum_below (λ j. weight p (s j)) i n l

pub add-weights-le-tokens :
    (n p : ℕ) (s : Cluster) (i j : ℕ)
    → i < n
    → j < n
    → i ≢ j
    → weight p (s i) + weight p (s j) ≤ tokens n p s
unfolding tokens
add-weights-le-tokens n p s i j l m ne = add-le-sum_below (λ k. weight p (s k)) i j n l m ne

-- What a node's phase says of its page table.
abbrev pub IsSound : List ℕ → Phase → Type 0
IsSound info idle = Unit
IsSound info (checked p) = p < length info
IsSound info (updating p) = (p < length info) × (ownership (get_or info p 0) ≡ true)
IsSound info (asking p prot rs d) = (p < length info) × (ownership (get_or info p 0) ≡ false)

abbrev pub is_done : Request → Bool
is_done done = true
is_done _ = false

pub in_flights-set :
    (rs : List Request) (k : ℕ) (r : Request)
    → is_done (thread rs k) ≡ false
    → in_flights (set rs k r) + in_flight (thread rs k) ≡ in_flights rs + in_flight r
in_flights-set [] k r h = cc
in_flights-set (x ∷ xs) zero r h = omega arith
in_flights-set (x ∷ xs) (suc k) r h = omega (arith, in_flights-set xs k r h)

pub in_flights-requests : (js : List ℕ) → in_flights (requests js) ≡ 0
in_flights-requests [] = refl
in_flights-requests (j ∷ js) = omega (arith, in_flights-requests js)

pub in_flights-done : (rs : List Request) → all_done rs ≡ true → in_flights rs ≡ 0
in_flights-done [] h = refl
in_flights-done (done ∷ rs) h = omega (arith, in_flights-done rs h)
in_flights-done (sent j ∷ rs) h = cc
in_flights-done (copying j ∷ rs) h = cc
in_flights-done (replied r ∷ rs) h = cc
