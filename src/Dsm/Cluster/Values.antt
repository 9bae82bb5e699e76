-- ===== src/Dsm/Cluster/Values.antt =====
-- src/lib/dsm_node.cpp: the bytes of a page. Whoever holds the right to write page `p` has the value `v` for it: the
-- owner in its memory, an answer on its way, or the node that has yet to copy the page for an answer.
use distributed_thread_libra.Prelude.{
  ℕ, zero, suc, ◌<◌, ◌≤◌, ◌≡◌, refl, Bool, true, false, not, ◌&&◌, ◌||◌, Option, none, some, List,
  [], ◌∷◌, ◌==◌, set, arith, ap, ◌∙◌, ℕ_discrete, sym,
}
use distributed_thread_libra.Dsm.Node.{
  Node, Phase, idle, checked, updating, asking, Request, sent, copying, replied, done, requests,
  readable, dsm_prot_read, prot_check, is_owner,
}
use distributed_thread_libra.Dsm.Cluster.{Cluster, thread}
use distributed_thread_libra.Dsm.Cluster.Weights.{in_flights, carried}
use distributed_thread_libra.Dsm.Cluster.Writers.{copies_from, gives}

-- The node has the value in its memory, and its entry of the page may be read.
abbrev pub fresh : (p v : ℕ) → Node → Bool
fresh p v m = readable (prot_check m p) && (m.mem p == v)

-- What a request to write brings, or will bring, is `v`; `F` tells which nodes have the value.
abbrev pub request_says : (ℕ → Bool) → (v : ℕ) → Request → Bool
request_says F v (copying j) = F j
request_says F v (replied (some c)) = c == v
request_says F v _ = true

abbrev pub all_say : (ℕ → Bool) → (v : ℕ) → List Request → Bool
all_say F v [] = true
all_say F v (r ∷ rs) = request_says F v r && all_say F v rs

abbrev pub answer_says : (v : ℕ) → Option ℕ → Bool
answer_says v none = true
answer_says v (some c) = c == v

abbrev pub phase_says : (p v : ℕ) → (ℕ → Bool) → Phase → Bool
phase_says p v F (asking q prot rs d) =
    not (q == p) || ((prot == dsm_prot_read) || (all_say F v rs && answer_says v d))
phase_says p v F _ = true

-- The node asks to read the page.
abbrev pub asks_to_read : (p : ℕ) → Phase → Bool
asks_to_read p (asking q prot rs d) = q == p && (prot == dsm_prot_read)
asks_to_read p _ = false

abbrev pub node_says : (p v : ℕ) → (ℕ → Bool) → Node → Bool
node_says p v F m =
    (not (is_owner m p) || (m.mem p == v))
    && (phase_says p v F m.phase
        && (not (asks_to_read p m.phase) || not (readable (prot_check m p))))

abbrev pub Current : (n p v : ℕ) → Cluster → Type 0
Current n p v s = (i : ℕ) → i < n → node_says p v (λ j. fresh p v (s j)) (s i) ≡ true

module _ (F G : ℕ → Bool) (v : ℕ) (grows : (j : ℕ) → F j ≡ true → G j ≡ true) where
  all_say_mono : (rs : List Request) → all_say F v rs ≡ true → all_say G v rs ≡ true
  all_say_mono [] h = refl
  all_say_mono (copying j ∷ rs) h = ground (arith, all_say_mono rs, grows j)
  all_say_mono (sent j ∷ rs) h = all_say_mono rs h
  all_say_mono (replied (some c) ∷ rs) h = ground (arith, all_say_mono rs)
  all_say_mono (replied none ∷ rs) h = all_say_mono rs h
  all_say_mono (done ∷ rs) h = all_say_mono rs h

  phase_says_mono : (p : ℕ) (ph : Phase) → phase_says p v F ph ≡ true → phase_says p v G ph ≡ true
  phase_says_mono p (asking q prot rs d) h = ground (arith, all_say_mono rs)
  phase_says_mono p idle h = refl
  phase_says_mono p (checked q) h = refl
  phase_says_mono p (updating q) h = refl

  pub node_says_mono : (p : ℕ) (m : Node) → node_says p v F m ≡ true → node_says p v G m ≡ true
  node_says_mono p m h = ground (arith, phase_says_mono p m.phase)

module _ (F : ℕ → Bool) (v : ℕ) where
  pub all_say-set :
      (rs : List Request) (k : ℕ) (r : Request)
      → all_say F v rs ≡ true
      → request_says F v r ≡ true
      → all_say F v (set rs k r) ≡ true
  all_say-set [] k r h e = h
  all_say-set (x ∷ xs) zero r h e = ground arith
  all_say-set (x ∷ xs) (suc k) r h e = ground (arith, all_say-set xs k r)

  pub all_say-thread :
      (rs : List Request) (k : ℕ) → all_say F v rs ≡ true → request_says F v (thread rs k) ≡ true
  all_say-thread [] k h = refl
  all_say-thread (x ∷ xs) zero h = ground arith
  all_say-thread (x ∷ xs) (suc k) h = all_say-thread xs k (ground arith)

  pub all_say-requests : (js : List ℕ) → all_say F v (requests js) ≡ true
  all_say-requests [] = refl
  all_say-requests (j ∷ js) = all_say-requests js

  all_say-nothing : (rs : List Request) → in_flights rs ≡ 0 → all_say F v rs ≡ true
  all_say-nothing [] h = refl
  all_say-nothing (sent j ∷ rs) h = all_say-nothing rs (omega arith)
  all_say-nothing (copying j ∷ rs) h = absurd (omega arith)
  all_say-nothing (replied none ∷ rs) h = all_say-nothing rs (omega arith)
  all_say-nothing (replied (some c) ∷ rs) h = absurd (omega arith)
  all_say-nothing (done ∷ rs) h = all_say-nothing rs (omega arith)

  all_say-copying :
      (i : ℕ) (rs : List Request)
      → F i ≡ true
      → copies_from i rs ≡ true
      → in_flights rs ≤ 1
      → (all_say F v rs ≡ true) × (1 ≤ in_flights rs)
  all_say-copying i [] f h l = cc
  all_say-copying i (copying j ∷ rs) f h l = elim (ℕ_discrete j i) [
    | yes e ↦ (ground (arith, all_say-nothing rs (omega arith), ap F e), omega arith)
    | no ne ↦
        let (a, b) = all_say-copying i rs f (ground arith) (omega arith) in absurd (omega arith)
  ]
  all_say-copying i (replied (some c) ∷ rs) f h l =
      let (a, b) = all_say-copying i rs f h (omega arith) in absurd (omega arith)
  all_say-copying i (sent j ∷ rs) f h l =
      let (a, b) = all_say-copying i rs f h (omega arith) in (a, omega arith)
  all_say-copying i (replied none ∷ rs) f h l =
      let (a, b) = all_say-copying i rs f h (omega arith) in (a, omega arith)
  all_say-copying i (done ∷ rs) f h l =
      let (a, b) = all_say-copying i rs f h (omega arith) in (a, omega arith)

  -- A request that carries nothing says nothing wrong, and one to a node with the value neither.
  pub phase_says-nothing : (p : ℕ) (ph : Phase) → carried p ph ≡ 0 → phase_says p v F ph ≡ true
  phase_says-nothing p (asking q prot rs none) h = ground (arith, all_say-nothing rs)
  phase_says-nothing p (asking q prot rs (some c)) h = ground arith
  phase_says-nothing p idle h = refl
  phase_says-nothing p (checked q) h = refl
  phase_says-nothing p (updating q) h = refl

  pub phase_says-gives :
      (p i : ℕ) (ph : Phase)
      → F i ≡ true
      → gives p i ph ≡ true
      → carried p ph ≤ 1
      → phase_says p v F ph ≡ true
  phase_says-gives p i (asking q prot rs none) f g l = ground (arith, all_say-copying i rs f)
  phase_says-gives p i (asking q prot rs (some c)) f g l = ground (arith, all_say-copying i rs f)
  phase_says-gives p i idle f g l = refl
  phase_says-gives p i (checked q) f g l = refl
  phase_says-gives p i (updating q) f g l = refl

  pub gives-says :
      (p i : ℕ) (ph : Phase) → gives p i ph ≡ true → phase_says p v F ph ≡ true → F i ≡ true
  gives-says p i (asking q prot rs d) g h = of_thread rs (ground arith) (ground arith)
    where
      of_thread : (rs : List Request) → copies_from i rs ≡ true → all_say F v rs ≡ true → F i ≡ true
      of_thread [] c a = cc
      of_thread (copying j ∷ rs) c a = elim (ℕ_discrete j i) [
        | yes e ↦ ap F (sym e) ∙ ground arith
        | no ne ↦ of_thread rs (ground arith) (ground arith)
      ]
      of_thread (sent j ∷ rs) c a = of_thread rs c a
      of_thread (replied r ∷ rs) c a = of_thread rs c (ground arith)
      of_thread (done ∷ rs) c a = of_thread rs c a
  gives-says p i idle g h = cc
  gives-says p i (checked q) g h = cc
  gives-says p i (updating q) g h = cc
