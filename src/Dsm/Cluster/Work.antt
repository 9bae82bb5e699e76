-- ===== src/Dsm/Cluster/Work.antt =====
-- src/lib/dsm_node.cpp: the events that the handlers still have before them. Each event of a handler takes one off.
use distributed_thread_libra.Prelude.{
  ℕ, zero, suc, ◌+◌, ◌<◌, ◌≤◌, ◌≡◌, refl, Bool, true, false, Option, none, some, List, [], ◌∷◌, ltb,
  set, change, change_self, change_ne, sum_below, sum_below-change, arith, ap, ◌∙◌, sym, ℕ_discrete,
  inl, inr, Bool-cases,
}
use distributed_thread_libra.Dsm.Node.{
  Node, Phase, idle, checked, updating, asking, Request, sent, copying, replied, done,
  response_read, response_write, response_write_copy, update_prot_test, update_prot_set,
  grant_prot_end, is_owner, ownership, prot_check, receive,
}
use distributed_thread_libra.Dsm.Cluster.{
  Cluster, Event, stores, syncs, faults, tests, updates, answers, copies, receives, ends, thread,
  set_thread, step, actor,
}
use distributed_thread_libra.Dsm.Cluster.Cases.{Obliges, act-cases, after_write}

-- An event of the program, which no handler waits for.
abbrev pub is_program : Event → Bool
is_program (stores i p c) = true
is_program (syncs i total) = true
is_program (faults i p w) = true
is_program e = false

abbrev pub work : Request → ℕ
work (sent j) = 3
work (copying j) = 2
work (replied r) = 1
work done = 0

abbrev pub works : List Request → ℕ
works [] = 0
works (r ∷ rs) = work r + works rs

abbrev pub left_in : Phase → ℕ
left_in idle = 0
left_in (checked p) = 2
left_in (updating p) = 1
left_in (asking p prot rs d) = 1 + works rs

pub work_left : (n : ℕ) → Cluster → ℕ
work_left n s = sum_below (λ i. left_in (s i).phase) n

pub work_left-idle : (n : ℕ) (s : Cluster) → ((i : ℕ) → (s i).phase ≡ idle) → work_left n s ≡ 0
unfolding work_left sum_below
work_left-idle zero s h = refl
work_left-idle (suc n) s h = omega (arith, work_left-idle n s h, ap left_in (h n))

works-set :
    (rs : List Request) (k : ℕ) (r : Request)
    → 1 ≤ work (thread rs k)
    → works (set rs k r) + work (thread rs k) ≡ works rs + work r
works-set [] k r h = absurd (omega (arith, h))
works-set (r' ∷ rs) zero r h = omega arith
works-set (r' ∷ rs) (suc k) r h = omega (arith, works-set rs k r h)

module _ (n : ℕ) (s : Cluster) where
  pub node-change :
      (i : ℕ) (m : Node)
      → i < n
      → work_left n (change s i m) + left_in (s i).phase ≡ work_left n s + left_in m.phase
  unfolding work_left
  node-change i m l =
      sum_below-change (λ j. left_in (change s i m j).phase) (λ j. left_in (s j).phase) i n l
        (λ j ne. ap (λ (x : Node). left_in x.phase) (change_ne s i m j ne))
      ∙ ap (λ (x : Node). work_left n s + left_in x.phase) (change_self s i m)

  phase-change : (j i : ℕ) (m : Node) → m.phase ≡ (s j).phase → (change s j m i).phase ≡ (s i).phase
  phase-change j i m same = elim (ℕ_discrete j i) [
    | yes e ↦
        ap (λ k. (change s j m k).phase) (sym e)
        ∙ ap (λ (x : Node). x.phase) (change_self s j m)
        ∙ same
        ∙ ap (λ k. (s k).phase) e
    | no ne ↦ ap (λ (x : Node). x.phase) (change_ne s j m i ne)
  ]

-- The answering node `j` stays where it is in its handler; thread `k` of node `i` goes on to `r`.
thread-Work :
    (n : ℕ) (s : Cluster) (i j k p prot : ℕ) (rs : List Request) (d d' : Option ℕ) (m : Node)
    (r : Request)
    → i < n
    → j < n
    → m.phase ≡ (s j).phase
    → (s i).phase ≡ asking p prot rs d
    → suc (work r) ≤ work (thread rs k)
    → suc (work_left n (set_thread (change s j m) i p prot rs d' k r)) ≤ work_left n s
thread-Work n s i j k p prot rs d d' m r hi hj same e less =
    let u = change s j m in
    let m' : Node = record (u i) { phase = asking p prot (set rs k r) d' } in
    omega (
      arith,
      node-change n s j m hj,
      ap left_in same,
      node-change n u i m' hi,
      ap left_in (phase-change n s j i m same ∙ e),
      works-set rs k r (omega arith),
      less,
    )

response_read-phase : (m : Node) (p : ℕ) → (response_read m p).0.phase ≡ m.phase
unfolding response_read
response_read-phase m p = elim (Bool-cases (is_owner m p)) [ inl b ↦ rw b | inr b ↦ rw b ]

response_write-phase : (m : Node) (p : ℕ) → (response_write m p).0.phase ≡ m.phase
unfolding response_write
response_write-phase m p = elim (Bool-cases (is_owner m p)) [ inl b ↦ rw b | inr b ↦ rw b ]

abbrev pub Less : (n : ℕ) → Cluster → Cluster → Type 0
Less n s t = suc (work_left n t) ≤ work_left n s

update_prot_test-left : (m : Node) (p : ℕ) → left_in (update_prot_test m p).phase ≤ 1
unfolding update_prot_test
update_prot_test-left m p = elim (Bool-cases (ownership (prot_check m p))) [
  | inl b ↦ rw b (omega arith)
  | inr b ↦ rw b (omega arith)
]

grant_prot_end-left :
    (m : Node) (p prot : ℕ) (d : Option ℕ) → left_in (grant_prot_end m p prot d).phase ≡ 0
unfolding grant_prot_end
grant_prot_end-left m p prot none = refl
grant_prot_end-left m p prot (some c) = refl

module _ (n : ℕ) (s : Cluster) where
  written-Less :
      (i j k p prot : ℕ) (rs : List Request) (d : Option ℕ)
      → i < n
      → j < n
      → (s i).phase ≡ asking p prot rs d
      → thread rs k ≡ sent j
      → Less n s (after_write s i j p prot rs d k)
  written-Less i j k p prot rs d hi hj e q = elim (Bool-cases (response_write (s j) p).1) [
    | inl b ↦ rw b (
        thread-Work n s i j k p prot rs d d (response_write (s j) p).0 (copying j) hi hj
          (response_write-phase (s j) p) e (rw q (omega arith)))
    | inr b ↦ rw b (
        thread-Work n s i j k p prot rs d d (response_write (s j) p).0 (replied none) hi hj
          (response_write-phase (s j) p) e (rw q (omega arith)))
  ]

  Obliges-Less : (e : Event) → is_program e ≡ false → actor e < n → Obliges n s (Less n s) e
  unfolding update_prot_set response_write_copy
  Obliges-Less (stores i p c) h hi = absurd cc
  Obliges-Less (syncs i total) h hi = absurd cc
  Obliges-Less (faults i p w) h hi = absurd cc
  Obliges-Less (tests i) h hi = λ p e. omega (
    arith,
    node-change n s i (update_prot_test (s i) p) hi,
    ap left_in e,
    update_prot_test-left (s i) p,
  )
  Obliges-Less (updates i) h hi =
      λ p e. omega (arith, node-change n s i (update_prot_set (s i) p) hi, ap left_in e)
  Obliges-Less (answers i k) h hi = λ p prot rs d j e q hj. (
    λ read.
        thread-Work n s i j k p prot rs d d (response_read (s j) p).0
          (replied (response_read (s j) p).1) hi hj (response_read-phase (s j) p) e
          (rw q (omega arith)),
    λ write. written-Less i j k p prot rs d hi hj e q,
  )
  Obliges-Less (copies i k) h hi = λ p prot rs d j e q hj.
      thread-Work n s i j k p prot rs d d (response_write_copy (s j) p).0
        (replied (some (response_write_copy (s j) p).1)) hi hj refl e (rw q (omega arith))
  Obliges-Less (receives i k) h hi = λ p prot rs d r e q.
      let m : Node = record (s i) { phase = asking p prot (set rs k done) (receive r d) } in
      omega (
        arith,
        node-change n s i m hi,
        ap left_in e,
        works-set rs k done (rw q (omega arith)),
        ap work q,
      )
  Obliges-Less (ends i) h hi = λ p prot rs d e done_all. omega (
    arith,
    node-change n s i (grant_prot_end (s i) p prot d) hi,
    ap left_in e,
    grant_prot_end-left (s i) p prot d,
  )

  pub step-Less :
      (e : Event) {t : Cluster} → is_program e ≡ false → step n s e ≡ some t → Less n s t
  unfolding step
  step-Less e h q = elim (Bool-cases (ltb (actor e) n)) [
    | inl l ↦ act-cases n s (Less n s) e (Obliges-Less e h (ground arith)) (rw (l, step) at q)
    | inr g ↦ cc
  ]
