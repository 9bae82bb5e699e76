-- ===== src/Dsm/Cluster/Bound.antt =====
-- src/lib/dsm_node.cpp: how much the handlers of all nodes do for the accesses of the programs.
use distributed_thread_libra.Prelude.{
  ℕ, ◌+◌, ◌*◌, ◌<◌, ◌≤◌, ◌≡◌, refl, Bool, true, false, Option, none, some, List, [], ◌∷◌, ltb,
  length, change, arith, ap, inl, inr, Bool-cases, if◌then◌else◌,
}
use distributed_thread_libra.Dsm.Node.{
  Node, handler, requests, ownership, prot_check, make_node, sync,
}
use distributed_thread_libra.Dsm.Cluster.{
  Cluster, Event, stores, syncs, faults, tests, updates, answers, copies, receives, ends, step, run,
  actor, init,
}
use distributed_thread_libra.Dsm.Cluster.Cases.{Obliges, act-cases}
use distributed_thread_libra.Dsm.Cluster.Work.{
  is_program, works, left_in, work_left, node-change, step-Less, work_left-idle,
}
use distributed_thread_libra.Dsm.Cluster.Conns.{AllFew, step-AllFew}

-- The events of handlers after their start.
abbrev pub handled : List Event → ℕ
handled [] = 0
handled (e ∷ es) = (if is_program e then 0 else 1) + handled es

abbrev is_fault : Event → Bool
is_fault (faults i p w) = true
is_fault e = false

-- The accesses that raise SIGSEGV.
abbrev pub faulted : List Event → ℕ
faulted [] = 0
faulted (e ∷ es) = (if is_fault e then 1 else 0) + faulted es

works-requests : (js : List ℕ) → works (requests js) ≡ 3 * length js
works-requests [] = refl
works-requests (j ∷ js) = omega (arith, works-requests js)

handler-left : (m : Node) (p : ℕ) → left_in (handler m p).phase ≤ 3 * length m.conn + 2
unfolding handler
handler-left m p = elim (Bool-cases (ownership (prot_check m p))) [
  | inl b ↦ rw b (omega arith)
  | inr b ↦ rw b (omega (arith, works-requests m.conn))
]

module _ (n b : ℕ) (s : Cluster) (few : AllFew n b s) where
  abbrev Allowed : Event → Cluster → Type 0
  Allowed e t = work_left n t ≤ work_left n s + (if is_fault e then 3 * b + 2 else 0)

  Obliges-Allowed : (e : Event) → is_program e ≡ true → actor e < n → Obliges n s (Allowed e) e
  unfolding sync
  Obliges-Allowed (stores i p c) h hi =
      λ ph l w. omega (arith, node-change n s i (record (s i) { mem = change (s i).mem p c }) hi)
  Obliges-Allowed (syncs i total) h hi =
      λ ph. omega (arith, node-change n s i (sync (s i) total) hi)
  Obliges-Allowed (faults i p w) h hi =
      λ ph l. omega (arith, node-change n s i (handler (s i) p) hi, handler-left (s i) p, few i hi)
  Obliges-Allowed (tests i) h hi = absurd cc
  Obliges-Allowed (updates i) h hi = absurd cc
  Obliges-Allowed (answers i k) h hi = absurd cc
  Obliges-Allowed (copies i k) h hi = absurd cc
  Obliges-Allowed (receives i k) h hi = absurd cc
  Obliges-Allowed (ends i) h hi = absurd cc

  step-Allowed : (e : Event) {t : Cluster} → is_program e ≡ true → step n s e ≡ some t → Allowed e t
  unfolding step
  step-Allowed e h q = elim (Bool-cases (ltb (actor e) n)) [
    | inl l ↦ act-cases n s (Allowed e) e (Obliges-Allowed e h (ground arith)) (rw (l, step) at q)
    | inr g ↦ cc
  ]

  -- An event of a handler takes one off what is left, an access adds what its handler may take.
  step-left :
      (e : Event) (t : Cluster)
      → step n s e ≡ some t
      → (if is_program e then 0 else 1) + work_left n t
        ≤ work_left n s + (if is_fault e then 1 else 0) * (3 * b + 2)
  step-left e t q = elim (Bool-cases (is_program e)) [
    | inl h ↦ (elim (Bool-cases (is_fault e)) [
      | inl f ↦
          rw (h, f) (omega (arith, step-Allowed e h q, ap (λ x. if x then 3 * b + 2 else 0) f))
      | inr f ↦
          rw (h, f) (omega (arith, step-Allowed e h q, ap (λ x. if x then 3 * b + 2 else 0) f))
    ])
    | inr h ↦ rw h (omega (arith, step-Less n s e h q))
  ]

times_step : (x y c : ℕ) → (x + y) * c ≡ x * c + y * c
times_step x y c = omega arith

abbrev or_else : Cluster → Option Cluster → Cluster
or_else s none = s
or_else s (some t) = t

module _ (n b : ℕ) where
  run-left :
      (es : List Event) (s t : Cluster)
      → AllFew n b s
      → run n s es ≡ some t
      → handled es + work_left n t ≤ work_left n s + faulted es * (3 * b + 2)
  unfolding run
  run-left [] s t few q = omega (arith, ap (λ (x : Option Cluster). work_left n (or_else s x)) q)
  run-left (e ∷ es) s t few q = go (step n s e) refl (λ u. run-left es u t) q
    where
      go :
          (r : Option Cluster)
          → step n s e ≡ r
          → ((u : Cluster)
              → AllFew n b u
              → run n u es ≡ some t
              → handled es + work_left n t ≤ work_left n u + faulted es * (3 * b + 2))
          → elim r as (λ x. Option Cluster) [ none ↦ none | some u ↦ run n u es ] ≡ some t
          → handled (e ∷ es) + work_left n t ≤ work_left n s + faulted (e ∷ es) * (3 * b + 2)
      go none e' rec q' = cc
      go (some u) e' rec q' = omega (
        arith,
        rec u (step-AllFew n b s few e e') q',
        step-left n b s few e u e',
        times_step (if is_fault e then 1 else 0) (faulted es) (3 * b + 2),
      )

-- In any run from `init` of `n` nodes with at most `b` connections each, in any order of the events and with any
-- accesses of the programs: the events of the handlers after their start are at most `3 * b + 2` for each access that
-- raised SIGSEGV, so that they run out when there are no new accesses. An answer to a read is one event here, and so is
-- the end of a handler. That no handler is stopped at a node's lock `mu` is not said.
pub run-handled :
    (n pages b : ℕ) (conn : ℕ → List ℕ) (mem : ℕ → ℕ)
    → ((i : ℕ) → i < n → length (conn i) ≤ b)
    → (es : List Event) (t : Cluster) → run n (init pages conn mem) es ≡ some t
    → handled es ≤ faulted es * (3 * b + 2)
unfolding init make_node
run-handled n pages b conn mem few es t q =
    let rest = run-left n b es (init pages conn mem) t few q in
    omega (arith, rest, work_left-idle n (init pages conn mem) (λ i. refl))
