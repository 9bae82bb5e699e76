-- ===== src/Dsm/Cluster/Conns.antt =====
-- src/lib/dsm_node.cpp: no handler changes the connections of a node.
use distributed_thread_libra.Prelude.{
  ℕ, ◌<◌, ◌≤◌, ◌≡◌, refl, Option, none, some, List, ◌==◌, if◌then◌else◌, ltb, length, set, change,
  change_self, change_ne, arith, ap, ◌∙◌, sym, subst, ℕ_discrete, inl, inr, Bool-cases,
}
use distributed_thread_libra.Dsm.Node.{
  Node, asking, Request, copying, replied, done, handler, response_read, response_write,
  response_write_copy, update_prot_test, update_prot_set, grant_prot_end, is_owner, ownership,
  prot_check, receive, sync,
}
use distributed_thread_libra.Dsm.Cluster.{
  Cluster, Event, stores, syncs, faults, tests, updates, answers, copies, receives, ends,
  set_thread, step, actor,
}
use distributed_thread_libra.Dsm.Cluster.Cases.{Obliges, act-cases}

handler-conn : (m : Node) (p : ℕ) → (handler m p).conn ≡ m.conn
unfolding handler
handler-conn m p = elim (Bool-cases (ownership (prot_check m p))) [ inl b ↦ rw b | inr b ↦ rw b ]

response_read-conn : (m : Node) (p : ℕ) → (response_read m p).0.conn ≡ m.conn
unfolding response_read
response_read-conn m p = elim (Bool-cases (is_owner m p)) [ inl b ↦ rw b | inr b ↦ rw b ]

response_write-conn : (m : Node) (p : ℕ) → (response_write m p).0.conn ≡ m.conn
unfolding response_write
response_write-conn m p = elim (Bool-cases (is_owner m p)) [ inl b ↦ rw b | inr b ↦ rw b ]

update_prot_test-conn : (m : Node) (p : ℕ) → (update_prot_test m p).conn ≡ m.conn
unfolding update_prot_test
update_prot_test-conn m p = refl

grant_prot_end-conn :
    (m : Node) (p prot : ℕ) (d : Option ℕ) → (grant_prot_end m p prot d).conn ≡ m.conn
unfolding grant_prot_end
grant_prot_end-conn m p prot none = refl
grant_prot_end-conn m p prot (some c) = elim (Bool-cases (prot == 1)) [
  | inl b ↦ rw b
  | inr b ↦ rw b
]

module _ (n b : ℕ) where
  -- No node has more than `b` connections.
  abbrev pub AllFew : Cluster → Type 0
  AllFew s = (i : ℕ) → i < n → length (s i).conn ≤ b

  module _ (s : Cluster) (h : AllFew s) where
    change-AllFew : (i : ℕ) (m : Node) → i < n → m.conn ≡ (s i).conn → AllFew (change s i m)
    change-AllFew i m l same j lj = elim (ℕ_discrete i j) [
      | yes e ↦
          subst (λ (x : Node). length x.conn ≤ b)
            (sym (ap (change s i m) (sym e) ∙ change_self s i m))
            (subst (λ c. length c ≤ b) (sym same) (h i l))
      | no ne ↦ subst (λ (x : Node). length x.conn ≤ b) (sym (change_ne s i m j ne)) (h j lj)
    ]

  thread-AllFew :
      (u : Cluster) (i k p prot : ℕ) (rs : List Request) (d : Option ℕ) (r : Request)
      → i < n
      → AllFew u
      → AllFew (set_thread u i p prot rs d k r)
  thread-AllFew u i k p prot rs d r hi h =
      change-AllFew u h i (record (u i) { phase = asking p prot (set rs k r) d }) hi refl

  Obliges-AllFew : (s : Cluster) → AllFew s → (e : Event) → actor e < n → Obliges n s AllFew e
  unfolding update_prot_set response_write_copy sync
  Obliges-AllFew s h (stores i p c) hi =
      λ ph l w. change-AllFew s h i (record (s i) { mem = change (s i).mem p c }) hi refl
  Obliges-AllFew s h (syncs i total) hi = λ ph. change-AllFew s h i (sync (s i) total) hi refl
  Obliges-AllFew s h (faults i p w) hi =
      λ ph l. change-AllFew s h i (handler (s i) p) hi (handler-conn (s i) p)
  Obliges-AllFew s h (tests i) hi =
      λ p e. change-AllFew s h i (update_prot_test (s i) p) hi (update_prot_test-conn (s i) p)
  Obliges-AllFew s h (updates i) hi = λ p e. change-AllFew s h i (update_prot_set (s i) p) hi refl
  Obliges-AllFew s h (answers i k) hi = λ p prot rs d j e q hj. (
    λ read.
        thread-AllFew (change s j (response_read (s j) p).0) i k p prot rs d
          (replied (response_read (s j) p).1) hi
          (change-AllFew s h j (response_read (s j) p).0 hj (response_read-conn (s j) p)),
    λ write.
        thread-AllFew (change s j (response_write (s j) p).0) i k p prot rs d
          (if (response_write (s j) p).1 then copying j else replied none) hi
          (change-AllFew s h j (response_write (s j) p).0 hj (response_write-conn (s j) p)),
  )
  Obliges-AllFew s h (copies i k) hi = λ p prot rs d j e q hj.
      thread-AllFew (change s j (response_write_copy (s j) p).0) i k p prot rs d
        (replied (some (response_write_copy (s j) p).1)) hi
        (change-AllFew s h j (response_write_copy (s j) p).0 hj refl)
  Obliges-AllFew s h (receives i k) hi =
      λ p prot rs d r e q. thread-AllFew s i k p prot rs (receive r d) done hi h
  Obliges-AllFew s h (ends i) hi = λ p prot rs d e all.
      change-AllFew s h i (grant_prot_end (s i) p prot d) hi (grant_prot_end-conn (s i) p prot d)

  pub step-AllFew :
      (s : Cluster) → AllFew s → (e : Event) {t : Cluster} → step n s e ≡ some t → AllFew t
  unfolding step
  step-AllFew s h e q = elim (Bool-cases (ltb (actor e) n)) [
    | inl l ↦ act-cases n s AllFew e (Obliges-AllFew s h e (ground arith)) (rw (l, step) at q)
    | inr g ↦ cc
  ]
