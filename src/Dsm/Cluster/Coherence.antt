-- ===== src/Dsm/Cluster/Coherence.antt =====
-- src/lib/dsm_node.cpp: the bytes of a page through a run.
use distributed_thread_libra.Prelude.{
  ℕ, ◌<◌, ◌≤◌, ◌≡◌, ◌≢◌, refl, inl, inr, Bool, true, false, Option, none, some, List, [], ◌∷◌, ltb,
  ◌==◌, length, set, change, arith, ap, ◌∙◌, sym, ℕ_discrete, change_self, if◌then◌else◌, subst,
  Bool-cases,
}
use distributed_thread_libra.Dsm.Node.{
  Node, Phase, asking, Request, copying, replied, done, response_read, response_write,
  response_write_copy, receive, dsm_prot_read, user_mprotect, read_only,
}
use distributed_thread_libra.Dsm.Cluster.{
  Cluster, Event, stores, syncs, faults, tests, updates, answers, copies, receives, ends, actor,
  step, thread, set_thread, allows,
}
use distributed_thread_libra.Dsm.Cluster.Cases.{
  Obliges, act-cases, after_read, after_write, after_copy,
}
use distributed_thread_libra.Dsm.Cluster.Weights.{tokens, IsSound}
use distributed_thread_libra.Dsm.Cluster.Writers.{Lent, nobody}
use distributed_thread_libra.Dsm.Cluster.Handlers.{response_read_lem, response_write_lem}
use distributed_thread_libra.Dsm.Cluster.Moves.{Inv}
use distributed_thread_libra.Dsm.Cluster.Answers.{change_phase}
use distributed_thread_libra.Dsm.Cluster.Values.{fresh, request_says, answer_says, Current}
use distributed_thread_libra.Dsm.Cluster.Copies.{
  Stays, sync-Stays, handler-Stays, update_prot_test-Stays, update_prot_set-Stays,
  grant_prot_end-Stays, response_read-Stays, response_write-Stays, response_write-fresh,
  thread-says,
}
use distributed_thread_libra.Dsm.Cluster.Stores.{Current-change, stores-Current}

-- The value of page `p` after an event, and after a list of events.
abbrev pub stored : (p : ℕ) → Event → ℕ → ℕ
stored p (stores i q c) v = if q == p then c else v
stored p _ v = v

abbrev pub last_stored : (p : ℕ) → List Event → ℕ → ℕ
last_stored p [] v = v
last_stored p (e ∷ es) v = last_stored p es (stored p e v)

module _ (n p v : ℕ) (s : Cluster) (cur : Current n p v s) (i : ℕ) (hi : i < n) where
  changed : (m : Node) → Stays p v (λ j. fresh p v (s j)) (s i) m → Current n p v (change s i m)
  changed m (stays, says) = Current-change n p v s cur i m stays says

  -- Thread `k` of node `i` gets a new state that says nothing wrong.
  threads :
      (k : ℕ) {q prot : ℕ} {rs : List Request} {d : Option ℕ} (d' : Option ℕ) (r : Request)
      → (s i).phase ≡ asking q prot rs d
      → (q ≡ p
          → (prot == dsm_prot_read) ≡ false
          → request_says (λ j. fresh p v (s j)) v (thread rs k) ≡ true
          → answer_says v d ≡ true
          → (request_says (λ j. fresh p v (s j)) v r ≡ true) × (answer_says v d' ≡ true))
      → Current n p v (set_thread s i q prot rs d' k r)
  threads k {q} {prot} {rs} {d} d' r e right =
      Current-change n p v s cur i (record (s i) { phase = asking q prot (set rs k r) d' }) (λ f. f)
        (thread-says p v (λ j. fresh p v (s j)) (s i) (cur i hi) q prot rs d d' k r e right)

receive-says :
    (F : ℕ → Bool) (v : ℕ) (r d : Option ℕ)
    → request_says F v (replied r) ≡ true
    → answer_says v d ≡ true
    → answer_says v (receive r d) ≡ true
unfolding receive
receive-says F v none d said ans = ans
receive-says F v (some c) d said ans = said

module _ (n p v : ℕ) (s : Cluster) (inv : Inv n s) (few : tokens n p s ≤ 1)
    (lent : Lent n p nobody s) (cur : Current n p v s) where
  sound : (i : ℕ) → i < n → {ph : Phase} → (s i).phase ≡ ph → IsSound (s i).page_info ph
  sound i hi e = subst (IsSound (s i).page_info) e (inv i hi)

  stored_at :
      (i q c : ℕ)
      → q ≡ p
      → i < n
      → q < length (s i).page_info
      → allows ((s i).prot q) true ≡ true
      → Current n p
          (if q == p then c else v)
          (change s i (record (s i) { mem = change (s i).mem q c }))
  stored_at i q c same hi l w =
      subst
        (λ y.
          Current n p (if y == p then c else v)
            (change s i (record (s i) { mem = change (s i).mem y c })))
        (sym same)
        (subst (λ x. Current n p x (change s i (record (s i) { mem = change (s i).mem p c }))) at_c
          (stores-Current n p v s cur few i hi c lent
            (subst (λ y. y < length (s i).page_info) same l)
            (subst (λ y. allows ((s i).prot y) true ≡ true) same w)))
    where
      at_c : c ≡ (if p == p then c else v)
      at_c = ground arith

  stored_elsewhere :
      (i q c : ℕ)
      → q ≢ p
      → i < n
      → Current n p
          (if q == p then c else v)
          (change s i (record (s i) { mem = change (s i).mem q c }))
  stored_elsewhere i q c ne hi =
      subst (λ x. Current n p x (change s i (record (s i) { mem = change (s i).mem q c }))) at_v
        (changed n p v s cur i hi (record (s i) { mem = change (s i).mem q c })
          (λ f. ground arith, ground (arith, cur i hi)))
    where
      at_v : v ≡ (if q == p then c else v)
      at_v = ground arith

  module _ (i j k : ℕ) (hi : i < n) (hj : j < n) {q prot : ℕ} {rs : List Request} {d : Option ℕ}
      (e : (s i).phase ≡ asking q prot rs d) where
    read_answered : prot ≡ dsm_prot_read → Current n p v (after_read s i j q prot rs d k)
    read_answered read =
        let m = (response_read (s j) q).0 in
        threads n p v (change s j m)
          (changed n p v s cur j hj m
            (response_read-Stays p v (λ x. fresh p v (s x)) (s j) (cur j hj) q))
          i hi k d (replied (response_read (s j) q).1)
          (change_phase s i j m (response_read_lem (s j) q).1 ∙ e)
          (λ at_p w said ans. absurd (ground arith))

    write_answered : Current n p v (after_write s i j q prot rs d k)
    write_answered =
        let m = (response_write (s j) q).0 in
        threads n p v (change s j m)
          (changed n p v s cur j hj m
            (response_write-Stays p v (λ x. fresh p v (s x)) (s j) (cur j hj) q (inv j hj)))
          i hi k d (if (response_write (s j) q).1 then copying j else replied none)
          (change_phase s i j m (response_write_lem (s j) q).1 ∙ e)
          (λ at_p w said ans. (given at_p (response_write (s j) q).1 refl, ans))
      where
        given :
            q ≡ p
            → (b : Bool) → (response_write (s j) q).1 ≡ b
            → request_says
                (λ x. fresh p v (change s j (response_write (s j) q).0 x))
                v
                (if b then copying j else replied none)
              ≡ true
        given at_p false g = refl
        given at_p true g =
            ap (fresh p v) (change_self s j (response_write (s j) q).0)
            ∙ ap (λ y. fresh p v (response_write (s j) y).0) at_p
            ∙ response_write-fresh p v (λ x. fresh p v (s x)) (s j) (cur j hj)
                (ap (λ y. (response_write (s j) y).1) (sym at_p) ∙ g)

    copied : thread rs k ≡ copying j → Current n p v (after_copy s i j q prot rs d k)
    unfolding response_write_copy
    copied h =
        let m = user_mprotect (s j) q read_only in
        threads n p v (change s j m) (changed n p v s cur j hj m (λ f. f, cur j hj)) i hi k d
          (replied (some ((s j).mem q))) (change_phase s i j m refl ∙ e)
          (λ at_p w said ans. (brought at_p said, ans))
      where
        brought :
            q ≡ p
            → request_says
                (λ x. fresh p v (change s j (user_mprotect (s j) q read_only) x))
                v
                (thread rs k)
              ≡ true
            → ((s j).mem q == v) ≡ true
        brought at_p said =
            let has : fresh p v (s j) ≡ true =
              ap (fresh p v) (sym (change_self s j (user_mprotect (s j) q read_only)))
              ∙ ap
                  (request_says (λ x. fresh p v (change s j (user_mprotect (s j) q read_only) x)) v)
                  (sym h)
              ∙ said in
            ap (λ y. (s j).mem y == v) at_p ∙ ground arith

  obliged : (e : Event) → actor e < n → Obliges n s (Current n p (stored p e v)) e
  obliged (stores i q c) hi = λ e l w. elim (ℕ_discrete q p) [
    | yes same ↦ stored_at i q c same hi l w
    | no ne ↦ stored_elsewhere i q c ne hi
  ]
  obliged (syncs i total) hi = λ e.
      changed n p v s cur i hi _ (sync-Stays p v (λ j. fresh p v (s j)) (s i) (cur i hi) total e)
  obliged (faults i q w) hi = λ e l.
      changed n p v s cur i hi _ (handler-Stays p v (λ j. fresh p v (s j)) (s i) (cur i hi) q e)
  obliged (tests i) hi = λ q e.
      changed n p v s cur i hi _
        (update_prot_test-Stays p v (λ j. fresh p v (s j)) (s i) (cur i hi) q e)
  obliged (updates i) hi = λ q e.
      let (l, o) = sound i hi e in
      changed n p v s cur i hi _
        (update_prot_set-Stays p v (λ j. fresh p v (s j)) (s i) (cur i hi) q e l o)
  obliged (answers i k) hi = λ q prot rs d j e h hj.
      (λ read. read_answered i j k hi hj e read, λ write. write_answered i j k hi hj e)
  obliged (copies i k) hi = λ q prot rs d j e h hj. copied i j k hi hj e h
  obliged (receives i k) hi = λ q prot rs d r e h.
      threads n p v s cur i hi k (receive r d) done e λ at_p w said ans. (
        refl,
        receive-says (λ j. fresh p v (s j)) v r d
            (ap (request_says (λ j. fresh p v (s j)) v) (sym h) ∙ said) ans,
      )
  obliged (ends i) hi = λ q prot rs d e joined.
      let (l, o) = sound i hi e in
      changed n p v s cur i hi _
        (grant_prot_end-Stays p v (λ j. fresh p v (s j)) (s i) (cur i hi) q prot rs d e l o)

  pub step-Current : (e : Event) {t : Cluster} → step n s e ≡ some t → Current n p (stored p e v) t
  unfolding step
  step-Current e {t} h = elim (Bool-cases (ltb (actor e) n)) [
    | inl l ↦
        act-cases n s (Current n p (stored p e v)) e (obliged e (ground arith)) (rw (l, step) at h)
    | inr g ↦ cc
  ]
