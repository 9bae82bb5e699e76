-- ===== src/Dsm/Cluster/Cases.antt =====
-- src/lib/dsm_node.cpp: what is to be shown of each event, to know a property of every cluster after it.
use distributed_thread_libra.Prelude.{
  ℕ, ◌<◌, ◌≡◌, refl, Bool, true, false, not, ◌&&◌, ◌||◌, Option, none, some, List, ltb, ◌==◌,
  if◌then◌else◌, length, change, arith, subst,
}
use distributed_thread_libra.Dsm.Node.{
  Phase, idle, checked, updating, asking, Request, sent, copying, replied, done, dsm_prot_read,
  is_owner, handler, update_prot_test, update_prot_set, grant_prot_end, response_read,
  response_write, response_write_copy, receive, sync,
}
use distributed_thread_libra.Dsm.Cluster.{
  Cluster, Event, stores, syncs, faults, tests, updates, answers, copies, receives, ends, thread,
  tests_in, updates_in, answers_in, answer, copies_in, copy, receives_in, take_reply, ends_in,
  serves, allows, is_idle, act, all_done, set_thread,
}

is_idle-eq : (ph : Phase) → is_idle ph ≡ true → ph ≡ idle
is_idle-eq idle h = refl
is_idle-eq (checked p) h = cc
is_idle-eq (updating p) h = cc
is_idle-eq (asking p prot rs d) h = cc

-- The cluster after a request of thread `k` of node `i` was answered by node `j`, and after the copy.
abbrev pub after_read : Cluster → (i j page prot : ℕ) → List Request → Option ℕ → (k : ℕ) → Cluster
after_read s i j p prot rs d k =
    let r = response_read (s j) p in set_thread (change s j r.0) i p prot rs d k (replied r.1)

abbrev pub after_write : Cluster → (i j page prot : ℕ) → List Request → Option ℕ → (k : ℕ) → Cluster
after_write s i j p prot rs d k =
    let r = response_write (s j) p in
    set_thread (change s j r.0) i p prot rs d k (if r.1 then copying j else replied none)

abbrev pub after_copy : Cluster → (i j page prot : ℕ) → List Request → Option ℕ → (k : ℕ) → Cluster
after_copy s i j p prot rs d k =
    let r = response_write_copy (s j) p in
    set_thread (change s j r.0) i p prot rs d k (replied (some r.1))

module _ (n : ℕ) (s : Cluster) (G : Cluster → Type 0) where
  -- The property `G` after an event that can happen.
  abbrev pub Obliges : Event → Type 0
  Obliges (stores i p c) =
      (s i).phase ≡ idle
      → p < length (s i).page_info
      → allows ((s i).prot p) true ≡ true
      → G (change s i (record (s i) { mem = change (s i).mem p c }))
  Obliges (syncs i total) = (s i).phase ≡ idle → G (change s i (sync (s i) total))
  Obliges (faults i p w) =
      (s i).phase ≡ idle → p < length (s i).page_info → G (change s i (handler (s i) p))
  Obliges (tests i) = (p : ℕ) → (s i).phase ≡ checked p → G (change s i (update_prot_test (s i) p))
  Obliges (updates i) =
      (p : ℕ) → (s i).phase ≡ updating p → G (change s i (update_prot_set (s i) p))
  Obliges (answers i k) =
      (p prot : ℕ) (rs : List Request) (d : Option ℕ) (j : ℕ)
      → (s i).phase ≡ asking p prot rs d
      → thread rs k ≡ sent j
      → j < n
      → (prot ≡ dsm_prot_read → G (after_read s i j p prot rs d k))
        × ((prot == dsm_prot_read) ≡ false → G (after_write s i j p prot rs d k))
  Obliges (copies i k) =
      (p prot : ℕ) (rs : List Request) (d : Option ℕ) (j : ℕ)
      → (s i).phase ≡ asking p prot rs d
      → thread rs k ≡ copying j
      → j < n
      → G (after_copy s i j p prot rs d k)
  Obliges (receives i k) =
      (p prot : ℕ) (rs : List Request) (d : Option ℕ) (r : Option ℕ)
      → (s i).phase ≡ asking p prot rs d
      → thread rs k ≡ replied r
      → G (set_thread s i p prot rs (receive r d) k done)
  Obliges (ends i) =
      (p prot : ℕ) (rs : List Request) (d : Option ℕ)
      → (s i).phase ≡ asking p prot rs d
      → all_done rs ≡ true
      → G (change s i (grant_prot_end (s i) p prot d))

module _ (n : ℕ) (s : Cluster) (G : Cluster → Type 0) {t : Cluster} where
  from_some : {u : Cluster} → G u → some u ≡ some t → G t
  from_some {u} g e = let same : u ≡ t = cc in subst G same g

  guarded :
      (b : Bool) (u : Cluster) → (b ≡ true → G u) → (if b then some u else none) ≡ some t → G t
  guarded true u g e = from_some (g refl) e
  guarded false u g e = cc

  chosen :
      (b : Bool) (x y : Option Cluster)
      → (b ≡ true → x ≡ some t → G t)
      → (b ≡ false → y ≡ some t → G t)
      → (if b then x else y) ≡ some t
      → G t
  chosen true x y f g h = f refl h
  chosen false x y f g h = g refl h

  module _ (i : ℕ) where
    tests-cases :
        (ph : Phase) → (s i).phase ≡ ph → Obliges n s G (tests i) → tests_in s i ph ≡ some t → G t
    tests-cases (checked p) e o h = from_some (o p e) h
    tests-cases idle e o h = cc
    tests-cases (updating p) e o h = cc
    tests-cases (asking p prot rs d) e o h = cc

    updates-cases :
        (ph : Phase)
        → (s i).phase ≡ ph
        → Obliges n s G (updates i)
        → updates_in s i ph ≡ some t
        → G t
    updates-cases (updating p) e o h = from_some (o p e) h
    updates-cases idle e o h = cc
    updates-cases (checked p) e o h = cc
    updates-cases (asking p prot rs d) e o h = cc

    ends-cases :
        (ph : Phase) → (s i).phase ≡ ph → Obliges n s G (ends i) → ends_in s i ph ≡ some t → G t
    ends-cases (asking p prot rs d) e o h = guarded (all_done rs) _ (o p prot rs d e) h
    ends-cases idle e o h = cc
    ends-cases (checked p) e o h = cc
    ends-cases (updating p) e o h = cc

    module _ (k : ℕ) {p prot : ℕ} {rs : List Request} {d : Option ℕ}
        (e : (s i).phase ≡ asking p prot rs d) where
      take-cases :
          (r : Request)
          → thread rs k ≡ r
          → Obliges n s G (receives i k)
          → take_reply s i p prot rs d k r ≡ some t
          → G t
      take-cases (replied r) q o h = from_some (o p prot rs d r e q) h
      take-cases (sent j) q o h = cc
      take-cases (copying j) q o h = cc
      take-cases done q o h = cc

      copy-cases :
          (r : Request)
          → thread rs k ≡ r
          → Obliges n s G (copies i k)
          → copy n s i p prot rs d k r ≡ some t
          → G t
      copy-cases (copying j) q o h =
          guarded (ltb j n && serves (s j).phase) _ (λ there. o p prot rs d j e q (ground arith)) h
      copy-cases (sent j) q o h = cc
      copy-cases (replied r) q o h = cc
      copy-cases done q o h = cc

      answer-cases :
          (r : Request)
          → thread rs k ≡ r
          → Obliges n s G (answers i k)
          → answer n s i p prot rs d k r ≡ some t
          → G t
      answer-cases (sent j) q o h =
          chosen (ltb j n) _ none
            (λ there.
              chosen (prot == dsm_prot_read) _ _
                (λ read.
                  guarded (serves (s j).phase || not (is_owner (s j) p)) _
                    (λ served. (o p prot rs d j e q (ground arith)).0 (ground arith)))
                (λ write. from_some ((o p prot rs d j e q (ground arith)).1 write)))
            (λ absent e'. cc) h
      answer-cases (copying j) q o h = cc
      answer-cases (replied r) q o h = cc
      answer-cases done q o h = cc

    answers-cases :
        (k : ℕ) (ph : Phase)
        → (s i).phase ≡ ph
        → Obliges n s G (answers i k)
        → answers_in n s i k ph ≡ some t
        → G t
    answers-cases k (asking p prot rs d) e o h = answer-cases k e (thread rs k) refl o h
    answers-cases k idle e o h = cc
    answers-cases k (checked p) e o h = cc
    answers-cases k (updating p) e o h = cc

    copies-cases :
        (k : ℕ) (ph : Phase)
        → (s i).phase ≡ ph
        → Obliges n s G (copies i k)
        → copies_in n s i k ph ≡ some t
        → G t
    copies-cases k (asking p prot rs d) e o h = copy-cases k e (thread rs k) refl o h
    copies-cases k idle e o h = cc
    copies-cases k (checked p) e o h = cc
    copies-cases k (updating p) e o h = cc

    receives-cases :
        (k : ℕ) (ph : Phase)
        → (s i).phase ≡ ph
        → Obliges n s G (receives i k)
        → receives_in s i k ph ≡ some t
        → G t
    receives-cases k (asking p prot rs d) e o h = take-cases k e (thread rs k) refl o h
    receives-cases k idle e o h = cc
    receives-cases k (checked p) e o h = cc
    receives-cases k (updating p) e o h = cc

  pub act-cases : (e : Event) → Obliges n s G e → act n s e ≡ some t → G t
  unfolding act
  act-cases (stores i p c) o h =
      guarded
        (is_idle (s i).phase && (ltb p (length (s i).page_info) && allows ((s i).prot p) true)) _
        (λ ok. o (is_idle-eq (s i).phase (ground arith)) (ground arith) (ground arith)) h
  act-cases (syncs i total) o h =
      guarded (is_idle (s i).phase) _ (λ ok. o (is_idle-eq (s i).phase ok)) h
  act-cases (faults i p w) o h =
      guarded
        (is_idle (s i).phase && (ltb p (length (s i).page_info) && not (allows ((s i).prot p) w))) _
        (λ ok. o (is_idle-eq (s i).phase (ground arith)) (ground arith)) h
  act-cases (tests i) o h = tests-cases i (s i).phase refl o h
  act-cases (updates i) o h = updates-cases i (s i).phase refl o h
  act-cases (answers i k) o h = answers-cases i k (s i).phase refl o h
  act-cases (copies i k) o h = copies-cases i k (s i).phase refl o h
  act-cases (receives i k) o h = receives-cases i k (s i).phase refl o h
  act-cases (ends i) o h = ends-cases i (s i).phase refl o h
