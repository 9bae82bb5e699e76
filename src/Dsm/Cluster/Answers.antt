-- ===== src/Dsm/Cluster/Answers.antt =====
-- src/lib/dsm_node.cpp: an answer at another node, and what it does to the rights to write.
use distributed_thread_libra.Prelude.{
  ℕ, ◌<◌, ◌≤◌, ◌≡◌, refl, Bool, true, ◌&&◌, false, Option, none, some, List, ◌==◌, if◌then◌else◌,
  set, change, arith, ap, change_self, change_ne, ℕ_discrete, ◌∙◌,
}
use distributed_thread_libra.Dsm.Node.{
  Node, asking, Request, sent, copying, replied, done, dsm_prot_read, response_write,
  response_write_copy, response_read, receive, user_mprotect, read_only,
}
use distributed_thread_libra.Dsm.Cluster.{Cluster, thread, set_thread}
use distributed_thread_libra.Dsm.Cluster.Weights.{
  carried, weight, tokens, tokens-change, weight-le-tokens, in_flights-set,
}
use distributed_thread_libra.Dsm.Cluster.Handlers.{
  is_updating, response_write_lem, response_write-IsSound, response_read_lem, weight-cong,
  response_write-stray, response_read-stray,
}
use distributed_thread_libra.Dsm.Cluster.Writers.{
  Lent, nobody, stray, gives, is_copying, copies_from-new, Lent-change,
}
use distributed_thread_libra.Dsm.Cluster.Moves.{
  Inv, SameTokens, KeepLent, Inv-change, set_thread_lem, set_thread-Lent,
}

-- Node `j` is changed, with its phase kept.
pub change_phase :
    (s : Cluster) (i j : ℕ) (m : Node)
    → m.phase ≡ (s j).phase
    → (change s j m i).phase ≡ (s i).phase
change_phase s i j m e = elim (ℕ_discrete j i) [
  | yes same ↦ ground (arith, change_self s j m)
  | no ne ↦ ap (λ (x : Node). x.phase) (change_ne s j m i ne)
]

module _ (n : ℕ) (s : Cluster) (inv : Inv n s) (i j : ℕ) (hi : i < n) (hj : j < n) (k : ℕ)
    {p prot : ℕ} {rs : List Request} {d : Option ℕ} (e : (s i).phase ≡ asking p prot rs d) where
  -- Node `j` is changed, maybe to a stray writer where `x` holds, and then the thread gets its new state.
  changed_Lent :
      (q : ℕ) (m : Node) (r : Request)
      → m.phase ≡ (s j).phase
      → (x : Bool) → Lent n q nobody s
      → (stray m q ≡ true → x ≡ false → stray (s j) q ≡ true)
      → ((y : ℕ) → stray (change s j m y) q ≡ true → q ≡ p → is_copying y (thread rs k) ≡ false)
      → ((y : ℕ)
          → stray (change s j m y) q ≡ true
          → (j == y && x) ≡ true
          → gives q y (asking p prot (set rs k r) d) ≡ true)
      → Lent n q nobody (set_thread (change s j m) i p prot rs d k r)
  changed_Lent q m r ph x lent stays old new =
      set_thread-Lent n (change s j m) i hi k (change_phase s i j m ph ∙ e) q (λ y. j == y && x) d r
        (Lent-change n q s lent j m x (λ y g. ap (gives q y) ph ∙ g) stays) old new

  -- Node `j` is changed with its share kept, and the request carries as much as before.
  same_share :
      (m : Node) (r : Request)
      → m.page_info ≡ (s j).page_info
      → m.phase ≡ (s j).phase
      → ((q : ℕ) → carried q (asking p prot (set rs k r) d) ≡ carried q (asking p prot rs d))
      → let t = set_thread (change s j m) i p prot rs d k r in Inv n t × SameTokens n s t
  same_share m r info ph same =
      let inv' = Inv-change n s inv j hj m (rw (info, ph) (inv j hj)) in
      let tok : SameTokens n s (change s j m) =
        λ q. omega (arith, tokens-change n q s j m hj, weight-cong q (s j) m info ph) in
      let (inv'', tok') =
        set_thread_lem n (change s j m) inv' i hi k (change_phase s i j m ph ∙ e) d r in
      (inv'', λ q. omega (arith, tok q, tok' q, same q))

  pub answer_read_lem :
      thread rs k ≡ sent j
      → prot ≡ dsm_prot_read
      → let t =
          set_thread
            (change s j (response_read (s j) p).0)
            i
            p
            prot
            rs
            d
            k
            (replied (response_read (s j) p).1) in
        Inv n t × SameTokens n s t × KeepLent n s t
  answer_read_lem q read =
      let (info, ph) = response_read_lem (s j) p in
      let (inv', tok) =
        same_share (response_read (s j) p).0 (replied (response_read (s j) p).1) info ph
          (λ q'. ground arith) in
      (
        inv',
        tok,
        λ q' lent.
            changed_Lent q' (response_read (s j) p).0 (replied (response_read (s j) p).1) ph false
              lent (λ h x. response_read-stray (s j) p q' h) (λ y h at_p. ap (is_copying y) q)
              (λ y h b. ground arith),
      )

  pub copy_lem :
      thread rs k ≡ copying j
      → let t =
          set_thread
            (change s j (response_write_copy (s j) p).0)
            i
            p
            prot
            rs
            d
            k
            (replied (some (response_write_copy (s j) p).1)) in
        Inv n t × SameTokens n s t × KeepLent n s t
  unfolding response_write_copy
  copy_lem q =
      let (inv', tok) =
        same_share (response_write_copy (s j) p).0 (replied (some ((s j).mem p))) refl refl
          (λ q'. ground (arith, in_flights-set rs k (replied (some ((s j).mem p))))) in
      (
        inv',
        tok,
        λ q' lent.
            changed_Lent q' (response_write_copy (s j) p).0 (replied (some ((s j).mem p))) refl
              false lent (λ h x. ground arith)
              (λ y h at_p. elim (ℕ_discrete j y) [
                | yes same ↦ absurd (closed y h at_p same)
                | no other ↦ ground (arith, ap (is_copying y) q)
              ])
              (λ y h b. ground arith),
      )
    where
      m : Node
      m = user_mprotect (s j) p read_only

      closed : (y : ℕ) → {q' : ℕ} → stray (change s j m y) q' ≡ true → q' ≡ p → j ≡ y → ⊥
      closed y {q'} h at_p same = ground arith

  pub answer_write_lem :
      thread rs k ≡ sent j
      → (prot == dsm_prot_read) ≡ false
      → is_updating (s j).phase p ≡ false
      → let t =
          set_thread
            (change s j (response_write (s j) p).0)
            i
            p
            prot
            rs
            d
            k
            (if (response_write (s j) p).1 then copying j else replied none) in
        Inv n t × SameTokens n s t × KeepLent n s t
  answer_write_lem q write free =
      let inv' =
        Inv-change n s inv j hj m
          (rw same_phase (response_write-IsSound (s j) p free (inv j hj))) in
      let (inv'', tok) =
        set_thread_lem n (change s j m) inv' i hi k (change_phase s i j m same_phase ∙ e) d r in
      (
        inv'',
        λ q'. ground (
          arith,
          tok q',
          tokens-change n q' s j m hj,
          (response_write_lem (s j) p).0 q',
          in_flights-set rs k r,
        ),
        λ q' lent.
            changed_Lent q' m r same_phase ((p == q') && (response_write (s j) p).1) lent
              (response_write-stray (s j) p q') (λ y h at_p. ap (is_copying y) q)
              (λ y h b. ground (arith, copies_from-new j j rs k q)),
      )
    where
      m : Node
      m = (response_write (s j) p).0

      r : Request
      r = if (response_write (s j) p).1 then copying j else replied none

      same_phase : m.phase ≡ (s j).phase
      same_phase = (response_write_lem (s j) p).1

module _ (n : ℕ) (s : Cluster) (inv : Inv n s) (i : ℕ) (hi : i < n) (k : ℕ) {p prot : ℕ}
    {rs : List Request} {d : Option ℕ} (e : (s i).phase ≡ asking p prot rs d) where
  carried-le : (q : ℕ) → carried q (asking p prot rs d) ≤ tokens n q s
  unfolding weight
  carried-le q = omega (arith, weight-le-tokens n q s i hi, ap (carried q) e)

  -- An answer that arrives is kept, as long as no page is on its way twice.
  pub receive_lem :
      (r : Option ℕ)
      → thread rs k ≡ replied r
      → ((q : ℕ) → tokens n q s ≤ 1)
      → let t = set_thread s i p prot rs (receive r d) k done in
        Inv n t × SameTokens n s t × KeepLent n s t
  unfolding receive
  receive_lem r q few =
      let (inv', tok) = set_thread_lem n s inv i hi k e (receive r d) done in
      (
        inv',
        λ q'. ground (arith, tok q', in_flights-set rs k done, carried-le q', few q'),
        λ q' lent.
            set_thread-Lent n s i hi k e q' nobody (receive r d) done lent
              (λ y h at_p. ap (is_copying y) q) (λ y h b. cc),
      )
