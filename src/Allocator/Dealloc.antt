-- ===== src/Allocator/Dealloc.antt =====
-- src/lib/util/lin_allocator.cpp: `dealloc` on a memory that holds a list of chunks.
use distributed_thread_libra.Prelude.{
  ℕ, ◌+◌, ◌<◌, ◌≡◌, ◌≢◌, Bool, true, false, List, ◌∷◌, ◌++◌, ◌==◌, not, ◌&&◌, inl, inr, Bool-cases,
  if◌then◌else◌, arith, change, change_self, change_ne, ap, ◌∙◌, sym, subst, ◌-◌,
}
use distributed_thread_libra.Allocator.{
  ListNode, Mem, node_size, set_next, set_prev, merge_prev, merge_next, dealloc,
}
use distributed_thread_libra.Allocator.View.{Chunk, View, View-le, View-change}
use distributed_thread_libra.Allocator.Merge.{
  join_next, View-append, append-View, View-change_above, View-set_prev_above, stretched,
  merge_next-View, merge_next-View_below,
}

abbrev pub freed_if : (used : Bool) → Chunk → List Chunk → Chunk → List Chunk → List Chunk
freed_if true p qs c ys = p ∷ (qs ++ join_next (record c { used = false } ∷ ys))
freed_if false p qs c ys = join_next (record p { last = c.last } ∷ ys)

-- The chunks after the chunk `c` is freed, whose `prev` names `p`, with the chunks `qs` between the two.
abbrev pub freed : Chunk → List Chunk → Chunk → List Chunk → List Chunk
freed p qs c ys = freed_if p.used p qs c ys

module _ (start len : ℕ) (m : Mem) where
  abbrev cleared : ℕ → Mem
  cleared k = change m k (record (m k) { in_use = false })

  -- The memory with the chunk `c` marked free.
  cleared-View :
      (a : ℕ) (c : Chunk) (ys : List Chunk)
      → View (start + len) m a (c ∷ ys)
      → View (start + len) (cleared a) a (record c { used = false } ∷ ys)
  cleared-View a c ys v = (
    v.0,
    v.1,
    ground (arith, v.2),
    ground arith,
    ground (arith, v.4),
    View-change (start + len) m a _ c.last ys (omega arith) v.5,
  )

  dealloc-merges :
      (k : ℕ) {u : Mem} {w : ℕ}
      → merge_prev (start + len) (cleared k) k ≡ (u, w)
      → dealloc start len m (k + node_size) ≡ merge_next (start + len) u w
  unfolding dealloc
  dealloc-merges k e =
      ap (λ j. let p = merge_prev (start + len) (cleared j) j in merge_next (start + len) p.0 p.1)
        at_node
      ∙ ap (λ (p : Mem × ℕ). merge_next (start + len) p.0 p.1) e
    where
      at_node : k + node_size - node_size ≡ k
      at_node = omega arith

  prev-cleared : (k : ℕ) → (cleared k k).prev ≡ (m k).prev
  prev-cleared k = ap (λ (x : ListNode). x.prev) (change_self m k (record (m k) { in_use = false }))

  next-cleared : (k : ℕ) → (cleared k k).next ≡ (m k).next
  next-cleared k = ap (λ (x : ListNode). x.next) (change_self m k (record (m k) { in_use = false }))

  -- A chunk with no `prev` is only joined with a free chunk behind it.
  pub dealloc_root :
      (k : ℕ) (c : Chunk) (ys : List Chunk)
      → View (start + len) m k (c ∷ ys)
      → (m k).prev ≡ 0
      → View
          (start + len)
          (dealloc start len m (k + node_size))
          k
          (join_next (record c { used = false } ∷ ys))
  unfolding merge_prev
  dealloc_root k c ys v first =
      subst (λ u. View (start + len) u k (join_next (record c { used = false } ∷ ys)))
        (sym (
          dealloc-merges k (
            ap (λ j. merged j (not (j == 0) && not (cleared k j).in_use))
              (prev-cleared k ∙ first))))
        (merge_next-View (start + len) (cleared k) k (record c { used = false }) ys
          (cleared-View k c ys v))
    where
      merged : ℕ → Bool → Mem × ℕ
      merged j t =
          if t
          then (
            set_prev (start + len) (set_next (cleared k) j (cleared k k).next) (cleared k k).next j,
            j,
          )
          else (cleared k, k)

-- The chunks `p ∷ qs` end where the chunk `c` starts, whose `prev` names `p`.
module _ (start len : ℕ) (m : Mem) (b k : ℕ) (xs : List Chunk) (p : Chunk) (qs : List Chunk)
    (c : Chunk) (ys : List Chunk) (front : View b m start xs) (mid : View k m b (p ∷ qs))
    (tail : View (start + len) m k (c ∷ ys)) (names : (m k).prev ≡ b) (real : b ≢ 0) where
  abbrev stop : ℕ
  stop = start + len

  p-lt-c : b < k
  p-lt-c = omega (arith, View-le k m p.last qs mid.5, mid.1)

  cleared_p : cleared start len m k b ≡ m b
  cleared_p = change_ne m k (record (m k) { in_use = false }) b (omega (arith, p-lt-c))

  tail' : View stop (cleared start len m k) k (record c { used = false } ∷ ys)
  tail' = cleared-View start len m k c ys tail

  front' : View b (cleared start len m k) start xs
  front' = View-change_above b m k _ start xs (omega (arith, p-lt-c)) front

  merged : ℕ → Mem × ℕ
  merged j =
      if not (j == 0) && not (cleared start len m k j).in_use
      then (
        set_prev stop (set_next (cleared start len m k) j (cleared start len m k k).next)
            (cleared start len m k k).next j,
        j,
      )
      else (cleared start len m k, k)

  merges : merge_prev stop (cleared start len m k) k ≡ merged b
  unfolding merge_prev merged
  merges = ap merged (prev-cleared start len m k ∙ names)

  dealloc_used :
      p.used ≡ true
      → View stop
          (dealloc start len m (k + node_size))
          start
          (xs ++ p ∷ (qs ++ join_next (record c { used = false } ∷ ys)))
  unfolding merged
  dealloc_used used =
      subst (λ u. View stop u start (xs ++ p ∷ (qs ++ join_next (record c { used = false } ∷ ys))))
        (sym (dealloc-merges start len m k (merges ∙ stays)))
        (append-View stop (merge_next stop (cleared start len m k) k) start b xs
          (p ∷ (qs ++ join_next (record c { used = false } ∷ ys)))
          (merge_next-View_below stop (cleared start len m k) k (record c { used = false }) ys tail'
            b start xs (omega (arith, p-lt-c)) front')
          (append-View stop (merge_next stop (cleared start len m k) k) b k (p ∷ qs)
            (join_next (record c { used = false } ∷ ys))
            (merge_next-View_below stop (cleared start len m k) k (record c { used = false }) ys
              tail' k b (p ∷ qs) (omega arith)
              (View-change_above k m k _ b (p ∷ qs) (omega arith) mid))
            (merge_next-View stop (cleared start len m k) k (record c { used = false }) ys tail')))
    where
      stays : merged b ≡ (cleared start len m k, k)
      stays = ground (arith, ap (λ (x : ListNode). x.in_use) cleared_p, mid.3)

  dealloc_free :
      p.used ≡ false
      → View stop
          (dealloc start len m (k + node_size))
          start
          (xs ++ join_next (record p { last = c.last } ∷ ys))
  unfolding merged
  dealloc_free unused =
      subst (λ u. View stop u start (xs ++ join_next (record p { last = c.last } ∷ ys)))
        (sym (dealloc-merges start len m k (merges ∙ joins)))
        (append-View stop (merge_next stop over b) start b xs
          (join_next (record p { last = c.last } ∷ ys))
          (merge_next-View_below stop over b (record p { last = c.last }) ys over-View b start xs
            (omega arith)
            (View-set_prev_above stop (set_next clear b c.last) c.last b b start xs
              (omega (arith, p-lt-c, tail.1))
              (View-change_above b clear b (record (clear b) { next = c.last }) start xs
                (omega arith) front')))
          (merge_next-View stop over b (record p { last = c.last }) ys over-View))
    where
      clear : Mem
      clear = cleared start len m k

      over : Mem
      over = set_prev stop (set_next clear b c.last) c.last b

      over-View : View stop over b (record p { last = c.last } ∷ ys)
      over-View =
          stretched stop clear b c.last p ys mid.0 (omega (arith, p-lt-c, tail.1))
            (ap (λ (x : ListNode). x.in_use) cleared_p ∙ mid.3)
            (ap (λ (x : ListNode). x.valid) cleared_p ∙ mid.4) tail'.5

      last : (clear k).next ≡ c.last
      last = next-cleared start len m k ∙ tail.2

      test : (not (b == 0) && not (clear b).in_use) ≡ true
      test = ground (arith, ap (λ (x : ListNode). x.in_use) cleared_p, mid.3)

      joins : merged b ≡ (over, b)
      joins =
          ap
            (λ t.
              if t
              then (set_prev stop (set_next clear b (clear k).next) (clear k).next b, b)
              else (clear, k))
            test
          ∙ ap (λ j. (set_prev stop (set_next clear b j) j b, b)) last

module _ (start len : ℕ) (m : Mem) where
  -- `dealloc` of a chunk `c` whose `prev` names the chunk `p`, with the chunks `qs` between the two. When
  -- `p` is in use, `c` is freed and joined with a free chunk behind it. When `p` is free, one free chunk
  -- takes the place of all from `p` to `c`, `qs` among them, and is joined with a free one behind it.
  pub dealloc_lem :
      (xs : List Chunk) (p : Chunk) (qs : List Chunk) (c : Chunk) (ys : List Chunk)
      → View (start + len) m start (xs ++ p ∷ (qs ++ c ∷ ys))
      → (m c.first).prev ≡ p.first
      → p.first ≢ 0
      → View (start + len) (dealloc start len m (c.first + node_size)) start (xs ++ freed p qs c ys)
  dealloc_lem xs p qs c ys v names real =
      let (b, front, back) = View-append (start + len) m start xs (p ∷ (qs ++ c ∷ ys)) v in
      let (k, between, tail) = View-append (start + len) m p.last qs (c ∷ ys) back.5 in
      let mid : View k m b (p ∷ qs) = (back.0, back.1, back.2, back.3, back.4, between) in
      let at_k : c.first ≡ k = tail.0 in
      let at_b : p.first ≡ b = back.0 in
      let named : (m k).prev ≡ b = subst (λ j. (m j).prev ≡ b) at_k (names ∙ at_b) in
      subst
        (λ j.
          View (start + len) (dealloc start len m (j + node_size)) start (xs ++ freed p qs c ys))
        (sym at_k)
        (elim (Bool-cases p.used) [
          | inl used ↦
              subst
                (λ t.
                  View (start + len) (dealloc start len m (k + node_size)) start
                    (xs ++ freed_if t p qs c ys))
                (sym used)
                (dealloc_used start len m b k xs p qs c ys front mid tail named
                  (subst (λ j. j ≢ 0) at_b real) used)
          | inr unused ↦
              subst
                (λ t.
                  View (start + len) (dealloc start len m (k + node_size)) start
                    (xs ++ freed_if t p qs c ys))
                (sym unused)
                (dealloc_free start len m b k xs p qs c ys front mid tail named
                  (subst (λ j. j ≢ 0) at_b real) unused)
        ])
