-- ===== src/Allocator/Merge.antt =====
-- src/lib/util/lin_allocator.cpp: the merges of `dealloc` on a memory that holds a list of chunks.
use distributed_thread_libra.Prelude.{
  ℕ, ◌+◌, ◌≤◌, ◌≡◌, ◌≢◌, refl, true, false, List, [], ◌∷◌, ◌++◌, ◌==◌, not, ◌&&◌, inl, inr,
  Bool-cases, if◌then◌else◌, arith, change, change_self, change_ne, ap, ◌∙◌, sym, subst,
}
use distributed_thread_libra.Allocator.{ListNode, Mem, node_size, set_next, set_prev, merge_next}
use distributed_thread_libra.Allocator.View.{Chunk, View, View-le, View-change}

-- The first chunk and the one behind it become one, if that is free.
abbrev pub join_next : List Chunk → List Chunk
join_next (c ∷ n ∷ cs) = if n.used then c ∷ n ∷ cs else record c { last = n.last } ∷ cs
join_next cs = cs

-- A list of chunks is cut at the address where its second part starts.
pub View-append :
    (stop : ℕ) (m : Mem) (a : ℕ) (xs cs : List Chunk)
    → View stop m a (xs ++ cs)
    → (b : ℕ) × View b m a xs × View stop m b cs
View-append stop m a [] cs v = (a, refl, v)
View-append stop m a (x ∷ xs) cs v =
    let (b, front, back) = View-append stop m x.last xs cs v.5 in
    (b, (v.0, v.1, v.2, v.3, v.4, front), back)

pub append-View :
    (stop : ℕ) (m : Mem) (a b : ℕ) (xs cs : List Chunk)
    → View b m a xs
    → View stop m b cs
    → View stop m a (xs ++ cs)
append-View stop m a b [] cs front back = subst (λ k. View stop m k cs) (sym front) back
append-View stop m a b (x ∷ xs) cs front back =
    (front.0, front.1, front.2, front.3, front.4, append-View stop m x.last b xs cs front.5 back)

-- A write behind the chunks does not change them.
pub View-change_above :
    (stop : ℕ) (m : Mem) (k : ℕ) (y : ListNode) (a : ℕ) (cs : List Chunk)
    → stop ≤ k
    → View stop m a cs
    → View stop (change m k y) a cs
View-change_above stop m k y a [] l v = v
View-change_above stop m k y a (c ∷ cs) l v =
    ground (arith, View-le stop m c.last cs v.5, View-change_above stop m k y c.last cs l v.5)

-- `prev` is no part of the view.
View-set_prev :
    (stop : ℕ) (m : Mem) (a x : ℕ) (cs : List Chunk)
    → View stop m a cs
    → View stop (set_prev stop m a x) a cs
View-set_prev stop m a x [] v = v
View-set_prev stop m a x (c ∷ cs) v =
    subst (λ u. View stop u a (c ∷ cs)) (sym (ap (λ b. if b then m else written) not_stop))
      (
        v.0,
        v.1,
        ground (arith, v.2),
        ground (arith, v.3),
        ground (arith, v.4),
        View-change stop m a (record (m a) { prev = x }) c.last cs (omega arith) v.5,
      )
  where
    written : Mem
    written = change m a (record (m a) { prev = x })

    not_stop : (a == stop) ≡ false
    not_stop = ground (arith, View-le stop m c.last cs v.5)

pub View-set_prev_above :
    (stop : ℕ) (m : Mem) (k x : ℕ) (b a : ℕ) (cs : List Chunk)
    → b ≤ k
    → View b m a cs
    → View b (set_prev stop m k x) a cs
View-set_prev_above stop m k x b a cs l v = elim (Bool-cases (k == stop)) [
  | inl last ↦ subst (λ t. View b (if t then m else written) a cs) (sym last) v
  | inr inner ↦
      subst (λ t. View b (if t then m else written) a cs) (sym inner)
        (View-change_above b m k (record (m k) { prev = x }) a cs l v)
]
  where
    written : Mem
    written = change m k (record (m k) { prev = x })

pub set_prev-other : (stop : ℕ) (m : Mem) (k x a : ℕ) → k ≢ a → set_prev stop m k x a ≡ m a
set_prev-other stop m k x a ne = elim (Bool-cases (k == stop)) [
  | inl last ↦ ap (λ t. (if t then m else change m k (record (m k) { prev = x })) a) last
  | inr inner ↦
      ap (λ t. (if t then m else change m k (record (m k) { prev = x })) a) inner
      ∙ change_ne m k (record (m k) { prev = x }) a ne
]

-- The chunk at `a` is made longer, up to `b`, and a `prev` is written there.
pub stretched :
    (stop : ℕ) (m : Mem) (a b : ℕ) (c : Chunk) (cs : List Chunk)
    → c.first ≡ a
    → a + node_size ≤ b
    → (m a).in_use ≡ c.used
    → (m a).valid ≡ true
    → View stop m b cs
    → View stop (set_prev stop (set_next m a b) b a) a (record c { last = b } ∷ cs)
stretched stop m a b c cs e l u w v = (
  e,
  l,
  ap (λ (n : ListNode). n.next) kept,
  ap (λ (n : ListNode). n.in_use) kept ∙ u,
  ap (λ (n : ListNode). n.valid) kept ∙ w,
  View-set_prev stop (set_next m a b) b a cs
      (View-change stop m a (record (m a) { next = b }) b cs (omega arith) v),
)
  where
    kept : set_prev stop (set_next m a b) b a a ≡ record (m a) { next = b }
    kept =
        set_prev-other stop (set_next m a b) b a a (omega arith)
        ∙ change_self m a (record (m a) { next = b })

-- The second merge.
pub merge_next-View :
    (stop : ℕ) (m : Mem) (a : ℕ) (c : Chunk) (cs : List Chunk)
    → View stop m a (c ∷ cs)
    → View stop (merge_next stop m a) a (join_next (c ∷ cs))
unfolding merge_next
merge_next-View stop m a c [] v =
    subst (λ t. View stop (if t then joined else m) a (c ∷ [])) (sym at_end) v
  where
    joined : Mem
    joined =
        set_prev stop (set_next m a (m (m a).next).next) (set_next m a (m (m a).next).next a).next a

    at_end : (not ((m a).next == stop) && not (m (m a).next).in_use) ≡ false
    at_end = ground (arith, v.2, v.5)
merge_next-View stop m a c (n ∷ cs) v = elim (Bool-cases n.used) [
  | inl used ↦
      subst (λ t. View stop (if t then joined else m) a (join_next (c ∷ n ∷ cs))) (sym (busy used))
        (subst (λ t. View stop m a (if t then c ∷ n ∷ cs else record c { last = n.last } ∷ cs))
          (sym used) v)
  | inr unused ↦
      subst (λ t. View stop (if t then joined else m) a (join_next (c ∷ n ∷ cs)))
        (sym (clear unused))
        (subst (λ t. View stop joined a (if t then c ∷ n ∷ cs else record c { last = n.last } ∷ cs))
          (sym unused)
          (subst (λ u. View stop u a (record c { last = n.last } ∷ cs)) (sym joins)
            (stretched stop m a n.last c cs v.0 (omega arith) v.3 v.4 v.5.5)))
]
  where
    joined : Mem
    joined =
        set_prev stop (set_next m a (m (m a).next).next) (set_next m a (m (m a).next).next a).next a

    busy : n.used ≡ true → (not ((m a).next == stop) && not (m (m a).next).in_use) ≡ false
    busy used = ground (arith, ap (λ k. (m k).in_use) v.2, v.5.3)

    clear : n.used ≡ false → (not ((m a).next == stop) && not (m (m a).next).in_use) ≡ true
    clear unused =
        ground
          (arith, ap (λ k. (m k).in_use) v.2, v.5.3, View-le stop m n.last cs v.5.5, v.2, v.5.1)

    after : (m (m a).next).next ≡ n.last
    after = ap (λ k. (m k).next) v.2 ∙ v.5.2

    joins : joined ≡ set_prev stop (set_next m a n.last) n.last a
    joins =
        ap (λ k. set_prev stop (set_next m a k) (set_next m a k a).next a) after
        ∙ ap (λ (x : ListNode). set_prev stop (set_next m a n.last) x.next a)
            (change_self m a (record (m a) { next = n.last }))

-- The second merge writes to the chunk and behind it only.
pub merge_next-View_below :
    (stop : ℕ) (m : Mem) (k : ℕ) (c : Chunk) (cs : List Chunk)
    → View stop m k (c ∷ cs)
    → (b a : ℕ) (xs : List Chunk) → b ≤ k
    → View b m a xs
    → View b (merge_next stop m k) a xs
unfolding merge_next
merge_next-View_below stop m k c [] v b a xs l w =
    subst (λ t. View b (if t then joined else m) a xs) (sym at_end) w
  where
    joined : Mem
    joined =
        set_prev stop (set_next m k (m (m k).next).next) (set_next m k (m (m k).next).next k).next k

    at_end : (not ((m k).next == stop) && not (m (m k).next).in_use) ≡ false
    at_end = ground (arith, v.2, v.5)
merge_next-View_below stop m k c (n ∷ cs) v b a xs l w =
    elim (Bool-cases (not ((m k).next == stop) && not (m (m k).next).in_use)) [
      | inl merges ↦
          subst (λ t. View b (if t then joined else m) a xs) (sym merges)
            (View-set_prev_above stop (set_next m k after) (set_next m k after k).next k b a xs
              (omega (
                arith,
                ap (λ (x : ListNode). x.next) (change_self m k (record (m k) { next = after })),
                ap (λ j. (m j).next) v.2,
                v.5.2,
                v.5.1,
              ))
              (View-change_above b m k (record (m k) { next = after }) a xs l w))
      | inr stays ↦ subst (λ t. View b (if t then joined else m) a xs) (sym stays) w
    ]
  where
    after : ℕ
    after = (m (m k).next).next

    joined : Mem
    joined = set_prev stop (set_next m k after) (set_next m k after k).next k
