-- ===== src/Allocator/Alloc.antt =====
-- src/lib/util/lin_allocator.cpp: `alloc` on a memory that holds a list of chunks.
use distributed_thread_libra.Prelude.{
  ℕ, zero, suc, ◌+◌, ◌-◌, ◌<◌, ◌≤◌, ◌≡◌, refl, true, false, ◌||◌, none, some, List, [], ◌∷◌, ltb,
  if◌then◌else◌, arith, change, length, ◌⊎◌, inl, inr, Bool-cases, subst, sym, ap,
}
use distributed_thread_libra.Allocator.{
  Mem, node_size, Search, found, at_end, spent, find, take_chunk, set_root, root_node, alloc_from,
  alloc, align64_ceil,
}
use distributed_thread_libra.Allocator.View.{
  Chunk, View, room, cut, first_fit, View-le, length-View,
}
use distributed_thread_libra.Allocator.Take.{
  Taken, chunk_size-View, taken, passed, take_chunk-Taken,
}

-- What the loop finds, against the list of chunks.
abbrev Fits : (stop size : ℕ) → Mem → (a : ℕ) → List Chunk → Search → Type 0
Fits stop size m a cs (found b) =
    (ds : List Chunk) × (a ≤ b)
    × (first_fit size cs ≡ some (ds, b + node_size))
    × View stop (take_chunk m b size) a ds
    × Taken size (take_chunk m b size) b
Fits stop size m a cs at_end = first_fit size cs ≡ none
Fits stop size m a cs spent = ⊥

module _ (stop : ℕ) (small : stop < 18446744073709551616) (size : ℕ) (m : Mem) where
  Fits-cons :
      (a : ℕ) (c : Chunk) (cs : List Chunk)
      → View stop m a (c ∷ cs)
      → (c.used || ltb (room c) size) ≡ true
      → (r : Search) → Fits stop size m c.last cs r
      → Fits stop size m a (c ∷ cs) r
  unfolding first_fit
  Fits-cons a c cs v skip (found b) (ds, far, fits, w, node) = (
    c ∷ ds,
    omega arith,
    ground (arith, skip, fits),
    passed stop small size m a b c ds cs v far w,
    node,
  )
  Fits-cons a c cs v skip at_end fits = ground (arith, skip, fits)
  Fits-cons a c cs v skip spent fits = fits

  -- With a round for each chunk, the loop finds what `first_fit` takes.
  find-first_fit :
      (f a : ℕ) (cs : List Chunk)
      → length cs < f
      → View stop m a cs
      → Fits stop size m a cs (find stop size f m a)
  unfolding find first_fit
  find-first_fit zero a cs l v = absurd (omega arith)
  find-first_fit (suc f) a [] l v =
      let e : find stop size (suc f) m a ≡ at_end = ground arith in
      subst (Fits stop size m a []) (sym e) refl
  find-first_fit (suc f) a (c ∷ cs) l v = elim (Bool-cases (c.used || ltb (room c) size)) [
    | inl skip ↦
        let e : find stop size (suc f) m a ≡ find stop size f m c.last = ground (
          arith,
          chunk_size-View stop small size m a c cs v,
          View-le stop m c.last cs v.5,
          v,
          skip,
        ) in
        subst (Fits stop size m a (c ∷ cs)) (sym e) (
          Fits-cons a c cs v skip (find stop size f m c.last)
            (find-first_fit f c.last cs (omega arith) v.5))
    | inr take ↦
        let e : find stop size (suc f) m a ≡ found a = ground (
          arith,
          chunk_size-View stop small size m a c cs v,
          View-le stop m c.last cs v.5,
          v,
          take,
        ) in
        subst (Fits stop size m a (c ∷ cs)) (sym e) (
          cut size c cs,
          omega arith,
          ground (arith, take, v.0),
          taken stop small size m a c cs v (ground (arith, take)),
          take_chunk-Taken stop small size m a c cs v (ground (arith, take)),
        )
  ]

module _ (start len : ℕ) where
  -- What `alloc` gives on a memory with the chunks `cs`, as a function of the chunks.
  abbrev pub Allocated : (size : ℕ) → Mem → List Chunk → Mem → ℕ → Type 0
  Allocated size m cs m' addr =
      ((first_fit (align64_ceil size) cs ≡ none) × (addr ≡ 0) × (m' ≡ m))
      ⊎ ((ds : List Chunk) × (first_fit (align64_ceil size) cs ≡ some (ds, addr))
          × View (start + len) m' start ds
          × Taken (align64_ceil size) m' (addr - node_size))

  abbrev pub whole : Chunk
  whole = record { first = start; last = start + len; used = false }

module _ (start len : ℕ) (small : start + len < 18446744073709551616) where
  abbrev outcome : (size : ℕ) → Mem → Search → Mem × ℕ
  outcome size m r = elim r [ found curr ↦ (take_chunk m curr size, curr + node_size) | _ ↦ (m, 0) ]

  Fits-Allocated :
      (m : Mem) (cs : List Chunk) (size : ℕ) (r : Search)
      → Fits (start + len) (align64_ceil size) m start cs r
      → Allocated start len size m cs
          (outcome (align64_ceil size) m r).0
          (outcome (align64_ceil size) m r).1
  Fits-Allocated m cs size (found b) (ds, far, fits, w, node) = inr (
    ds,
    fits,
    w,
    subst (Taken (align64_ceil size) (take_chunk m b (align64_ceil size))) (omega arith) node,
  )
  Fits-Allocated m cs size at_end fits = inl (fits, refl, refl)
  Fits-Allocated m cs size spent fits = absurd fits

  -- On a memory that holds a list of chunks, `alloc` takes the first free chunk with room for the size
  -- rounded up, as `first_fit` says, or returns null and changes nothing when there is none.
  pub alloc-first_fit :
      (m : Mem) (c : Chunk) (cs : List Chunk) (size : ℕ)
      → View (start + len) m start (c ∷ cs)
      → Allocated start len size m (c ∷ cs) (alloc start len m size).0 (alloc start len m size).1
  unfolding alloc
  alloc-first_fit m c cs size v =
      subst (λ u. Allocated start len size m (c ∷ cs) u.0 u.1)
        (ap
          (λ b.
            alloc_from start len (if b then m else change m start (root_node start len))
              (align64_ceil size))
          (sym v.4))
        (Fits-Allocated m (c ∷ cs) size (find (start + len) (align64_ceil size) (suc len) m start) (
          find-first_fit (start + len) small (align64_ceil size) m (suc len) start (c ∷ cs)
            (omega (arith, length-View (start + len) m start (c ∷ cs) v)) v))

  -- The first call, on memory with no valid root, works on one free chunk that is the whole region.
  pub alloc-whole :
      (m : Mem) (size : ℕ)
      → (m start).valid ≡ false
      → node_size ≤ len
      → View (start + len) (set_root start len m) start (whole start len ∷ [])
        × Allocated start len size
            (set_root start len m)
            (whole start len ∷ [])
            (alloc start len m size).0
            (alloc start len m size).1
  unfolding alloc
  alloc-whole m size v l = (
    view,
    subst (λ u. Allocated start len size (set_root start len m) (whole start len ∷ []) u.0 u.1)
        (ap (λ u. alloc_from start len u (align64_ceil size)) again)
        (alloc-first_fit (set_root start len m) (whole start len) [] size view),
  )
    where
      view : View (start + len) (set_root start len m) start (whole start len ∷ [])
      view = rw v (refl, omega arith, ground arith, ground arith, ground arith, refl)

      again : set_root start len (set_root start len m) ≡ set_root start len m
      again =
          ap
            (λ b.
              if b
              then set_root start len m
              else change (set_root start len m) start (root_node start len))
            view.4
