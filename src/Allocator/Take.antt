-- ===== src/Allocator/Take.antt =====
-- src/lib/util/lin_allocator.cpp: the chunk that `alloc` takes, and the list of chunks then.
use distributed_thread_libra.Prelude.{
  ℕ, ◌+◌, ◌-◌, ◌%◌, change_self, ◌<◌, ◌≤◌, ◌≡◌, refl, true, List, ◌∷◌, ltb, arith, inl, inr,
  Bool-cases, subst, ap,
}
use distributed_thread_libra.Allocator.{
  ListNode, Mem, node_size, min_chunk, chunk_size, split, take_chunk,
}
use distributed_thread_libra.Allocator.View.{
  Chunk, View, room, cut_if, front_part, back_part, cut, View-le, View-change,
}

-- What the node of a taken chunk says.
abbrev pub Taken : (size : ℕ) → Mem → (a : ℕ) → Type 0
Taken size m a =
    ((m a).valid ≡ true)
    × ((m a).in_use ≡ true)
    × ((m a).alloc_size ≡ size % 65536)
    × (size ≤ chunk_size m a)

module _ (stop : ℕ) (small : stop < 18446744073709551616) (size : ℕ) (m : Mem) where
  pub chunk_size-View :
      (a : ℕ) (c : Chunk) (cs : List Chunk) → View stop m a (c ∷ cs) → chunk_size m a ≡ room c
  chunk_size-View a c cs v = omega (arith, v, View-le stop m c.last cs v.5)

  pub taken :
      (a : ℕ) (c : Chunk) (cs : List Chunk)
      → View stop m a (c ∷ cs)
      → size ≤ room c
      → View stop (take_chunk m a size) a (cut size c cs)
  unfolding take_chunk
  taken a c cs v enough = elim (Bool-cases (ltb min_chunk (room c - size))) [
    | inl big ↦
        let more : min_chunk < room c - size = ground arith in
        rw (chunk_size-View a c cs v, big)
          (
            v.0,
            omega arith,
            ground arith,
            ground arith,
            ground (arith, v.4),
            (
              refl,
              omega arith,
              ground (arith, v.0, v.2),
              ground (arith, v.0),
              ground (arith, v.0),
              View-change stop _ a _ c.last cs (omega arith) (
                  View-change stop _ a _ c.last cs (omega arith)
                    (View-change stop m (a + node_size + size) _ c.last cs (omega arith) v.5)),
            ),
          )
    | inr not_big ↦
        rw (chunk_size-View a c cs v, not_big)
          (
            v.0,
            v.1,
            ground (arith, v.2),
            ground arith,
            ground (arith, v.4),
            View-change stop m a _ c.last cs (omega arith) v.5,
          )
  ]

  -- A write for a chunk at `b` does not change a chunk in front of it.
  pub passed :
      (a b : ℕ) (c : Chunk) (ds : List Chunk) (cs : List Chunk)
      → View stop m a (c ∷ cs)
      → c.last ≤ b
      → View stop (take_chunk m b size) c.last ds
      → View stop (take_chunk m b size) a (c ∷ ds)
  unfolding take_chunk
  passed a b c ds cs v far w =
      (v.0, v.1, ground (arith, v.2), ground (arith, v.3), ground (arith, v.4), w)

pub take_chunk-Taken :
    (stop : ℕ)
    → stop < 18446744073709551616
    → (size : ℕ) (m : Mem) (a : ℕ) (c : Chunk) (cs : List Chunk) → View stop m a (c ∷ cs)
    → size ≤ room c
    → Taken size (take_chunk m a size) a
unfolding take_chunk
take_chunk-Taken stop small size m a c cs v enough =
    elim (Bool-cases (ltb min_chunk (room c - size))) [
      | inl big ↦
          let w =
            subst (λ t. View stop (take_chunk m a size) a (cut_if t size c cs)) big
              (taken stop small size m a c cs v enough) in
          by_view (front_part size c) (back_part size c ∷ cs) w (omega arith)
      | inr not_big ↦
          let w =
            subst (λ t. View stop (take_chunk m a size) a (cut_if t size c cs)) not_big
              (taken stop small size m a c cs v enough) in
          by_view (record c { used = true }) cs w enough
    ]
  where
    by_view :
        (d : Chunk) (ds : List Chunk)
        → View stop (take_chunk m a size) a (d ∷ ds)
        → size ≤ room d
        → Taken size (take_chunk m a size) a
    by_view d ds w l = (
      w.4,
      ap (λ (x : ListNode). x.in_use) written,
      ap (λ (x : ListNode). x.alloc_size) written,
      omega (arith, chunk_size-View stop small size (take_chunk m a size) a d ds w),
    )
      where
        written :
            take_chunk m a size a
            ≡ record (split m a size a) { in_use = true; alloc_size = size % 65536 }
        written =
            change_self (split m a size) a
              (record (split m a size a) { in_use = true; alloc_size = size % 65536 })
