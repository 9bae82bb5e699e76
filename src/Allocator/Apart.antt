-- ===== src/Allocator/Apart.antt =====
-- src/lib/util/lin_allocator.cpp: the block that `alloc` returns, and the chunks around it.
use distributed_thread_libra.Prelude.{
  ℕ, ◌+◌, ◌*◌, ◌/◌, ◌%◌, ◌-◌, ◌<◌, ◌≤◌, ◌≡◌, ◌≢◌, ◌↔◌, ◌⊎◌, inl, inr, true, false, ◌||◌, some, List,
  [], ◌∷◌, ltb, arith, Bool-cases, Option-cases, if◌then◌else◌, change_ne, subst, sym, ap, ◌∙◌,
  change,
}
use distributed_thread_libra.Allocator.{
  ListNode, Mem, node_size, min_chunk, alloc, align64_ceil, take_chunk, chunk_size, split, widen,
  word, capacity, alloc_size,
}
use distributed_thread_libra.Allocator.View.{
  Chunk, View, View-le, room, cut_if, front_part, back_part, first_fit,
}
use distributed_thread_libra.Allocator.Take.{Taken, taken}
use distributed_thread_libra.Allocator.Alloc.{alloc-first_fit}

-- Every chunk is free, or ends below `lo`, or starts behind `hi`.
abbrev pub Apart : (lo hi : ℕ) → List Chunk → Type 0
Apart lo hi [] = Unit
Apart lo hi (c ∷ cs) = ((c.used ≡ false) ⊎ (c.last ≤ lo) ⊎ (hi ≤ c.first)) × Apart lo hi cs

module _ (stop : ℕ) (m : Mem) where
  Apart-behind : (lo hi a : ℕ) (cs : List Chunk) → View stop m a cs → hi ≤ a → Apart lo hi cs
  Apart-behind lo hi a [] v l = tt
  Apart-behind lo hi a (c ∷ cs) v l =
      (inr (inr (omega arith)), Apart-behind lo hi c.last cs v.5 (omega arith))

  first_fit-Apart :
      (size a : ℕ) (cs : List Chunk) {ds : List Chunk} {addr : ℕ}
      → View stop m a cs
      → first_fit size cs ≡ some (ds, addr)
      → (a + node_size ≤ addr) × (addr + size ≤ stop) × Apart (addr - node_size) (addr + size) cs
  unfolding first_fit
  first_fit-Apart size a [] v e = cc
  first_fit-Apart size a (c ∷ cs) {ds} {addr} v e =
      elim (Bool-cases (c.used || ltb (room c) size)) [
        | inl skip ↦ elim (Option-cases (first_fit size cs)) [
          | inl nothing ↦ absurd (ground (arith, skip, nothing, e))
          | inr ((es, b), rest) ↦
              let same : b ≡ addr = ground (arith, skip, rest, e) in
              let (low, high, apart) = first_fit-Apart size c.last cs v.5 rest in
              (
                omega arith,
                omega arith,
                (
                  inr (inl (omega arith)),
                  subst (λ j. Apart (j - node_size) (j + size) cs) same apart,
                ),
              )
        ]
        | inr take ↦
            let here : c.first + node_size ≡ addr = ground (arith, take, e) in
            let fits : size ≤ room c = ground (arith, take) in
            (
              omega arith,
              omega (arith, View-le stop m c.last cs v.5),
              (
                inl (ground (arith, take)),
                Apart-behind (addr - node_size) (addr + size) c.last cs v.5 (omega arith),
              ),
            )
      ]

widen-short : (s : ℕ) → s < 9223372036854775808 → (widen (s % 65536) ≡ s) ↔ (s < 32768)
widen-short s l = elim (Bool-cases (ltb (s % 65536) 32768)) [
  | inl below ↦ rw below (λ e. ground arith, λ h. omega arith)
  | inr above ↦ rw above (λ e. absurd (ground arith), λ h. absurd (ground arith))
]

Taken-sizes :
    (q : ℕ) (m : Mem) (addr : ℕ)
    → Taken (q * 8) m (addr - node_size)
    → q * 8 < 9223372036854775808
    → (q * 8 ≤ capacity m addr) × ((alloc_size m addr ≡ q * 8) ↔ (q * 8 < 32768))
unfolding capacity alloc_size
Taken-sizes q m addr node l = rw (node.0, node.1, node.2) (omega arith, widen-short (q * 8) l)

-- For a size that does not wrap around when `alloc` rounds it up to words: `capacity` of a block that `alloc` returned
-- is at least the size asked for and the rounded size, and `alloc_size` is the rounded size exactly when this fits a
-- `short`.
pub alloc-capacity :
    (start len : ℕ) (m : Mem) (c : Chunk) (cs : List Chunk) (size : ℕ)
    → start + len < 9223372036854775808
    → View (start + len) m start (c ∷ cs)
    → size + 7 < 18446744073709551616
    → (alloc start len m size).1 ≢ 0
    → let (m', addr) = alloc start len m size in
      (size ≤ capacity m' addr)
      × (align64_ceil size ≤ capacity m' addr)
      × ((alloc_size m' addr ≡ align64_ceil size) ↔ (align64_ceil size < 32768))
alloc-capacity start len m c cs size small v fits_word real =
    elim (alloc-first_fit start len (omega arith) m c cs size v) [
      | inl (_, null, _) ↦ absurd (real null)
      | inr (ds, fits, w, node) ↦
          let (low, high, apart) =
            first_fit-Apart (start + len) m (align64_ceil size) start (c ∷ cs) v fits in
          let sizes =
            Taken-sizes (word (size + 7) / 8) (alloc start len m size).0 (alloc start len m size).1
              node (omega arith) in
          let rounded : size ≤ align64_ceil size = omega (arith, fits_word) in
          (omega (arith, sizes.0, rounded), sizes.0, sizes.1)
    ]

split-other : (m : Mem) (a size j : ℕ) → a ≢ j → a + node_size + size ≢ j → split m a size j ≡ m j
split-other m a size j not_a not_new = elim (Bool-cases (ltb min_chunk (chunk_size m a - size))) [
  | inl more ↦
      ap (λ t. (if t then change (change m (a + node_size + size) x) a y else m) j) more
      ∙ change_ne (change m (a + node_size + size) x) a y j not_a
      ∙ change_ne m (a + node_size + size) x j not_new
  | inr less ↦ ap (λ t. (if t then change (change m (a + node_size + size) x) a y else m) j) less
]
  where
    x : ListNode
    x = record (m (a + node_size + size)) {
      next = (m a).next;
      prev = a;
      valid = true;
      in_use = false;
    }

    y : ListNode
    y = record (m a) { next = a + node_size + size }

-- Where `alloc` takes the free chunk `c` and cuts it, a new free chunk stands between `c` and the chunk `n`
-- behind it, and the `prev` of `n` still names `c`.
pub take_chunk-prev :
    (stop : ℕ) (m : Mem) (a size : ℕ) (c n : Chunk) (cs : List Chunk)
    → stop < 18446744073709551616
    → View stop m a (c ∷ n ∷ cs)
    → min_chunk + size < room c
    → (m n.first).prev ≡ a
    → View stop (take_chunk m a size) a (front_part size c ∷ back_part size c ∷ n ∷ cs)
      × ((take_chunk m a size n.first).prev ≡ (front_part size c).first)
unfolding take_chunk
take_chunk-prev stop m a size c n cs small v big names = (
  subst (λ t. View stop (take_chunk m a size) a (cut_if t size c (n ∷ cs))) cuts
      (taken stop small size m a c (n ∷ cs) v (omega arith)),
  ap (λ (x : ListNode). x.prev)
        (change_ne (split m a size) a _ n.first (omega arith)
          ∙ split-other m a size n.first (omega arith) (omega arith))
      ∙ names
      ∙ sym v.0,
)
  where
    cuts : ltb min_chunk (room c - size) ≡ true
    cuts = ground arith
