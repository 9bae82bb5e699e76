-- ===== src/Allocator/View.antt =====
-- src/lib/util/lin_allocator.cpp: the list of chunks that a memory holds, and `alloc` as a function on lists of
-- chunks.
use distributed_thread_libra.Prelude.{
  ℕ, ◌+◌, ◌-◌, ◌<◌, ◌≤◌, ◌≡◌, Bool, true, false, ◌||◌, Option, none, some, List, [], ◌∷◌, ltb,
  if◌then◌else◌, arith, change, length,
}
use distributed_thread_libra.Allocator.{ListNode, Mem, node_size, min_chunk}

-- A chunk with its header: its first address, the address behind it, and whether it is in use.
pub record Chunk : Type 0 where
  pub first : ℕ
  pub last : ℕ
  pub used : Bool

-- The chunks of the memory from address `a` on, each from its node to its `next`, up to `stop`.
abbrev pub View : (stop : ℕ) → Mem → (a : ℕ) → List Chunk → Type 0
View stop m a [] = a ≡ stop
View stop m a (c ∷ cs) =
    (c.first ≡ a)
    × (a + node_size ≤ c.last)
    × ((m a).next ≡ c.last)
    × ((m a).in_use ≡ c.used)
    × ((m a).valid ≡ true)
    × View stop m c.last cs

-- The bytes of a chunk behind its header.
abbrev pub room : Chunk → ℕ
room c = c.last - (c.first + node_size)

-- The two parts of a chunk that is cut.
abbrev pub front_part : (size : ℕ) → Chunk → Chunk
front_part size c = record { first = c.first; last = c.first + node_size + size; used = true }

abbrev pub back_part : (size : ℕ) → Chunk → Chunk
back_part size c = record { first = c.first + node_size + size; last = c.last; used = false }

abbrev pub cut_if : Bool → (size : ℕ) → Chunk → List Chunk → List Chunk
cut_if true size c cs = front_part size c ∷ back_part size c ∷ cs
cut_if false size c cs = record c { used = true } ∷ cs

-- A chunk that is taken for `size` bytes, cut in two when more than `MIN_CHUNK` bytes are left.
abbrev pub cut : (size : ℕ) → Chunk → List Chunk → List Chunk
cut size c cs = cut_if (ltb min_chunk (room c - size)) size c cs

abbrev pub cons_to : Chunk → Option (List Chunk × ℕ) → Option (List Chunk × ℕ)
cons_to c none = none
cons_to c (some (cs, a)) = some (c ∷ cs, a)

-- The first free chunk with room is taken: the chunks then, and the address behind its header.
unfoldable pub first_fit : (size : ℕ) → List Chunk → Option (List Chunk × ℕ)
first_fit size [] = none
first_fit size (c ∷ cs) =
    if c.used || ltb (room c) size
    then cons_to c (first_fit size cs)
    else some (cut size c cs, c.first + node_size)

module _ (stop : ℕ) (m : Mem) where
  pub View-le : (a : ℕ) (cs : List Chunk) → View stop m a cs → a ≤ stop
  View-le a [] v = omega arith
  View-le a (c ∷ cs) v = omega (arith, View-le c.last cs v.5)

  pub length-View : (a : ℕ) (cs : List Chunk) → View stop m a cs → a + length cs ≤ stop
  length-View a [] v = omega arith
  length-View a (c ∷ cs) v = omega (arith, length-View c.last cs v.5)

  -- A write below the chunks does not change them.
  pub View-change :
      (b : ℕ) (x : ListNode) (a : ℕ) (cs : List Chunk)
      → b < a
      → View stop m a cs
      → View stop (change m b x) a cs
  View-change b x a [] l v = v
  View-change b x a (c ∷ cs) l v = ground (arith, View-change b x c.last cs (omega arith) v.5)
