-- ===== src/Allocator/Tests.antt =====
-- Runs of lin_allocator.cpp on a region of 4096 bytes at the address 8192, and the theorems there.
use distributed_thread_libra.Prelude.{
  ℕ, ◌≡◌, ◌≤◌, ◌<◌, ◌↔◌, refl, true, false, List, [], ◌∷◌, arith, ◌==◌, if◌then◌else◌, Bool,
}
use distributed_thread_libra.Allocator.{
  Mem, align64_ceil, find, take_chunk, set_root, alloc, dealloc, capacity, alloc_size, merge_prev,
  merge_next,
}
use distributed_thread_libra.Allocator.View.{Chunk, View}
use distributed_thread_libra.Allocator.Alloc.{Allocated, alloc-first_fit, alloc-whole}
use distributed_thread_libra.Allocator.Apart.{Apart, alloc-capacity}
use distributed_thread_libra.Allocator.Dealloc.{dealloc_lem}

abbrev zeroed : Mem
zeroed a = record { prev = 0; next = 0; valid = false; in_use = false; alloc_size = 0 }

abbrev after_alloc : Mem → ℕ → Mem
unfolding alloc find take_chunk
after_alloc m size = (alloc 8192 4096 m size).0

abbrev block : Mem → ℕ → ℕ
unfolding alloc find take_chunk
block m size = (alloc 8192 4096 m size).1

abbrev after_dealloc : Mem → ℕ → Mem
unfolding dealloc merge_prev merge_next
after_dealloc m addr = dealloc 8192 4096 m addr

first_block : block zeroed 13 ≡ 8216
unfolding block
first_block = refl

too_large : block zeroed 4073 ≡ 0
unfolding block
too_large = refl

-- Three blocks; the second goes and two smaller ones take its place; then the first of these and the
-- third go.
abbrev three : Mem
three = after_alloc (after_alloc (after_alloc zeroed 104) 512) 104

abbrev four : Mem
four = after_alloc (after_alloc (after_dealloc three 8344) 104) 304

abbrev two : Mem
two = after_dealloc (after_dealloc four 8344) 8880

blocks :
    (block (after_alloc (after_alloc zeroed 104) 512) 104 ≡ 8880)
    × (block (after_dealloc three 8344) 104 ≡ 8344)
    × (block (after_alloc (after_dealloc three 8344) 104) 304 ≡ 8472)
    × ((four 8448).in_use ≡ true)
unfolding block after_alloc after_dealloc
blocks = (refl, refl, refl, refl)

-- The block at 8472 is in use, and `alloc` gives it out once more, inside a larger one.
given_twice : ((two 8448).in_use ≡ true) × (block two 1024 ≡ 8344)
unfolding block after_alloc after_dealloc
given_twice = (refl, refl)

abbrev three_chunks : Mem
three_chunks a =
    if a == 8192
    then record { prev = 0; next = 9216; valid = true; in_use = true; alloc_size = 1000 }
    else if a == 9216
    then record { prev = 8192; next = 10240; valid = true; in_use = false; alloc_size = 0 }
    else record { prev = 9216; next = 12288; valid = true; in_use = true; alloc_size = 2024 }

abbrev chunk : ℕ → ℕ → Bool → Chunk
chunk a b u = record { first = a; last = b; used = u }

abbrev chunks : List Chunk
chunks = chunk 8192 9216 true ∷ chunk 9216 10240 false ∷ chunk 10240 12288 true ∷ []

three_chunks-View : View 12288 three_chunks 8192 chunks
three_chunks-View = (
  refl,
  omega arith,
  refl,
  refl,
  refl,
  (refl, omega arith, refl, refl, refl, (refl, omega arith, refl, refl, refl, refl)),
)

alloc-first_fit_example :
    Allocated 8192 4096 100 three_chunks chunks
      (alloc 8192 4096 three_chunks 100).0
      (alloc 8192 4096 three_chunks 100).1
alloc-first_fit_example =
    alloc-first_fit 8192 4096 (omega arith) three_chunks (chunk 8192 9216 true)
      (chunk 9216 10240 false ∷ chunk 10240 12288 true ∷ []) 100 three_chunks-View

alloc-whole_example :
    View 12288 (set_root 8192 4096 zeroed) 8192 (chunk 8192 12288 false ∷ [])
    × Allocated 8192 4096 13
        (set_root 8192 4096 zeroed)
        (chunk 8192 12288 false ∷ [])
        (alloc 8192 4096 zeroed 13).0
        (alloc 8192 4096 zeroed 13).1
alloc-whole_example = alloc-whole 8192 4096 (omega arith) zeroed 13 refl (omega arith)

alloc-capacity_example :
    (100 ≤ capacity (alloc 8192 4096 three_chunks 100).0 (alloc 8192 4096 three_chunks 100).1)
    × (104 ≤ capacity (alloc 8192 4096 three_chunks 100).0 (alloc 8192 4096 three_chunks 100).1)
    × ((alloc_size (alloc 8192 4096 three_chunks 100).0 (alloc 8192 4096 three_chunks 100).1 ≡ 104)
        ↔ (align64_ceil 100 < 32768))
unfolding alloc find
alloc-capacity_example =
    alloc-capacity 8192 4096 three_chunks (chunk 8192 9216 true)
      (chunk 9216 10240 false ∷ chunk 10240 12288 true ∷ []) 100 (omega arith) three_chunks-View
      (omega arith) (omega arith)

dealloc_lem_example :
    View 12288
      (dealloc 8192 4096 three_chunks 10264)
      8192
      (chunk 8192 9216 true ∷ chunk 9216 12288 false ∷ [])
dealloc_lem_example =
    dealloc_lem 8192 4096 three_chunks (chunk 8192 9216 true ∷ []) (chunk 9216 10240 false) []
      (chunk 10240 12288 true) [] three_chunks-View refl (omega arith)
