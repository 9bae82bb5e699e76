-- ===== src/Allocator.antt =====
-- src/lib/util/lin_allocator.cpp: the allocator of the shared region, a list of chunks in address order. The
-- memory is what each address holds when it is read as a `ListNode`; the nodes of the list do not overlap,
-- so that a write to one leaves the others as they are, and a caller writes to its own chunk only.
-- `start` is DYNAMIC_START and `len` is DYNAMIC_SIZE. `alloc` and `dealloc` run under `alloc_mu`.
pub mod View
pub mod Take
pub mod Alloc
pub mod Apart
pub mod Merge
pub mod Dealloc
mod Tests
use distributed_thread_libra.Prelude.{
  ℕ, zero, suc, ◌+◌, ◌-◌, ◌*◌, ◌/◌, ◌%◌, Bool, true, false, not, ◌&&◌, ◌||◌, ltb, ◌==◌,
  if◌then◌else◌, change,
}

abbrev pub dynamic_size : ℕ
dynamic_size = 40960000

abbrev pub min_chunk : ℕ
min_chunk = 128

-- `sizeof(ListNode)`
abbrev pub node_size : ℕ
node_size = 24

-- `alloc_size` is the pattern of 16 bits of a `short`.
pub record ListNode : Type 0 where
  pub prev : ℕ
  pub next : ℕ
  pub valid : Bool
  pub in_use : Bool
  pub alloc_size : ℕ

abbrev pub Mem : Type 0
Mem = ℕ → ListNode

abbrev pub word : ℕ → ℕ
word n = n % 18446744073709551616

abbrev pub align64_floor : ℕ → ℕ
align64_floor x = x / 8 * 8

abbrev pub align64_ceil : ℕ → ℕ
align64_ceil x = word (x + 7) / 8 * 8

-- `chunk_size` of the node at `a`, a `size_t`
abbrev pub chunk_size : Mem → (a : ℕ) → ℕ
chunk_size m a = word ((m a).next + 18446744073709551616 - (a + node_size))

-- How the loop of `alloc` ends.
pub data Search : Type 0 where
  found : ℕ → Search
  at_end : Search
  spent : Search

-- The loop of `alloc`, up to the chunk that it takes.
unfoldable pub find : (stop size fuel : ℕ) → Mem → (curr : ℕ) → Search
find stop size zero m curr = spent
find stop size (suc f) m curr =
    let rest = find stop size f m (m curr).next in
    if curr == stop
    then at_end
    else if (m curr).in_use || ltb (chunk_size m curr) size
    then rest
    else found curr

-- What `alloc` writes when it takes the chunk at `curr`.
abbrev pub split : Mem → (curr size : ℕ) → Mem
split m curr size =
    let new_node = curr + node_size + size in
    if ltb min_chunk (chunk_size m curr - size)
    then change
        (change m new_node
          (record (m new_node) { next = (m curr).next; prev = curr; valid = true; in_use = false }))
        curr (record (m curr) { next = new_node })
    else m

unfoldable pub take_chunk : Mem → (curr size : ℕ) → Mem
take_chunk m curr size =
    let m' = split m curr size in
    change m' curr (record (m' curr) { in_use = true; alloc_size = size % 65536 })

abbrev pub root_node : (start len : ℕ) → ListNode
root_node start len = record {
  prev = 0;
  next = start + len;
  valid = true;
  in_use = false;
  alloc_size = 0;
}

-- The root node, set up at the first call.
abbrev pub set_root : (start len : ℕ) → Mem → Mem
set_root start len m = if (m start).valid then m else change m start (root_node start len)

-- The loop of `alloc` and what follows it; the address 0 is the null pointer.
abbrev pub alloc_from : (start len : ℕ) → Mem → (size : ℕ) → Mem × ℕ
alloc_from start len m size = elim (find (start + len) size (suc len) m start) [
  | found curr ↦ (take_chunk m curr size, curr + node_size)
  | _ ↦ (m, 0)
]

-- The memory after `alloc`, and the address that it returns.
unfoldable pub alloc : (start len : ℕ) → Mem → (size : ℕ) → Mem × ℕ
alloc start len m size = alloc_from start len (set_root start len m) (align64_ceil size)

unfoldable pub capacity : Mem → (addr : ℕ) → ℕ
capacity m addr =
    let node = addr - node_size in
    if (m node).valid && (m node).in_use then align64_floor (chunk_size m node) else 0

-- A `short` widened to `size_t`.
abbrev pub widen : ℕ → ℕ
widen n = if ltb n 32768 then n else n + 18446744073709486080

unfoldable pub alloc_size : Mem → (addr : ℕ) → ℕ
alloc_size m addr =
    let node = addr - node_size in
    if (m node).valid && (m node).in_use then widen (m node).alloc_size else 0

abbrev pub set_next : Mem → (a next : ℕ) → Mem
set_next m a next = change m a (record (m a) { next = next })

-- `if (a != REGION_END_NODE) a->prev = prev`
abbrev pub set_prev : (stop : ℕ) → Mem → (a prev : ℕ) → Mem
set_prev stop m a prev = if a == stop then m else change m a (record (m a) { prev = prev })

-- The merge of a freed chunk with the chunk that its `prev` names, and the chunk that results.
unfoldable pub merge_prev : (stop : ℕ) → Mem → (node : ℕ) → Mem × ℕ
merge_prev stop m node =
    let before = (m node).prev in
    if not (before == 0) && not (m before).in_use
    then (set_prev stop (set_next m before (m node).next) (m node).next before, before)
    else (m, node)

unfoldable pub merge_next : (stop : ℕ) → Mem → (node : ℕ) → Mem
merge_next stop m node =
    let after = (m node).next in
    if not (after == stop) && not (m after).in_use
    then (let m' = set_next m node (m after).next in set_prev stop m' (m' node).next node)
    else m

unfoldable pub dealloc : (start len : ℕ) → Mem → (addr : ℕ) → Mem
unfolding merge_prev merge_next
dealloc start len m addr =
    let node = addr - node_size in
    let freed = change m node (record (m node) { in_use = false }) in
    let (merged, whole) = merge_prev (start + len) freed node in
    merge_next (start + len) merged whole
