-- ===== src/Dsm/Range/Laws.antt =====
-- src/lib/dsm_node.cpp: the addresses that `is_in_range` lets through.
use distributed_thread_libra.Prelude.{ℕ, ◌+◌, ◌*◌, ◌%◌, ◌<◌, ◌≤◌, ◌≡◌, true, arith}
use distributed_thread_libra.Threads.StackPool.{page_size}
use distributed_thread_libra.Dsm.Range.{
  floor, relative_page_id_to_addr, relative_page_id_from_addr, is_in_range,
}

is_in_range-bounds :
    (stack_start base pages addr : ℕ)
    → is_in_range stack_start base pages addr ≡ true
    → (base ≤ addr) × (addr < base + 4096 * pages)
unfolding is_in_range
is_in_range-bounds stack_start base pages addr h = (ground arith, ground arith)

-- Where the region starts at a page, the page number of an address in range is below the number of
-- pages, and the page's address is the address with its offset cut off.
pub is_in_range-page :
    (stack_start base pages addr : ℕ)
    → base % page_size ≡ 0
    → is_in_range stack_start base pages addr ≡ true
    → (relative_page_id_from_addr base addr < pages)
      × (relative_page_id_to_addr base (relative_page_id_from_addr base addr) ≡ floor addr)
is_in_range-page stack_start base pages addr aligned h =
    let (low, high) = is_in_range-bounds stack_start base pages addr h in (omega arith, omega arith)
