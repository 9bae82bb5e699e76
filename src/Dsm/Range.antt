-- ===== src/Dsm/Range.antt =====
-- src/include/dsm_node.hpp and src/lib/dsm_node.cpp: addresses and page numbers of the shared region.
-- Addresses are below 2 ^ 63, so that `intptr_t` is the number; an `int` is its pattern of 32 bits.
pub mod Laws
mod Tests
use distributed_thread_libra.Prelude.{
  ℕ, ◌+◌, ◌-◌, ◌*◌, ◌/◌, ◌%◌, Bool, not, ◌&&◌, ltb, leb, ◌==◌, if◌then◌else◌,
}
use distributed_thread_libra.Threads.StackPool.{page_size, pages_per_stack, total_possible_stacks}

-- `FLOOR`
abbrev pub floor : (addr : ℕ) → ℕ
floor addr = addr / page_size * page_size

abbrev pub relative_page_id_to_addr : (base page_id : ℕ) → ℕ
relative_page_id_to_addr base page_id = base + page_id * page_size

abbrev pub relative_page_id_from_addr : (base addr : ℕ) → ℕ
relative_page_id_from_addr base addr = (addr - base) / page_size

-- `int idx` of `is_in_range`: the quotient is rounded towards 0 and cut to 32 bits.
abbrev pub stack_index : (stack_start addr : ℕ) → ℕ
stack_index stack_start addr =
    if leb stack_start addr
    then (addr - stack_start) / page_size % 4294967296
    else (4294967296 - (stack_start - addr) / page_size % 4294967296) % 4294967296

unfoldable pub is_in_range : (stack_start base pages addr : ℕ) → Bool
is_in_range stack_start base pages addr =
    let idx = stack_index stack_start addr in
    not (ltb idx 2147483648 && (ltb idx total_possible_stacks && (idx % pages_per_stack == 0)))
    && (leb base addr && ltb addr (base + page_size * pages))
