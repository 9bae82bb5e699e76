-- ===== src/Threads/StackPool.antt =====
-- src/include/threadlib/thread.h: `stack_pool`, the stacks that no thread uses. `start` is the address
-- `STACK_START` that the linker gives.
pub mod Laws
mod Tests
use distributed_thread_libra.Prelude.{
  ℕ, zero, suc, ◌+◌, ◌-◌, ◌*◌, Option, none, some, List, [], ◌∷◌, ◌==◌, ltb, if◌then◌else◌, set,
  get_or, replicate,
}

abbrev pub page_size : ℕ
page_size = 4096

abbrev pub total_stack_pages : ℕ
total_stack_pages = 10000

abbrev pub pages_per_stack : ℕ
pages_per_stack = 250

abbrev pub total_possible_stacks : ℕ
total_possible_stacks = 40

-- `stacks` has `total_possible_stacks` entries, of which the first `tail` are free stacks.
pub record Pool : Type 0 where
  pub stacks : List ℕ
  pub tail : ℕ

-- The loop of `init`, from index `i`, for `k` more rounds.
unfoldable pub init_stacks : (start k i : ℕ) → List ℕ
init_stacks start zero i = []
init_stacks start (suc k) i =
    (start + i * pages_per_stack * page_size) ∷ init_stacks start k (i + 1)

unfoldable pub init : (start : ℕ) → Pool
unfolding init_stacks
init start = record {
  stacks = init_stacks start total_possible_stacks 0;
  tail = total_possible_stacks;
}

-- `none` is the failed assertion, which ends the process.
unfoldable pub push : Pool → ℕ → Option Pool
push s addr =
    if ltb s.tail total_possible_stacks
    then some (record s { stacks = set s.stacks s.tail addr; tail = s.tail + 1 })
    else none

-- `none` is the null pointer; the pool is then as before.
unfoldable pub pop : Pool → Pool × Option ℕ
pop s =
    if s.tail == 0
    then (s, none)
    else (record s { tail = s.tail - 1 }, some (get_or s.stacks (s.tail - 1) 0))

-- `size`: the number of stacks in use.
unfoldable pub size : Pool → ℕ
size s = total_possible_stacks - s.tail
