-- ===== src/Threads/StackPool/Laws.antt =====
-- src/include/threadlib/thread.h: `stack_pool`, its free stacks and its operations.
use distributed_thread_libra.Prelude.{
  ℕ, zero, suc, ◌+◌, ◌*◌, ◌≤◌, ◌<◌, ◌≡◌, refl, some, ◌==◌, arith, if◌then◌else◌, set, get_or,
  length, length-set, get_or-set, ℕ_discrete, ◌∙◌,
}
use distributed_thread_libra.Threads.StackPool.{
  Pool, page_size, pages_per_stack, total_possible_stacks, init_stacks, init, push, pop,
}

-- The free stack at an index below `tail`.
abbrev pub stack_at : Pool → ℕ → ℕ
stack_at s i = get_or s.stacks i 0

-- The array has its size, `tail` is within it, and the free stacks are different.
pub record IsPool (s : Pool) : Type 0 where
  pub entries : length s.stacks ≡ total_possible_stacks
  pub within : s.tail ≤ total_possible_stacks
  pub distinct : (i j : ℕ) → i < s.tail → j < s.tail → stack_at s i ≡ stack_at s j → i ≡ j

abbrev pub IsFree : Pool → ℕ → Type 0
IsFree s addr = (i : ℕ) × (i < s.tail) × (stack_at s i ≡ addr)

length-init_stacks : (start k i : ℕ) → length (init_stacks start k i) ≡ k
unfolding init_stacks
length-init_stacks start zero i = refl
length-init_stacks start (suc k) i = omega (arith, length-init_stacks start k (i + 1))

init_stacks_at :
    (start k i j : ℕ) → j < k → get_or (init_stacks start k i) j 0 ≡ start + (i + j) * 250 * 4096
unfolding init_stacks
init_stacks_at start zero i j h = absurd (omega arith)
init_stacks_at start (suc k) i zero h = omega arith
init_stacks_at start (suc k) i (suc j) h =
    omega (arith, init_stacks_at start k (i + 1) j (omega arith))

-- After `init` the pool is well formed, and its stack `i` is `i * PAGES_PER_STACK` pages behind
-- `STACK_START`, for every `i` below `TOTAL_POSSIBLE_STACKS`.
init-IsPool :
    (start i : ℕ)
    → i < total_possible_stacks
    → IsPool (init start) × (stack_at (init start) i ≡ start + i * pages_per_stack * page_size)
unfolding init
init-IsPool start i h = (
  record {
    entries = length-init_stacks start 40 0;
    within = omega arith;
    distinct = λ i j hi hj e.
        omega (arith, init_stacks_at start 40 0 i hi, init_stacks_at start 40 0 j hj);
  },
  omega (arith, init_stacks_at start 40 0 i h),
)

-- While some stack is in use, `push` of a stack that is not free gives a pool with distinct free
-- stacks, and the next `pop` gives that stack back.
pub push_lem :
    (s : Pool) (addr : ℕ)
    → IsPool s
    → s.tail < total_possible_stacks
    → ¬ (IsFree s addr)
    → (t : Pool) × (push s addr ≡ some t) × IsPool t × ((pop t).1 ≡ some addr)
unfolding push pop
push_lem s addr v room new = (
  record s { stacks = set s.stacks s.tail addr; tail = s.tail + 1 },
  ground arith,
  record {
    entries = length-set s.stacks s.tail addr ∙ v.entries;
    within = omega arith;
    distinct = λ i j hi hj e. elim (ℕ_discrete s.tail i) [
      | yes si ↦ elim (ℕ_discrete s.tail j) [
        | yes sj ↦ omega arith
        | no nj ↦ absurd (new (j, omega arith, ground (arith, written i, written j)))
      ]
      | no ni ↦ elim (ℕ_discrete s.tail j) [
        | yes sj ↦ absurd (new (i, omega arith, ground (arith, written i, written j)))
        | no nj ↦ v.distinct i j (omega arith) (omega arith) (ground (arith, written i, written j))
      ]
    ];
  },
  ground (arith, written s.tail, v.entries),
)
  where
    written :
        (i : ℕ)
        → get_or (set s.stacks s.tail addr) i 0
          ≡ (if s.tail == i then addr else get_or s.stacks i 0)
    written i = get_or-set s.stacks s.tail i addr 0 (omega (arith, v.entries))
