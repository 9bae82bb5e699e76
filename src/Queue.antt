-- ===== src/Queue.antt =====
-- src/include/queue.hpp: the linked queue, on a heap of nodes. `make` takes the address that the
-- allocator returns; it does not look whether there is one, so address 0 is a fault.
pub mod Chain
pub mod Laws
mod Tests
use distributed_thread_libra.Prelude.{
  ℕ, ◌+◌, ◌-◌, Bool, true, false, Option, none, some, ◌==◌, if◌then◌else◌,
}

abbrev pub Ptr : Type 0
Ptr = ℕ

abbrev pub null : Ptr
null = 0

module _ {ℓ} (T : Type ℓ) where
  -- `struct Node`
  pub record QueueNode : Type ℓ where
    pub content : T
    pub next : Ptr

  abbrev pub Heap : Type ℓ
  Heap = Ptr → Option QueueNode

pub record Queue : Type 0 where
  pub front_node : Ptr
  pub rear_node : Ptr
  pub queue_size : ℕ

-- A call returns, throws `std::underflow_error`, or touches memory that is not there.
pub data Result {ℓ} (A : Type ℓ) : Type ℓ where
  ok : A → Result A
  underflow_error : Result A
  fault : Result A

infixl 5 ◌>>=◌
abbrev pub ◌>>=◌ {ℓ κ} : {A : Type ℓ} {B : Type κ} → Result A → (A → Result B) → Result B
ok a >>= f = f a
underflow_error >>= f = underflow_error
fault >>= f = fault

module _ {ℓ} {T : Type ℓ} where
  abbrev pub cell : T → Ptr → QueueNode T
  cell v q = record { content = v; next = q }

  unfoldable pub write : Heap T → Ptr → Option (QueueNode T) → Heap T
  write h p c a = if p == a then c else h a

  unfoldable pub load : Heap T → Ptr → Result (QueueNode T)
  load h p = if p == null then fault else elim (h p) [ none ↦ fault | some c ↦ ok c ]

  -- `make<Node<T>>(value)` at the address that `alloc` returned
  unfoldable pub make_node : Heap T → (fresh : Ptr) → T → Result (Heap T)
  make_node h fresh v = if fresh == null then fault else ok (write h fresh (some (cell v null)))

  -- `p->next = q`
  unfoldable pub set_next : Heap T → Ptr → Ptr → Result (Heap T)
  unfolding load
  set_next h p q = do c ← load h p; ok (write h p (some (record c { next = q })))

abbrev pub empty_queue : Queue
empty_queue = record { front_node = null; rear_node = null; queue_size = 0 }

abbrev pub is_empty : Queue → Bool
is_empty q = q.queue_size == 0

abbrev pub size : Queue → ℕ
size q = q.queue_size

module _ {ℓ} {T : Type ℓ} where
  unfoldable pub enqueue : Queue → Heap T → (fresh : Ptr) → T → Result (Queue × Heap T)
  unfolding make_node set_next
  enqueue q h fresh value = do
    h' ← make_node h fresh value
    elim (is_empty q) [
      | true ↦
          ok (record { front_node = fresh; rear_node = fresh; queue_size = q.queue_size + 1 }, h')
      | false ↦ do
        h'' ← set_next h' q.rear_node fresh
        ok (record q { rear_node = fresh; queue_size = q.queue_size + 1 }, h'')
    ]

  -- The node is given back to the allocator.
  unfoldable pub dequeue : Queue → Heap T → Result (Queue × Heap T)
  unfolding load
  dequeue q h = if is_empty q then underflow_error else do
    c ← load h q.front_node
    ok (
      record {
        front_node = c.next;
        rear_node = if q.queue_size - 1 == 0 then null else q.rear_node;
        queue_size = q.queue_size - 1;
      },
      write h q.front_node none,
    )

  unfoldable pub front : Queue → Heap T → Result T
  unfolding load
  front q h = if is_empty q then underflow_error else do c ← load h q.front_node; ok c.content
