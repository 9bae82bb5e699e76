-- ===== src/Queue/Laws.antt =====
-- src/include/queue.hpp: the operations of the linked queue, and the list that it stands for.
use distributed_thread_libra.Prelude.{
  ◌+◌, ◌-◌, sym, ◌≡◌, ◌≢◌, refl, false, none, some, List, [], ◌∷◌, ◌++◌, ◌==◌, arith, if◌then◌else◌,
  length, length-append,
}
use distributed_thread_libra.Queue.{
  Ptr, null, Heap, Queue, ok, underflow_error, cell, write, empty_queue, is_empty, enqueue, dequeue,
  front,
}
use distributed_thread_libra.Queue.Chain.{
  last_of, Chain, nil, cons, Chain-write, unused, Chain-snoc, uncons, last_of-snoc,
}

module _ {ℓ} {T : Type ℓ} where
  abbrev pub rear_of : List (Ptr × T) → Ptr
  rear_of [] = null
  rear_of ((p, v) ∷ cs) = last_of p cs

  -- The queue on heap `h` holds the nodes `cs`, front first.
  pub record IsQueue (h : Heap T) (q : Queue) (cs : List (Ptr × T)) : Type ℓ where
    pub chain : Chain h null q.front_node cs
    pub rear : q.rear_node ≡ rear_of cs
    pub count : q.queue_size ≡ length cs

  pub empty-IsQueue : (h : Heap T) → IsQueue h empty_queue []
  empty-IsQueue h = record { chain = nil; rear = refl; count = refl }

  enqueue_back :
      (h : Heap T) (q : Queue) (fresh last : Ptr) (v u : T)
      → fresh ≢ null
      → is_empty q ≡ false
      → q.rear_node ≡ last
      → last ≢ null
      → write h fresh (some (cell v null)) last ≡ some (cell u null)
      → enqueue q h fresh v
        ≡ ok (
          record q { rear_node = fresh; queue_size = q.queue_size + 1 },
          write (write h fresh (some (cell v null))) last (some (cell u fresh)),
        )
  unfolding enqueue
  enqueue_back h q fresh last v u nf more rear nl e = ground arith

  take_front :
      (h : Heap T) (q : Queue) (p next : Ptr) (v : T)
      → is_empty q ≡ false
      → q.front_node ≡ p
      → p ≢ null
      → h p ≡ some (cell v next)
      → (dequeue q h
          ≡ ok (
            record {
              front_node = next;
              rear_node = if q.queue_size - 1 == 0 then null else q.rear_node;
              queue_size = q.queue_size - 1;
            },
            write h p none,
          ))
        × (front q h ≡ ok v)
  unfolding dequeue front
  take_front h q p next v more at_front ne e = (ground arith, ground arith)

  -- On a heap that holds the queue of `cs`, `enqueue` of a value at an unused address that is not null
  -- gives the heap and the queue of `cs` with that node at its end.
  pub enqueue_lem :
      {h : Heap T} {q : Queue} {cs : List (Ptr × T)} (fresh : Ptr) (v : T)
      → IsQueue h q cs
      → fresh ≢ null
      → h fresh ≡ none
      → (q' : Queue) × (h' : Heap T) × (enqueue q h fresh v ≡ ok (q', h'))
        × IsQueue h' q' (cs ++ (fresh, v) ∷ [])
  unfolding enqueue write
  enqueue_lem {h} {q} {cs = []} fresh v is nf free = (
    record { front_node = fresh; rear_node = fresh; queue_size = q.queue_size + 1 },
    write h fresh (some (cell v null)),
    ground arith,
    record { chain = cons nf (ground arith) refl nil; rear = refl; count = ground arith },
  )
  enqueue_lem {h} {q} {cs = (p, w) ∷ cs} fresh v is nf free =
      let out = unused fresh is.chain free in
      let h' : Heap T = write h fresh (some (cell v null)) in
      let at_fresh : h' fresh ≡ some (cell v null) = ground arith in
      let (u, last, nl, ch) =
        Chain-snoc fresh v (Chain-write fresh (some (cell v null)) is.chain out) nf out at_fresh in
      (
        record q { rear_node = fresh; queue_size = q.queue_size + 1 },
        write h' (last_of p cs) (some (cell u fresh)),
        enqueue_back h q fresh (last_of p cs) v u nf (ground (arith, is.count)) is.rear nl last,
        record {
          chain = ch;
          rear = sym (last_of-snoc p cs fresh v);
          count = omega (arith, is.count, length-append cs ((fresh, v) ∷ []));
        },
      )

  rear_left :
      {h : Heap T} {q : Queue} {p : Ptr} {v : T} (cs : List (Ptr × T))
      → IsQueue h q ((p, v) ∷ cs)
      → (if q.queue_size - 1 == 0 then null else q.rear_node) ≡ rear_of cs
  rear_left [] is = ground (arith, is.count)
  rear_left (c ∷ cs) is = ground (arith, is.count, is.rear)

  -- On a queue that is not empty, `dequeue` frees the first node and leaves the queue of the others,
  -- and `front` gives the first node's value.
  pub dequeue-cons :
      {h : Heap T} {q : Queue} {p : Ptr} {v : T} {cs : List (Ptr × T)}
      → IsQueue h q ((p, v) ∷ cs)
      → (q' : Queue) × (dequeue q h ≡ ok (q', write h p none))
        × IsQueue (write h p none) q' cs
        × (front q h ≡ ok v)
  unfolding dequeue front
  dequeue-cons {h} {q} {p} {v} {cs} is =
      let (at_front, ne, out, (next, e, rest)) = uncons is.chain in
      let (gone, first) = take_front h q p next v (ground (arith, is.count)) at_front ne e in
      (
        record {
          front_node = next;
          rear_node = if q.queue_size - 1 == 0 then null else q.rear_node;
          queue_size = q.queue_size - 1;
        },
        gone,
        record {
          chain = Chain-write p none rest out;
          rear = rear_left cs is;
          count = omega (arith, is.count);
        },
        first,
      )

  -- On an empty queue, `dequeue` and `front` throw.
  pub dequeue-nil :
      {h : Heap T} {q : Queue}
      → IsQueue h q []
      → (dequeue q h ≡ underflow_error) × (front q h ≡ underflow_error)
  unfolding dequeue front
  dequeue-nil is = (ground arith, ground arith)
