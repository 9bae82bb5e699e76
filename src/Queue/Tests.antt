-- ===== src/Queue/Tests.antt =====
-- Runs of queue.hpp with nodes at the addresses 16 and 32, and the theorems at those queues.
use distributed_thread_libra.Prelude.{ℕ, ◌≡◌, refl, none, some, [], ◌∷◌, arith}
use distributed_thread_libra.Queue.{
  Heap, Queue, ok, fault, cell, write, empty_queue, enqueue, dequeue, front, ◌>>=◌,
}
use distributed_thread_libra.Queue.Chain.{cons, nil}
use distributed_thread_libra.Queue.Laws.{IsQueue, enqueue_lem, dequeue-cons}

abbrev clear : Heap ℕ
clear a = none

abbrev one_node : Heap ℕ
one_node = write clear 16 (some (cell 5 0))

abbrev one : Queue
one = record { front_node = 16; rear_node = 16; queue_size = 1 }

one_made : enqueue empty_queue clear 16 5 ≡ ok (one, one_node)
unfolding enqueue
one_made = refl

out_of_memory : enqueue empty_queue clear 0 5 ≡ fault
unfolding enqueue
out_of_memory = refl

first_in_first_out : (do (q, h) ← enqueue one one_node 32 7; (q, h) ← dequeue q h; front q h) ≡ ok 7
unfolding enqueue dequeue front write
first_in_first_out = refl

one-IsQueue : IsQueue one_node one ((16, 5) ∷ [])
unfolding write
one-IsQueue = record { chain = cons (omega arith) refl refl nil; rear = refl; count = refl }

enqueue_lem_example :
    (q : Queue) × (h : Heap ℕ) × (enqueue one one_node 32 7 ≡ ok (q, h))
    × IsQueue h q ((16, 5) ∷ (32, 7) ∷ [])
unfolding write
enqueue_lem_example = enqueue_lem 32 7 one-IsQueue (omega arith) refl

dequeue-cons_example :
    (q : Queue) × (dequeue one one_node ≡ ok (q, write one_node 16 none))
    × IsQueue (write one_node 16 none) q []
    × (front one one_node ≡ ok 5)
dequeue-cons_example = dequeue-cons one-IsQueue
