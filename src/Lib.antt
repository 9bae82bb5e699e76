-- ===== src/Lib.antt =====
-- DistributedThreadLibrary runs one multi-threaded program on several nodes. The nodes share the
-- program's pages, and on top of the shared memory a user-level thread library schedules the
-- program's threads.
--
-- The parts, and the files that model them:
--
-- Dsm: src/lib/dsm_node.cpp and src/include/dsm_node.hpp. A node answers a page fault of its program by
--   asking the other nodes for the page. Dsm/Node.antt has a node's state (`page_info`, the
--   protection and the bytes of each page, the connections, and where the signal handler stands)
--   and a function for each part of a handler that nothing can come between: `response_write` up to
--   its unlock and after it, `response_read`, `update_prot` up to its test and after it, `handler`,
--   the threads of `grant_prot` and its end with `grant_write` or `grant_read`, `sync`. Dsm/Cluster.antt
--   puts `n` nodes side by side: an `Event` is the next thing that happens at a node, `step` gives
--   the cluster after it, `run` a list of events in any order. `serves` says when a node's signal
--   thread carries out what `user_mprotect_req` asks for. Dsm/Cluster/Cases.antt says what is to be
--   shown of each event; Weights, Writers and Values below it count the rights to write a page, the
--   programs that may write it, and follow its bytes; Work, Conns and Bound count the events of the
--   handlers. The lock `mu` of a node is in Dsm/PageLock.antt and not in Cluster.
--   Assumed of code outside: an rpc call arrives once at the node that it names and its answer comes
--   back once (rpclib), and `process_vm_readv`, `process_vm_writev` and the injected `mprotect` do
--   what they are asked; in Cluster so do `user_mprotect` and the request mailbox of
--   src/lib/user_mprotect.cpp, whose own steps are in Tracer and Mailbox. The bytes of a page are one
--   number. RELEASE_CONSISTANCY is defined.
--   Dsm/Mesh.antt has `connect` and the hand shakes by which a node gets to know the others.
--   Dsm/PageLock.antt has the lock `mu` between `response_read` and `grant_write` or `grant_read` of one node.
--   Dsm/Range.antt has `is_in_range` and the page numbers of addresses.
--   `grant_prot_end` ends `grant_prot` together with `grant_write` or `grant_read`.
--   Dsm/Mailbox.antt has the request mailbox of src/lib/user_mprotect.cpp, Dsm/SpinLock.antt the lock words
--   of src/lib/dsm_lock.cpp, both as steps of any threads in any order. Dsm/Tracer.antt has
--   `user_mprotect` of src/lib/user_mprotect.cpp and the code that it injects, by the signals that stop the
--   traced process; Dsm/Start.antt the start of a node in src/lib/main.cpp and `dsm_init_master`,
--   `dsm_init_node` and `dsm_init` of src/lib/dsm_node.cpp, as steps of the child, the tracing thread
--   and the thread that makes the node.
--
-- Threads: src/include/threadlib and src/lib/threadlib. Threads/Scheduler.antt has `SchedulerState` of
--   schedulerState.h and the wait queues of waitable.h, Threads/StackPool.antt the `stack_pool` of
--   thread.h. Threads/World.antt has the rest as functions on a `World`: mutex.cpp (`lock`, `unlock`),
--   cv.cpp (`cv_wait`, `signal`, `broadcast`), thread.cpp (`make_thread`, `join`, `yield_now`, and
--   `threadWrapperFunc` in three parts) and cpu.cpp (`thread_handler`, `run_next`). A function runs from
--   the lock of `cpu::guard` to its unlock; the context that a switch goes to is the one that unlocks,
--   so `wake_up` follows it up to there. `Outcome` tells an exception with the guard unlocked from one
--   with the guard locked. Addresses of new objects come from the allocator as arguments; running
--   out of memory is not modelled, nor that the constructor of `thread` takes its stack before it
--   locks. Threads/World/Acts.antt makes an `Act` of each call, and `perform` and `run` carry out
--   calls in any order; Handed, Queues, Exclusion, Resumes, Calls, Releases and Owners beside it
--   follow the owner of a mutex through them, Census and the files below it the number of threads,
--   Waits those who wait on a queue. A context is the number of its address. Fuel: the loop of
--   `wakeAll` gets as many rounds as its queue has contexts, and each round takes one.
--
-- HashTable: src/include/util/fixed_hashmap.hpp, the table that maps a context to its thread's id.
--   Fuel: a probe loop gets as many rounds as the table has entries, which is enough, since the index
--   is back at its start after so many steps.
--
-- Queue: src/include/queue.hpp, the queue of the ready and waiting contexts, on an explicit heap.
--
-- Allocator: src/lib/util/lin_allocator.cpp, the heap of the shared region. Allocator.antt has the chunk list as it
--   lies in memory, Allocator/View.antt the list of chunks that a memory stands for. Fuel: the loop of
--   `alloc` gets one round for each byte of the region and one more; each chunk has a header, so there
--   are fewer chunks than bytes.
--
-- Prelude: names, Boolean tests, lists and sums that the others share.
--
-- Not modelled: src/lib/ptrace, a program of its own; the command line and the region's size in
-- src/lib/main.cpp; the rpc server that the constructor of `DSMNode` starts; `remote_mempage_write`, one
-- system call; the memory of contexts and waitables after `dealloc`; the examples; backup/, an earlier
-- version that the build leaves out and that does not compile; the linker scripts; `bit_mask` of
-- dsm_node.hpp.
mod Prelude
pub mod HashTable
pub mod Queue
pub mod Dsm
pub mod Threads
pub mod Allocator
