-- ===== src/Threads/World.antt =====
-- src/lib/threadlib: mutexes, condition variables, threads and processors on top of the scheduler. Each
-- function runs from one lock of `cpu::guard` to the unlock, which another context may reach: a context
-- switch goes on with the context that the processor switches to, up to its unlock (`wake_up`).
-- A mutex, the queue of a condition variable and the queue of a thread's joiners are waitables, and a
-- waitable is the number of its wait queue. `c` is the processor that runs the code.
pub mod Switch
pub mod Mutexes
pub mod Start
pub mod Lives
pub mod Makes
pub mod Acts
pub mod Handed
pub mod Queues
pub mod Exclusion
pub mod Resumes
pub mod Calls
pub mod Releases
pub mod Owners
pub mod Census
pub mod Waits
mod Tests
use distributed_thread_libra.Prelude.{
  ℕ, ◌+◌, ◌-◌, Bool, true, false, not, ◌&&◌, Option, none, some, List, [], ◌∷◌, ◌==◌, if◌then◌else◌,
  change,
}
use distributed_thread_libra.HashTable.{Table, table_size, read, assign, remove}
use distributed_thread_libra.Threads.StackPool.{Pool}
use distributed_thread_libra.Threads.StackPool as StackPool
use distributed_thread_libra.Threads.Scheduler.{
  Context, nullptr, Sched, empty, ctx_switch, has_next, put_in_ready, run_next_from_kernel,
  run_next_from_user, put_self_in_ready, wait_self_on, wake_one, wake_all,
}

pub record Mutex : Type 0 where
  pub is_locked : Bool
  pub owner_id : ℕ

-- `shared_bool`, and whether its memory was given back.
pub record SharedBool : Type 0 where
  pub owned_by_stack : Bool
  pub owned_by_thread : Bool
  pub val : Bool
  pub freed : Bool

-- Where a context goes on when a processor switches to it.
pub data Point : Type 0 where
  runs : Point  -- it runs now
  fresh : Point  -- at the start of `threadWrapperFunc`
  yields : Point  -- in `thread::yield`
  joins : Point  -- in `thread::join`
  relocks : (m : ℕ) → Point  -- in `cv::wait`, and then it locks `m`
  locks : (m : ℕ) → Point  -- in `mutex::privileged_lock` of `m`

-- `cpu::status`, with what `setDone` keeps: NONE, or END_STATE.
pub data Status : Type 0 where
  no_state : Status
  end_state : (garbage stack : ℕ) → Status

pub record World : Type 0 where
  pub sched : Sched
  pub mutexes : ℕ → Mutex
  pub is_dead : ℕ → SharedBool
  pub point : Context → Point
  pub status : ℕ → Status
  pub tid_map : Table
  pub next_tid : ℕ
  pub total_threads : ℕ
  pub pool : Pool

pub data Outcome : Type 0 where
  done : World → Outcome
  thrown : World → Outcome  -- an exception, with `cpu::guard` unlocked
  left_locked : World → Outcome  -- an exception, with `cpu::guard` locked
  aborted : Outcome  -- a failed assertion, or std::terminate

abbrev pub then_do : Outcome → (World → Outcome) → Outcome
then_do (done w) f = f w
then_do (thrown w) f = thrown w
then_do (left_locked w) f = left_locked w
then_do aborted f = aborted

abbrev pub current : World → (c : ℕ) → Context
current w c = w.sched.curr c

abbrev pub set_point : World → Context → Point → World
set_point w t x = record w { point = change w.point t x }

abbrev pub set_mutex : World → (m : ℕ) → Mutex → World
set_mutex w m x = record w { mutexes = change w.mutexes m x }

abbrev pub free : Mutex
free = record { is_locked = false; owner_id = 0 }

-- `mutex::status`
abbrev pub mutex_status : World → (m : ℕ) → Bool
mutex_status w m = (w.mutexes m).is_locked

-- `cpu::setDone`
abbrev pub set_done : World → (c garbage stack : ℕ) → World
set_done w c garbage stack = record w { status = change w.status c (end_state garbage stack) }

abbrev pub after_status : World → (c : ℕ) → Status → Outcome
after_status w c no_state = done (record w { status = change w.status c no_state })
after_status w c (end_state garbage stack) = elim (StackPool.push w.pool stack) [
  | none ↦ aborted
  | some pool' ↦ done (record w {
    tid_map = (remove table_size w.tid_map garbage).0;
    pool = pool';
    total_threads = w.total_threads - 1;
    status = change w.status c no_state;
  })
]

-- `cpu::thread_handler`
unfoldable pub thread_handler : World → (c : ℕ) → Outcome
thread_handler w c = after_status w c (w.status c)

-- `mutex::privileged_lock` after its wait: the mutex gets its new owner.
unfoldable pub take : World → (c m : ℕ) → Outcome
take w c m = elim (read table_size w.tid_map (current w c)) [
  | none ↦ left_locked (set_mutex w m (record (w.mutexes m) { is_locked = true }))
  | some (tids, id) ↦ done (
      set_point
        (set_mutex (record w { tid_map = tids }) m (record { is_locked = true; owner_id = id }))
        (current w c) runs)
]

-- What follows `swapcontext` in the context that now runs; the main context is `nullptr`.
abbrev pub continue_at : World → (c : ℕ) → Point → Outcome
continue_at w c (locks m) = take w c m
continue_at w c (relocks m) = done w
continue_at w c _ = done (set_point w (current w c) runs)

unfoldable pub wake_up : World → (c : ℕ) → Outcome
wake_up w c =
    then_do (thread_handler w c)
      λ v. if current v c == nullptr then done v else continue_at v c (v.point (current v c))

-- The running context waits on a queue, and will go on at `x`.
abbrev pub wait_at : World → (c q : ℕ) → Point → Outcome
wait_at w c q x =
    wake_up (record (set_point w (current w c) x) { sched = wait_self_on w.sched c q }) c

-- `mutex::lock`
unfoldable pub lock : World → (c m : ℕ) → Outcome
lock w c m = if (w.mutexes m).is_locked then wait_at w c m (locks m) else take w c m

-- `mutex::privileged_unlock` by the owner: the mutex is free, or locked for the first that waits.
abbrev pub release : World → (m : ℕ) → World
release w m =
    if empty (w.sched.waiting m)
    then set_mutex w m free
    else record (set_mutex w m (record { is_locked = true; owner_id = 0 })) {
      sched = wake_one w.sched m;
    }

-- `mutex::unlock`; `privileged_unlock` throws on a thread that is not the owner, and the exception is
-- passed on behind the unlock of `cpu::guard`.
unfoldable pub unlock : World → (c m : ℕ) → Outcome
unlock w c m = elim (read table_size w.tid_map (current w c)) [
  | none ↦ thrown w
  | some (tids, id) ↦
      if (w.mutexes m).owner_id == id
      then done (release (record w { tid_map = tids }) m)
      else thrown (record w { tid_map = tids })
]

-- `cv::wait` on the queue `q` up to its call of `mu.lock`, which is `lock` of a context at `relocks`.
unfoldable pub cv_wait : World → (c q m : ℕ) → Outcome
unfolding unlock
cv_wait w c q m = then_do (unlock w c m) λ v. wait_at v c q (relocks m)

-- `cv::signal` and `cv::broadcast`
unfoldable pub signal : World → (q : ℕ) → World
signal w q = record w { sched = wake_one w.sched q }

unfoldable pub broadcast : World → (q : ℕ) → World
broadcast w q = record w { sched = wake_all w.sched q }

-- `thread::join` of the thread with the number `j`, whose joiners wait on the queue `q`
unfoldable pub join : World → (c j q : ℕ) → Outcome
join w c j q = if (w.is_dead j).val then done w else wait_at w c q joins

-- `thread::yield`
unfoldable pub yield_now : World → (c : ℕ) → Outcome
yield_now w c =
    let (sched', switched) = put_self_in_ready w.sched c in
    if switched
    then wake_up (record (set_point w (current w c) yields) { sched = sched' }) c
    else done w

-- The loop of `cpu::run`: `runNextFromKernel` where the ready queue has a context, and the
-- `thread_handler` behind it where it has none.
unfoldable pub run_next : World → (c : ℕ) → Outcome
run_next w c =
    let v = record w { status = change w.status c no_state } in
    if has_next v.sched
    then wake_up (record v { sched = run_next_from_kernel v.sched c }) c
    else thread_handler v c

-- The end of a round of that loop, where it prints PROGRAM DONE.
abbrev pub is_done : World → Bool
is_done w = not (has_next w.sched) && w.total_threads == 0

-- `threadWrapperFunc` after `func` returned, in three parts that others can come between: it wakes the
-- joiners under the lock; it notes its end, without the lock; it leaves the processor.
unfoldable pub wake_joiners : World → (q : ℕ) → World
wake_joiners w q = record w { sched = wake_all w.sched q }

unfoldable pub note_end : World → (c j stack : ℕ) → World
note_end w c j stack =
    let v = set_done w c (current w c) stack in
    record v {
      is_dead = change v.is_dead j (record (v.is_dead j) {
        val = true;
        owned_by_stack = false;
        freed = not (v.is_dead j).owned_by_thread;
      });
    }

unfoldable pub leave_cpu : World → (c : ℕ) → Outcome
leave_cpu w c = wake_up (record w { sched = run_next_from_user w.sched c }) c

-- `thread::thread`, with the number of its `shared_bool` and the address of its context from the
-- allocator. With no stack left it throws outside of any handler. The source takes the stack before it
-- locks `cpu::guard`; here that is one step with the rest.
unfoldable pub make_thread : World → (j : ℕ) → Context → Outcome
make_thread w j t =
    let (pool', popped) = StackPool.pop w.pool in
    elim popped [
      | none ↦ aborted
      | some stack ↦
          let v = record w {
            pool = pool';
            next_tid = w.next_tid + 1;
            is_dead = change w.is_dead j (record {
              owned_by_stack = true;
              owned_by_thread = true;
              val = false;
              freed = false;
            });
          } in
          elim (assign table_size w.tid_map t w.next_tid) [
            | none ↦ left_locked v
            | some tids ↦ done (record (set_point v t fresh) {
              tid_map = tids;
              sched = put_in_ready w.sched t;
              total_threads = w.total_threads + 1;
            })
          ]
    ]

-- `thread::~thread`
unfoldable pub drop_thread : World → (j : ℕ) → World
drop_thread w j = record w {
  is_dead =
      change w.is_dead j (record (w.is_dead j) {
        owned_by_thread = false;
        freed = not (w.is_dead j).owned_by_stack;
      });
}

-- `cpu::run` before its loop, on the processor that starts the first thread: the `thread` that it makes
-- is dropped at once.
unfoldable pub start_run : World → (c j : ℕ) → Context → Outcome
unfolding make_thread drop_thread
start_run w c j t =
    then_do (make_thread (record w { sched = ctx_switch w.sched c nullptr }) j t)
      λ v. done (drop_thread v j)
