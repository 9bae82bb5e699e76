-- ===== src/Threads/World/Switch.antt =====
-- src/include/threadlib/schedulerState.h: where a processor goes on after a context switch.
use distributed_thread_libra.Prelude.{
  ℕ, ◌≡◌, ◌≢◌, true, false, List, ◌∷◌, ◌==◌, if◌then◌else◌, arith, ap, ◌∙◌, change,
}
use distributed_thread_libra.Threads.Scheduler.{
  Context, nullptr, ctx_switch, get_next, run_next_from_kernel,
}
use distributed_thread_libra.Threads.World.{
  World, no_state, done, current, then_do, after_status, continue_at, thread_handler, wake_up,
  run_next,
}

module _ (w : World) (c : ℕ) (idle : w.status c ≡ no_state) where
  abbrev settled : World
  settled = record w { status = change w.status c no_state }

  handled : wake_up w c ≡ (
      if current w c == nullptr
      then done settled
      else continue_at settled c (w.point (current w c)))
  unfolding wake_up thread_handler
  handled =
      ap
        (λ x.
          then_do (after_status w c x)
            λ v. if current v c == nullptr then done v else continue_at v c (v.point (current v c)))
        idle

  -- The processor goes back to its main context.
  pub wake_up-main : current w c ≡ nullptr → wake_up w c ≡ done settled
  wake_up-main main =
      handled
      ∙ ap (λ b. if b then done settled else continue_at settled c (w.point (current w c))) in_main
    where
      in_main : (current w c == nullptr) ≡ true
      in_main = ground (arith, main)

  -- A thread goes on where it left the processor.
  pub wake_up-thread :
      (t : Context)
      → current w c ≡ t
      → t ≢ nullptr
      → wake_up w c ≡ continue_at settled c (w.point t)
  wake_up-thread t on real =
      handled
      ∙ ap (λ b. if b then done settled else continue_at settled c (w.point (current w c)))
          in_thread
      ∙ ap (λ x. continue_at settled c (w.point x)) on
    where
      in_thread : (current w c == nullptr) ≡ false
      in_thread = ground (arith, on)

-- The first ready context goes on.
pub run_next-cons :
    (w : World) (d : ℕ) (t : Context) (ts : List Context)
    → w.sched.ready ≡ t ∷ ts
    → run_next w d
      ≡ wake_up
          (record w {
            status = change w.status d no_state;
            sched = ctx_switch (record w.sched { ready = ts }) d t;
          })
          d
unfolding run_next run_next_from_kernel get_next
run_next-cons w d t ts e = rw (e, run_next)
