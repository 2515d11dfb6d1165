-- ===== src/Scheduler/Contexts.antt =====
-- The saved registers of threads: what the operations of kernel/threading/scheduler.c leave of those
-- of a thread that does not run.
use betriebssysteme.Common.{ℕ, ◌≡◌, ◌≢◌, arith, refl, ap, sym, ◌∙◌, Option, none, some}
use betriebssysteme.Kernel.{Kernel}
use betriebssysteme.LinkedList.{Ptr}
use betriebssysteme.Scheduler.{
  create_within, scheduler_run_next, run_next_in_queue, switch_to_next,
  scheduler_replace_irq_context, scheduler_save_current,
  scheduler_thread_terminate_running_from_irq, scheduler_sleep_running_from_irq,
  scheduler_wait_running_from_irq,
}
use betriebssysteme.Thread.{ThreadPtr, ThreadContext, ThreadStatus, Layout, init_thread}

-- What a thread goes on with when it runs next.
abbrev pub context : Kernel → ThreadPtr → ThreadContext
context k t = (k.threads t).context

-- With the function that it was created for.
abbrev pub program : Kernel → ThreadPtr → ThreadContext × ℕ
program k t = (context k t, (k.threads t).fn)

module _ (t : ThreadPtr) (k : Kernel) where
  pub program-run_next : (next : ThreadPtr) → program (scheduler_run_next next k) t ≡ program k t
  unfolding scheduler_run_next scheduler_replace_irq_context
  program-run_next next = ground arith

  program-save :
      (status : ThreadStatus)
      → t ≢ k.running
      → program (scheduler_save_current status k) t ≡ program k t
  unfolding scheduler_save_current
  program-save status ne = ground arith

  -- A thread is created in a place that another thread does not have.
  pub program-create :
      (layout : Layout) (fn arg size : ℕ) (free : Option ThreadPtr)
      → free ≢ some t
      → program (create_within layout fn arg size free k) t ≡ program k t
  unfolding create_within init_thread
  program-create layout fn arg size none ne = refl
  program-create layout fn arg size (some u) ne =
      let other : t ≢ u = λ e. ne (ap some (sym e)) in ground arith

pub program-run_next_in_queue :
    (t : ThreadPtr) (k : Kernel) → program (run_next_in_queue k) t ≡ program k t
unfolding run_next_in_queue
program-run_next_in_queue t k = program-run_next t _ _

pub program-terminate :
    (t : ThreadPtr) (k : Kernel)
    → program (scheduler_thread_terminate_running_from_irq k) t ≡ program k t
unfolding scheduler_thread_terminate_running_from_irq
program-terminate t k = program-run_next_in_queue t _ ∙ ground arith

module _ (t : ThreadPtr) (k : Kernel) (ne : t ≢ k.running) where
  pub program-wait : (q : Ptr) → program (scheduler_wait_running_from_irq q k) t ≡ program k t
  unfolding scheduler_wait_running_from_irq
  program-wait q = program-run_next_in_queue t _ ∙ program-save t k _ ne

  pub program-sleep :
      (cycles : ℕ) → program (scheduler_sleep_running_from_irq cycles k) t ≡ program k t
  unfolding scheduler_sleep_running_from_irq
  program-sleep cycles = program-run_next_in_queue t _ ∙ program-save t _ _ ne ∙ ground arith

  pub program-switch : program (switch_to_next k) t ≡ program k t
  unfolding switch_to_next scheduler_run_next scheduler_save_current scheduler_replace_irq_context
  program-switch = ground arith
