-- ===== src/Scheduler/Counters.antt =====
-- The counters of sleeping threads: what the operations of kernel/threading/scheduler.c besides the
-- pass over the sleepers leave of them.
use betriebssysteme.Common.{
  ℕ, ◌≡◌, ◌≢◌, arith, refl, ◌∙◌, ==_refl, ◌-◌, Option, none, some, true, has, if◌then◌else◌,
}
use betriebssysteme.Kernel.{Kernel, ok}
use betriebssysteme.LinkedList.{Ptr}
use betriebssysteme.Scheduler.{
  create_within, scheduler_run_next, run_next_in_queue, switch_to_next, scheduler_tick_from_irq,
  scheduler_replace_irq_context, scheduler_save_current,
  scheduler_thread_terminate_running_from_irq, scheduler_sleep_running_from_irq,
  scheduler_wait_running_from_irq,
}
use betriebssysteme.Scheduler.Inv.{IsValid}
use betriebssysteme.Scheduler.Sleepers.{update_sleepers_refines}
use betriebssysteme.Scheduler.Spec.{Queues}
use betriebssysteme.Scheduler.Tick.{tick_step}
use betriebssysteme.Scheduler.Wake.{counter}
use betriebssysteme.Thread.{ThreadPtr, ThreadStatus, Layout, init_thread}

module _ (t : ThreadPtr) (k : Kernel) where
  counter-run_next : (next : ThreadPtr) → counter (scheduler_run_next next k) t ≡ counter k t
  unfolding scheduler_run_next scheduler_replace_irq_context
  counter-run_next next = ground arith

  counter-save : (status : ThreadStatus) → counter (scheduler_save_current status k) t ≡ counter k t
  unfolding scheduler_save_current
  counter-save status = ground arith

  pub counter-create :
      (layout : Layout) (fn arg size : ℕ) (free : Option ThreadPtr)
      → counter (create_within layout fn arg size free k) t ≡ counter k t
  unfolding create_within init_thread
  counter-create layout fn arg size none = refl
  counter-create layout fn arg size (some u) = ground arith

counter-run_next_in_queue :
    (t : ThreadPtr) (k : Kernel) → counter (run_next_in_queue k) t ≡ counter k t
unfolding run_next_in_queue
counter-run_next_in_queue t k = counter-run_next t _ _

pub counter-terminate :
    (t : ThreadPtr) (k : Kernel)
    → counter (scheduler_thread_terminate_running_from_irq k) t ≡ counter k t
unfolding scheduler_thread_terminate_running_from_irq
counter-terminate t k = counter-run_next_in_queue t _ ∙ ground arith

pub counter-wait :
    (t : ThreadPtr) (q : Ptr) (k : Kernel)
    → counter (scheduler_wait_running_from_irq q k) t ≡ counter k t
unfolding scheduler_wait_running_from_irq
counter-wait t q k = counter-run_next_in_queue t _ ∙ counter-save t k _

pub counter-sleep :
    (t : ThreadPtr) (cycles : ℕ) (k : Kernel)
    → t ≢ k.running
    → counter (scheduler_sleep_running_from_irq cycles k) t ≡ counter k t
unfolding scheduler_sleep_running_from_irq
counter-sleep t cycles k ne = counter-run_next_in_queue t _ ∙ counter-save t _ _ ∙ ground arith

-- The thread that goes to sleep has the counter that it asked for.
pub counter-sleeper :
    (cycles : ℕ) (k : Kernel)
    → counter (scheduler_sleep_running_from_irq cycles k) k.running ≡ cycles
unfolding scheduler_sleep_running_from_irq
counter-sleeper cycles k =
    counter-run_next_in_queue k.running _ ∙ counter-save k.running _ _ ∙ ground arith

counter-switch : (t : ThreadPtr) (k : Kernel) → counter (switch_to_next k) t ≡ counter k t
unfolding switch_to_next scheduler_run_next scheduler_save_current scheduler_replace_irq_context
counter-switch t k = ground arith

-- A tick takes one from the counters of the threads that sleep.
pub counter-tick :
    (k : Kernel) (s : Queues)
    → IsValid k s
    → k.is_running ≡ true
    → (k' : Kernel) × (scheduler_tick_from_irq k ≡ ok tt k')
      × ((t : ThreadPtr) → counter k' t ≡ (if has t s.sleep then counter k t - 1 else counter k t))
counter-tick k s v on =
    let (k1, done, valid, passed) = update_sleepers_refines k s v in
    (switch_to_next k1, tick_step k k1 on done, λ t. counter-switch t k1 ∙ passed.counters t)

-- The thread that goes to sleep has the count that it asked for.
pub counter-sleeps :
    (cycles : ℕ) (k : Kernel)
    → counter (scheduler_sleep_running_from_irq cycles k) k.running ≡ cycles
unfolding scheduler_sleep_running_from_irq
counter-sleeps cycles k =
    counter-run_next_in_queue k.running _
    ∙ counter-save k.running _ _
    ∙ rw (counter, ==_refl k.running) refl
