-- ===== src/Handlers/Served.antt =====
-- The parts of kernel/handlers.c and kernel/syscalls.c and what they do to threads and characters.
use betriebssysteme.Common.{ℕ, ◌<◌, ◌≡◌, refl, ◌∙◌, Option, none, some, List, [], ◌∷◌}
use betriebssysteme.Kernel.{send, Kernel, Run, ok}
use betriebssysteme.Scheduler.{
  create_within, find_free_thread_id, make_thread, scheduler_sleep_running_from_irq,
  scheduler_thread_terminate_running_from_irq, scheduler_begin_exception, run_next_in_queue,
  scheduler_run_next, scheduler_replace_irq_context, scheduler_save_current,
}
use betriebssysteme.Scheduler.Arrive.{created, create_refines}
use betriebssysteme.Scheduler.Inv.{IsValid, IsValid-cong}
use betriebssysteme.Scheduler.Spec
use betriebssysteme.Scheduler.Spec.{Queues}
use betriebssysteme.Scheduler.Turn.{terminate_refines, sleep_refines}
use betriebssysteme.Scheduler.Waiters.{dispatch-wait}
use betriebssysteme.Syscalls.{Host}
use betriebssysteme.Syscalls.Spec.{with_queues}
use betriebssysteme.Thread.{ThreadPtr, SavedRegisters}
use betriebssysteme.Uart.{uart_putc}
use betriebssysteme.Uart.Ask.{Asked}
use betriebssysteme.Uart.Spec.{Inbox, IsServed, ask_from}

-- A change that leaves the buffer and the waiting threads alone.
pub IsServed-next :
    (k k' : Kernel) (i : Inbox) (s : Queues)
    → IsServed k i
    → IsValid k' s
    → k'.uart_ringbuffer ≡ k.uart_ringbuffer
    → k'.is_running ≡ k.is_running
    → s.wait ≡ i.queues.wait
    → IsServed k' (record i { queues = s })
IsServed-next k k' i s v valid ring on waits = record {
  scheduled = valid;
  buffer = rw ring v.buffer;
  holds = rw ring v.holds;
  started = on ∙ v.started;
  no_lost = rw waits v.no_lost;
}

-- What is printed and the start of an exception change no thread.
pub IsServed-begin :
    (regs : SavedRegisters) (k : Kernel) (i : Inbox)
    → IsServed k i
    → IsServed (scheduler_begin_exception regs k) i
unfolding scheduler_begin_exception
IsServed-begin regs k i v =
    IsServed-next k (scheduler_begin_exception regs k) i i.queues v
      (IsValid-cong k (scheduler_begin_exception regs k) i.queues v.scheduled refl refl (λ t. refl))
      refl refl refl

pub IsServed-send : (cs : List ℕ) (k : Kernel) (i : Inbox) → IsServed k i → IsServed (send cs k) i
IsServed-send cs k i v =
    IsServed-next k (send cs k) i i.queues v
      (IsValid-cong k (send cs k) i.queues v.scheduled refl refl (λ t. refl)) refl refl refl

pub IsServed-putc : (c : ℕ) (k : Kernel) (i : Inbox) → IsServed k i → IsServed (uart_putc c k) i
unfolding uart_putc
IsServed-putc c k i v =
    IsServed-next k (uart_putc c k) i i.queues v
      (IsValid-cong k (uart_putc c k) i.queues v.scheduled refl refl (λ t. refl)) refl refl refl

pub terminate-IsServed :
    (k : Kernel) (i : Inbox)
    → IsServed k i
    → IsServed (scheduler_thread_terminate_running_from_irq k) (with_queues Spec.terminate i)
unfolding scheduler_thread_terminate_running_from_irq run_next_in_queue scheduler_run_next
    scheduler_replace_irq_context Spec.terminate
terminate-IsServed k i v =
    IsServed-next k (scheduler_thread_terminate_running_from_irq k) i (Spec.terminate i.queues) v
      (terminate_refines k i.queues v.scheduled) refl refl (dispatch-wait i.queues)

pub sleep-IsServed :
    (cycles : ℕ) (k : Kernel) (i : Inbox)
    → i.queues.current < 32
    → IsServed k i
    → IsServed (scheduler_sleep_running_from_irq cycles k) (with_queues Spec.sleep_current i)
unfolding scheduler_sleep_running_from_irq run_next_in_queue scheduler_run_next
    scheduler_replace_irq_context scheduler_save_current Spec.sleep_current
sleep-IsServed cycles k i user v =
    IsServed-next k (scheduler_sleep_running_from_irq cycles k) i (Spec.sleep_current i.queues) v
      (sleep_refines k i.queues v.scheduled user cycles) refl refl (dispatch-wait _)

pub create-kept :
    (host : Host) (fn arg arg_size : ℕ) (o : Option ThreadPtr) (k : Kernel) (s : Queues)
    → ((create_within host.layout fn arg arg_size o k).uart_ringbuffer ≡ k.uart_ringbuffer)
      × ((create_within host.layout fn arg arg_size o k).is_running ≡ k.is_running)
      × ((created o s).wait ≡ s.wait)
unfolding create_within Spec.create
create-kept host fn arg arg_size none k s = (refl, refl, refl)
create-kept host fn arg arg_size (some t) k s = (refl, refl, refl)

pub create-IsServed :
    (host : Host) (fn arg arg_size : ℕ) (k : Kernel) (i : Inbox)
    → IsServed k i
    → IsServed
        (make_thread host.layout fn arg arg_size k)
        (with_queues (created (find_free_thread_id k)) i)
unfolding make_thread
create-IsServed host fn arg arg_size k i v =
    let (ring, on, waits) = create-kept host fn arg arg_size (find_free_thread_id k) k i.queues in
    IsServed-next k (make_thread host.layout fn arg arg_size k) i
      (created (find_free_thread_id k) i.queues) v
      (create_refines host.layout fn arg arg_size k i.queues v.scheduled) ring on waits

-- What a request for a character leaves, whether the thread waits or not.
pub Asked-IsServed :
    (k : Kernel) (i : Inbox) (q : List ℕ) (r : Run (Unit {0}))
    → Asked k i q r
    → (k' : Kernel) × (r ≡ ok tt k') × IsServed k' (ask_from q i)
Asked-IsServed k i [] r (k', done, v) = (k', done, v)
Asked-IsServed k i (c ∷ q) r (k', done, v, frame, cpu) = (k', done, v)
