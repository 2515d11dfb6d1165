-- ===== src/System/Started.antt =====
-- kernel/start.c: the kernel behind its boot.
use betriebssysteme.Boot.{
  fresh_ring, set_vbar, setup_interrupts, set_up, start_threads, start_kernel,
}
use betriebssysteme.Common.{
  ℕ, ◌-◌, ◌^◌, ◌≡◌, arith, refl, sym, ap, ◌∙◌, inl, true, List, [], ◌++◌, some,
}
use betriebssysteme.Common.Bits.Single.{test_bit-or}
use betriebssysteme.Common.Words.{codes, add_u32, test_bit}
use betriebssysteme.Devices.InterruptController.{
  uart_irq, system_timer_c1_irq, interrupt_controller_enable_irq,
}
use betriebssysteme.Devices.SystemTimer.{system_timer_set_interval}
use betriebssysteme.Handlers.Served.{IsServed-next, create-kept}
use betriebssysteme.Kernel.{Kernel, ok, send}
use betriebssysteme.Kprintf.Print.Plain.{kprintf-plain}
use betriebssysteme.RingBuffer.{create_ringbuffer, is_power_of_two}
use betriebssysteme.RingBuffer.Inv as RingInv
use betriebssysteme.Registers.{read_field, fen_field}
use betriebssysteme.Registers.Fields.{read_field-write_field}
use betriebssysteme.Scheduler.Create.{thread_create-fits}
use betriebssysteme.Scheduler.{
  run_thread_entry, scheduler_start, make_thread, scheduler_run_thread, find_free_thread_id,
}
use betriebssysteme.Scheduler.Inv.{IsValid-cong}
use betriebssysteme.Scheduler.Start.{
  IsBoot, boot_runs_main, no_queues, first_registers, boot_starts_main,
}
use betriebssysteme.Syscalls.{Host}
use betriebssysteme.System.{IsUserStep}
use betriebssysteme.Systick.{systick_init, systick_timer_interval}
use betriebssysteme.Thread.{Thread, ThreadPtr, ThreadContext, Layout, initial_sp}
use betriebssysteme.Uart.{uart_rx, uart_init, uart_enable_irq}
use betriebssysteme.Uart.Spec.{Inbox, IsServed}

pub IsServed-user : (k k' : Kernel) (i : Inbox) → IsUserStep k k' → IsServed k i → IsServed k' i
IsServed-user k k' i st v =
    IsServed-next k k' i i.queues v
      (IsValid-cong k k' i.queues v.scheduled st.running st.links
        (λ t. ap (λ (f : ThreadPtr → Thread). (f t).status) st.threads))
      st.ring st.on refl

-- Main runs alone, and no character has come.
abbrev pub main_runs : Inbox
main_runs = record { queues = record no_queues { current = 0 }; stored = [] }

made_ring : create_ringbuffer 128 ≡ some fresh_ring
unfolding create_ringbuffer is_power_of_two
made_ring = refl

fresh_ring-IsValid : RingInv.IsValid 7 fresh_ring
fresh_ring-IsValid = omega arith

-- The last calls, as a whole: main gets no argument, which fits its stack.
unfoldable pub main_started : Host → Kernel → Kernel
main_started host k =
    (scheduler_start host.layout (make_thread host.layout host.layout.user_main 0 0 k)).0

unfoldable pub main_registers : Host → Kernel → ThreadContext
main_registers host k =
    (scheduler_start host.layout (make_thread host.layout host.layout.user_main 0 0 k)).1

start_threads_done :
    (host : Host) (k : Kernel)
    → start_threads host k ≡ ok (main_registers host k) (main_started host k)
unfolding start_threads main_started main_registers
start_threads_done host k =
    rw (thread_create-fits host.layout host.layout.user_main 0 0 k (omega arith)) refl

start-kept :
    (host : Host) (k : Kernel)
    → ((main_started host k).uart_ringbuffer ≡ k.uart_ringbuffer)
      × ((main_started host k).is_running ≡ true)
unfolding main_started scheduler_start scheduler_run_thread make_thread
start-kept host k =
    ((create-kept host host.layout.user_main 0 0 (find_free_thread_id k) k no_queues).0, refl)

pub booted-IsServed :
    (host : Host) (k : Kernel)
    → IsBoot k
    → k.uart_ringbuffer ≡ fresh_ring
    → IsServed (main_started host k) main_runs
unfolding main_started
booted-IsServed host k b e =
    let ring : (main_started host k).uart_ringbuffer ≡ fresh_ring = (start-kept host k).0 ∙ e in
    record {
      scheduled = boot_runs_main host.layout k b;
      buffer = rw ring fresh_ring-IsValid;
      holds = rw ring refl;
      started = (start-kept host k).1;
      no_lost = inl refl;
    }

abbrev pub message : List ℕ
message = codes "=== Betriebssystem gestartet ===\n"

abbrev pub set_up_state : Layout → Kernel → Kernel
set_up_state layout k = send message (setup_interrupts layout (systick_init (uart_init k)))

set_up_done : (layout : Layout) (k : Kernel) → set_up layout k ≡ ok tt (set_up_state layout k)
unfolding set_up
set_up_done layout k = rw (kprintf-plain message [] refl) refl

-- What the set-up from one state to another is for: the receiver interrupts at every character, the
-- timer a second from now, both lines and the vector table are in place, and the message is out.
pub record IsSetUp (layout : Layout) (k j : Kernel) : Type 0 where
  pub kept : IsUserStep k j
  pub listens : test_bit j.uart.imsc uart_rx ≡ true
  pub unbuffered : read_field fen_field j.uart.lcrh ≡ 0
  pub uart_line : j.irqs.enable_irqs_2 ≡ 2 ^ (uart_irq - 32)
  pub timer_line : j.irqs.enable_irqs_1 ≡ 2 ^ system_timer_c1_irq
  pub next_tick : j.timer.c1 ≡ add_u32 k.timer.clo systick_timer_interval
  pub vectors : j.cpu.vbar ≡ layout.ivt
  pub told : j.uart.tx ≡ k.uart.tx ++ message

pub set_up_state-IsSetUp : (layout : Layout) (k : Kernel) → IsSetUp layout k (set_up_state layout k)
unfolding uart_init systick_init setup_interrupts set_vbar uart_enable_irq
    interrupt_controller_enable_irq system_timer_set_interval
set_up_state-IsSetUp layout k = record {
  kept = record { threads = refl; running = refl; links = refl; ring = refl; on = refl };
  listens = test_bit-or k.uart.imsc uart_rx;
  unbuffered = read_field-write_field fen_field.0 fen_field.1 0 k.uart.lcrh;
  uart_line = refl;
  timer_line = refl;
  next_tick = refl;
  vectors = refl;
  told = refl;
}

IsUserStep-trans : (i j k : Kernel) → IsUserStep i j → IsUserStep j k → IsUserStep i k
IsUserStep-trans i j k s t = record {
  threads = t.threads ∙ s.threads;
  running = t.running ∙ s.running;
  links = t.links ∙ s.links;
  ring = t.ring ∙ s.ring;
  on = t.on ∙ s.on;
}

pub IsBoot-user : (j k : Kernel) → IsUserStep j k → IsBoot j → IsBoot k
IsBoot-user j k s b = record {
  no_threads = λ t small. rw s.threads (b.no_threads t small);
  empty_lists = λ h hq. rw s.links (b.empty_lists h hq);
}

pub start_kernel_done :
    (host : Host) (test_kernel : Kernel → Kernel) (k : Kernel)
    → start_kernel host test_kernel k
      ≡ ok
          (main_registers host (test_kernel (set_up_state host.layout k)))
          (main_started host (test_kernel (set_up_state host.layout k)))
unfolding start_kernel
start_kernel_done host test_kernel k =
    rw
      (
        set_up_done host.layout k,
        start_threads_done host (test_kernel (set_up_state host.layout k)),
      )
      refl

starts_main :
    (host : Host) (k : Kernel)
    → IsBoot k
    → (main_registers host k ≡ first_registers host.layout 0 0)
      × (run_thread_entry (main_started host k) (main_registers host k)
          ≡ (host.layout.user_main, initial_sp (host.layout.stack 0) 0))
unfolding main_registers main_started run_thread_entry
starts_main host k b =
    let (user, fn) = boot_starts_main host.layout k b in (user, λ i. (fn i, (user i).sp))

-- From power-up, with a hook that leaves the kernel's own data alone, `start_kernel` sets up the
-- devices and starts the main thread: the processor goes on with the first registers of that
-- thread, from where it calls `main`, and the thread runs alone in a state with the invariants of
-- all parts.
pub start_kernel_serves :
    (host : Host) (test_kernel : Kernel → Kernel) (k : Kernel)
    → ((j : Kernel) → IsUserStep j (test_kernel j))
    → IsBoot k
    → k.uart_ringbuffer ≡ fresh_ring
    → (j : Kernel) × (k' : Kernel) × (set_up host.layout k ≡ ok tt j)
      × IsSetUp host.layout k j
      × (start_kernel host test_kernel k ≡ ok (first_registers host.layout 0 0) k')
      × (run_thread_entry k' (first_registers host.layout 0 0)
          ≡ (host.layout.user_main, initial_sp (host.layout.stack 0) 0))
      × IsServed k' main_runs
start_kernel_serves host test_kernel k harmless b e =
    let j : Kernel = set_up_state host.layout k in
    let armed : IsSetUp host.layout k j = set_up_state-IsSetUp host.layout k in
    let tested : Kernel = test_kernel j in
    let s : IsUserStep k tested = IsUserStep-trans k j tested armed.kept (harmless j) in
    let booted : IsBoot tested = IsBoot-user k tested s b in
    let (user, entry) = starts_main host tested booted in
    let done : start_kernel host test_kernel k
        ≡ ok (first_registers host.layout 0 0) (main_started host tested) =
      start_kernel_done host test_kernel k ∙ ap (λ c. ok c (main_started host tested)) user in
    (
      j,
      main_started host tested,
      set_up_done host.layout k,
      armed,
      done,
      ap (run_thread_entry (main_started host tested)) (sym user) ∙ entry,
      booted-IsServed host tested booted (s.ring ∙ e),
    )
