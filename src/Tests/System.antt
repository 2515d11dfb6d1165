-- ===== src/Tests/System.antt =====
-- kernel/handlers.c at work, on a kernel whose main thread runs.
use betriebssysteme.Common.{◌≢◌, some, ◌≡◌, arith, refl, ◌++◌, [], ◌∷◌, List, true, ◌∈◌}
use mathlib.Core.Path.{subst}
use betriebssysteme.Devices.InterruptController.{interrupt_controller_check_pending}
use betriebssysteme.Devices.SystemTimer.{system_timer_check_compare}
use betriebssysteme.Common.Words.{test_bit, add_u32}
use betriebssysteme.ExceptionPrint.Names.{fsr_status}
use betriebssysteme.Cpu.{read_dfsr, cpu_mode_usr, psr_mode, read_spsr, current_bank, bank_of_mode}
use betriebssysteme.Handlers.{handle_irq, handle_svc}
use betriebssysteme.Scheduler.{
  find_free_from, make_thread, create_within, scheduler_start, scheduler_get_next_thread,
  scheduler_run_thread, find_free_thread_id,
}
use betriebssysteme.LinkedList.{list_remove_first, list_remove_, list_add_last, list_is_empty}
use betriebssysteme.Thread.{
  init_thread, thread_from_queue, thread_run, SavedRegisters, ThreadPtr, ready, waiting,
}
use betriebssysteme.Handlers.User.{
  svc_refines, kernel_exit_halts, exit_report, data_abort, handle_fault, fault_refines, irq_refines,
  ticked, arrived,
}
use betriebssysteme.Handlers.Call.{Returns}
use betriebssysteme.Kernel.{Kernel, ok, halted, run_queue, uart_wait_queue}
use betriebssysteme.LinkedList.Chain.{Ring}
use betriebssysteme.RingBuffer.Refine.{contents}
use betriebssysteme.Scheduler.Start.{no_queues}
use betriebssysteme.Scheduler.Spec
use betriebssysteme.Scheduler.Wake.{counter}
use betriebssysteme.Syscalls.{Host}
use betriebssysteme.Syscalls.Spec.{perform, with_queues}
use betriebssysteme.System.{Reachable, booted, user, handled, call, handle, IsUserStep}
use betriebssysteme.Boot.{setup_interrupts, set_up, start_kernel}
use betriebssysteme.Handlers.Effects.{Does, svc_effects}
use betriebssysteme.Scheduler.{run_thread_entry}
use betriebssysteme.Scheduler.Start.{first_registers}
use betriebssysteme.Thread.{initial_sp}
use betriebssysteme.System.Started.{
  main_started, main_registers, booted-IsServed, set_up_state, set_up_state-IsSetUp, IsBoot-user,
  start_kernel_done, IsServed-user, main_runs, IsSetUp, start_kernel_serves,
}
use betriebssysteme.System.Reach.{reachable_returns, no_lost_wakeup, ready_queued}
use betriebssysteme.Systick.{systick_init, systick_handle_irq, systick_timer_interval}
use betriebssysteme.Systick.Period.{is_due, systick_refines}
use betriebssysteme.Tests.Threads.{layout, no_registers, cpu, boot, boot-IsBoot}
use betriebssysteme.Uart.{uart_init, uart_handle_irq}
use betriebssysteme.Uart.Deliver.{handle_irq_refines}
use betriebssysteme.Uart.Given.{given_all}
use betriebssysteme.Uart.Rest.{SameRest}
use betriebssysteme.Uart.Spec.{Inbox, IsServed, arrive_all}

abbrev pub host : Host
host = record { layout = layout; kernel_registers = λ k. no_registers }

-- The kernel behind its boot.
abbrev serving : Kernel
serving = main_started host (set_up_state layout boot)

-- Main runs in user mode; two characters and the timer wait for the kernel.
abbrev pub busy : Kernel
busy = record serving {
  cpu = cpu;
  uart = record { rx = 65 ∷ 66 ∷ []; tx = []; lcrh = 0; imsc = 16; mis = 16; icr = 0 };
  irqs = record {
    irq_basic_pending = 0;
    irq_pending_1 = 2;
    irq_pending_2 = 0;
    fiq_control = 0;
    enable_irqs_1 = 2;
    enable_irqs_2 = 0;
    enable_basic_irqs = 0;
    disable_irqs_1 = 0;
    disable_irqs_2 = 0;
    disable_basic_irqs = 0;
  };
  timer = record { cs = 2; clo = 1_000_007; chi = 0; c0 = 0; c1 = 1_000_000; c2 = 0; c3 = 0 };
}

abbrev pub main_alone : Inbox
main_alone = record { queues = record no_queues { current = 0 }; stored = [] }

-- No hook is linked in.
abbrev no_test : Kernel → Kernel
no_test k = k

no_test_harmless : (k : Kernel) → IsUserStep k (no_test k)
no_test_harmless k = record { threads = refl; running = refl; links = refl; ring = refl; on = refl }

start_kernel_serves_example :
    (j : Kernel) × (k' : Kernel) × (set_up layout boot ≡ ok tt j)
    × IsSetUp layout boot j
    × (start_kernel host no_test boot ≡ ok (first_registers layout 0 0) k')
    × (run_thread_entry k' (first_registers layout 0 0) ≡ (32896, initial_sp (layout.stack 0) 0))
    × IsServed k' main_runs
start_kernel_serves_example =
    start_kernel_serves host no_test boot no_test_harmless boot-IsBoot refl

busy_step : IsUserStep serving busy
busy_step = record { threads = refl; running = refl; links = refl; ring = refl; on = refl }

pub busy-IsServed : IsServed busy main_alone
unfolding uart_init systick_init setup_interrupts
busy-IsServed = IsServed-user serving busy main_alone busy_step (
    booted-IsServed host (set_up_state layout boot)
      (IsBoot-user boot (set_up_state layout boot) (set_up_state-IsSetUp layout boot).kept
        boot-IsBoot)
      refl)

pub busy-Reachable : Reachable host busy
busy-Reachable =
    user serving busy
      (booted no_test boot serving (main_registers host (set_up_state layout boot)) no_test_harmless
        boot-IsBoot refl (start_kernel_done host no_test boot))
      busy_step

pub user_mode : psr_mode (read_spsr busy.cpu) ≡ cpu_mode_usr
unfolding read_spsr current_bank bank_of_mode
user_mode = refl

abbrev pub getc_call : SavedRegisters
getc_call = record no_registers { r0 = 2 }

handle_irq_refines_example :
    (k' : Kernel) × (uart_handle_irq busy ≡ ok tt k')
    × IsServed k' (arrive_all (65 ∷ 66 ∷ []) main_alone)
    × SameRest [] busy k'
unfolding test_bit given_all arrive_all
handle_irq_refines_example = handle_irq_refines busy main_alone busy-IsServed

pub due : is_due busy ≡ true
unfolding interrupt_controller_check_pending system_timer_check_compare test_bit
due = refl

systick_refines_example :
    (k' : Kernel) × (systick_handle_irq busy ≡ ok tt k')
    × IsServed k' (record main_alone { queues = Spec.tick (counter busy) main_alone.queues })
    × (k'.timer.c1 ≡ add_u32 1_000_000 systick_timer_interval)
systick_refines_example = systick_refines busy main_alone busy-IsServed due

-- Main creates a thread.
abbrev pub create_call : SavedRegisters
create_call = record no_registers { r0 = 1; r1 = 33000; r2 = 1_052_671; r3 = 1 }

svc_effects_example :
    (k' : Kernel) × (handle_svc host create_call busy ≡ ok tt k')
    × IsServed k' (perform 1 (find_free_thread_id busy) main_alone)
    × Does layout create_call [] 1 busy k'
svc_effects_example =
    svc_effects host create_call busy main_alone busy-IsServed (omega arith) user_mode (omega arith)
      (λ e. omega arith)

abbrev exit_call : SavedRegisters
exit_call = record no_registers { r0 = 5 }

kernel_exit_halts_example :
    (k' : Kernel) × (handle_svc host exit_call busy ≡ halted k')
    × (k'.uart.tx ≡ (busy.uart.tx ++ exit_report host exit_call busy) ++ 4 ∷ [])
    × (k'.threads ≡ busy.threads)
    × (k'.running ≡ busy.running)
kernel_exit_halts_example =
    kernel_exit_halts host exit_call busy main_alone busy-IsServed user_mode refl refl

known_fault : fsr_status (read_dfsr busy.cpu) ≢ 31
unfolding fsr_status read_dfsr
known_fault = omega arith

fault_refines_example :
    Returns (handle_fault data_abort getc_call busy) (with_queues Spec.terminate main_alone)
fault_refines_example =
    fault_refines getc_call busy main_alone busy-IsServed data_abort user_mode known_fault

irq_refines_example : Returns (handle_irq getc_call busy) (ticked busy (arrived busy main_alone))
irq_refines_example = irq_refines getc_call busy main_alone busy-IsServed

reachable_returns_example : (k' : Kernel) × (handle call host getc_call busy ≡ ok tt k')
reachable_returns_example =
    reachable_returns host busy busy-Reachable call getc_call user_mode
      (omega (arith, busy-IsServed.scheduled.same), omega arith, λ e. omega arith)

-- Main waits for a character.
pub main_asks :
    Returns (handle call host getc_call busy) (perform 2 (find_free_thread_id busy) main_alone)
main_asks =
    svc_refines host getc_call busy main_alone busy-IsServed (omega arith) user_mode (omega arith)
      (λ e. omega arith)

main_asks-Reachable : Reachable host main_asks.0
main_asks-Reachable =
    handled busy main_asks.0 call getc_call busy-Reachable user_mode
      (omega (arith, busy-IsServed.scheduled.same), omega arith, λ e. omega arith) main_asks.1

main_waiting : (main_asks.0.threads 0).status ≡ waiting
unfolding Spec.wait_current Spec.dispatch
main_waiting =
    ground
      (arith, main_asks.2.scheduled.queued.placed 0 uart_wait_queue (omega arith) (omega arith))

no_lost_wakeup_example : contents main_asks.0.uart_ringbuffer ≡ []
no_lost_wakeup_example =
    no_lost_wakeup host main_asks.0 main_asks-Reachable 0 (omega arith) main_waiting

-- The thread is in the second place.
pub free_busy : find_free_thread_id busy ≡ some 1
unfolding main_started setup_interrupts systick_init uart_init find_free_thread_id find_free_from
    make_thread create_within init_thread scheduler_start scheduler_get_next_thread
    thread_from_queue scheduler_run_thread thread_run list_remove_first list_remove_ list_add_last
    list_is_empty
free_busy = refl

pub main_creates : Returns (handle call host create_call busy) (perform 1 (some 1) main_alone)
main_creates =
    subst (λ o. Returns (handle call host create_call busy) (perform 1 o main_alone)) free_busy
      (svc_refines host create_call busy main_alone busy-IsServed (omega arith) user_mode
        (omega arith) (λ e. omega arith))

pub main_creates-Reachable : Reachable host main_creates.0
main_creates-Reachable =
    handled busy main_creates.0 call create_call busy-Reachable user_mode
      (omega (arith, busy-IsServed.scheduled.same), omega arith, λ e. omega arith) main_creates.1

pub created_ready : (main_creates.0.threads 1).status ≡ ready
unfolding Spec.create
created_ready =
    ground (arith, main_creates.2.scheduled.queued.placed 1 run_queue (omega arith) (omega arith))

ready_queued_example : (q : List ThreadPtr) × Ring main_creates.0.links run_queue q × (1 ∈ q)
ready_queued_example =
    ready_queued host main_creates.0 main_creates-Reachable 1 (omega arith) created_ready
