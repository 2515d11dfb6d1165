-- ===== src/Tests/Threads.antt =====
-- kernel/threading: a kernel at boot, with its main thread, and with a second one.
use betriebssysteme.Thread.{
  zero_context, init_thread, thread_from_queue, thread_run, Thread, SavedRegisters, terminated,
  Layout,
}
use betriebssysteme.Common.{◌*◌, ◌+◌, ◌≡◌, arith, refl, true, false, some, [], ◌∷◌, replicate}
use betriebssysteme.Cpu.{Cpu, cpu_mode_svc, cpu_mode_usr}
use betriebssysteme.Kernel.{Kernel, ok, null_thread, uart_wait_queue}
use mathlib.Core.Path.{subst}
use betriebssysteme.LinkedList.{list_add_last, list_remove_first, list_remove_, list_is_empty}
use betriebssysteme.Scheduler.Wake.{counter}
use betriebssysteme.Scheduler.{
  scheduler_get_next_thread, scheduler_run_thread, scheduler_wait_running_from_irq,
  find_free_thread_id, find_free_from, make_thread, create_within, scheduler_start,
  scheduler_tick_from_irq, scheduler_update_sleepers, scheduler_notify_one_from_irq,
}
use betriebssysteme.Scheduler.Inv.{IsValid}
use betriebssysteme.Scheduler.Spec
use betriebssysteme.Scheduler.Spec.{Queues}
use betriebssysteme.Scheduler.Start.{IsBoot, no_queues, boot_runs_main}
use betriebssysteme.Scheduler.Turn.{wait_refines}
use betriebssysteme.Scheduler.Arrive.{create_refines, created, notify_refines, Notified}
use betriebssysteme.Scheduler.Sleepers.{update_sleepers_refines, Passed}
use betriebssysteme.Scheduler.Tick.{tick_refines}

abbrev pub layout : Layout
layout = record {
  stack = λ t. 4096 * t + 1_048_576;
  thread_entry = 32768;
  idle_thread_fn = 32832;
  user_main = 32896;
  ivt = 65_536;
}

abbrev pub no_thread : Thread
no_thread = record {
  id = 0;
  fn = 0;
  status = terminated;
  context = zero_context;
  sleep_counter = 0;
}

abbrev pub no_registers : SavedRegisters
no_registers = record {
  r0 = 0;
  r1 = 0;
  r2 = 0;
  r3 = 0;
  r4 = 0;
  r5 = 0;
  r6 = 0;
  r7 = 0;
  r8 = 0;
  r9 = 0;
  r10 = 0;
  r11 = 0;
  r12 = 0;
  pc = 0;
}

abbrev pub cpu : Cpu
cpu = record {
  cpsr = cpu_mode_svc;
  lr = λ b. 0;
  sp = λ b. 0;
  spsr = λ b. cpu_mode_usr;
  dfsr = 5;
  dfar = 0;
  ifsr = 7;
  ifar = 0;
  vbar = 0;
  unpredictable = 0;
}

abbrev pub boot : Kernel
boot = record {
  threads = λ t. no_thread;
  running = null_thread;
  frame = no_registers;
  links = record { next = λ n. n; prev = λ n. n };
  is_running = false;
  cpu = cpu;
  memory = λ a. 0;
  uart = record { rx = []; tx = []; lcrh = 0; imsc = 0; mis = 0; icr = 0 };
  uart_ringbuffer = record { head = 0; tail = 0; size = 128; mask = 127; buffer = replicate 128 0 };
  irqs = record {
    irq_basic_pending = 0;
    irq_pending_1 = 0;
    irq_pending_2 = 0;
    fiq_control = 0;
    enable_irqs_1 = 0;
    enable_irqs_2 = 0;
    enable_basic_irqs = 0;
    disable_irqs_1 = 0;
    disable_irqs_2 = 0;
    disable_basic_irqs = 0;
  };
  timer = record { cs = 0; clo = 0; chi = 0; c0 = 0; c1 = 0; c2 = 0; c3 = 0 };
}

pub boot-IsBoot : IsBoot boot
boot-IsBoot = record { no_threads = λ t small. refl; empty_lists = λ h hq. (refl, refl) }

-- Main runs alone.
abbrev pub started : Kernel
started = (scheduler_start layout (make_thread layout 32896 0 0 boot)).0

abbrev pub main_runs : Queues
main_runs = record no_queues { current = 0 }

started-IsValid : IsValid started main_runs
started-IsValid = boot_runs_main layout boot boot-IsBoot

-- Main has created a worker, with an argument of one byte.
abbrev pub two : Kernel
two = make_thread layout 33000 1_052_671 1 started

abbrev pub worker_ready : Queues
worker_ready = record main_runs { run = 1 ∷ [] }

pub free_second : find_free_thread_id started ≡ some 1
unfolding find_free_thread_id find_free_from make_thread create_within init_thread scheduler_start
    scheduler_get_next_thread thread_from_queue scheduler_run_thread thread_run list_remove_first
    list_remove_ list_add_last list_is_empty
free_second = refl

two-IsValid : IsValid two worker_ready
unfolding Spec.create
two-IsValid =
    subst (λ o. IsValid two (created o main_runs)) free_second
      (create_refines layout 33000 1_052_671 1 started main_runs started-IsValid)

two_on : two.is_running ≡ true
unfolding make_thread create_within scheduler_start scheduler_run_thread thread_run
    find_free_thread_id scheduler_get_next_thread thread_from_queue list_remove_first list_add_last
two_on = refl

tick_refines_example :
    (k' : Kernel) × (scheduler_tick_from_irq two ≡ ok tt k')
    × IsValid k' (Spec.tick (counter two) worker_ready)
tick_refines_example = tick_refines two worker_ready two-IsValid two_on

update_sleepers_refines_example :
    (k' : Kernel) × (scheduler_update_sleepers two ≡ ok tt k')
    × IsValid k' (Spec.wake (counter two) worker_ready)
    × Passed two [] k'
update_sleepers_refines_example = update_sleepers_refines two worker_ready two-IsValid

-- Main waits for a character and the worker runs.
abbrev main_waits : Kernel
main_waits = scheduler_wait_running_from_irq uart_wait_queue two

abbrev worker_runs : Queues
worker_runs = record no_queues { wait = 0 ∷ []; current = 1 }

main_waits-IsValid : IsValid main_waits worker_runs
unfolding Spec.wait_current Spec.dispatch
main_waits-IsValid = wait_refines two worker_ready two-IsValid (omega arith)

notify_refines_example :
    Notified main_waits worker_runs 65
      (0 ∷ [])
      (scheduler_notify_one_from_irq uart_wait_queue 65 main_waits)
notify_refines_example = notify_refines main_waits worker_runs main_waits-IsValid 65
