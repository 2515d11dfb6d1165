-- ===== src/Tests/Resume.antt =====
-- Threads that lose the processor and get it back.
use betriebssysteme.Common.{
  ◌+◌, ◌%◌, ◌≤◌, inl, inr, some, ◌≡◌, arith, refl, sym, ◌∙◌, [], if◌then◌else◌,
}
use mathlib.Core.Path.{subst}
use betriebssysteme.Handlers.{handle_irq}
use betriebssysteme.Handlers.User.{irq_refines}
use betriebssysteme.Handlers.Call.{Returns}
use betriebssysteme.Kernel.{Kernel}
use betriebssysteme.Common.Words.{test_bit}
use betriebssysteme.Scheduler.{run_thread_entry}
use betriebssysteme.Scheduler.Spec
use betriebssysteme.Scheduler.Wake.{counter}
use betriebssysteme.Syscalls.Spec.{perform}
use betriebssysteme.System.{user, interrupt, IsUserStep}
use betriebssysteme.System.Progress.{Trace, stop, RunsIn}
use betriebssysteme.System.Resume.{preempted_resumes}
use betriebssysteme.Mem.Copy.{copied}
use betriebssysteme.System.Resume.Argument.{created_argument}
use betriebssysteme.System.Resume.Calls.{created_starts}
use betriebssysteme.Scheduler.Start.{first_registers}
use betriebssysteme.System.Started.{IsServed-user}
use betriebssysteme.Tests.Threads.{no_registers, cpu, layout}
use betriebssysteme.Thread.{initial_sp, thread_stack_size, exception_return}
use betriebssysteme.Uart.Spec.{Inbox, IsServed}
use betriebssysteme.Tests.System.{
  host, busy, user_mode, due, main_alone, busy-IsServed, busy-Reachable, main_creates,
  main_creates-Reachable, create_call, free_busy,
}

-- The kernel as user code and devices may leave it: in user mode, with the tick due and no character
-- waiting.
abbrev pub quiet : Kernel → Kernel
quiet k = record k {
  cpu = cpu;
  irqs = busy.irqs;
  timer = busy.timer;
  uart = record { rx = []; tx = []; lcrh = 0; imsc = 16; mis = 0; icr = 0 };
}

pub quiet_step : (k : Kernel) → IsUserStep k (quiet k)
quiet_step k = record { threads = refl; running = refl; links = refl; ring = refl; on = refl }

pub quiet-IsServed : (k : Kernel) (i : Inbox) → IsServed k i → IsServed (quiet k) i
quiet-IsServed k i v = IsServed-user k (quiet k) i (quiet_step k) v

-- A tick at the quiet kernel.
pub ticking :
    (k : Kernel) (i : Inbox)
    → IsServed k i
    → Returns
        (handle_irq no_registers (quiet k))
        (record i { queues = Spec.tick (counter k) i.queues })
unfolding test_bit
ticking k i v =
    subst
      (λ b.
        Returns (handle_irq no_registers (quiet k))
          (if b then record i { queues = Spec.tick (counter k) i.queues } else i))
      due (irq_refines no_registers (quiet k) i (quiet-IsServed k i v))

-- The kernel, made quiet, as a run.
abbrev pub quiet_run : (k : Kernel) → Trace host 0 k (quiet k)
quiet_run k = Trace.user 0 k (quiet k) (quiet k) (quiet_step k) (stop (quiet k))

-- Main creates a thread, which the next tick gives the processor.
abbrev with_worker : Inbox
with_worker = perform 1 (some 1) main_alone

abbrev worker_turn :
    Returns
      (handle_irq no_registers (quiet main_creates.0))
      (record with_worker { queues = Spec.tick (counter main_creates.0) with_worker.queues })
worker_turn = ticking main_creates.0 with_worker main_creates.2

worker_runs : worker_turn.0.running ≡ 1
unfolding Spec.create Spec.tick Spec.wake Spec.preempt Spec.dispatch
worker_runs = worker_turn.2.scheduled.same

main_first : main_creates.0.running ≡ 0
unfolding Spec.create
main_first = main_creates.2.scheduled.same

not_yet : RunsIn 1 (quiet_run main_creates.0) → ⊥
not_yet (inl e) = omega (arith, e, main_first)
not_yet (inr e) = omega (arith, e, main_first)

created_starts_example :
    (exception_return worker_turn.0.frame worker_turn.0.cpu ≡ first_registers layout 1 1)
    × (run_thread_entry worker_turn.0 (exception_return worker_turn.0.frame worker_turn.0.cpu)
        ≡ (33000, initial_sp (layout.stack 1) 1))
created_starts_example =
    created_starts host 0 busy main_creates.0 (quiet main_creates.0) worker_turn.0 create_call 1
      (omega arith) busy-Reachable user_mode (omega (arith, busy-IsServed.scheduled.same)) refl
      free_busy (omega arith) main_creates.1 (quiet_run main_creates.0) not_yet interrupt
      no_registers no_registers user_mode tt worker_turn.1 worker_runs

-- Its argument is the byte at 1052671.
created_argument_example :
    (main_creates.0.memory 1_056_760
      ≡ copied (initial_sp (layout.stack 1) 1) 1_052_671 1 busy.memory 1_056_760)
    × (initial_sp (layout.stack 1) 1 % 8 ≡ 0)
    × (layout.stack 1 ≤ initial_sp (layout.stack 1) 1)
    × (initial_sp (layout.stack 1) 1 + 1 ≤ layout.stack 1 + thread_stack_size)
unfolding initial_sp
created_argument_example =
    created_argument host busy main_creates.0 create_call 1 1_056_760 user_mode refl free_busy
      main_creates.1 refl (omega arith) (omega arith) (omega arith)

-- The tick behind gives it back to main.
abbrev main_turn : Returns (handle_irq no_registers (quiet worker_turn.0)) (record with_worker {
  queues =
      Spec.tick (counter worker_turn.0) (Spec.tick (counter main_creates.0) with_worker.queues);
})
main_turn =
    ticking worker_turn.0
      (record with_worker { queues = Spec.tick (counter main_creates.0) with_worker.queues })
      worker_turn.2

main_runs_again : main_turn.0.running ≡ 0
unfolding Spec.create Spec.tick Spec.wake Spec.preempt Spec.dispatch
main_runs_again = main_turn.2.scheduled.same

abbrev main_first_again : Kernel
main_first_again = quiet main_creates.0

away : RunsIn main_first_again.running (quiet_run worker_turn.0) → ⊥
away (inl e) = omega (arith, e, worker_runs, main_first)
away (inr e) = omega (arith, e, worker_runs, main_first)

preempted_resumes_example :
    exception_return main_turn.0.frame main_turn.0.cpu ≡ exception_return no_registers cpu
preempted_resumes_example =
    preempted_resumes host 0 main_first_again worker_turn.0 (quiet worker_turn.0) main_turn.0
      no_registers
      (user main_creates.0 main_first_again main_creates-Reachable (quiet_step main_creates.0))
      user_mode (omega (arith, main_first)) worker_turn.1 (quiet_run worker_turn.0) away interrupt
      no_registers no_registers user_mode tt main_turn.1 (main_runs_again ∙ sym main_first)
