-- ===== src/Tests/Progress.antt =====
-- Threads that come to their turn: runs of the kernel with many ticks.
use betriebssysteme.System.Progress.{Trace, tick, stop, RunsIn, ready_runs}
use betriebssysteme.Common.{zero, suc, some, ◌≡◌, arith, refl, ℕ, ◌+◌}
use betriebssysteme.Handlers.User.{svc_refines, irq_refines, ticked, arrived}
use betriebssysteme.Handlers.Call.{Returns}
use betriebssysteme.Kernel.{Kernel, sleep_queue}
use betriebssysteme.Scheduler.{find_free_thread_id}
use betriebssysteme.Scheduler.Spec
use betriebssysteme.Syscalls.Spec.{perform}
use betriebssysteme.System.{Reachable, handled, call, handle, IsUserStep}
use betriebssysteme.System.Started.{IsServed-user}
use betriebssysteme.Tests.Threads.{no_registers, cpu}
use betriebssysteme.Thread.{SavedRegisters, sleeping}
use betriebssysteme.Uart.Spec.{Inbox, IsServed}
use betriebssysteme.System.Sleepers.{sleeper_runs}
use betriebssysteme.Tests.System.{
  host, busy, user_mode, due, main_alone, busy-IsServed, busy-Reachable, main_creates,
  main_creates-Reachable, created_ready,
}

-- The kernel as user code and devices may leave it: in user mode, with the tick due.
abbrev tick_due : Kernel → Kernel
tick_due k = record k { cpu = cpu; irqs = busy.irqs; timer = busy.timer }

-- Runs with any number of ticks.
run_of : (n : ℕ) (k : Kernel) (i : Inbox) → IsServed k i → (k' : Kernel) × Trace host n k k'
run_of zero k i v = (k, stop k)
run_of (suc n) k i v =
    let step : IsUserStep k (tick_due k) = record {
      threads = refl;
      running = refl;
      links = refl;
      ring = refl;
      on = refl;
    } in
    let v1 : IsServed (tick_due k) i = IsServed-user k (tick_due k) i step v in
    let (k2, done, v2) = irq_refines no_registers (tick_due k) i v1 in
    let (k3, rest) = run_of n k2 (ticked (tick_due k) (arrived (tick_due k) i)) v2 in
    (
      k3,
      Trace.user (suc n) k (tick_due k) k3 step
          (tick n (tick_due k) k2 k3 no_registers user_mode due done rest),
    )

abbrev long_run : (k' : Kernel) × Trace host 32 main_creates.0 k'
long_run = run_of 32 main_creates.0 (perform 1 (some 1) main_alone) main_creates.2

ready_runs_example : RunsIn 1 long_run.1
ready_runs_example =
    ready_runs host main_creates.0 long_run.0 1 main_creates-Reachable (omega arith) created_ready
      long_run.1

-- Main sleeps for three cycles.
abbrev sleep_call : SavedRegisters
sleep_call = record no_registers { r0 = 4; r1 = 3 }

main_sleeps :
    Returns (handle call host sleep_call busy) (perform 4 (find_free_thread_id busy) main_alone)
main_sleeps =
    svc_refines host sleep_call busy main_alone busy-IsServed (omega arith) user_mode (omega arith)
      (λ e. omega arith)

main_sleeps-Reachable : Reachable host main_sleeps.0
main_sleeps-Reachable =
    handled busy main_sleeps.0 call sleep_call busy-Reachable user_mode
      (omega (arith, busy-IsServed.scheduled.same), omega arith, λ e. omega arith) main_sleeps.1

main_asleep : (main_sleeps.0.threads 0).status ≡ sleeping
unfolding Spec.sleep_current Spec.dispatch
main_asleep =
    ground (arith, main_sleeps.2.scheduled.queued.placed 0 sleep_queue (omega arith) (omega arith))

abbrev sleeping_run :
    (k' : Kernel) × Trace host ((main_sleeps.0.threads 0).sleep_counter + 33) main_sleeps.0 k'
sleeping_run =
    run_of ((main_sleeps.0.threads 0).sleep_counter + 33) main_sleeps.0
      (perform 4 (find_free_thread_id busy) main_alone) main_sleeps.2

sleeper_runs_example : RunsIn 0 sleeping_run.1
sleeper_runs_example =
    sleeper_runs host main_sleeps.0 sleeping_run.0 0 main_sleeps-Reachable (omega arith) main_asleep
      sleeping_run.1
