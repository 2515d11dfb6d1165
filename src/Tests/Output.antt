-- ===== src/Tests/Output.antt =====
-- Main prints two characters and makes an unknown call.
use betriebssysteme.Common.{◌++◌, ◌≡◌, arith, [], ◌∷◌, refl}
use betriebssysteme.Handlers.Call.{Returns, unknown_report}
use betriebssysteme.Handlers.User.{svc_refines}
use betriebssysteme.Kernel.{Kernel}
use betriebssysteme.Scheduler.{find_free_thread_id}
use betriebssysteme.Syscalls.Spec.{perform}
use betriebssysteme.System.{call, handle, IsUserStep}
use betriebssysteme.System.Output.{printed_in, run_prints}
use betriebssysteme.System.Progress.{Trace, stop}
use betriebssysteme.System.Started.{IsServed-user}
use betriebssysteme.Tests.System.{host, busy, user_mode, main_alone, busy-IsServed}
use betriebssysteme.Tests.Threads.{no_registers}
use betriebssysteme.Thread.{SavedRegisters}
use betriebssysteme.Uart.Spec.{IsServed}

abbrev put_a : SavedRegisters
put_a = record no_registers { r0 = 3; r1 = 65 }

abbrev unknown_number : SavedRegisters
unknown_number = record no_registers { r0 = 9 }

first : Returns (handle call host put_a busy) (perform 3 (find_free_thread_id busy) main_alone)
first =
    svc_refines host put_a busy main_alone busy-IsServed (omega arith) user_mode (omega arith)
      (λ e. omega arith)

-- Main goes on in user mode.
abbrev next : Kernel
next = let k : Kernel = first.0 in record k { cpu = busy.cpu }

next_step : IsUserStep first.0 next
next_step = record { threads = refl; running = refl; links = refl; ring = refl; on = refl }

next-IsServed : IsServed next main_alone
next-IsServed = IsServed-user first.0 next main_alone next_step first.2

next_running : next.running ≡ 0
next_running = next-IsServed.scheduled.same

last :
    Returns (handle call host unknown_number next) (perform 9 (find_free_thread_id next) main_alone)
last =
    svc_refines host unknown_number next main_alone next-IsServed (omega arith) user_mode
      (omega arith) (λ e. omega arith)

busy_running : busy.running ≡ 0
busy_running = busy-IsServed.scheduled.same

abbrev speaks : Trace host 0 busy last.0
speaks =
    Trace.handled 0 busy first.0 last.0 call put_a user_mode
      (omega (arith, busy_running), omega arith, λ e. omega arith) first.1
      (Trace.user 0 first.0 next last.0 next_step (
        Trace.handled 0 next last.0 last.0 call unknown_number user_mode
          (omega (arith, next_running), omega arith, λ e. omega arith) last.1 (stop last.0)))

run_prints_example : last.0.uart.tx ≡ busy.uart.tx ++ printed_in speaks
run_prints_example = run_prints host 0 busy last.0 speaks main_alone busy-IsServed (refl, tt)

-- It starts with the character of the first call.
speaks_first : printed_in speaks ≡ 65 ∷ unknown_report unknown_number next.cpu ++ []
speaks_first = refl
