-- ===== src/Tests/Calls.antt =====
-- Threads that give the processor away in a system call, and get it back.
use betriebssysteme.System.Characters.{given_by, given_in, after_all}
use betriebssysteme.Uart.Given.{given_to}
use betriebssysteme.Common.{◌++◌, inl, inr, ◌≡◌, arith, refl, sym, ap, ◌∙◌, [], ◌∷◌, ◌<◌, ℕ}
use betriebssysteme.Handlers.{handle_irq, handle_svc}
use betriebssysteme.Handlers.User.{irq_refines, ticked, arrived}
use betriebssysteme.Handlers.Call.{Returns}
use betriebssysteme.Kernel.{Kernel, Uart, ok, idle_thread}
use betriebssysteme.Common.Words.{test_bit}
use betriebssysteme.Scheduler.{
  find_free_thread_id, scheduler_begin_exception, scheduler_sleep_running_from_irq,
}
use betriebssysteme.Scheduler.Spec
use betriebssysteme.Scheduler.Wake.{counter}
use betriebssysteme.Scheduler.Counters.{counter-sleeper}
use betriebssysteme.Syscalls.Spec.{perform}
use betriebssysteme.System.{call, interrupt, IsUserStep}
use betriebssysteme.System.Progress.{Trace, stop, RunsIn}
use betriebssysteme.System.Reach.{after, handled-IsServed}
use betriebssysteme.System.Resume.Calls.{sleep_done, sleeper_resumes}
use betriebssysteme.System.Resume.Getc.{registers_with_char, getc_resumes}
use betriebssysteme.System.Started.{IsServed-user}
use betriebssysteme.Tests.Threads.{no_registers, cpu}
use betriebssysteme.Thread.{ThreadPtr, SavedRegisters, exception_return}
use betriebssysteme.Uart.Spec.{Inbox, IsServed, arrive_all}
use betriebssysteme.Tests.System.{
  host, busy, user_mode, due, main_alone, busy-IsServed, busy-Reachable, getc_call, main_asks,
}
use betriebssysteme.Tests.Resume.{quiet, ticking, quiet_run}

-- Main sleeps, and the first tick wakes it.
abbrev nap_call : SavedRegisters
nap_call = record no_registers { r0 = 4; pc = 33_004; r5 = 7 }

abbrev napping : Kernel
napping = scheduler_sleep_running_from_irq 0 (scheduler_begin_exception nap_call busy)

napped : handle_svc host nap_call busy ≡ ok tt napping
napped = sleep_done host nap_call busy user_mode refl

napping-IsServed : IsServed napping (after call nap_call busy main_alone)
napping-IsServed =
    handled-IsServed host call nap_call busy napping main_alone busy-IsServed user_mode
      (omega (arith, busy-IsServed.scheduled.same), omega arith, λ e. omega arith) napped

nap_over : counter napping 0 ≡ 0
unfolding scheduler_begin_exception
nap_over =
    ap (counter napping) (sym busy-IsServed.scheduled.same)
    ∙ counter-sleeper 0 (scheduler_begin_exception nap_call busy)

abbrev wakes :
    Returns
      (handle_irq no_registers (quiet napping))
      (record (after call nap_call busy main_alone) {
        queues = Spec.tick (counter napping) (after call nap_call busy main_alone).queues;
      })
wakes = ticking napping (after call nap_call busy main_alone) napping-IsServed

wakes_first :
    (c : ThreadPtr → ℕ)
    → c 0 ≡ 0
    → (Spec.tick c (after call nap_call busy main_alone).queues).current ≡ 0
unfolding Spec.sleep_current Spec.tick Spec.wake Spec.preempt Spec.dispatch
wakes_first c e = rw e refl

main_wakes : wakes.0.running ≡ 0
main_wakes = wakes.2.scheduled.same ∙ wakes_first (counter napping) nap_over

main_sleeps : napping.running ≡ idle_thread
unfolding Spec.sleep_current Spec.dispatch
main_sleeps = napping-IsServed.scheduled.same

asleep : RunsIn busy.running (quiet_run napping) → ⊥
asleep (inl e) = omega (arith, e, main_sleeps, busy-IsServed.scheduled.same)
asleep (inr e) = omega (arith, e, main_sleeps, busy-IsServed.scheduled.same)

sleeper_resumes_example : exception_return wakes.0.frame wakes.0.cpu ≡ exception_return nap_call cpu
sleeper_resumes_example =
    sleeper_resumes host 0 busy napping (quiet napping) wakes.0 nap_call busy-Reachable user_mode
      (omega (arith, busy-IsServed.scheduled.same)) refl napped (quiet_run napping) asleep interrupt
      no_registers no_registers user_mode tt wakes.1 (main_wakes ∙ sym busy-IsServed.scheduled.same)

-- Main waits for a character, until one arrives together with a tick.
abbrev ringing : Kernel → Kernel
ringing k =
    let u : Uart = (quiet k).uart in
    let k' : Kernel = quiet k in record k' { uart = record u { rx = 65 ∷ []; mis = 16 } }

ringing_step : (k : Kernel) → IsUserStep k (ringing k)
ringing_step k = record { threads = refl; running = refl; links = refl; ring = refl; on = refl }

abbrev asking : Kernel
asking = main_asks.0

abbrev asked : Inbox
asked = perform 2 (find_free_thread_id busy) main_alone

abbrev rings :
    Returns
      (handle_irq no_registers (ringing asking))
      (ticked (ringing asking) (arrived (ringing asking) asked))
rings =
    irq_refines no_registers (ringing asking) asked
      (IsServed-user asking (ringing asking) asked (ringing_step asking) main_asks.2)

main_answered : rings.0.running ≡ 0
unfolding Spec.wait_current Spec.tick Spec.wake Spec.preempt Spec.dispatch arrive_all test_bit
main_answered = rings.2.scheduled.same ∙ rw due refl

main_waits : asking.running ≡ idle_thread
unfolding Spec.wait_current Spec.dispatch
main_waits = main_asks.2.scheduled.same

abbrev ringing_run : Trace host 0 asking (ringing asking)
ringing_run =
    Trace.user 0 asking (ringing asking) (ringing asking) (ringing_step asking)
      (stop (ringing asking))

waiting_on : RunsIn busy.running ringing_run → ⊥
waiting_on (inl e) = omega (arith, e, main_waits, busy-IsServed.scheduled.same)
waiting_on (inr e) = omega (arith, e, main_waits, busy-IsServed.scheduled.same)

getc_resumes_example :
    (i : Inbox) × IsServed asking i
    × (c : ℕ) × (c < 256)
    × (given_to busy.running (
          given_in ringing_run i
          ++ given_by interrupt no_registers (ringing asking) (after_all ringing_run i))
        ≡ c ∷ [])
    × (exception_return rings.0.frame rings.0.cpu
        ≡ registers_with_char c (exception_return getc_call cpu))
getc_resumes_example =
    getc_resumes host 0 busy asking (ringing asking) rings.0 getc_call busy-Reachable user_mode
      (omega (arith, busy-IsServed.scheduled.same)) refl main_asks.1 ringing_run waiting_on
      interrupt no_registers no_registers user_mode tt rings.1
      (main_answered ∙ sym busy-IsServed.scheduled.same)
