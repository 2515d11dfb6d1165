-- ===== src/Tests/Returns.antt =====
-- A system call that returns to its caller at once.
use betriebssysteme.Common.{◌≡◌, arith, refl, sym, ◌∙◌, [], ◌∷◌, inr, ◌≢◌}
use betriebssysteme.Common.Words.{test_bit}
use betriebssysteme.Handlers.{handle_irq, handle_svc}
use betriebssysteme.Handlers.Call.{Returns}
use betriebssysteme.Handlers.User.{irq_refines, ticked, arrived}
use betriebssysteme.Kernel.{Kernel}
use betriebssysteme.RingBuffer.Fifo
use betriebssysteme.RingBuffer.Refine.{contents}
use betriebssysteme.Scheduler.Spec
use betriebssysteme.System.{Reachable, user, handled, interrupt}
use betriebssysteme.System.Resume.Returns.{answered, Continues, call_returns}
use betriebssysteme.Tests.Resume.{quiet, quiet_step, quiet-IsServed}
use betriebssysteme.Tests.System.{
  host, busy, user_mode, due, main_alone, busy-IsServed, busy-Reachable, getc_call,
}
use betriebssysteme.Tests.Threads.{no_registers, cpu}
use betriebssysteme.Thread.{exception_return}
use betriebssysteme.Uart.Spec.{IsServed, arrive_all}

-- Two characters arrive while no thread waits.
abbrev pub stores : Returns (handle_irq no_registers busy) (ticked busy (arrived busy main_alone))
stores = irq_refines no_registers busy main_alone busy-IsServed

abbrev pub full : Kernel
full = quiet stores.0

pub full-IsServed : IsServed full (ticked busy (arrived busy main_alone))
full-IsServed = quiet-IsServed stores.0 (ticked busy (arrived busy main_alone)) stores.2

full-Reachable : Reachable host full
full-Reachable =
    user stores.0 full
      (handled busy stores.0 interrupt no_registers busy-Reachable user_mode tt stores.1)
      (quiet_step stores.0)

full_contents : contents full.uart_ringbuffer ≡ 65 ∷ 66 ∷ []
unfolding arrive_all Fifo.push test_bit Spec.tick Spec.wake Spec.preempt Spec.dispatch
full_contents = stores.2.holds ∙ rw due refl

pub main_runs_on : full.running ≡ 0
unfolding arrive_all Fifo.push test_bit Spec.tick Spec.wake Spec.preempt Spec.dispatch
main_runs_on = stores.2.scheduled.same ∙ rw due refl

two_left : contents full.uart_ringbuffer ≢ []
two_left e = ground (arith, sym full_contents ∙ e)

call_returns_example :
    Continues full
      (answered 2 (contents full.uart_ringbuffer) (exception_return getc_call cpu))
      (handle_svc host getc_call full)
call_returns_example =
    call_returns host getc_call full full-Reachable user_mode (omega (arith, main_runs_on))
      (inr (inr (refl, two_left)))
