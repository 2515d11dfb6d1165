-- ===== src/Tests/Order.antt =====
-- Two characters arrive, and main asks for one.
use betriebssysteme.Common.{◌++◌, ◌≡◌, arith, ap, length}
use betriebssysteme.Common.Words.{test_bit}
use betriebssysteme.Handlers.Call.{Returns}
use betriebssysteme.Handlers.User.{svc_refines, ticked, arrived}
use betriebssysteme.RingBuffer.Refine.{contents}
use betriebssysteme.Scheduler.{find_free_thread_id}
use betriebssysteme.Syscalls.Spec.{perform}
use betriebssysteme.System.{call, interrupt, handle}
use betriebssysteme.System.Characters.{given_in}
use betriebssysteme.System.Order.{accepted_in, arriving_in, characters_in_order, none_dropped}
use betriebssysteme.System.Received.{ReceivesIn}
use betriebssysteme.System.Progress.{Trace, stop}
use betriebssysteme.Tests.Resume.{quiet_step}
use betriebssysteme.Tests.Returns.{stores, full, main_runs_on, full-IsServed}
use betriebssysteme.Tests.System.{host, busy, user_mode, main_alone, busy-IsServed, getc_call}
use betriebssysteme.Tests.Threads.{no_registers}
use betriebssysteme.Uart.Order.{as_chars, chars}
use betriebssysteme.Uart.Spec.{Inbox}

abbrev filled : Inbox
filled = ticked busy (arrived busy main_alone)

main_gets : Returns (handle call host getc_call full) (perform 2 (find_free_thread_id full) filled)
main_gets =
    svc_refines host getc_call full filled full-IsServed
      (omega (arith, main_runs_on, full-IsServed.scheduled.same)) user_mode (omega arith)
      (λ e. omega arith)

abbrev two_chars : Trace host 0 busy main_gets.0
two_chars = Trace.handled 0 busy stores.0 main_gets.0 interrupt no_registers user_mode tt stores.1 (
    Trace.user 0 stores.0 full main_gets.0 (quiet_step stores.0) (
      Trace.handled 0 full main_gets.0 main_gets.0 call getc_call user_mode
        (omega (arith, main_runs_on), omega arith, λ e. omega arith) main_gets.1
        (stop main_gets.0)))

characters_in_order_example :
    (contents busy.uart_ringbuffer ++ accepted_in two_chars main_alone
      ≡ chars (given_in two_chars main_alone) ++ contents main_gets.0.uart_ringbuffer)
    × ReceivesIn 0 two_chars main_alone
characters_in_order_example =
    characters_in_order host 0 busy main_gets.0 two_chars main_alone 0 busy-IsServed (omega arith)

none_dropped_example :
    (contents busy.uart_ringbuffer ++ arriving_in two_chars
      ≡ chars (given_in two_chars main_alone) ++ contents main_gets.0.uart_ringbuffer)
    × ReceivesIn 0 two_chars main_alone
unfolding as_chars test_bit
none_dropped_example =
    none_dropped host 0 busy main_gets.0 two_chars main_alone 0 busy-IsServed (omega arith)
      (omega (arith, ap length busy-IsServed.holds))
