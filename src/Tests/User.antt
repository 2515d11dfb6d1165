-- ===== src/Tests/User.antt =====
-- user/syscalls.c, user/main.c and lib/ubsan.c at concrete values.
use betriebssysteme.Common.{◌≡◌, arith, refl, [], ◌∷◌, ◌++◌, get_or}
use betriebssysteme.Common.Words.{codes}
use betriebssysteme.Handlers.{handle_svc}
use betriebssysteme.Kernel.{halted}
use betriebssysteme.Scheduler.{scheduler_begin_exception}
use betriebssysteme.Tests.System.{host, busy, user_mode}
use betriebssysteme.Tests.Threads.{no_registers}
use betriebssysteme.Ubsan.{SourceLocation, ubsan_handler, handler_names}
use betriebssysteme.Ubsan.Halts.{shown, reported, ubsan_handler_halts}
use betriebssysteme.UserProgram.{issue, syscall_putc, syscall_sleep, worker_loop, worker_thread}
use betriebssysteme.UserProgram.Calls.{call_does, meant}

worker_sleeps :
    worker_loop 2 b'c'
    ≡ syscall_putc b'c' ∷ syscall_sleep 2 ∷ syscall_putc b'c' ∷ syscall_sleep 2 ∷ []
unfolding worker_loop
worker_sleeps = refl

worker_returns : worker_thread b'i' ≡ []
unfolding worker_thread
worker_returns = refl

call_does_example :
    handle_svc host (issue (syscall_sleep 3) no_registers) busy
    ≡ meant host
        (issue (syscall_sleep 3) no_registers)
        (syscall_sleep 3)
        (scheduler_begin_exception (issue (syscall_sleep 3) no_registers) busy)
call_does_example = call_does host no_registers busy (syscall_sleep 3) user_mode

abbrev place : SourceLocation
place = record { file_name = codes "main.c"; line = 7; column = 12 }

prints_place : shown place ≡ codes "main.c:7:12"
unfolding betriebssysteme.Kprintf.convert_to_base_string betriebssysteme.Kprintf.convert_loop
prints_place = refl

ubsan_handler_halts_example :
    ubsan_handler (get_or handler_names 0 []) place busy
    ≡ halted (
        reported
          (codes "Undefined behavior detected: " ++ get_or handler_names 0 [] ++ codes " at ")
          place
          busy)
unfolding handler_names
ubsan_handler_halts_example = ubsan_handler_halts 0 place busy (omega arith)
