-- ===== src/UserProgram/Calls.antt =====
-- The calls of user/syscalls.c and the table of kernel/syscalls.c agree.
use betriebssysteme.Common.{◌≡◌, refl, false, ==_iff}
use betriebssysteme.Common.Words.{codes}
use betriebssysteme.Cpu.{cpu_mode_usr, psr_mode, read_spsr}
use betriebssysteme.ExceptionPrint.Report.{print_exception_infos}
use betriebssysteme.Handlers.{handle_svc}
use betriebssysteme.Kernel.{Kernel, Cmd, and_then, step}
use betriebssysteme.Scheduler.{
  scheduler_begin_exception, scheduler_thread_create, scheduler_sleep_running_from_irq,
  scheduler_thread_terminate_running_from_irq,
}
use betriebssysteme.Syscalls.{
  Host, handle_syscall, svc_handlers, sys_exit, sys_create_thread, sys_getc, sys_putc, sys_sleep,
  sys_kernel_exit,
}
use betriebssysteme.Thread.{SavedRegisters}
use betriebssysteme.Uart.{uart_putc, uart_user_getc}
use betriebssysteme.UserProgram.{
  SystemCall, syscall_exit, syscall_create_thread, syscall_getc, syscall_putc, syscall_sleep,
  syscall_kernel_exit, syscall_undefined, issue,
}

-- What a call is for.
abbrev pub meant : Host → SavedRegisters → SystemCall → Cmd (Unit {0})
meant host regs syscall_exit = step scheduler_thread_terminate_running_from_irq
meant host regs (syscall_create_thread f args arg_size) =
    scheduler_thread_create host.layout f args arg_size
meant host regs syscall_getc = uart_user_getc
meant host regs (syscall_putc c) = step (uart_putc c)
meant host regs (syscall_sleep cycles) = step (scheduler_sleep_running_from_irq cycles)
meant host regs syscall_kernel_exit = sys_kernel_exit host regs
meant host regs syscall_undefined = λ k.
    and_then (print_exception_infos (codes "Unknown Supervisor Call") false false regs k)
      (λ _. step scheduler_thread_terminate_running_from_irq)

-- A call of user code in user mode makes the kernel do what it is for, with the arguments in their
-- places: the numbers and registers of the user's side and of the kernel's table agree.
pub call_does :
    (host : Host) (regs : SavedRegisters) (k : Kernel) (c : SystemCall)
    → psr_mode (read_spsr k.cpu) ≡ cpu_mode_usr
    → handle_svc host (issue c regs) k
      ≡ meant host (issue c regs) c (scheduler_begin_exception (issue c regs) k)
unfolding handle_svc handle_syscall svc_handlers sys_exit sys_create_thread sys_getc sys_putc
    sys_sleep issue scheduler_begin_exception
call_does host regs k syscall_exit mode = rw ((==_iff _ _).1 mode) refl
call_does host regs k (syscall_create_thread f args arg_size) mode = rw ((==_iff _ _).1 mode) refl
call_does host regs k syscall_getc mode = rw ((==_iff _ _).1 mode) refl
call_does host regs k (syscall_putc c) mode = rw ((==_iff _ _).1 mode) refl
call_does host regs k (syscall_sleep cycles) mode = rw ((==_iff _ _).1 mode) refl
call_does host regs k syscall_kernel_exit mode = rw ((==_iff _ _).1 mode) refl
call_does host regs k syscall_undefined mode = rw ((==_iff _ _).1 mode) refl
