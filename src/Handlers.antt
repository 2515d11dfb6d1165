-- ===== src/Handlers.antt =====
-- kernel/handlers.c: the exception handlers, with the registers that their entry has saved.
pub mod Served
pub mod Call
pub mod User
pub mod Effects
pub mod Kept
pub mod Counters
pub mod Contexts
pub mod Loads
use Prim.Native.String.{String}
use betriebssysteme.Common.{ℕ, ◌==◌, if◌then◌else◌, Bool, true, false}
use betriebssysteme.Cpu.{cpu_mode_usr, psr_mode, read_spsr}
use betriebssysteme.Common.Words.{codes}
use betriebssysteme.ExceptionPrint.Report.{print_exception_infos}
use betriebssysteme.Kernel.{Kernel, Cmd, ok, ◌>>=◌, ◌>>◌, step, and_then}
use betriebssysteme.Scheduler.{
  scheduler_begin_exception, scheduler_thread_terminate_running_from_irq,
}
use betriebssysteme.Syscalls.{Host, stop, svc_by_mode, handle_syscall}
use betriebssysteme.Systick.{systick_handle_irq}
use betriebssysteme.Thread.{SavedRegisters}
use betriebssysteme.Uart.{uart_handle_irq}

-- No code changes it.
abbrev pub irq_debug : Bool
irq_debug = false

unfoldable pub handle_irq : SavedRegisters → Cmd (Unit {0})
handle_irq regs k = and_then (uart_handle_irq (scheduler_begin_exception regs k)) λ _ k1.
    and_then
      (if irq_debug
        then print_exception_infos (codes "Interrupt") false false regs k1
        else ok tt k1)
      (λ _. systick_handle_irq)

-- What the handlers of the four faults share, behind their report.
unfoldable pub end_thread : Cmd (Unit {0})
end_thread k =
    if psr_mode (read_spsr k.cpu) == cpu_mode_usr
    then ok tt (scheduler_thread_terminate_running_from_irq k)
    else stop k

unfoldable pub handle_fiq : SavedRegisters → Cmd (Unit {0})
handle_fiq regs k =
    and_then
      (print_exception_infos (codes "Fast Interrupt") false false regs
        (scheduler_begin_exception regs k))
      (λ _. end_thread)

unfoldable pub handle_undefined_instruction : SavedRegisters → Cmd (Unit {0})
handle_undefined_instruction regs k =
    and_then
      (print_exception_infos (codes "Undefined Instruction") false false regs
        (scheduler_begin_exception regs k))
      (λ _. end_thread)

unfoldable pub handle_svc : Host → SavedRegisters → Cmd (Unit {0})
handle_svc host = svc_by_mode (handle_syscall host)

unfoldable pub handle_prefetch_abort : SavedRegisters → Cmd (Unit {0})
handle_prefetch_abort regs k =
    and_then
      (print_exception_infos (codes "Prefetch Abort") false true regs
        (scheduler_begin_exception regs k))
      (λ _. end_thread)

unfoldable pub handle_data_abort : SavedRegisters → Cmd (Unit {0})
handle_data_abort regs k =
    and_then
      (print_exception_infos (codes "Data Abort") true false regs
        (scheduler_begin_exception regs k))
      (λ _. end_thread)
