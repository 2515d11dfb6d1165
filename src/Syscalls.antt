-- ===== src/Syscalls.antt =====
-- kernel/syscalls.c: the system calls, by the number in `r0`.
pub mod Spec
use betriebssysteme.Common.{ℕ, ◌*◌, ◌==◌, if◌then◌else◌, List, Bool, leb, true, false}
use betriebssysteme.Common.Words.{codes}
use Prim.Native.String.{String}
use betriebssysteme.Cpu.{
  Cpu, svc, set_bank, cpu_mode_svc, cpu_mode_usr, set_psr_mode, psr_mode, read_spsr,
}
use betriebssysteme.ExceptionPrint.Report.{print_exception_infos}
use betriebssysteme.Kernel.{and_then, step, Kernel, Cmd, ok, halted, send}
use betriebssysteme.Scheduler.{
  scheduler_begin_exception, scheduler_thread_create, scheduler_sleep_running_from_irq,
  scheduler_thread_terminate_running_from_irq,
}
use betriebssysteme.Thread.{Layout, SavedRegisters}
use betriebssysteme.Uart.{uart_putc, uart_user_getc}

-- What the model leaves open: the addresses that the linker decides, and the registers of the
-- kernel's own code.
pub record Host : Type 0 where
  pub layout : Layout
  pub kernel_registers : Kernel → SavedRegisters

abbrev pub num_syscalls : ℕ
num_syscalls = 6

unfoldable pub sys_exit : SavedRegisters → Cmd (Unit {0})
sys_exit regs k = ok tt (scheduler_thread_terminate_running_from_irq k)

unfoldable pub sys_create_thread : Host → SavedRegisters → Cmd (Unit {0})
sys_create_thread host regs = scheduler_thread_create host.layout regs.r1 regs.r2 regs.r3

unfoldable pub sys_sleep : SavedRegisters → Cmd (Unit {0})
sys_sleep regs k = ok tt (scheduler_sleep_running_from_irq regs.r1 k)

unfoldable pub sys_getc : SavedRegisters → Cmd (Unit {0})
sys_getc regs k = uart_user_getc k

unfoldable pub sys_putc : SavedRegisters → Cmd (Unit {0})
sys_putc regs k = ok tt (uart_putc regs.r1 k)

-- How an exception that kernel code caused ends, in each handler: an end-of-transmission character
-- and `while (1)`.
unfoldable pub stop : Cmd (Unit {0})
stop k = halted (uart_putc 4 k)

-- `handle_svc` for a supervisor call of the kernel's own code.
unfoldable pub svc_of_kernel : SavedRegisters → Cmd (Unit {0})
svc_of_kernel regs k =
    and_then
      (print_exception_infos (codes "Supervisor Call") false false regs
        (scheduler_begin_exception regs k))
      (λ _. stop)

-- `handle_svc`, with what it does for a call of user code.
abbrev pub svc_by_mode : (SavedRegisters → Cmd (Unit {0})) → SavedRegisters → Cmd (Unit {0})
svc_by_mode of_user regs k =
    if psr_mode (read_spsr (scheduler_begin_exception regs k).cpu) == cpu_mode_usr
    then of_user regs (scheduler_begin_exception regs k)
    else svc_of_kernel regs k

-- The instruction `svc` of code in SVC mode: the processor keeps its status in the SPSR.
unfoldable pub enter_svc : Cpu → Cpu
enter_svc cpu = record cpu {
  spsr = set_bank cpu.spsr svc cpu.cpsr;
  cpsr = set_psr_mode cpu_mode_svc cpu.cpsr;
}

-- A number from NUM_SYSCALLS on: `handle_syscall` reports it and ends the thread.
abbrev pub unknown_syscall : SavedRegisters → Cmd (Unit {0})
unknown_syscall regs k =
    and_then (print_exception_infos (codes "Unknown Supervisor Call") false false regs k)
      (λ _. step scheduler_thread_terminate_running_from_irq)

-- Its own supervisor call goes through `handle_svc` once more. For a call of user code that would be
-- one with the number 6, which `handle_syscall` does not know.
unfoldable pub sys_kernel_exit : Host → SavedRegisters → Cmd (Unit {0})
sys_kernel_exit host regs k =
    let frame : SavedRegisters = host.kernel_registers k in
    svc_by_mode unknown_syscall (record frame { r0 = 6 }) (record k { cpu = enter_svc k.cpu })

-- `svc_handlers[svc_num]`, for a number below NUM_SYSCALLS.
unfoldable pub svc_handlers : Host → ℕ → SavedRegisters → Cmd (Unit {0})
svc_handlers host svc_num =
    if svc_num == 0
    then sys_exit
    else if svc_num == 1
    then sys_create_thread host
    else if svc_num == 2
    then sys_getc
    else if svc_num == 3
    then sys_putc
    else if svc_num == 4
    then sys_sleep
    else sys_kernel_exit host

unfoldable pub handle_syscall : Host → SavedRegisters → Cmd (Unit {0})
handle_syscall host regs k =
    if leb num_syscalls regs.r0 then unknown_syscall regs k else svc_handlers host regs.r0 regs k
