-- ===== src/Handlers/Call.antt =====
-- kernel/syscalls.c, behind the entry of a supervisor call: each number, and the call that stops the kernel.
use betriebssysteme.Common.{
  ℕ, zero, suc, ◌<◌, ◌≤◌, ◌≡◌, arith, refl, true, false, List, [], ◌∷◌, leb, ==_of_ne,
}
use betriebssysteme.Handlers.Served.{
  IsServed-send, IsServed-putc, terminate-IsServed, sleep-IsServed, create-IsServed, Asked-IsServed,
}
use betriebssysteme.Common.Words.{codes}
use betriebssysteme.ExceptionPrint.Report.Defined.{infos_sent, report}
use betriebssysteme.Cpu.{Cpu}
use betriebssysteme.Kernel.{send, Kernel, Run, ok, halted}
use betriebssysteme.Scheduler.Create.{thread_create-fits}
use betriebssysteme.Scheduler.{
  find_free_thread_id, scheduler_begin_exception, scheduler_thread_terminate_running_from_irq,
}
use betriebssysteme.Scheduler.Spec
use betriebssysteme.Syscalls.{
  Host, stop, handle_syscall, svc_handlers, sys_exit, sys_create_thread, sys_getc, sys_putc,
  sys_sleep, sys_kernel_exit, svc_of_kernel,
}
use betriebssysteme.Syscalls.Spec.{perform, with_queues}
use betriebssysteme.Thread.{SavedRegisters, thread_stack_size}
use betriebssysteme.Uart.{uart_putc, uart_user_getc}
use betriebssysteme.Uart.Ask.{user_getc_refines}
use betriebssysteme.Uart.Spec.{Inbox, IsServed}

-- The outcome of a handler that returns.
abbrev pub Returns : Run (Unit {0}) → Inbox → Type 0
Returns r i = (k' : Kernel) × (r ≡ ok tt k') × IsServed k' i

module _ (host : Host) (regs : SavedRegisters) (k : Kernel) (i : Inbox) (v : IsServed k i) where
  module _ (user : i.queues.current < 32) where
    known_call :
        (n : ℕ)
        → n < 5
        → (n ≡ 1 → regs.r3 ≤ thread_stack_size)
        → Returns (svc_handlers host n regs k) (perform n (find_free_thread_id k) i)
    unfolding svc_handlers sys_exit sys_create_thread sys_getc sys_putc sys_sleep
    known_call zero lt fits = (_, refl, terminate-IsServed k i v)
    known_call (suc zero) lt fits = (
      _,
      thread_create-fits host.layout regs.r1 regs.r2 regs.r3 k (fits refl),
      create-IsServed host regs.r1 regs.r2 regs.r3 k i v,
    )
    known_call (suc (suc zero)) lt fits =
        Asked-IsServed k i i.stored (uart_user_getc k) (user_getc_refines k i v user)
    known_call (suc (suc (suc zero))) lt fits = (_, refl, IsServed-putc regs.r1 k i v)
    known_call (suc (suc (suc (suc zero)))) lt fits = (_, refl, sleep-IsServed regs.r1 k i user v)
    known_call (suc (suc (suc (suc (suc n))))) lt fits = absurd (omega arith)

    pub known_number :
        regs.r0 < 5
        → (regs.r0 ≡ 1 → regs.r3 ≤ thread_stack_size)
        → Returns (handle_syscall host regs k) (perform regs.r0 (find_free_thread_id k) i)
    unfolding handle_syscall
    known_number lt fits =
        let below : leb 6 regs.r0 ≡ false = ground arith in rw below (known_call regs.r0 lt fits)

  unknown_number :
      (n : ℕ) → 5 < n → perform n (find_free_thread_id k) i ≡ with_queues Spec.terminate i
  unknown_number n big =
      rw
        (
          ==_of_ne n 1 (omega arith),
          ==_of_ne n 2 (omega arith),
          ==_of_ne n 3 (omega arith),
          ==_of_ne n 4 (omega arith),
        )
        refl

-- The report of an unknown number.
abbrev pub unknown_report : SavedRegisters → Cpu → List ℕ
unknown_report = report (codes "Unknown Supervisor Call") false false

-- An unknown number is reported and ends the thread.
pub unknown_done :
    (host : Host) (regs : SavedRegisters) (k : Kernel)
    → 5 < regs.r0
    → handle_syscall host regs k
      ≡ ok tt (scheduler_thread_terminate_running_from_irq (send (unknown_report regs k.cpu) k))
unfolding handle_syscall
unknown_done host regs k big =
    let above : leb 6 regs.r0 ≡ true = ground arith in
    rw (above, infos_sent (codes "Unknown Supervisor Call") false false regs k (λ e. cc) (λ e. cc))
      refl

pub unknown_call :
    (host : Host) (regs : SavedRegisters) (k : Kernel) (i : Inbox)
    → IsServed k i
    → 5 < regs.r0
    → Returns (handle_syscall host regs k) (perform regs.r0 (find_free_thread_id k) i)
unknown_call host regs k i v big =
    let cs : List ℕ = unknown_report regs k.cpu in
    rw (unknown_number host regs k i v regs.r0 big)
      (_, unknown_done host regs k big, terminate-IsServed (send cs k) i (IsServed-send cs k i v))

pub last_call :
    (host : Host) (regs : SavedRegisters) (k : Kernel)
    → regs.r0 ≡ 5
    → handle_syscall host regs k ≡ sys_kernel_exit host regs k
unfolding handle_syscall svc_handlers
last_call host regs k e =
    let below : leb 6 regs.r0 ≡ false = ground arith in
    rw
      (
        below,
        ==_of_ne regs.r0 0 (omega arith),
        ==_of_ne regs.r0 1 (omega arith),
        ==_of_ne regs.r0 2 (omega arith),
        ==_of_ne regs.r0 3 (omega arith),
        ==_of_ne regs.r0 4 (omega arith),
      )
      refl

-- The report of a supervisor call that the kernel's own code makes.
abbrev pub svc_report : SavedRegisters → Cpu → List ℕ
svc_report = report (codes "Supervisor Call") false false

-- Such a call stops the kernel.
pub svc_of_kernel_halts :
    (regs : SavedRegisters) (k : Kernel)
    → svc_of_kernel regs k
      ≡ halted (send (4 ∷ []) (send (svc_report regs k.cpu) (scheduler_begin_exception regs k)))
unfolding svc_of_kernel stop uart_putc scheduler_begin_exception
svc_of_kernel_halts regs k =
    rw
      (infos_sent (codes "Supervisor Call") false false regs (scheduler_begin_exception regs k)
        (λ e. cc) (λ e. cc))
      refl
