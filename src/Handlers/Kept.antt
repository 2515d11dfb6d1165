-- ===== src/Handlers/Kept.antt =====
-- kernel/handlers.c: what the exceptions that other threads cause leave of a thread.
use betriebssysteme.Common.{
  ℕ, zero, suc, ◌<◌, ◌≡◌, ◌≢◌, arith, ◌∙◌, Option, none, some, leb, ==_iff, inl, inr, Bool-cases,
  List,
}
use betriebssysteme.Cpu.{cpu_mode_usr, psr_mode, read_spsr}
use betriebssysteme.Handlers.{handle_svc}
use betriebssysteme.Handlers.Call.{unknown_done, unknown_report}
use betriebssysteme.Handlers.User.{Fault, handle_fault, IsDescribed, fault_done, fault_report}
use betriebssysteme.Kernel.{Kernel, Run, ok, halted, undefined, out_of_fuel, send}
use betriebssysteme.RingBuffer.{RingBuff, buff_is_empty, buff_getc}
use betriebssysteme.Scheduler.Create.{thread_create-either}
use betriebssysteme.Scheduler.{
  scheduler_begin_exception, make_thread, scheduler_prepare_svc_return,
  scheduler_wait_running_from_irq, scheduler_sleep_running_from_irq,
  scheduler_thread_terminate_running_from_irq,
}
use betriebssysteme.Syscalls.{
  Host, handle_syscall, svc_handlers, sys_exit, sys_create_thread, sys_getc, sys_putc, sys_sleep,
}
use betriebssysteme.Thread.{ThreadPtr, SavedRegisters, Layout, terminated}
use betriebssysteme.Uart.{uart_user_getc, return_char, uart_putc}
use mathlib.Core.Path.{subst}
use betriebssysteme.LinkedList.{Ptr}

-- A handler that returns ends in a state with a property.
abbrev pub Ends : (Kernel → Type 0) → Run (Unit {0}) → Type 0
Ends P (ok _ k) = P k
Ends P (halted k) = Unit {0}
Ends P undefined = Unit {0}
Ends P out_of_fuel = Unit {0}

-- It leaves something as it was.
abbrev pub Leaves : {X : Type 0} → (Kernel → X) → X → Run (Unit {0}) → Type 0
Leaves observe x = Ends (λ k. observe k ≡ x)

-- What is seen of a thread, if the operations of the scheduler change it at most for the thread that
-- runs or is created.
pub record IsKept {X : Type 0} (t : ThreadPtr) (observe : Kernel → X) : Type 0 where
  pub begins :
      (regs : SavedRegisters) (k : Kernel) → observe (record k { frame = regs }) ≡ observe k
  pub sends : (cs : List ℕ) (k : Kernel) → observe (send cs k) ≡ observe k
  pub stores : (b : RingBuff) (k : Kernel) → observe (record k { uart_ringbuffer = b }) ≡ observe k
  pub terminates :
      (k : Kernel) → observe (scheduler_thread_terminate_running_from_irq k) ≡ observe k
  pub waits :
      (q : Ptr) (k : Kernel)
      → t ≢ k.running
      → observe (scheduler_wait_running_from_irq q k) ≡ observe k
  pub sleeps :
      (cycles : ℕ) (k : Kernel)
      → t ≢ k.running
      → observe (scheduler_sleep_running_from_irq cycles k) ≡ observe k
  pub creates :
      (layout : Layout) (fn arg size : ℕ) (k : Kernel)
      → (k.threads t).status ≢ terminated
      → observe (make_thread layout fn arg size k) ≡ observe k

module _ {X : Type 0} (t : ThreadPtr) (observe : Kernel → X) (kept : IsKept t observe) where
  return_char-Leaves :
      (o : Option (ℕ × RingBuff)) (k : Kernel) → Leaves observe (observe k) (return_char o k)
  unfolding return_char scheduler_prepare_svc_return
  return_char-Leaves none k = tt
  return_char-Leaves (some (c, b)) k = kept.begins _ _ ∙ kept.stores b k

  user_getc-Leaves : (k : Kernel) → t ≢ k.running → Leaves observe (observe k) (uart_user_getc k)
  unfolding uart_user_getc
  user_getc-Leaves k ne = elim (Bool-cases (buff_is_empty k.uart_ringbuffer)) [
    | inl e ↦ rw e (kept.waits _ k ne)
    | inr e ↦ rw e (return_char-Leaves (buff_getc k.uart_ringbuffer) k)
  ]

  module _ (host : Host) (regs : SavedRegisters) (k : Kernel) (ne : t ≢ k.running)
      (alive : (k.threads t).status ≢ terminated) where
    known_call : (n : ℕ) → n < 5 → Leaves observe (observe k) (svc_handlers host n regs k)
    unfolding svc_handlers sys_exit sys_create_thread sys_getc sys_putc sys_sleep uart_putc
    known_call zero lt = kept.terminates k
    known_call (suc zero) lt =
        thread_create-either host.layout regs.r1 regs.r2 regs.r3 k (Leaves observe (observe k)) tt
          (kept.creates host.layout regs.r1 regs.r2 regs.r3 k alive)
    known_call (suc (suc zero)) lt = user_getc-Leaves k ne
    known_call (suc (suc (suc zero))) lt = kept.sends _ k
    known_call (suc (suc (suc (suc zero)))) lt = kept.sleeps regs.r1 k ne
    known_call (suc (suc (suc (suc (suc n))))) lt = absurd (omega arith)

    syscall-Leaves : regs.r0 ≢ 5 → Leaves observe (observe k) (handle_syscall host regs k)
    unfolding handle_syscall
    syscall-Leaves other = elim (Bool-cases (leb 6 regs.r0)) [
      | inl e ↦
          let cs : List ℕ = unknown_report regs k.cpu in
          rw (unknown_done host regs k (ground arith))
            (kept.terminates (send cs k) ∙ kept.sends cs k)
      | inr e ↦ rw e (known_call regs.r0 (ground arith))
    ]

  -- A system call of another thread leaves it as it is.
  pub svc-Leaves :
      (host : Host) (regs : SavedRegisters) (k : Kernel)
      → t ≢ k.running
      → (k.threads t).status ≢ terminated
      → regs.r0 ≢ 5
      → psr_mode (read_spsr k.cpu) ≡ cpu_mode_usr
      → Leaves observe (observe k) (handle_svc host regs k)
  unfolding handle_svc scheduler_begin_exception
  svc-Leaves host regs k ne alive other mode =
      let k0 : Kernel = scheduler_begin_exception regs k in
      subst (λ x. Leaves observe x (handle_svc host regs k)) (kept.begins regs k)
        (rw ((==_iff _ _).1 mode) (syscall-Leaves host regs k0 ne alive other))

  -- So does a fault.
  pub fault-Leaves :
      (f : Fault) (regs : SavedRegisters) (k : Kernel)
      → psr_mode (read_spsr k.cpu) ≡ cpu_mode_usr
      → IsDescribed f k.cpu
      → Leaves observe (observe k) (handle_fault f regs k)
  unfolding scheduler_begin_exception
  fault-Leaves f regs k mode known =
      let k0 : Kernel = scheduler_begin_exception regs k in
      let cs : List ℕ = fault_report f regs k.cpu in
      rw (fault_done regs k f mode known)
        (kept.terminates (send cs k0) ∙ kept.sends cs k0 ∙ kept.begins regs k)
