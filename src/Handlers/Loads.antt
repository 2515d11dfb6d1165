-- ===== src/Handlers/Loads.antt =====
-- kernel/handlers.c: what user code goes on with behind a system call or a fault.
use betriebssysteme.Common.{
  ℕ, zero, suc, ◌<◌, ◌≡◌, ◌≢◌, ◌⊎◌, inl, inr, arith, refl, Option, none, some, leb, ==_iff,
  Bool-cases,
}
use betriebssysteme.Cpu.{cpu_mode_usr, psr_mode, read_spsr}
use betriebssysteme.Handlers.{handle_svc}
use betriebssysteme.Handlers.Kept.{Ends}
use betriebssysteme.Handlers.Call.{unknown_done}
use betriebssysteme.Handlers.User.{Fault, handle_fault, IsDescribed, fault_done}
use betriebssysteme.Kernel.{Kernel}
use betriebssysteme.RingBuffer.{RingBuff, buff_is_empty, buff_getc}
use betriebssysteme.Scheduler.Create.{thread_create-either}
use betriebssysteme.Scheduler.{
  create_within, find_free_thread_id, scheduler_begin_exception, make_thread,
  scheduler_prepare_svc_return,
}
use betriebssysteme.Scheduler.Loads.{IsLoaded, terminate-IsLoaded, sleep-IsLoaded, wait-IsLoaded}
use betriebssysteme.Syscalls.{
  Host, handle_syscall, svc_handlers, sys_exit, sys_create_thread, sys_getc, sys_putc, sys_sleep,
}
use betriebssysteme.Thread.{Layout, SavedRegisters}
use betriebssysteme.Uart.{uart_user_getc, return_char, uart_putc}

-- The caller of a system call runs on, with its registers but for the result in `r0`.
pub record ReturnsTo (k k' : Kernel) : Type 0 where
  pub running : k'.running ≡ k.running
  pub cpu : k'.cpu ≡ k.cpu
  pub frame : let f : SavedRegisters = k.frame in k'.frame ≡ record f { r0 = k'.frame.r0 }

abbrev pub Answers : Kernel → Kernel → Type 0
Answers k k' = ReturnsTo k k' ⊎ IsLoaded k'

return_char-Answers : (o : Option (ℕ × RingBuff)) (k : Kernel) → Ends (Answers k) (return_char o k)
unfolding return_char scheduler_prepare_svc_return
return_char-Answers none k = tt
return_char-Answers (some (c, b)) k = inl (record { running = refl; cpu = refl; frame = refl })

user_getc-Answers : (k : Kernel) → Ends (Answers k) (uart_user_getc k)
unfolding uart_user_getc
user_getc-Answers k = elim (Bool-cases (buff_is_empty k.uart_ringbuffer)) [
  | inl e ↦ rw e (inr (wait-IsLoaded _ k))
  | inr e ↦ rw e (return_char-Answers (buff_getc k.uart_ringbuffer) k)
]

create-ReturnsTo :
    (layout : Layout) (fn arg size : ℕ) (free : Option ℕ) (k : Kernel)
    → ReturnsTo k (create_within layout fn arg size free k)
unfolding create_within
create-ReturnsTo layout fn arg size none k = record { running = refl; cpu = refl; frame = refl }
create-ReturnsTo layout fn arg size (some t) k = record { running = refl; cpu = refl; frame = refl }

module _ (host : Host) (regs : SavedRegisters) (k : Kernel) where
  known_call : (n : ℕ) → n < 5 → Ends (Answers k) (svc_handlers host n regs k)
  unfolding svc_handlers sys_exit sys_create_thread sys_getc sys_putc sys_sleep uart_putc
      make_thread
  known_call zero lt = inr (terminate-IsLoaded k)
  known_call (suc zero) lt =
      thread_create-either host.layout regs.r1 regs.r2 regs.r3 k (Ends (Answers k)) tt
        (inl (create-ReturnsTo host.layout regs.r1 regs.r2 regs.r3 (find_free_thread_id k) k))
  known_call (suc (suc zero)) lt = user_getc-Answers k
  known_call (suc (suc (suc zero))) lt = inl (record { running = refl; cpu = refl; frame = refl })
  known_call (suc (suc (suc (suc zero)))) lt = inr (sleep-IsLoaded regs.r1 k)
  known_call (suc (suc (suc (suc (suc n))))) lt = absurd (omega arith)

  syscall-Answers : regs.r0 ≢ 5 → Ends (Answers k) (handle_syscall host regs k)
  unfolding handle_syscall
  syscall-Answers other = elim (Bool-cases (leb 6 regs.r0)) [
    | inl e ↦ rw (unknown_done host regs k (ground arith)) (inr (terminate-IsLoaded _))
    | inr e ↦ rw e (known_call regs.r0 (ground arith))
  ]

-- A system call returns to its caller, or another thread is loaded.
pub svc-Answers :
    (host : Host) (regs : SavedRegisters) (k : Kernel)
    → regs.r0 ≢ 5
    → psr_mode (read_spsr k.cpu) ≡ cpu_mode_usr
    → Ends (Answers (scheduler_begin_exception regs k)) (handle_svc host regs k)
unfolding handle_svc scheduler_begin_exception
svc-Answers host regs k other mode =
    rw ((==_iff _ _).1 mode) (syscall-Answers host regs (scheduler_begin_exception regs k) other)

-- After a fault another thread is loaded.
pub fault-Loads :
    (f : Fault) (regs : SavedRegisters) (k : Kernel)
    → psr_mode (read_spsr k.cpu) ≡ cpu_mode_usr
    → IsDescribed f k.cpu
    → Ends IsLoaded (handle_fault f regs k)
fault-Loads f regs k mode known = rw (fault_done regs k f mode known) (terminate-IsLoaded _)
