-- ===== src/System.antt =====
-- The kernel at work: exceptions of user code, one after the other, from the boot in kernel/start.c
-- on. Between two exceptions the user code and the devices change what belongs to them.
pub mod Started
pub mod Reach
pub mod Turns
pub mod Rests
pub mod Progress
pub mod Sleepers
pub mod Preserved
pub mod Waits
pub mod Characters
pub mod Order
pub mod Received
pub mod Output
pub mod Vectors
pub mod Answered
pub mod Asks
pub mod Resume
use betriebssysteme.Common.{ℕ, ◌≤◌, ◌<◌, ◌≡◌, ◌≢◌, true, refl, ap, ◌∙◌}
use betriebssysteme.Boot.{fresh_ring, start_kernel}
use betriebssysteme.Cpu.{Cpu, cpu_mode_usr, psr_mode, read_spsr}
use betriebssysteme.Handlers.{handle_irq, handle_svc}
use betriebssysteme.Handlers.User.{
  Fault, fiq, undefined_instruction, prefetch_abort, data_abort, handle_fault, IsDescribed,
}
use betriebssysteme.Kernel.{Kernel, Cmd, ok}
use betriebssysteme.Scheduler.Start.{IsBoot}
use betriebssysteme.Syscalls.{Host}
use betriebssysteme.Thread.{
  SavedRegisters, ThreadContext, thread_stack_size, exception_return, fiq_return,
}

pub data Exception : Type 0 where
  interrupt call : Exception
  fault : Fault → Exception

-- The vector table of arch/cpu/exceptions/ivt.S.
abbrev pub handle : Exception → Host → SavedRegisters → Cmd (Unit {0})
handle interrupt host = handle_irq
handle call host = handle_svc host
handle (fault f) host = handle_fault f

-- What each exception returns to, with the registers of the program that it interrupted.
abbrev pub return_from : Exception → SavedRegisters → SavedRegisters → Cpu → ThreadContext
return_from interrupt interrupted = exception_return
return_from call interrupted = exception_return
return_from (fault fiq) interrupted = fiq_return interrupted
return_from (fault undefined_instruction) interrupted = exception_return
return_from (fault prefetch_abort) interrupted = exception_return
return_from (fault data_abort) interrupted = exception_return

-- The registers that a thread should go on with, but behind a FIQ with `r8` to `r12` of the program
-- that it interrupted.
abbrev pub but_banked : Exception → SavedRegisters → ThreadContext → ThreadContext
but_banked interrupt interrupted c = c
but_banked call interrupted c = c
but_banked (fault fiq) interrupted c = record c {
  r8 = interrupted.r8;
  r9 = interrupted.r9;
  r10 = interrupted.r10;
  r11 = interrupted.r11;
  r12 = interrupted.r12;
}
but_banked (fault undefined_instruction) interrupted c = c
but_banked (fault prefetch_abort) interrupted c = c
but_banked (fault data_abort) interrupted c = c

return_from-banked :
    (e : Exception) (interrupted frame : SavedRegisters) (cpu : Cpu)
    → return_from e interrupted frame cpu ≡ but_banked e interrupted (exception_return frame cpu)
unfolding fiq_return
return_from-banked interrupt interrupted frame cpu = refl
return_from-banked call interrupted frame cpu = refl
return_from-banked (fault fiq) interrupted frame cpu = refl
return_from-banked (fault undefined_instruction) interrupted frame cpu = refl
return_from-banked (fault prefetch_abort) interrupted frame cpu = refl
return_from-banked (fault data_abort) interrupted frame cpu = refl

-- What the frame and the processor say, an exception returns to.
pub returns_from :
    (e : Exception) (interrupted frame : SavedRegisters) (cpu : Cpu) (c : ThreadContext)
    → exception_return frame cpu ≡ c
    → return_from e interrupted frame cpu ≡ but_banked e interrupted c
returns_from e interrupted frame cpu c same =
    return_from-banked e interrupted frame cpu ∙ ap (but_banked e interrupted) same

pub but_banked-sp :
    (e : Exception) (interrupted : SavedRegisters) (c : ThreadContext)
    → (but_banked e interrupted c).sp ≡ c.sp
but_banked-sp interrupt interrupted c = refl
but_banked-sp call interrupted c = refl
but_banked-sp (fault fiq) interrupted c = refl
but_banked-sp (fault undefined_instruction) interrupted c = refl
but_banked-sp (fault prefetch_abort) interrupted c = refl
but_banked-sp (fault data_abort) interrupted c = refl

-- A call comes from a thread of the table (the idle thread makes none), and is not the one that
-- stops the kernel; the argument of a new thread fits its stack, since else C leaves the kernel's
-- behaviour undefined. A fault has a status that the report can describe.
abbrev pub IsAllowed : Exception → SavedRegisters → Kernel → Type 0
IsAllowed interrupt regs k = Unit
IsAllowed call regs k =
    (k.running < 32) × (regs.r0 ≢ 5) × (regs.r0 ≡ 1 → regs.r3 ≤ thread_stack_size)
IsAllowed (fault f) regs k = IsDescribed f k.cpu

-- User code and devices leave the kernel's own data as they are.
pub record IsUserStep (k k' : Kernel) : Type 0 where
  pub threads : k'.threads ≡ k.threads
  pub running : k'.running ≡ k.running
  pub links : k'.links ≡ k.links
  pub ring : k'.uart_ringbuffer ≡ k.uart_ringbuffer
  pub on : k'.is_running ≡ k.is_running

pub data Reachable (host : Host) : Kernel → Type 0 where
  booted :
      (test_kernel : Kernel → Kernel) (k k' : Kernel) (user : ThreadContext)
      → ((j : Kernel) → IsUserStep j (test_kernel j))
      → IsBoot k
      → k.uart_ringbuffer ≡ fresh_ring
      → start_kernel host test_kernel k ≡ ok user k'
      → Reachable host k'
  user : (k k' : Kernel) → Reachable host k → IsUserStep k k' → Reachable host k'
  handled :
      (k k' : Kernel) (e : Exception) (regs : SavedRegisters)
      → Reachable host k
      → psr_mode (read_spsr k.cpu) ≡ cpu_mode_usr
      → IsAllowed e regs k
      → handle e host regs k ≡ ok tt k'
      → Reachable host k'
