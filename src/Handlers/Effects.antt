-- ===== src/Handlers/Effects.antt =====
-- kernel/syscalls.c, behind the entry of a supervisor call: what each number does besides the queues.
use mathlib.Core.Path.{subst}
use betriebssysteme.Common.{
  ℕ, zero, suc, Option, none, some, ◌<◌, ◌≤◌, ◌≡◌, ◌≢◌, arith, refl, sym, List, [], ◌∷◌, ◌++◌, ◌%◌,
  leb, Bool-cases, inl, inr, ==_iff, ==_refl,
}
use betriebssysteme.Common.Words.{codes}
use betriebssysteme.Cpu.{cpu_mode_usr, psr_mode, read_spsr}
use betriebssysteme.Handlers.{handle_svc}
use betriebssysteme.Handlers.Call.{unknown_report, unknown_done}
use betriebssysteme.Handlers.Kept.{Ends}
use betriebssysteme.Handlers.Served.{IsServed-begin}
use betriebssysteme.Handlers.User.{svc_refines}
use betriebssysteme.Kernel.{Kernel, Run, ok, send}
use betriebssysteme.Mem.{memcpy}
use betriebssysteme.Scheduler.Create.{thread_create-either}
use betriebssysteme.Scheduler.{
  find_free_thread_id, scheduler_begin_exception, create_within, make_thread, run_next_in_queue,
  scheduler_run_next, scheduler_replace_irq_context, scheduler_thread_terminate_running_from_irq,
}
use betriebssysteme.Scheduler.Contexts.{context}
use betriebssysteme.Scheduler.Counters.{counter-sleeps}
use betriebssysteme.Scheduler.Start.{first_registers}
use betriebssysteme.Scheduler.Wake.{counter}
use betriebssysteme.Syscalls.{
  Host, handle_syscall, svc_handlers, sys_exit, sys_create_thread, sys_getc, sys_putc, sys_sleep,
}
use betriebssysteme.Syscalls.Spec.{perform}
use betriebssysteme.Thread.{
  Layout, ThreadPtr, SavedRegisters, init_thread, initial_sp, thread_stack_size,
}
use betriebssysteme.Uart.{uart_putc, uart_user_getc}
use betriebssysteme.Uart.Ask.{Asked, user_getc_refines}
use betriebssysteme.Uart.Spec.{Inbox, IsServed}

-- A new thread has the function, and below its first stack pointer a copy of the argument; without a
-- free place in the table a message is sent.
abbrev pub Created : Layout → SavedRegisters → Option ThreadPtr → Kernel → Kernel → Type 0
Created layout regs none k k' = k'.uart.tx ≡ k.uart.tx ++ codes "Could not create thread.\n"
Created layout regs (some t) k k' =
    (context k' t ≡ first_registers layout t regs.r3)
    × ((k'.threads t).fn ≡ regs.r1)
    × (k'.memory ≡ memcpy (initial_sp (layout.stack t) regs.r3) regs.r2 regs.r3 k.memory)

-- The caller has the oldest character of the buffer in `r0`; from an empty buffer it gets none.
abbrev pub Got : SavedRegisters → List ℕ → Kernel → Type 0
Got regs [] k' = Unit
Got regs (c ∷ q) k' = k'.frame ≡ record regs { r0 = c }

-- What the call with a number does from one state to another.
abbrev pub Does : Layout → SavedRegisters → List ℕ → ℕ → Kernel → Kernel → Type 0
Does layout regs stored zero k k' = k'.uart.tx ≡ k.uart.tx
Does layout regs stored (suc zero) k k' = Created layout regs (find_free_thread_id k) k k'
Does layout regs stored (suc (suc zero)) k k' = Got regs stored k'
Does layout regs stored (suc (suc (suc zero))) k k' = k'.uart.tx ≡ k.uart.tx ++ regs.r1 % 256 ∷ []
Does layout regs stored (suc (suc (suc (suc zero)))) k k' = counter k' k.running ≡ regs.r1
Does layout regs stored (suc (suc (suc (suc (suc n))))) k k' =
    k'.uart.tx ≡ k.uart.tx ++ unknown_report regs k.cpu

pub create-Created :
    (layout : Layout) (regs : SavedRegisters) (free : Option ThreadPtr) (k : Kernel)
    → Created layout regs free k (create_within layout regs.r1 regs.r2 regs.r3 free k)
unfolding create_within init_thread
create-Created layout regs none k = refl
create-Created layout regs (some t) k = (rw (context, ==_refl t) refl, rw (==_refl t) refl, refl)

Asked-Got :
    (k : Kernel) (i : Inbox) (q : List ℕ) (r : Run (Unit {0}))
    → Asked k i q r
    → Ends (Got k.frame q) r
Asked-Got k i [] r (k', done, v) = subst (Ends (Got k.frame [])) (sym done) tt
Asked-Got k i (c ∷ q) r (k', done, v, frame, cpu) =
    subst (Ends (Got k.frame (c ∷ q))) (sym done) frame

terminate-silent :
    (k : Kernel) → (scheduler_thread_terminate_running_from_irq k).uart.tx ≡ k.uart.tx
unfolding scheduler_thread_terminate_running_from_irq run_next_in_queue scheduler_run_next
    scheduler_replace_irq_context
terminate-silent k = refl

module _ (host : Host) (regs : SavedRegisters) (k : Kernel) (i : Inbox) (v : IsServed k i)
    (user : i.queues.current < 32) (here : k.frame ≡ regs) where
  known_call :
      (n : ℕ) → n < 5 → Ends (Does host.layout regs i.stored n k) (svc_handlers host n regs k)
  unfolding svc_handlers sys_exit sys_create_thread sys_getc sys_putc sys_sleep uart_putc
      make_thread
  known_call zero lt = terminate-silent k
  known_call (suc zero) lt =
      thread_create-either host.layout regs.r1 regs.r2 regs.r3 k
        (Ends (Does host.layout regs i.stored 1 k)) tt
        (create-Created host.layout regs (find_free_thread_id k) k)
  known_call (suc (suc zero)) lt =
      subst (λ f. Ends (Got f i.stored) (uart_user_getc k)) here
        (Asked-Got k i i.stored (uart_user_getc k) (user_getc_refines k i v user))
  known_call (suc (suc (suc zero))) lt = refl
  known_call (suc (suc (suc (suc zero)))) lt = counter-sleeps regs.r1 k
  known_call (suc (suc (suc (suc (suc n))))) lt = absurd (omega arith)

  unknown-Does :
      (n : ℕ)
      → 5 < regs.r0
      → n ≡ regs.r0
      → Ends (Does host.layout regs i.stored n k) (handle_syscall host regs k)
  unknown-Does (suc (suc (suc (suc (suc n))))) big e =
      rw (unknown_done host regs k big) (terminate-silent (send (unknown_report regs k.cpu) k))
  unknown-Does zero big e = absurd (omega arith)
  unknown-Does (suc zero) big e = absurd (omega arith)
  unknown-Does (suc (suc zero)) big e = absurd (omega arith)
  unknown-Does (suc (suc (suc zero))) big e = absurd (omega arith)
  unknown-Does (suc (suc (suc (suc zero)))) big e = absurd (omega arith)

  syscall-Does :
      regs.r0 ≢ 5 → Ends (Does host.layout regs i.stored regs.r0 k) (handle_syscall host regs k)
  unfolding handle_syscall
  syscall-Does other = elim (Bool-cases (leb 6 regs.r0)) [
    | inl e ↦ unknown-Does regs.r0 (ground arith) refl
    | inr e ↦ rw e (known_call regs.r0 (ground arith))
  ]

-- The entry of the handler changes nothing of that.
Created-begin :
    (layout : Layout) (regs : SavedRegisters) (free : Option ThreadPtr) (k k' : Kernel)
    → Created layout regs free (scheduler_begin_exception regs k) k'
    → Created layout regs free k k'
unfolding scheduler_begin_exception
Created-begin layout regs none k k' d = d
Created-begin layout regs (some t) k k' d = d

Does-begin :
    (layout : Layout) (regs : SavedRegisters) (stored : List ℕ) (n : ℕ) (k k' : Kernel)
    → Does layout regs stored n (scheduler_begin_exception regs k) k'
    → Does layout regs stored n k k'
unfolding scheduler_begin_exception find_free_thread_id
Does-begin layout regs stored zero k k' d = d
Does-begin layout regs stored (suc zero) k k' d =
    Created-begin layout regs (find_free_thread_id k) k k' d
Does-begin layout regs stored (suc (suc zero)) k k' d = d
Does-begin layout regs stored (suc (suc (suc zero))) k k' d = d
Does-begin layout regs stored (suc (suc (suc (suc zero)))) k k' d = d
Does-begin layout regs stored (suc (suc (suc (suc (suc n))))) k k' d = d

-- A supervisor call of a user thread, for every number but that of `sys_kernel_exit`, returns and
-- does what the number asks for to the queues and the stored characters; and by its number it
-- makes a thread of the function, with a copy of the argument at its stack pointer, or sends the
-- message that there is no place, gives the caller the oldest stored character, sends the low byte
-- of the character to print, or sets the caller's counter to the cycles to sleep; an unknown
-- number is reported and ends the thread, as `sys_exit` does without a word. The condition is that
-- the argument of a new thread fits its stack.
pub svc_effects :
    (host : Host) (regs : SavedRegisters) (k : Kernel) (i : Inbox)
    → IsServed k i
    → i.queues.current < 32
    → psr_mode (read_spsr k.cpu) ≡ cpu_mode_usr
    → regs.r0 ≢ 5
    → (regs.r0 ≡ 1 → regs.r3 ≤ thread_stack_size)
    → (k' : Kernel) × (handle_svc host regs k ≡ ok tt k')
      × IsServed k' (perform regs.r0 (find_free_thread_id k) i)
      × Does host.layout regs i.stored regs.r0 k k'
unfolding handle_svc scheduler_begin_exception
svc_effects host regs k i v user mode other fits =
    let (k', done, v') = svc_refines host regs k i v user mode other fits in
    let k0 : Kernel = scheduler_begin_exception regs k in
    let does : Ends (Does host.layout regs i.stored regs.r0 k0) (handle_svc host regs k) =
      rw ((==_iff _ _).1 mode)
        (syscall-Does host regs k0 i (IsServed-begin regs k i v) user refl other) in
    let at_end : Does host.layout regs i.stored regs.r0 k0 k' =
      subst (Ends (Does host.layout regs i.stored regs.r0 k0)) done does in
    (k', done, v', Does-begin host.layout regs i.stored regs.r0 k k' at_end)
