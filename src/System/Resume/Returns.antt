-- ===== src/System/Resume/Returns.antt =====
-- System calls that return to their caller at once.
use mathlib.Core.Path.{subst}
use betriebssysteme.Common.{
  ℕ, Option, none, some, ◌<◌, ◌≤◌, ◌≡◌, ◌≢◌, ◌⊎◌, inl, inr, arith, refl, sym, ◌∙◌, List, [], ◌∷◌,
  ==_iff, ◌==◌, if◌then◌else◌,
}
use betriebssysteme.Cpu.{cpu_mode_usr, psr_mode, read_spsr}
use betriebssysteme.Handlers.{handle_svc}
use betriebssysteme.Handlers.Served.{IsServed-begin}
use betriebssysteme.Kernel.{Kernel, Run, ok}
use betriebssysteme.RingBuffer.Refine.{contents}
use betriebssysteme.Scheduler.{
  create_within, find_free_thread_id, scheduler_begin_exception, make_thread,
}
use betriebssysteme.Syscalls.{Host, handle_syscall, svc_handlers, sys_putc}
use betriebssysteme.System.{Reachable}
use betriebssysteme.System.Reach.{Reachable-IsServed}
use betriebssysteme.System.Resume.Calls.{svc_makes}
use betriebssysteme.System.Resume.Getc.{getc_done, registers_with_char}
use betriebssysteme.Thread.{
  Layout, ThreadContext, SavedRegisters, exception_return, thread_stack_size,
}
use betriebssysteme.Uart.{uart_user_getc, uart_putc}
use betriebssysteme.Uart.Ask.{user_getc_refines, Asked}
use betriebssysteme.Uart.Spec.{Inbox}

-- The calls that need not wait: to create a thread with an argument that fits its stack, to print a character, and to get one when the
-- buffer holds some.
abbrev pub IsPrompt : SavedRegisters → List ℕ → Type 0
IsPrompt regs stored =
    ((regs.r0 ≡ 1) × (regs.r3 ≤ thread_stack_size))
    ⊎ ((regs.r0 ≡ 3) ⊎ ((regs.r0 ≡ 2) × (stored ≢ [])))

-- What the caller goes on with: the call for a character has the oldest one in `r0`.
abbrev pub answered : ℕ → List ℕ → ThreadContext → ThreadContext
answered number [] x = x
answered number (c ∷ q) x = if number == 2 then registers_with_char c x else x

-- The handler returns to the caller with these registers.
abbrev pub Continues : Kernel → ThreadContext → Run (Unit {0}) → Type 0
Continues k x r =
    (k' : Kernel) × (r ≡ ok tt k')
    × (k'.running ≡ k.running)
    × (exception_return k'.frame k'.cpu ≡ x)

answered-other :
    (number : ℕ) (q : List ℕ) (x : ThreadContext) → number ≢ 2 → answered number q x ≡ x
answered-other number [] x ne = refl
answered-other number (c ∷ q) x ne = ground arith

created-Continues :
    (layout : Layout) (fn arg size : ℕ) (free : Option ℕ) (k : Kernel)
    → Continues k (exception_return k.frame k.cpu) (ok tt (create_within layout fn arg size free k))
unfolding create_within
created-Continues layout fn arg size none k = (_, refl, refl, refl)
created-Continues layout fn arg size (some t) k = (_, refl, refl, refl)

module _ (host : Host) (regs : SavedRegisters) (k : Kernel)
    (mode : psr_mode (read_spsr k.cpu) ≡ cpu_mode_usr) where
  create-Continues :
      regs.r0 ≡ 1
      → regs.r3 ≤ thread_stack_size
      → Continues k (exception_return regs k.cpu) (handle_svc host regs k)
  unfolding scheduler_begin_exception make_thread
  create-Continues e fits =
      let k0 : Kernel = scheduler_begin_exception regs k in
      subst (λ r. Continues k (exception_return regs k.cpu) r)
        (sym (svc_makes host regs k mode e fits))
        (created-Continues host.layout regs.r1 regs.r2 regs.r3 (find_free_thread_id k0) k0)

  putc-Continues : regs.r0 ≡ 3 → Continues k (exception_return regs k.cpu) (handle_svc host regs k)
  unfolding handle_svc handle_syscall svc_handlers sys_putc scheduler_begin_exception uart_putc
  putc-Continues e = rw ((==_iff _ _).1 mode, e) (_, refl, refl, refl)

  getc-Continues :
      (i : Inbox) (q : List ℕ)
      → i.queues.current ≡ k.running
      → q ≢ []
      → Asked
          (scheduler_begin_exception regs k)
          i
          q
          (uart_user_getc (scheduler_begin_exception regs k))
      → Continues k
          (answered 2 q (exception_return regs k.cpu))
          (uart_user_getc (scheduler_begin_exception regs k))
  unfolding scheduler_begin_exception exception_return
  getc-Continues i [] here ne asked = absurd (ne refl)
  getc-Continues i (c ∷ q) here ne (k', done, v, frame, cpu) =
      (k', done, v.scheduled.same ∙ here, rw (frame, cpu) refl)

-- A call to create a thread with an argument that fits its stack or to print a character, and one
-- to get a character when the buffer holds some, returns at once to the thread that makes it, with
-- the registers that it made the call with; in `r0` the last kind of call has the oldest character
-- of the buffer.
pub call_returns :
    (host : Host) (regs : SavedRegisters) (k : Kernel)
    → Reachable host k
    → psr_mode (read_spsr k.cpu) ≡ cpu_mode_usr
    → k.running < 32
    → IsPrompt regs (contents k.uart_ringbuffer)
    → Continues k
        (answered regs.r0 (contents k.uart_ringbuffer) (exception_return regs k.cpu))
        (handle_svc host regs k)
call_returns host regs k reachable mode user (inl (e, fits)) =
    rw (answered-other regs.r0 _ (exception_return regs k.cpu) (omega arith))
      (create-Continues host regs k mode e fits)
call_returns host regs k reachable mode user (inr (inl e)) =
    rw (answered-other regs.r0 _ (exception_return regs k.cpu) (omega arith))
      (putc-Continues host regs k mode e)
call_returns host regs k reachable mode user (inr (inr (e, some_left))) =
    let (i, v) = Reachable-IsServed host reachable in
    let k0 : Kernel = scheduler_begin_exception regs k in
    let x : ThreadContext = exception_return regs k.cpu in
    let stored : List ℕ = contents k.uart_ringbuffer in
    let asked : Asked k0 i stored (uart_user_getc k0) =
      subst (λ q. Asked k0 i q (uart_user_getc k0)) (sym v.holds)
        (user_getc_refines k0 i (IsServed-begin regs k i v) (omega (arith, v.scheduled.same))) in
    subst (λ n. Continues k (answered n stored x) (handle_svc host regs k)) (sym e)
      (subst (λ r. Continues k (answered 2 stored x) r) (sym (getc_done host regs k mode e))
        (getc-Continues host regs k mode i stored (sym v.scheduled.same) some_left asked))
