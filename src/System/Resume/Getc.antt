-- ===== src/System/Resume/Getc.antt =====
-- What a thread that waited for a character goes on with.
use mathlib.Core.Path.{subst}
use betriebssysteme.Common.{
  ℕ, ◌^◌, ◌<◌, ◌≡◌, ◌≢◌, inl, inr, arith, refl, sym, ap, ◌∙◌, List, [], ◌∷◌, has, has-append, ◌∈◌,
  ==_iff, Bool-cases, ◌++◌,
}
use betriebssysteme.Cpu.{cpu_mode_usr, psr_mode, read_spsr, bank_of_mode, usr}
use betriebssysteme.Handlers.{handle_svc}
use betriebssysteme.Kernel.{Kernel, ok, uart_wait_queue}
use betriebssysteme.RingBuffer.{buff_is_empty}
use betriebssysteme.Scheduler.{
  scheduler_begin_exception, scheduler_wait_running_from_irq, scheduler_prepare_svc_return,
  find_free_thread_id,
}
use betriebssysteme.Scheduler.Contexts.{context, program}
use betriebssysteme.Scheduler.Loads.{goes_on, IsLoaded, IsLoaded-goes_on, wait-saved}
use betriebssysteme.Scheduler.Spec
use betriebssysteme.Scheduler.Spec.{Queues}
use betriebssysteme.Syscalls.{Host, handle_syscall, svc_handlers, sys_getc}
use betriebssysteme.Syscalls.Spec.{perform}
use betriebssysteme.System.{
  Exception, call, handle, IsAllowed, Reachable, return_from, but_banked, returns_from,
}
use betriebssysteme.System.Characters.{given_by, given_in, after_all}
use betriebssysteme.Uart.Given.{Gifts, given_to}
use betriebssysteme.System.Asks.{Asks, Asks-not_running, runs-HasChar, trace-Asks}
use betriebssysteme.System.Progress.{Trace, RunsIn, RunsIn-now}
use betriebssysteme.System.Reach.{after, final, handled-IsServed, Reachable-IsServed}
use betriebssysteme.System.Resume.{handled-IsLoaded, IsUserContext, interrupted-IsUserContext}
use betriebssysteme.System.Waits.{dispatch-wait}
use betriebssysteme.Thread.{ThreadPtr, ThreadContext, SavedRegisters, exception_return}
use betriebssysteme.Uart.{uart_user_getc, return_char}
use betriebssysteme.Uart.Ask.{getc-more}
use betriebssysteme.Uart.Spec.{Inbox, IsServed, ask_from}

pub getc_done :
    (host : Host) (regs : SavedRegisters) (k : Kernel)
    → psr_mode (read_spsr k.cpu) ≡ cpu_mode_usr
    → regs.r0 ≡ 2
    → handle_svc host regs k ≡ uart_user_getc (scheduler_begin_exception regs k)
unfolding handle_svc handle_syscall svc_handlers sys_getc scheduler_begin_exception
getc_done host regs k mode e = rw ((==_iff _ _).1 mode, e) refl

-- A call that gives the processor away has found the buffer empty, and the caller waits.
getc_waits :
    (k k1 : Kernel)
    → uart_user_getc k ≡ ok tt k1
    → k1.running ≢ k.running
    → scheduler_wait_running_from_irq uart_wait_queue k ≡ k1
unfolding uart_user_getc return_char scheduler_prepare_svc_return
getc_waits k k1 done ne = elim (Bool-cases (buff_is_empty k.uart_ringbuffer)) [
  | inl e ↦ let done' = rw e at done in ap (final k) done'
  | inr e ↦
      let (c, b, get) = getc-more k.uart_ringbuffer e in
      let done' = rw (e, get) at done in
      absurd (ne (ap (λ (x : Kernel). x.running) (ap (final k) (sym done'))))
]

asked-waits :
    (q : List ℕ) (i : Inbox) (k1 : Kernel)
    → IsServed k1 (ask_from q i)
    → k1.running ≢ i.queues.current
    → i.queues.current ∈ (ask_from q i).queues.wait
unfolding Spec.wait_current
asked-waits [] i k1 v ne =
    ap (has i.queues.current) (dispatch-wait _)
    ∙ has-append i.queues.current i.queues.wait (i.queues.current ∷ [])
    ∙ ground arith
asked-waits (c ∷ q) i k1 v ne = absurd (ne v.scheduled.same)

-- The registers with a character in `r0`.
abbrev pub registers_with_char : ℕ → ThreadContext → ThreadContext
registers_with_char c context = record context { r0 = c }

-- A thread that gets the processor with a character.
resumed :
    (host : Host) (gs : Gifts) (t : ThreadPtr) (p : ThreadContext × ℕ) (k2 : Kernel) (j : Inbox)
    → IsServed k2 j
    → (e : Exception) (regs : SavedRegisters) (k3 : Kernel)
    → psr_mode (read_spsr k2.cpu) ≡ cpu_mode_usr
    → IsAllowed e regs k2
    → handle e host regs k2 ≡ ok tt k3
    → Asks gs t p k2 j
    → k3.running ≡ t
    → (x : ThreadContext) → p.0 ≡ x
    → IsUserContext x
    → (c : ℕ) × (c < 256)
      × (given_to t (gs ++ given_by e regs k2 j) ≡ c ∷ [])
      × (goes_on k3 ≡ registers_with_char c x)
resumed host gs t p k2 j w e regs k3 mode allowed done asks turn x same u =
    let off : t ≢ k2.running =
      Asks-not_running gs t p k2 j w host e regs k3 mode allowed done asks in
    let loaded : IsLoaded k3 =
      handled-IsLoaded host e regs k2 k3 j w mode allowed done (λ y. off (sym turn ∙ y)) in
    let (c, low, given, got) =
      runs-HasChar gs t p k2 j w host e regs k3 mode allowed done asks turn in
    let now : context k3 k3.running ≡ registers_with_char c x =
      ap (context k3) turn
      ∙ ap (λ (q : ThreadContext × ℕ). q.0) got
      ∙ ap (registers_with_char c) same in
    (
      c,
      low,
      given,
      IsLoaded-goes_on k3 usr loaded
            (ap (λ (y : ThreadContext). bank_of_mode (psr_mode y.cpsr)) now ∙ u.mode)
            (subst (λ (y : ThreadContext). y.pc < 2 ^ 32) (sym now) u.word)
          ∙ now,
    )

-- A thread that calls `sys_getc` and has to wait goes on behind the call, whenever an exception
-- gives it the processor again, with a character in its `r0` and otherwise with the registers that
-- it made the call with, whatever exceptions that `IsAllowed` lets pass have come in between. It
-- is the one character that is given to the thread from the call on. Behind a FIQ, whose mode has
-- `r8` to `r12` of its own, these five are those of the program that it interrupted.
pub getc_resumes :
    (host : Host) (n : ℕ) (k k1 k2 k3 : Kernel) (regs : SavedRegisters)
    → Reachable host k
    → psr_mode (read_spsr k.cpu) ≡ cpu_mode_usr
    → k.running < 32
    → regs.r0 ≡ 2
    → handle_svc host regs k ≡ ok tt k1
    → (r : Trace host n k1 k2) → (RunsIn k.running r → ⊥)
    → (e : Exception) (regs' interrupted : SavedRegisters)
    → psr_mode (read_spsr k2.cpu) ≡ cpu_mode_usr
    → IsAllowed e regs' k2
    → handle e host regs' k2 ≡ ok tt k3
    → k3.running ≡ k.running
    → (i : Inbox) × IsServed k1 i
      × (c : ℕ) × (c < 256)
      × (given_to k.running (given_in r i ++ given_by e regs' k2 (after_all r i)) ≡ c ∷ [])
      × (return_from e interrupted k3.frame k3.cpu
          ≡ but_banked e interrupted (registers_with_char c (exception_return regs k.cpu)))
unfolding scheduler_begin_exception
getc_resumes host n k k1 k2 k3 regs reachable mode user two done r never e regs' interrupted mode'
      allowed done' turn =
    let (i, v) = Reachable-IsServed host reachable in
    let away : k1.running ≢ k.running = λ x. never (RunsIn-now k.running r x) in
    let v1 : IsServed k1 (after call regs k i) =
      handled-IsServed host call regs k k1 i v mode (user, omega arith, λ e. omega arith) done in
    let same : scheduler_wait_running_from_irq uart_wait_queue (scheduler_begin_exception regs k)
        ≡ k1 =
      getc_waits (scheduler_begin_exception regs k) k1 (sym (getc_done host regs k mode two) ∙ done)
        away in
    let saved : context k1 k.running ≡ exception_return regs k.cpu =
      subst (λ x. context x k.running ≡ exception_return regs k.cpu) same
        (wait-saved uart_wait_queue (scheduler_begin_exception regs k)) in
    let queued : k.running ∈ (after call regs k i).queues.wait =
      subst (λ t. t ∈ (after call regs k i).queues.wait) (sym v.scheduled.same)
        (asked_at i k1 regs.r0 two v1 (λ x. away (x ∙ sym v.scheduled.same))) in
    let (w, asks) =
      trace-Asks host k.running (program k1 k.running) [] r (after call regs k i) v1
        (inl (queued, refl, refl)) never in
    let (c, low, given, goes) =
      resumed host (given_in r (after call regs k i)) k.running (program k1 k.running) k2
        (after_all r (after call regs k i)) w e regs' k3 mode' allowed done' asks turn
        (exception_return regs k.cpu) saved (interrupted-IsUserContext regs k.cpu mode) in
    (
      after call regs k i,
      v1,
      c,
      low,
      given,
      returns_from e interrupted k3.frame k3.cpu
          (registers_with_char c (exception_return regs k.cpu)) goes,
    )
  where
    asked_at :
        (i : Inbox) (k1 : Kernel) (number : ℕ)
        → number ≡ 2
        → IsServed k1 (perform number (find_free_thread_id k) i)
        → k1.running ≢ i.queues.current
        → i.queues.current ∈ (perform number (find_free_thread_id k) i).queues.wait
    asked_at i k1 number e v ne =
        let v' : IsServed k1 (ask_from i.stored i) = rw e at v in
        rw e (asked-waits i.stored i k1 v' ne)
