-- ===== src/System/Resume.antt =====
-- A thread that is taken from the processor goes on, when it runs again, as if nothing had happened.
pub mod Calls
pub mod Getc
pub mod Returns
pub mod Argument
use mathlib.Core.Path.{subst}
use betriebssysteme.Boot.{start_kernel}
use betriebssysteme.Common.{
  ℕ, ◌%◌, ◌<◌, ◌^◌, ◌≡◌, ◌≢◌, ◌⊎◌, inl, inr, arith, refl, sym, ap, ◌∙◌, some, true, false, List, [],
  ◌∷◌, ◌++◌, has, has-append, ◌∈◌, ◌==◌, ==_iff, ==_of_ne, Bool-cases,
}
use betriebssysteme.Common.Words.{test_bit, add_u32}
use betriebssysteme.Cpu.{Cpu, usr, cpu_mode_usr, psr_mode, read_spsr, bank_of_mode}
use betriebssysteme.Handlers.{handle_irq, handle_svc}
use betriebssysteme.Handlers.Contexts.{irq-Changes}
use betriebssysteme.Handlers.Kept.{Ends}
use betriebssysteme.Handlers.Loads.{Answers, svc-Answers, fault-Loads}
use betriebssysteme.Handlers.User.{arrived, ticked}
use betriebssysteme.Kernel.{Kernel, ok, idle_thread}
use betriebssysteme.Scheduler.{scheduler_begin_exception, get_current_thread_fn}
use betriebssysteme.Scheduler.Contexts.{context, program}
use betriebssysteme.Scheduler.Loads.{goes_on, IsLoaded, IsLoaded-goes_on}
use betriebssysteme.Scheduler.Spec
use betriebssysteme.Scheduler.Spec.{Queues}
use betriebssysteme.Scheduler.Wake.{counter}
use betriebssysteme.Syscalls.{Host}
use betriebssysteme.System.{
  Exception, interrupt, call, fault, handle, IsAllowed, Reachable, return_from, but_banked,
  returns_from,
}
use betriebssysteme.System.Preserved.{Off, Off-not_running, exception_keeps, trace_keeps}
use betriebssysteme.System.Progress.{Trace, RunsIn, RunsIn-now}
use betriebssysteme.System.Reach.{after, final, handled-IsServed, Reachable-IsServed}
use betriebssysteme.System.Rests.{Ready, dispatch-Ready}
use betriebssysteme.Systick.Period.{is_due}
use betriebssysteme.Thread.{ThreadPtr, ThreadContext, SavedRegisters, exception_return}
use betriebssysteme.Uart.{uart_rx}
use betriebssysteme.Uart.Spec.{Inbox, IsServed, arrive_from, arrive_all}

-- An exception that gives the processor to another thread has loaded that thread.
handled-IsLoaded :
    (host : Host) (e : Exception) (regs : SavedRegisters) (k k' : Kernel) (i : Inbox)
    → IsServed k i
    → psr_mode (read_spsr k.cpu) ≡ cpu_mode_usr
    → IsAllowed e regs k
    → handle e host regs k ≡ ok tt k'
    → k'.running ≢ k.running
    → IsLoaded k'
unfolding scheduler_begin_exception
handled-IsLoaded host interrupt regs k k' i v mode allowed done ne =
    let (k2, done2, changes, contexts) = irq-Changes regs k i v in
    let same : k2 ≡ k' = ap (final k) (sym done2 ∙ done) in
    elim changes [
      | inl s ↦ absurd (ne (ap (λ (x : Kernel). x.running) (sym same) ∙ s.running))
      | inr s ↦ subst IsLoaded same s.loaded
    ]
handled-IsLoaded host call regs k k' i v mode allowed done ne =
    elim (subst (Ends (Answers (scheduler_begin_exception regs k))) done
      (svc-Answers host regs k allowed.1 mode)) [ inl s ↦ absurd (ne s.running) | inr l ↦ l ]
handled-IsLoaded host (fault f) regs k k' i v mode allowed done ne =
    subst (Ends IsLoaded) done (fault-Loads f regs k mode allowed)

-- What an exception interrupts in user mode can be loaded again.
pub record IsUserContext (c : ThreadContext) : Type 0 where
  pub mode : bank_of_mode (psr_mode c.cpsr) ≡ some usr
  pub word : c.pc < 2 ^ 32

pub interrupted-IsUserContext :
    (regs : SavedRegisters) (cpu : Cpu)
    → psr_mode (read_spsr cpu) ≡ cpu_mode_usr
    → IsUserContext (exception_return regs cpu)
unfolding exception_return bank_of_mode
interrupted-IsUserContext regs cpu e = record { mode = rw e refl; word = omega arith }

-- The thread `t` is ready or asleep in the first state of a run, does not run in it, and then gets the
-- processor from an exception: it goes on with what was saved for it.
module _ (host : Host) (t : ThreadPtr) (n : ℕ) (k1 k2 k3 : Kernel) (r : Trace host n k1 k2)
    (never : RunsIn t r → ⊥) (e : Exception) (regs : SavedRegisters)
    (mode : psr_mode (read_spsr k2.cpu) ≡ cpu_mode_usr) (allowed : IsAllowed e regs k2)
    (done : handle e host regs k2 ≡ ok tt k3) (turn : k3.running ≡ t) where
  Off-keeps : (i : Inbox) → IsServed k1 i → Off t i.queues → program k3 t ≡ program k1 t
  Off-keeps i v off =
      let (kept, j, w, off2) = trace_keeps host t r i v off never in
      exception_keeps t k2 j w off2 host e regs k3 mode allowed done ∙ kept

  -- Its function is that for which it was created.
  pub Off-fn :
      (i : Inbox) → IsServed k1 i → Off t i.queues → get_current_thread_fn k3 ≡ (k1.threads t).fn
  unfolding get_current_thread_fn
  Off-fn i v off =
      ap (λ u. (k3.threads u).fn) turn ∙ ap (λ (p : ThreadContext × ℕ). p.1) (Off-keeps i v off)

  pub Off-resumes :
      (i : Inbox) (c : ThreadContext)
      → IsServed k1 i
      → Off t i.queues
      → context k1 t ≡ c
      → IsUserContext c
      → goes_on k3 ≡ c
  Off-resumes i c v off saved u =
      let (kept, j, w, off2) = trace_keeps host t r i v off never in
      let loaded : IsLoaded k3 =
        handled-IsLoaded host e regs k2 k3 j w mode allowed done
          (λ x. Off-not_running t k2 j w off2 (sym turn ∙ x)) in
      let now : context k3 k3.running ≡ c =
        ap (context k3) turn ∙ ap (λ (p : ThreadContext × ℕ). p.0) (Off-keeps i v off) ∙ saved in
      IsLoaded-goes_on k3 usr loaded
        (ap (λ (x : ThreadContext). bank_of_mode (psr_mode x.cpsr)) now ∙ u.mode)
        (subst (λ (x : ThreadContext). x.pc < 2 ^ 32) (sym now) u.word)
      ∙ now

arrive_all-current : (cs : List ℕ) (i : Inbox) → (arrive_all cs i).queues.current ≡ i.queues.current
unfolding arrive_all
arrive_all-current [] i = refl
arrive_all-current (c ∷ cs) i =
    arrive_all-current cs (arrive_from i.queues.wait (c % 256) i) ∙ first i.queues.wait
  where
    first : (w : List ThreadPtr) → (arrive_from w (c % 256) i).queues.current ≡ i.queues.current
    first [] = refl
    first (t ∷ ts) = refl

arrived-current : (k : Kernel) (i : Inbox) → (arrived k i).queues.current ≡ i.queues.current
arrived-current k i = elim (Bool-cases (test_bit k.uart.mis uart_rx)) [
  | inl e ↦ rw e (arrive_all-current k.uart.rx i)
  | inr e ↦ rw e refl
]

-- A tick puts the running thread into the run queue.
tick-Ready : (c : ThreadPtr → ℕ) (s : Queues) → s.current < 32 → Ready s.current (Spec.tick c s)
unfolding Spec.tick Spec.wake Spec.preempt
tick-Ready c s user =
    let w : Queues = Spec.wake c s in
    let busy : (s.current == idle_thread) ≡ false = ground arith in
    rw busy (
      dispatch-Ready s.current (record w { run = w.run ++ s.current ∷ [] })
        (has-append s.current w.run (s.current ∷ []) ∙ ground arith))

preempted-Off :
    (k k' : Kernel) (i : Inbox)
    → i.queues.current < 32
    → IsServed k' (ticked k (arrived k i))
    → k'.running ≢ i.queues.current
    → Off i.queues.current (ticked k (arrived k i)).queues
preempted-Off k k' i user v ne =
    let a : Inbox = arrived k i in
    let same : a.queues.current ≡ i.queues.current = arrived-current k i in
    elim (Bool-cases (is_due k)) [
      | inl due ↦
          let v' : IsServed k' (record a { queues = Spec.tick (counter k) a.queues }) =
            rw due at v in
          let back : Ready i.queues.current (Spec.tick (counter k) a.queues) =
            subst (λ t. Ready t (Spec.tick (counter k) a.queues)) same
              (tick-Ready (counter k) a.queues (rw same user)) in
          rw due (elim back [ inl c ↦ absurd (ne (v'.scheduled.same ∙ c)) | inr m ↦ inl m ])
      | inr off ↦ let v' : IsServed k' a = rw off at v in absurd (ne (v'.scheduled.same ∙ same))
    ]

-- A thread that an interrupt takes from the processor goes on, whenever an exception gives it the
-- processor again, with the registers that it would have had without the interrupt: whatever user
-- steps and exceptions that `IsAllowed` lets pass have come in between. Behind a FIQ, whose mode
-- has `r8` to `r12` of its own, these five are those of the program that it interrupted.
pub preempted_resumes :
    (host : Host) (n : ℕ) (k k1 k2 k3 : Kernel) (regs : SavedRegisters)
    → Reachable host k
    → psr_mode (read_spsr k.cpu) ≡ cpu_mode_usr
    → k.running < 32
    → handle_irq regs k ≡ ok tt k1
    → (r : Trace host n k1 k2) → (RunsIn k.running r → ⊥)
    → (e : Exception) (regs' interrupted : SavedRegisters)
    → psr_mode (read_spsr k2.cpu) ≡ cpu_mode_usr
    → IsAllowed e regs' k2
    → handle e host regs' k2 ≡ ok tt k3
    → k3.running ≡ k.running
    → return_from e interrupted k3.frame k3.cpu
      ≡ but_banked e interrupted (exception_return regs k.cpu)
unfolding scheduler_begin_exception
preempted_resumes host n k k1 k2 k3 regs reachable mode user done r never e regs' interrupted mode'
      allowed done' turn =
    let (i, v) = Reachable-IsServed host reachable in
    let (k', done2, changes, contexts) = irq-Changes regs k i v in
    let same : k' ≡ k1 = ap (final k) (sym done2 ∙ done) in
    let away : k1.running ≢ k.running = λ x. never (RunsIn-now k.running r x) in
    let v1 : IsServed k1 (after interrupt regs k i) =
      handled-IsServed host interrupt regs k k1 i v mode tt done in
    let saved : context k1 k.running ≡ exception_return regs k.cpu =
      subst (λ x. context x k.running ≡ exception_return regs k.cpu) same
        (elim changes [
          | inl s ↦ absurd (away (ap (λ (x : Kernel). x.running) (sym same) ∙ s.running))
          | inr s ↦ s.saved
        ]) in
    let off : Off k.running (ticked k (arrived k i)).queues =
      subst (λ t. Off t (ticked k (arrived k i)).queues) (sym v.scheduled.same)
        (preempted-Off k k1 i (rw (sym v.scheduled.same) user) v1
          (λ x. away (x ∙ sym v.scheduled.same))) in
    returns_from e interrupted k3.frame k3.cpu (exception_return regs k.cpu) (
      Off-resumes host k.running n k1 k2 k3 r never e regs' mode' allowed done' turn
        (after interrupt regs k i) (exception_return regs k.cpu) v1 off saved
        (interrupted-IsUserContext regs k.cpu mode))
