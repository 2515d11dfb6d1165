-- ===== src/System/Preserved.antt =====
-- What a thread that is ready or sleeps goes on with stays as it was saved, until the thread runs.
use mathlib.Core.Path.{subst}
use betriebssysteme.Common.{
  ℕ, ◌<◌, ◌≡◌, ◌≢◌, ◌⊎◌, inl, inr, arith, refl, sym, ap, ◌∙◌, ◌∷◌, has, has-append, ◌∈◌,
}
use betriebssysteme.Cpu.{cpu_mode_usr, psr_mode, read_spsr}
use betriebssysteme.Handlers.Contexts.{program-IsKept, irq-Changes}
use betriebssysteme.Handlers.Kept.{Leaves, svc-Leaves, fault-Leaves}
use betriebssysteme.Kernel.{Kernel, ok, run_queue, sleep_queue}
use betriebssysteme.Scheduler.Contexts.{program}
use betriebssysteme.Scheduler.Spec.{Queues}
use betriebssysteme.Syscalls.{Host}
use betriebssysteme.System.{Exception, interrupt, call, fault, handle, IsAllowed, Reachable}
use betriebssysteme.System.Progress.{
  Trace, stop, user, handled, tick, RunsIn, RunsIn-now, after-Comes, queued-Stands,
}
use betriebssysteme.System.Reach.{after, final, handled-IsServed, Reachable-IsServed}
use betriebssysteme.System.Started.{IsServed-user}
use betriebssysteme.System.Sleepers.{after_next}
use betriebssysteme.System.Turns.{Stands}
use betriebssysteme.Thread.{
  ThreadPtr, Thread, ThreadContext, SavedRegisters, ready, terminated, sleeping, waiting,
}
use betriebssysteme.Uart.Spec.{Inbox, IsServed}

-- The thread is ready or sleeps.
abbrev pub Off : ThreadPtr → Queues → Type 0
Off t s = (t ∈ s.run) ⊎ (t ∈ s.sleep)

pub Stands-run : (t : ThreadPtr) (n : ℕ) (s : Queues) → Stands t n s → t ∈ s.run
Stands-run t n s p = ap (has t) p.at ∙ has-append t p.before (t ∷ p.behind) ∙ ground arith

module _ (t : ThreadPtr) (k : Kernel) (i : Inbox) (v : IsServed k i) where
  -- What follows for its status.
  pub Off-small : Off t i.queues → t < 32
  Off-small (inl m) = v.scheduled.queued.rings.items run_queue t (omega arith) m
  Off-small (inr m) = v.scheduled.queued.rings.items sleep_queue t (omega arith) m

  Off-status : Off t i.queues → ((k.threads t).status ≡ ready) ⊎ ((k.threads t).status ≡ sleeping)
  Off-status (inl m) =
      inl (ground (arith, v.scheduled.queued.placed t run_queue (Off-small (inl m)), m))
  Off-status (inr m) =
      inr (ground (arith, v.scheduled.queued.placed t sleep_queue (Off-small (inr m)), m))

  module _ (off : Off t i.queues) where
    pub Off-not_running : t ≢ k.running
    Off-not_running = ground (arith, Off-status off, v.scheduled.runs, v.scheduled.same)

    alive : (k.threads t).status ≢ terminated
    alive = ground (arith, Off-status off)

    pub not_waiting : (k.threads t).status ≢ waiting
    not_waiting = ground (arith, Off-status off)

    -- No exception changes what it goes on with.
    pub exception_keeps :
        (host : Host) (e : Exception) (regs : SavedRegisters) (k' : Kernel)
        → psr_mode (read_spsr k.cpu) ≡ cpu_mode_usr
        → IsAllowed e regs k
        → handle e host regs k ≡ ok tt k'
        → program k' t ≡ program k t
    exception_keeps host interrupt regs k' mode allowed done =
        let (k2, done2, changes, contexts) = irq-Changes regs k i v in
        subst (λ x. program x t ≡ program k t) (ap (final k) (sym done2 ∙ done))
          (contexts t (Off-small off) not_waiting Off-not_running)
    exception_keeps host call regs k' mode allowed done =
        subst (Leaves (λ x. program x t) (program k t)) done (
          svc-Leaves t (λ x. program x t) (program-IsKept t) host regs k Off-not_running alive
            allowed.1 mode)
    exception_keeps host (fault f) regs k' mode allowed done =
        subst (Leaves (λ x. program x t) (program k t)) done
          (fault-Leaves t (λ x. program x t) (program-IsKept t) f regs k mode allowed)

  -- A thread that does not run next stays ready or asleep.
  pub next-Off :
      (host : Host) (e : Exception) (regs : SavedRegisters) (k' : Kernel)
      → Off t i.queues
      → psr_mode (read_spsr k.cpu) ≡ cpu_mode_usr
      → IsAllowed e regs k
      → handle e host regs k ≡ ok tt k'
      → k'.running ≢ t
      → Off t (after e regs k i).queues
  next-Off host e regs k' (inl m) mode allowed done ne =
      let v' : IsServed k' (after e regs k i) =
        handled-IsServed host e regs k k' i v mode allowed done in
      elim (after-Comes t 32 e regs k i (queued-Stands k i t v m)) [
        | inl c ↦ absurd (ne (v'.scheduled.same ∙ c))
        | inr p ↦ inl (Stands-run t 32 (after e regs k i).queues p)
      ]
  next-Off host e regs k' (inr m) mode allowed done ne =
      let v' : IsServed k' (after e regs k i) =
        handled-IsServed host e regs k k' i v mode allowed done in
      elim (after_next t k i v m host e regs k' mode allowed done) [
        | inl (inl c) ↦ absurd (ne (v'.scheduled.same ∙ c))
        | inl (inr queued) ↦ inl queued
        | inr p ↦ inr p.0
      ]

-- The end of a run in which the thread has not run.
abbrev pub Rested : ThreadPtr → Kernel → Kernel → Type 0
Rested t k k' = (program k' t ≡ program k t) × (i : Inbox) × IsServed k' i × Off t i.queues

pub trace_keeps :
    (host : Host) (t : ThreadPtr) {n : ℕ} {k k' : Kernel} (r : Trace host n k k') (i : Inbox)
    → IsServed k i
    → Off t i.queues
    → (RunsIn t r → ⊥)
    → Rested t k k'
trace_keeps host t (stop k) i v off never = (refl, i, v, off)
trace_keeps host t (user n k k' k'' s r) i v off never =
    let (kept, i', v', off') =
      trace_keeps host t r i (IsServed-user k k' i s v) off (λ x. never (inr x)) in
    (kept ∙ ap (λ (f : ThreadPtr → Thread). ((f t).context, (f t).fn)) s.threads, i', v', off')
trace_keeps host t (handled n k k' k'' e regs mode allowed done r) i v off never =
    let v' : IsServed k' (after e regs k i) =
      handled-IsServed host e regs k k' i v mode allowed done in
    let off' : Off t (after e regs k i).queues =
      next-Off t k i v host e regs k' off mode allowed done (λ x. never (inr (RunsIn-now t r x))) in
    let (kept, j, w, last) = trace_keeps host t r (after e regs k i) v' off' (λ x. never (inr x)) in
    (kept ∙ exception_keeps t k i v off host e regs k' mode allowed done, j, w, last)
trace_keeps host t (tick n k k' k'' regs mode due done r) i v off never =
    let i' : Inbox = after interrupt regs k i in
    let v' : IsServed k' i' = handled-IsServed host interrupt regs k k' i v mode tt done in
    let off' : Off t i'.queues =
      next-Off t k i v host interrupt regs k' off mode tt done
        (λ x. never (inr (RunsIn-now t r x))) in
    let (kept, j, w, last) = trace_keeps host t r i' v' off' (λ x. never (inr x)) in
    (kept ∙ exception_keeps t k i v off host interrupt regs k' mode tt done, j, w, last)

-- Through every sequence, from a reachable state, of user steps and of exceptions that `IsAllowed` lets
-- pass, in which a ready thread does not run, the registers that were saved for it stay as they are.
ready_keeps :
    (host : Host) (n : ℕ) (k k' : Kernel) (t : ThreadPtr)
    → Reachable host k
    → t < 32
    → (k.threads t).status ≡ ready
    → (r : Trace host n k k') → (RunsIn t r → ⊥)
    → (k'.threads t).context ≡ (k.threads t).context
ready_keeps host n k k' t reachable small e r never =
    let (i, v) = Reachable-IsServed host reachable in
    let here : t ∈ i.queues.run = ground (arith, v.scheduled.queued.placed t run_queue small) in
    ap (λ (x : ThreadContext × ℕ). x.0) (trace_keeps host t r i v (inl here) never).0
