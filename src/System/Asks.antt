-- ===== src/System/Asks.antt =====
-- A thread that has asked for a character, through a run of the system.
use mathlib.Core.Path.{subst}
use betriebssysteme.Common.{ℕ, ◌≡◌, ◌≢◌, ◌⊎◌, inl, inr, refl, sym, ap, ◌∙◌, [], ◌++◌}
use betriebssysteme.Cpu.{cpu_mode_usr, psr_mode, read_spsr}
use betriebssysteme.Kernel.{Kernel, ok}
use betriebssysteme.Scheduler.Contexts.{program}
use betriebssysteme.Syscalls.{Host}
use betriebssysteme.System.{Exception, interrupt, handle, IsAllowed}
use betriebssysteme.System.Preserved.{Off, Off-not_running, exception_keeps, next-Off}
use betriebssysteme.System.Progress.{Trace, stop, user, handled, tick, RunsIn, RunsIn-now}
use betriebssysteme.System.Reach.{after, handled-IsServed}
use betriebssysteme.System.Started.{IsServed-user}
use betriebssysteme.Thread.{ThreadPtr, ThreadContext, Thread, SavedRegisters}
use betriebssysteme.Uart.Given.{Gifts, given_to, given_to-append}
use mathlib.Core.List.{append_assoc, append-nil}
use betriebssysteme.System.Answered.{
  HasChar, HasChar-from, IsWaiting, Served, Off-nothing, waiter_not_running, exception-Served,
}
use betriebssysteme.System.Characters.{given_by, given_in, after_all}
use betriebssysteme.Uart.Spec.{Inbox, IsServed}

-- The thread waits with the program `p`, or has a character and is ready or sleeps.
abbrev pub Asks : Gifts → ThreadPtr → ThreadContext × ℕ → Kernel → Inbox → Type 0
Asks gs t p k i = IsWaiting gs t p k i ⊎ (Off t i.queues × HasChar gs t p k)

HasChar-later :
    (gs hs : Gifts) (t : ThreadPtr) (p : ThreadContext × ℕ) (k k' : Kernel)
    → program k' t ≡ program k t
    → given_to t hs ≡ []
    → HasChar gs t p k
    → HasChar (gs ++ hs) t p k'
HasChar-later gs hs t p k k' same none_given (c, low, given, got) =
    (c, low, rw (given_to-append t gs hs, given, none_given) refl, same ∙ got)

module _ (gs : Gifts) (t : ThreadPtr) (p : ThreadContext × ℕ) (k : Kernel) (i : Inbox)
    (v : IsServed k i) (host : Host) (e : Exception) (regs : SavedRegisters) (k' : Kernel)
    (mode : psr_mode (read_spsr k.cpu) ≡ cpu_mode_usr) (allowed : IsAllowed e regs k)
    (done : handle e host regs k ≡ ok tt k') where
  pub Asks-not_running : Asks gs t p k i → t ≢ k.running
  Asks-not_running (inl (m, kept, none_given)) = waiter_not_running t k i v m
  Asks-not_running (inr (off, got)) = Off-not_running t k i v off

  -- What the exception makes of a thread that has waited up to then.
  waiter_next : IsWaiting gs t p k i → Served (gs ++ given_by e regs k i) t p k' (after e regs k i)
  waiter_next (m, kept, none_given) =
      let before : given_to t (gs ++ given_by e regs k i) ≡ given_to t (given_by e regs k i) =
        rw (given_to-append t gs (given_by e regs k i), none_given) refl in
      elim (subst (λ x. Served (given_by e regs k i) t x k' (after e regs k i)) kept
        (exception-Served t k i v m host e regs k' mode allowed done)) [
          | inl (here, same, nothing) ↦ inl (here, same, before ∙ nothing)
          | inr (ready_now, (c, low, given, got)) ↦ inr (ready_now, (c, low, before ∙ given, got))
        ]

  Off-next : Off t i.queues → HasChar gs t p k → HasChar (gs ++ given_by e regs k i) t p k'
  Off-next off got =
      HasChar-later gs (given_by e regs k i) t p k k'
        (exception_keeps t k i v off host e regs k' mode allowed done)
        (Off-nothing t k i v e regs off) got

  -- If it does not run next, this holds again.
  pub next-Asks :
      Asks gs t p k i → k'.running ≢ t → Asks (gs ++ given_by e regs k i) t p k' (after e regs k i)
  next-Asks (inl waits) ne =
      let v' : IsServed k' (after e regs k i) =
        handled-IsServed host e regs k k' i v mode allowed done in
      elim (waiter_next waits) [
        | inl w ↦ inl w
        | inr (inl c, got) ↦ absurd (ne (v'.scheduled.same ∙ c))
        | inr (inr here, got) ↦ inr (inl here, got)
      ]
  next-Asks (inr (off, got)) ne =
      inr (next-Off t k i v host e regs k' off mode allowed done ne, Off-next off got)

  -- If it does run next, it has a character.
  pub runs-HasChar : Asks gs t p k i → k'.running ≡ t → HasChar (gs ++ given_by e regs k i) t p k'
  runs-HasChar (inl waits) turn =
      let v' : IsServed k' (after e regs k i) =
        handled-IsServed host e regs k k' i v mode allowed done in
      elim (waiter_next waits) [
        | inl (here, same, nothing) ↦
            absurd (waiter_not_running t k' (after e regs k i) v' here (sym turn))
        | inr (here, got) ↦ got
      ]
  runs-HasChar (inr (off, got)) turn = Off-next off got

-- Through every run in which the thread does not run, it waits or has a character.
pub trace-Asks :
    (host : Host) (t : ThreadPtr) (p : ThreadContext × ℕ) {n : ℕ} {k k' : Kernel} (gs : Gifts)
    (r : Trace host n k k') (i : Inbox)
    → IsServed k i
    → Asks gs t p k i
    → (RunsIn t r → ⊥)
    → IsServed k' (after_all r i) × Asks (gs ++ given_in r i) t p k' (after_all r i)
trace-Asks host t p gs (stop k) i v asks never =
    (v, subst (λ g. Asks g t p k i) (sym (append-nil gs)) asks)
trace-Asks host t p gs (user n k k' k'' s r) i v asks never =
    let same : program k' t ≡ program k t =
      ap (λ (f : ThreadPtr → Thread). ((f t).context, (f t).fn)) s.threads in
    trace-Asks host t p gs r i (IsServed-user k k' i s v)
      (elim asks [
        | inl (m, kept, nothing) ↦ inl (m, same ∙ kept, nothing)
        | inr (off, got) ↦ inr (off, HasChar-from gs t p k k' same got)
      ])
      (λ x. never (inr x))
trace-Asks host t p gs (handled n k k' k'' e regs mode allowed done r) i v asks never =
    let (w, last) =
      trace-Asks host t p (gs ++ given_by e regs k i) r (after e regs k i)
        (handled-IsServed host e regs k k' i v mode allowed done)
        (next-Asks gs t p k i v host e regs k' mode allowed done asks
          (λ x. never (inr (RunsIn-now t r x))))
        (λ x. never (inr x)) in
    (
      w,
      subst (λ g. Asks g t p k'' (after_all r (after e regs k i)))
          (append_assoc gs (given_by e regs k i) (given_in r (after e regs k i))) last,
    )
trace-Asks host t p gs (tick n k k' k'' regs mode due done r) i v asks never =
    let (w, last) =
      trace-Asks host t p (gs ++ given_by interrupt regs k i) r (after interrupt regs k i)
        (handled-IsServed host interrupt regs k k' i v mode tt done)
        (next-Asks gs t p k i v host interrupt regs k' mode tt done asks
          (λ x. never (inr (RunsIn-now t r x))))
        (λ x. never (inr x)) in
    (
      w,
      subst (λ g. Asks g t p k'' (after_all r (after interrupt regs k i)))
          (append_assoc gs (given_by interrupt regs k i) (given_in r (after interrupt regs k i)))
          last,
    )
