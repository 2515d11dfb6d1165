-- ===== src/System/Received.antt =====
-- The characters of a run of the system, as the threads find them in their `r0`.
use mathlib.Core.Path.{subst}
use betriebssysteme.Common.{
  ℕ, ◌<◌, ◌≡◌, ◌⊎◌, inl, inr, arith, refl, sym, ap, ◌∙◌, List, [], ◌∷◌, ◌==◌, Bool-cases, ==_iff,
}
use betriebssysteme.Cpu.{cpu_mode_usr, psr_mode, read_spsr}
use betriebssysteme.Handlers.{handle_irq}
use betriebssysteme.Handlers.Contexts.{tick_at}
use betriebssysteme.Handlers.Served.{IsServed-begin}
use betriebssysteme.Handlers.User.{arrived, gifts, is_due-same}
use betriebssysteme.Kernel.{Kernel, ok}
use betriebssysteme.Scheduler.{scheduler_begin_exception}
use betriebssysteme.Scheduler.Contexts.{program}
use betriebssysteme.Syscalls.{Host}
use betriebssysteme.System.{Exception, interrupt, call, fault, handle, IsAllowed}
use betriebssysteme.System.Characters.{given_by, asked_for}
use betriebssysteme.System.Progress.{Trace, stop, user, handled, tick}
use betriebssysteme.System.Reach.{after, final, handled-IsServed}
use betriebssysteme.System.Resume.Getc.{getc_done}
use betriebssysteme.System.Started.{IsServed-user}
use betriebssysteme.Systick.Period.{is_due, systick_idle}
use betriebssysteme.Thread.{ThreadPtr, SavedRegisters}
use betriebssysteme.Uart.{uart_user_getc}
use betriebssysteme.Uart.Ask.{Asked, user_getc_refines}
use betriebssysteme.Uart.Deliver.{handle_irq_refines}
use betriebssysteme.Uart.Given.{Gifts, given_to}
use betriebssysteme.Uart.Rest.{with_char}
use betriebssysteme.Uart.Spec.{Inbox, IsServed}

-- A character is in the saved `r0` of the thread that an interrupt wakes, or in the frame with which a
-- call returns to its caller.
abbrev pub Finds : Exception → SavedRegisters → ThreadPtr → ℕ → Kernel → Kernel → Type 0
Finds interrupt regs t c k k' = program k' t ≡ with_char c (program k t)
Finds call regs t c k k' = (k'.running ≡ t) × (k'.frame ≡ record regs { r0 = c })
Finds (fault f) regs t c k k' = ⊥

-- An exception gives a thread nothing, or one character, which the thread finds.
abbrev pub Receives : Exception → SavedRegisters → ThreadPtr → Gifts → Kernel → Kernel → Type 0
Receives e regs t gs k k' =
    (given_to t gs ≡ []) ⊎ ((c : ℕ) × (given_to t gs ≡ c ∷ []) × Finds e regs t c k k')

irq-Receives :
    (t : ThreadPtr) (regs : SavedRegisters) (k : Kernel) (i : Inbox)
    → IsServed k i
    → t < 32
    → (k' : Kernel) × (handle_irq regs k ≡ ok tt k') × Receives interrupt regs t (gifts k i) k k'
unfolding handle_irq scheduler_begin_exception
irq-Receives t regs k i v small =
    let k0 : Kernel = scheduler_begin_exception regs k in
    let (k1, done, v1, same) = handle_irq_refines k0 i (IsServed-begin regs k i v) in
    elim (Bool-cases (is_due k)) [
      | inl e ↦
          let (k2, end, changes, programs) =
            tick_at k1 (arrived k i) v1 (is_due-same (gifts k i) k0 k1 same ∙ e) in
          rw done (
            k2,
            end,
            elim (same.gets t small) [
              | inl a ↦ inl a.nothing
              | inr b ↦ inr (
                b.char,
                b.given,
                programs t (λ x.
                      ground (arith, b.waits, v.scheduled.runs, v.scheduled.same, x ∙ same.running))
                    ∙ b.got,
              )
            ],
          )
      | inr e ↦ rw done (
        k1,
        systick_idle k1 (is_due-same (gifts k i) k0 k1 same ∙ e),
        elim (same.gets t small) [ inl a ↦ inl a.nothing | inr b ↦ inr (b.char, b.given, b.got) ],
      )
    ]

Asked-Receives :
    (t : ThreadPtr) (regs : SavedRegisters) (k k' : Kernel) (i : Inbox) (q : List ℕ)
    → Asked
        (scheduler_begin_exception regs k)
        i
        q
        (uart_user_getc (scheduler_begin_exception regs k))
    → uart_user_getc (scheduler_begin_exception regs k) ≡ ok tt k'
    → Receives call regs t (asked_for q i.queues.current) k k'
unfolding scheduler_begin_exception
Asked-Receives t regs k k' i [] asked done = inl refl
Asked-Receives t regs k k' i (c ∷ q) (k2, done2, w, frame, cpu) done =
    let same : k2 ≡ k' = ap (final k) (sym done2 ∙ done) in
    elim (Bool-cases (t == i.queues.current)) [
      | inl e ↦ inr (
        c,
        rw e refl,
        (
          ap (λ (x : Kernel). x.running) (sym same) ∙ w.scheduled.same ∙ sym ((==_iff _ _).0 e),
          ap (λ (x : Kernel). x.frame) (sym same) ∙ frame,
        ),
      )
      | inr e ↦ inl (rw e refl)
    ]

exception-Receives :
    (host : Host) (e : Exception) (regs : SavedRegisters) (k k' : Kernel) (i : Inbox)
    (t : ThreadPtr)
    → IsServed k i
    → t < 32
    → psr_mode (read_spsr k.cpu) ≡ cpu_mode_usr
    → IsAllowed e regs k
    → handle e host regs k ≡ ok tt k'
    → Receives e regs t (given_by e regs k i) k k'
exception-Receives host interrupt regs k k' i t v small mode allowed done =
    let (k2, done2, got) = irq-Receives t regs k i v small in
    subst (λ x. Receives interrupt regs t (gifts k i) k x) (ap (final k) (sym done2 ∙ done)) got
exception-Receives host call regs k k' i t v small mode (of_table, other, fits) done =
    elim (Bool-cases (regs.r0 == 2)) [
      | inl e ↦
          let two : regs.r0 ≡ 2 = (==_iff _ _).0 e in
          let k0 : Kernel = scheduler_begin_exception regs k in
          rw e (
            Asked-Receives t regs k k' i i.stored
              (user_getc_refines k0 i (IsServed-begin regs k i v)
                (omega (arith, of_table, v.scheduled.same)))
              (sym (getc_done host regs k mode two) ∙ done))
      | inr e ↦ inl (rw e refl)
    ]
exception-Receives host (fault f) regs k k' i t v small mode allowed done = inl refl

-- In a run the thread finds every character that it is given.
abbrev pub ReceivesIn :
    {host : Host} {n : ℕ} {k k' : Kernel} → ThreadPtr → Trace host n k k' → Inbox → Type 0
ReceivesIn t (stop k) i = Unit
ReceivesIn t (user n k k' k'' s r) i = ReceivesIn t r i
ReceivesIn t (handled n k k' k'' e regs mode allowed done r) i =
    Receives e regs t (given_by e regs k i) k k' × ReceivesIn t r (after e regs k i)
ReceivesIn t (tick n k k' k'' regs mode due done r) i =
    Receives interrupt regs t (given_by interrupt regs k i) k k'
    × ReceivesIn t r (after interrupt regs k i)

pub trace-ReceivesIn :
    {host : Host} {n : ℕ} {k k' : Kernel} (t : ThreadPtr) (r : Trace host n k k') (i : Inbox)
    → IsServed k i
    → t < 32
    → ReceivesIn t r i
trace-ReceivesIn t (stop k) i v small = tt
trace-ReceivesIn t (user n k k' k'' s r) i v small =
    trace-ReceivesIn t r i (IsServed-user k k' i s v) small
trace-ReceivesIn {host} t (handled n k k' k'' e regs mode allowed done r) i v small = (
  exception-Receives host e regs k k' i t v small mode allowed done,
  trace-ReceivesIn t r (after e regs k i) (handled-IsServed host e regs k k' i v mode allowed done)
      small,
)
trace-ReceivesIn {host} t (tick n k k' k'' regs mode due done r) i v small = (
  exception-Receives host interrupt regs k k' i t v small mode tt done,
  trace-ReceivesIn t r (after interrupt regs k i)
      (handled-IsServed host interrupt regs k k' i v mode tt done) small,
)
