-- ===== src/System/Answered.antt =====
-- A thread that waits for a character: it waits on, or it is ready and finds a character in its `r0`.
use mathlib.Core.Path.{subst}
use betriebssysteme.Common.{
  ℕ, ◌<◌, ◌≡◌, ◌≢◌, ◌⊎◌, inl, inr, arith, refl, sym, ap, ◌∙◌, has, ◌∈◌, Bool-cases, [], ◌∷◌,
}
use betriebssysteme.Cpu.{cpu_mode_usr, psr_mode, read_spsr}
use betriebssysteme.Handlers.{handle_irq}
use betriebssysteme.Handlers.Contexts.{program-IsKept, tick_at}
use betriebssysteme.Handlers.Kept.{Leaves, svc-Leaves, fault-Leaves}
use betriebssysteme.Handlers.Served.{IsServed-begin}
use betriebssysteme.Handlers.User.{arrived, ticked, gifts, is_due-same}
use betriebssysteme.Kernel.{Kernel, ok, run_queue, uart_wait_queue}
use betriebssysteme.Scheduler.{scheduler_begin_exception, find_free_thread_id}
use betriebssysteme.Scheduler.Contexts.{program}
use betriebssysteme.Scheduler.Wake.{counter}
use betriebssysteme.Syscalls.{Host}
use betriebssysteme.System.{Exception, interrupt, call, fault, handle, IsAllowed}
use betriebssysteme.System.Preserved.{Off-small, not_waiting, Off, Off-not_running}
use betriebssysteme.System.Reach.{after, final}
use betriebssysteme.System.Rests.{Ready, tick-Ready}
use betriebssysteme.System.Waits.{tick-wait, terminate-wait, perform-waits}
use betriebssysteme.Systick.Period.{is_due, systick_idle}
use betriebssysteme.Thread.{ThreadPtr, ThreadContext, SavedRegisters, terminated, waiting}
use betriebssysteme.Uart.Deliver.{handle_irq_refines}
use betriebssysteme.Uart.Given.{Gifts, given_to}
use betriebssysteme.Uart.Rest.{Gets, with_char}
use betriebssysteme.System.Characters.{given_by, call-nothing}
use betriebssysteme.Uart.Spec.{Inbox, IsServed}

-- Among the characters that have been given out, the thread has got one.
abbrev pub HasChar : Gifts → ThreadPtr → ThreadContext × ℕ → Kernel → Type 0
HasChar gs t p k = (c : ℕ) × (c < 256) × (given_to t gs ≡ c ∷ []) × (program k t ≡ with_char c p)

pub HasChar-from :
    (gs : Gifts) (t : ThreadPtr) (p : ThreadContext × ℕ) (k k' : Kernel)
    → program k' t ≡ program k t
    → HasChar gs t p k
    → HasChar gs t p k'
HasChar-from gs t p k k' same (c, low, given, got) = (c, low, given, same ∙ got)

-- It waits, and has got none.
abbrev pub IsWaiting : Gifts → ThreadPtr → ThreadContext × ℕ → Kernel → Inbox → Type 0
IsWaiting gs t p k i = (t ∈ i.queues.wait) × (program k t ≡ p) × (given_to t gs ≡ [])

-- A thread with the program `p` waits on, or has got a character and is ready or runs.
abbrev pub Served : Gifts → ThreadPtr → ThreadContext × ℕ → Kernel → Inbox → Type 0
Served gs t p k i = IsWaiting gs t p k i ⊎ (Ready t i.queues × HasChar gs t p k)

-- The start of an exception changes no thread.
Gets-begin :
    (gs : Gifts) (t : ThreadPtr) (regs : SavedRegisters) (k k1 : Kernel)
    → Gets gs t (scheduler_begin_exception regs k) k1
    → Gets gs t k k1
unfolding scheduler_begin_exception
Gets-begin gs t regs k k1 (inl a) =
    inl (record { status = a.status; kept = a.kept; nothing = a.nothing })
Gets-begin gs t regs k k1 (inr b) = inr (record {
  waits = b.waits;
  wakes = b.wakes;
  char = b.char;
  small = b.small;
  given = b.given;
  got = b.got;
})

module _ (t : ThreadPtr) (k : Kernel) (i : Inbox) (v : IsServed k i) where
  -- A thread that is off gets nothing from an exception.
  pub Off-nothing :
      (e : Exception) (regs : SavedRegisters)
      → Off t i.queues
      → given_to t (given_by e regs k i) ≡ []
  unfolding scheduler_begin_exception
  Off-nothing interrupt regs off =
      let k0 : Kernel = scheduler_begin_exception regs k in
      let (k1, done, v1, same) = handle_irq_refines k0 i (IsServed-begin regs k i v) in
      elim (same.gets t (Off-small t k i v off)) [
        | inl a ↦ a.nothing
        | inr b ↦ absurd (not_waiting t k i v off b.waits)
      ]
  Off-nothing call regs off =
      call-nothing regs k i t (λ e. Off-not_running t k i v off (e ∙ sym v.scheduled.same))
  Off-nothing (fault f) regs off = refl

module _ (t : ThreadPtr) (k : Kernel) (i : Inbox) (v : IsServed k i) (m : t ∈ i.queues.wait) where
  waiter_small : t < 32
  waiter_small = v.scheduled.queued.rings.items uart_wait_queue t (omega arith) m

  waiter_waits : (k.threads t).status ≡ waiting
  waiter_waits =
      ground (arith, v.scheduled.queued.placed t uart_wait_queue waiter_small (omega arith))

  pub waiter_not_running : t ≢ k.running
  waiter_not_running = ground (arith, waiter_waits, v.scheduled.runs, v.scheduled.same)

  waiter_alive : (k.threads t).status ≢ terminated
  waiter_alive = ground (arith, waiter_waits)

  -- What the characters of an interrupt do to it.
  delivered :
      (gs : Gifts) (k1 : Kernel) (j : Inbox)
      → IsServed k1 j
      → Gets gs t k k1
      → IsWaiting gs t (program k t) k1 j ⊎ ((t ∈ j.queues.run) × HasChar gs t (program k t) k1)
  delivered gs k1 j w (inl a) = inl (
    ground
        (arith, w.scheduled.queued.placed t uart_wait_queue waiter_small, a.status ∙ waiter_waits),
    a.kept,
    a.nothing,
  )
  delivered gs k1 j w (inr b) = inr (
    ground (arith, w.scheduled.queued.placed t run_queue waiter_small, b.wakes),
    (b.char, b.small, b.given, b.got),
  )

  -- An interrupt lets it wait on, or has a character for it.
  interrupt-Served :
      (regs : SavedRegisters)
      → (k' : Kernel) × (handle_irq regs k ≡ ok tt k')
        × Served (gifts k i) t (program k t) k' (ticked k (arrived k i))
  unfolding handle_irq scheduler_begin_exception
  interrupt-Served regs =
      let k0 : Kernel = scheduler_begin_exception regs k in
      let (k1, done, v1, same) = handle_irq_refines k0 i (IsServed-begin regs k i v) in
      let heard =
        delivered (gifts k i) k1 (arrived k i) v1
          (Gets-begin (gifts k i) t regs k k1 (same.gets t waiter_small)) in
      let off : t ≢ k1.running = λ e. waiter_not_running (e ∙ same.running) in
      elim (Bool-cases (is_due k)) [
        | inl e ↦
            let (k2, end, changes, programs) =
              tick_at k1 (arrived k i) v1 (is_due-same (gifts k i) k0 k1 same ∙ e) in
            rw (done, e)
              (
                k2,
                end,
                elim heard [
                  | inl (here, kept, none_given) ↦ inl (
                    ap (has t) (tick-wait (counter k) (arrived k i).queues) ∙ here,
                    programs t off ∙ kept,
                    none_given,
                  )
                  | inr (here, got) ↦ inr (
                    tick-Ready t (counter k) (arrived k i).queues here,
                    HasChar-from (gifts k i) t (program k t) k1 k2 (programs t off) got,
                  )
                ],
              )
        | inr e ↦
            rw (done, e)
              (
                k1,
                systick_idle k1 (is_due-same (gifts k i) k0 k1 same ∙ e),
                elim heard [ inl waits ↦ inl waits | inr (here, got) ↦ inr (inr here, got) ],
              )
      ]

  -- Every exception does.
  pub exception-Served :
      (host : Host) (e : Exception) (regs : SavedRegisters) (k' : Kernel)
      → psr_mode (read_spsr k.cpu) ≡ cpu_mode_usr
      → IsAllowed e regs k
      → handle e host regs k ≡ ok tt k'
      → Served (given_by e regs k i) t (program k t) k' (after e regs k i)
  exception-Served host interrupt regs k' mode allowed done =
      let (k2, done2, served) = interrupt-Served regs in
      subst (λ x. Served (gifts k i) t (program k t) x (ticked k (arrived k i)))
        (ap (final k) (sym done2 ∙ done)) served
  exception-Served host call regs k' mode allowed done = inl (
    perform-waits t regs.r0 (find_free_thread_id k) i m,
    subst (Leaves (λ x. program x t) (program k t)) done (
        svc-Leaves t (λ x. program x t) (program-IsKept t) host regs k waiter_not_running
          waiter_alive allowed.1 mode),
    call-nothing regs k i t (λ e. waiter_not_running (e ∙ sym v.scheduled.same)),
  )
  exception-Served host (fault f) regs k' mode allowed done = inl (
    ap (has t) (terminate-wait i.queues) ∙ m,
    subst (Leaves (λ x. program x t) (program k t)) done
        (fault-Leaves t (λ x. program x t) (program-IsKept t) f regs k mode allowed),
    refl,
  )
