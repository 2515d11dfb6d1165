-- ===== src/System/Characters.antt =====
-- The characters of a run of the system: which thread gets which of them.
use betriebssysteme.Common.{
  ℕ, ◌≡◌, ◌≢◌, arith, refl, List, [], ◌∷◌, ◌++◌, ◌==◌, Bool-cases, inl, inr, if◌then◌else◌,
}
use betriebssysteme.Handlers.User.{gifts}
use betriebssysteme.Kernel.{Kernel}
use betriebssysteme.Syscalls.{Host}
use betriebssysteme.System.{Exception, interrupt, call, fault}
use betriebssysteme.System.Progress.{Trace, stop, user, handled, tick}
use betriebssysteme.System.Reach.{after}
use betriebssysteme.Thread.{ThreadPtr, SavedRegisters}
use betriebssysteme.Uart.Given.{Gifts, given_to}
use betriebssysteme.Uart.Spec.{Inbox}

-- A thread that asks for a character gets the oldest one that is stored.
abbrev pub asked_for : List ℕ → ThreadPtr → Gifts
asked_for [] t = []
asked_for (c ∷ q) t = (t, c) ∷ []

abbrev pub given_by : Exception → SavedRegisters → Kernel → Inbox → Gifts
given_by interrupt regs k i = gifts k i
given_by call regs k i = if regs.r0 == 2 then asked_for i.stored i.queues.current else []
given_by (fault f) regs k i = []

-- What the threads get in a run, and what the run comes to.
abbrev pub given_in : {host : Host} {n : ℕ} {k k' : Kernel} → Trace host n k k' → Inbox → Gifts
given_in (stop k) i = []
given_in (user n k k' k'' s r) i = given_in r i
given_in (handled n k k' k'' e regs mode allowed done r) i =
    given_by e regs k i ++ given_in r (after e regs k i)
given_in (tick n k k' k'' regs mode due done r) i =
    given_by interrupt regs k i ++ given_in r (after interrupt regs k i)

abbrev pub after_all : {host : Host} {n : ℕ} {k k' : Kernel} → Trace host n k k' → Inbox → Inbox
after_all (stop k) i = i
after_all (user n k k' k'' s r) i = after_all r i
after_all (handled n k k' k'' e regs mode allowed done r) i = after_all r (after e regs k i)
after_all (tick n k k' k'' regs mode due done r) i = after_all r (after interrupt regs k i)

asked_for-other : (q : List ℕ) (t u : ThreadPtr) → t ≢ u → given_to t (asked_for q u) ≡ []
asked_for-other [] t u ne = refl
asked_for-other (c ∷ q) t u ne = ground arith

-- A call gives nothing to other threads than the caller.
pub call-nothing :
    (regs : SavedRegisters) (k : Kernel) (i : Inbox) (t : ThreadPtr)
    → t ≢ i.queues.current
    → given_to t (given_by call regs k i) ≡ []
call-nothing regs k i t ne = elim (Bool-cases (regs.r0 == 2)) [
  | inl e ↦ rw e (asked_for-other i.stored t i.queues.current ne)
  | inr e ↦ rw e refl
]
