-- ===== src/Uart/Rest.antt =====
-- What the interrupt of arch/bsp/uart.c does to each thread, and what it leaves alone.
use betriebssysteme.Scheduler.Wake.{counter}
use betriebssysteme.Common.{
  ℕ, ◌++◌, ◌≡◌, inl, inr, arith, refl, sym, ap, ◌∙◌, [], ◌∷◌, ◌<◌, ◌≢◌, ◌⊎◌,
}
use betriebssysteme.Kernel.{Kernel, Uart}
use betriebssysteme.RingBuffer.{RingBuff}
use betriebssysteme.Scheduler.Contexts.{program}
use betriebssysteme.Thread.{waiting, ready, ThreadPtr, ThreadContext}
use betriebssysteme.Uart.Given.{Gifts, given_to, given_to-append}

-- A program that finds a character in its `r0`.
abbrev pub with_char : ℕ → ThreadContext × ℕ → ThreadContext × ℕ
with_char c (context, fn) = (record context { r0 = c }, fn)

-- A thread that no character goes to.
pub record Untouched (gs : Gifts) (t : ThreadPtr) (k k' : Kernel) : Type 0 where
  pub status : (k'.threads t).status ≡ (k.threads t).status
  pub kept : program k' t ≡ program k t
  pub nothing : given_to t gs ≡ []

-- A thread that waited, and that one of the characters has made ready.
pub record Woken (gs : Gifts) (t : ThreadPtr) (k k' : Kernel) : Type 0 where
  pub waits : (k.threads t).status ≡ waiting
  pub wakes : (k'.threads t).status ≡ ready
  pub char : ℕ
  pub small : char < 256
  pub given : given_to t gs ≡ char ∷ []
  pub got : program k' t ≡ with_char char (program k t)

-- What the delivery of characters does to a thread.
abbrev pub Gets : Gifts → ThreadPtr → Kernel → Kernel → Type 0
Gets gs t k k' = Untouched gs t k k' ⊎ Woken gs t k k'

Gets-trans :
    (gs hs : Gifts) (t : ThreadPtr) (i j k : Kernel)
    → Gets gs t i j
    → Gets hs t j k
    → Gets (gs ++ hs) t i k
Gets-trans gs hs t i j k (inl a) (inl b) = inl (record {
  status = b.status ∙ a.status;
  kept = b.kept ∙ a.kept;
  nothing = rw (given_to-append t gs hs, a.nothing, b.nothing) refl;
})
Gets-trans gs hs t i j k (inl a) (inr b) = inr (record {
  waits = sym a.status ∙ b.waits;
  wakes = b.wakes;
  char = b.char;
  small = b.small;
  given = rw (given_to-append t gs hs, a.nothing, b.given) refl;
  got = b.got ∙ ap (with_char b.char) a.kept;
})
Gets-trans gs hs t i j k (inr a) (inl b) = inr (record {
  waits = a.waits;
  wakes = b.status ∙ a.wakes;
  char = a.char;
  small = a.small;
  given = rw (given_to-append t gs hs, a.given, b.nothing) refl;
  got = b.kept ∙ a.got;
})
Gets-trans gs hs t i j k (inr a) (inr b) = absurd (ground (arith, b.waits, a.wakes))

-- What the delivery of characters leaves alone: the processor, the timer, what has been printed, and
-- every thread that does not get a character.
pub record SameRest (gs : Gifts) (k k' : Kernel) : Type 0 where
  pub running : k'.running ≡ k.running
  pub frame : k'.frame ≡ k.frame
  pub cpu : k'.cpu ≡ k.cpu
  pub irqs : k'.irqs ≡ k.irqs
  pub timer : k'.timer ≡ k.timer
  pub printed : k'.uart.tx ≡ k.uart.tx
  pub counters : counter k' ≡ counter k
  pub gets : (t : ThreadPtr) → t < 32 → Gets gs t k k'

pub SameRest-program :
    (gs : Gifts) (k k' : Kernel) (t : ThreadPtr)
    → SameRest gs k k'
    → t < 32
    → (k.threads t).status ≢ waiting
    → program k' t ≡ program k t
SameRest-program gs k k' t same small busy = elim (same.gets t small) [
  | inl a ↦ a.kept
  | inr b ↦ absurd (busy b.waits)
]

pub SameRest-devices :
    (k : Kernel) (u : Uart) (b : RingBuff)
    → u.tx ≡ k.uart.tx
    → SameRest [] k (record k { uart = u; uart_ringbuffer = b })
SameRest-devices k u b e = record {
  running = refl;
  frame = refl;
  cpu = refl;
  irqs = refl;
  timer = refl;
  printed = e;
  counters = refl;
  gets = λ t small. inl (record { status = refl; kept = refl; nothing = refl });
}

pub SameRest-trans :
    (gs hs : Gifts) (i j k : Kernel) → SameRest gs i j → SameRest hs j k → SameRest (gs ++ hs) i k
SameRest-trans gs hs i j k first next = record {
  running = next.running ∙ first.running;
  frame = next.frame ∙ first.frame;
  cpu = next.cpu ∙ first.cpu;
  irqs = next.irqs ∙ first.irqs;
  timer = next.timer ∙ first.timer;
  printed = next.printed ∙ first.printed;
  counters = next.counters ∙ first.counters;
  gets = λ t small. Gets-trans gs hs t i j k (first.gets t small) (next.gets t small);
}
