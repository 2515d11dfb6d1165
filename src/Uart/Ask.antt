-- ===== src/Uart/Ask.antt =====
-- arch/bsp/uart.c: what becomes of a thread that asks for a character.
use mathlib.Core.Option
use mathlib.Core.Path.{subst}
use Prim.Native.Nat.{bit_and}
use betriebssysteme.Common.Words.{add_u32}
use betriebssysteme.Common.{
  get_or, ℕ, ◌<◌, ◌≡◌, inl, inr, arith, refl, sym, ap, ◌∙◌, true, false, none, some, List, [], ◌∷◌,
  Bool-cases,
}
use betriebssysteme.Kernel.{Kernel, Run, ok, uart_wait_queue}
use betriebssysteme.RingBuffer.{RingBuff, buff_getc, buff_is_empty}
use betriebssysteme.RingBuffer.Fifo
use betriebssysteme.RingBuffer.Refine.{contents, getc_refines, getc-IsValid}
use betriebssysteme.Scheduler.Turn.{wait_refines}
use betriebssysteme.Scheduler.{
  scheduler_wait_running_from_irq, run_next_in_queue, scheduler_run_next,
  scheduler_replace_irq_context, scheduler_save_current, scheduler_prepare_svc_return,
}
use betriebssysteme.Scheduler.Inv.{IsValid-cong}
use betriebssysteme.Thread.{SavedRegisters}
use betriebssysteme.Uart.{return_char, uart_user_getc}
use betriebssysteme.Uart.Spec.{Inbox, IsServed, ask_from}

pop-none : (q : List ℕ) → none ≡ Fifo.pop q → q ≡ []
unfolding Fifo.pop
pop-none [] e = refl
pop-none (c ∷ q) e = ground arith

pop-some : (c : ℕ) (q p : List ℕ) → some (c, q) ≡ Fifo.pop p → p ≡ c ∷ q
unfolding Fifo.pop
pop-some c q [] e = ground arith
pop-some c q (d ∷ p) e = ground arith

-- What a request for a character comes to when the buffer holds the list.
abbrev pub Asked : Kernel → Inbox → List ℕ → Run (Unit {0}) → Type 0
Asked k i [] r = (k' : Kernel) × (r ≡ ok tt k') × IsServed k' (ask_from [] i)
Asked k i (c ∷ q) r =
    (k' : Kernel) × (r ≡ ok tt k')
    × IsServed k' (ask_from (c ∷ q) i)
    × (let f : SavedRegisters = k.frame in k'.frame ≡ record f { r0 = c })
    × (k'.cpu ≡ k.cpu)

abbrev with_contents : ℕ × RingBuff → ℕ × List ℕ
with_contents (c, b) = (c, contents b)

getc-empty : (b : RingBuff) → buff_is_empty b ≡ true → buff_getc b ≡ none
unfolding buff_getc
getc-empty b e = rw e refl

pub getc-more :
    (b : RingBuff)
    → buff_is_empty b ≡ false
    → (c : ℕ) × (b' : RingBuff) × (buff_getc b ≡ some (c, b'))
unfolding buff_getc
getc-more b e =
    (get_or b.buffer (bit_and b.tail b.mask) 0, record b { tail = add_u32 b.tail 1 }, rw e refl)

-- A thread that waits leaves the rest of the kernel's state alone.
wait-ring :
    (k : Kernel)
    → (scheduler_wait_running_from_irq uart_wait_queue k).uart_ringbuffer ≡ k.uart_ringbuffer
unfolding scheduler_wait_running_from_irq run_next_in_queue scheduler_run_next
    scheduler_replace_irq_context scheduler_save_current
wait-ring k = refl

wait-started :
    (k : Kernel) → (scheduler_wait_running_from_irq uart_wait_queue k).is_running ≡ k.is_running
unfolding scheduler_wait_running_from_irq run_next_in_queue scheduler_run_next
    scheduler_replace_irq_context scheduler_save_current
wait-started k = refl

module _ (k : Kernel) (i : Inbox) (v : IsServed k i) where
  ask_empty :
      i.queues.current < 32
      → buff_is_empty k.uart_ringbuffer ≡ true
      → Asked k i i.stored (uart_user_getc k)
  unfolding uart_user_getc
  ask_empty user e =
      let k' : Kernel = scheduler_wait_running_from_irq uart_wait_queue k in
      let none_left : i.stored ≡ [] =
        sym v.holds
        ∙ pop-none (contents k.uart_ringbuffer) (
            sym (ap (Option.map with_contents) (getc-empty k.uart_ringbuffer e))
            ∙ getc_refines 7 k.uart_ringbuffer v.buffer) in
      subst (λ w. Asked k i w (uart_user_getc k)) (sym none_left)
        (
          k',
          rw e refl,
          record {
            scheduled = wait_refines k i.queues v.scheduled user;
            buffer = rw (wait-ring k) v.buffer;
            holds = rw (wait-ring k) v.holds;
            started = wait-started k ∙ v.started;
            no_lost = inr none_left;
          },
        )

  ask_more :
      (c : ℕ) (b : RingBuff)
      → buff_is_empty k.uart_ringbuffer ≡ false
      → buff_getc k.uart_ringbuffer ≡ some (c, b)
      → Asked k i i.stored (uart_user_getc k)
  unfolding uart_user_getc return_char scheduler_prepare_svc_return
  ask_more c b e get =
      let some_left : i.stored ≡ c ∷ contents b =
        sym v.holds
        ∙ pop-some c (contents b) (contents k.uart_ringbuffer)
            (sym (ap (Option.map with_contents) get) ∙ getc_refines 7 k.uart_ringbuffer v.buffer) in
      let k' : Kernel = scheduler_prepare_svc_return c (record k { uart_ringbuffer = b }) in
      subst (λ w. Asked k i w (uart_user_getc k)) (sym some_left)
        (
          k',
          rw (e, get) refl,
          record {
            scheduled = IsValid-cong k k' i.queues v.scheduled refl refl (λ t. refl);
            buffer = getc-IsValid 7 k.uart_ringbuffer v.buffer c b get;
            holds = refl;
            started = v.started;
            no_lost = inl (ground (arith, v.no_lost));
          },
          refl,
          refl,
        )

  -- A user thread that asks for a character gets the oldest one of the buffer in its `r0`; from an
  -- empty buffer it goes to the end of the queue of waiting threads and the next ready thread runs.
  pub user_getc_refines : i.queues.current < 32 → Asked k i i.stored (uart_user_getc k)
  user_getc_refines user = elim (Bool-cases (buff_is_empty k.uart_ringbuffer)) [
    | inl e ↦ ask_empty user e
    | inr e ↦ let (c, b, get) = getc-more k.uart_ringbuffer e in ask_more c b e get
  ]
