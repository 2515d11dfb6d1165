-- ===== src/Uart/Deliver.antt =====
-- arch/bsp/uart.c keeps what Uart.Spec promises.
use mathlib.Core.Path.{subst, fun_ext}
use betriebssysteme.Scheduler.Wake.{counter}
use betriebssysteme.Common.{
  ℕ, ◌<◌, ◌%◌, ◌≡◌, inl, inr, arith, refl, sym, ap, ◌∙◌, Bool, List, [], ◌∷◌, if◌then◌else◌,
  Bool-cases, has, ◌==◌,
}
use betriebssysteme.Common.Words.{test_bit}
use betriebssysteme.Kernel.{Kernel, Uart, Run, ok, and_then, uart_wait_queue}
use betriebssysteme.RingBuffer.{buff_putc}
use betriebssysteme.RingBuffer.Fifo
use betriebssysteme.RingBuffer.Inv as RingInv
use betriebssysteme.RingBuffer.Refine.{contents, putc_refines}
use betriebssysteme.Scheduler.{Result, scheduler_notify_one_from_irq}
use betriebssysteme.Scheduler.Arrive.{Notified, notify_refines}
use betriebssysteme.Scheduler.Contexts.{program}
use betriebssysteme.Thread.{ThreadPtr}
use betriebssysteme.Scheduler.Inv.{IsValid-cong}
use betriebssysteme.Uart.{
  uart_rx, keep_char, receive_loop, uart_handle_irq, uart_check_irq, uart_clear_irq,
}
use betriebssysteme.Uart.Given.{given_from, given_all}
use betriebssysteme.Uart.Rest.{SameRest, SameRest-devices, SameRest-trans}
use betriebssysteme.Uart.Spec.{Inbox, IsServed, arrive_from, arrive_all}

-- The driver's registers are no part of the inbox.
pub IsServed-uart :
    (k : Kernel) (u : Uart) (i : Inbox) → IsServed k i → IsServed (record k { uart = u }) i
IsServed-uart k u i v = record {
  scheduled = IsValid-cong k (record k { uart = u }) i.queues v.scheduled refl refl (λ t. refl);
  buffer = v.buffer;
  holds = v.holds;
  started = v.started;
  no_lost = v.no_lost;
}

module _ (k : Kernel) (i : Inbox) (v : IsServed k i) (c : ℕ) (small : c < 256) where
  kept-IsServed :
      i.queues.wait ≡ []
      → IsServed
          (record k { uart_ringbuffer = (buff_putc k.uart_ringbuffer c).1 })
          (arrive_from [] c i)
  kept-IsServed e =
      let k' : Kernel = record k { uart_ringbuffer = (buff_putc k.uart_ringbuffer c).1 } in
      let put = putc_refines 7 k.uart_ringbuffer v.buffer c in
      record {
        scheduled = IsValid-cong k k' i.queues v.scheduled refl refl (λ t. refl);
        buffer = put.1;
        holds = ap (λ (p : Bool × List ℕ). p.1) put.0 ∙ ap (λ q. (Fifo.push 128 q c).1) v.holds;
        started = v.started;
        no_lost = inl e;
      }

  -- One character, according to who waits.
  char_step :
      (w : List ThreadPtr) (r : Run Result)
      → i.queues.wait ≡ w
      → Notified k i.queues c w r
      → (k' : Kernel) × (and_then r (keep_char c) ≡ ok tt k')
        × IsServed k' (arrive_from w c i)
        × SameRest (given_from w c) k k'
  unfolding keep_char
  char_step [] r e same = (
    record k { uart_ringbuffer = (buff_putc k.uart_ringbuffer c).1 },
    rw same refl,
    kept-IsServed e,
    SameRest-devices k k.uart (buff_putc k.uart_ringbuffer c).1 refl,
  )
  char_step (t ∷ ts) r waits (k', done, valid, same) = (
    k',
    rw done refl,
    record {
      scheduled = valid;
      buffer = subst (λ (x : Kernel). RingInv.IsValid 7 x.uart_ringbuffer) (sym same) v.buffer;
      holds = ap (λ (x : Kernel). contents x.uart_ringbuffer) same ∙ v.holds;
      started = ap (λ (x : Kernel). x.is_running) same ∙ v.started;
      no_lost = inr (ground (arith, v.no_lost));
    },
    record {
      running = ap (λ (x : Kernel). x.running) same;
      frame = ap (λ (x : Kernel). x.frame) same;
      cpu = ap (λ (x : Kernel). x.cpu) same;
      irqs = ap (λ (x : Kernel). x.irqs) same;
      timer = ap (λ (x : Kernel). x.timer) same;
      counters = ap counter same ∙ fun_ext λ u. ground arith;
      printed = ap (λ (x : Kernel). x.uart.tx) same;
      gets = λ u lt. elim (Bool-cases (u == t)) [
        | inl e ↦ inr (record {
          waits = ground (
            arith,
            v.scheduled.queued.placed u uart_wait_queue lt (omega arith),
            ap (has u) waits,
          );
          wakes = ap (λ (x : Kernel). (x.threads u).status) same ∙ ground arith;
          char = c;
          small = small;
          given = rw e refl;
          got = ap (λ (x : Kernel). program x u) same ∙ ground arith;
        })
        | inr e ↦ inl (record {
          status = ap (λ (x : Kernel). (x.threads u).status) same ∙ ground arith;
          kept = ap (λ (x : Kernel). program x u) same ∙ ground arith;
          nothing = rw e refl;
        })
      ];
    },
  )

receive_all :
    (cs : List ℕ) (k : Kernel) (i : Inbox)
    → IsServed k i
    → (k' : Kernel) × (receive_loop cs k ≡ ok tt k')
      × IsServed k' (arrive_all cs i)
      × SameRest (given_all cs i) k k'
unfolding receive_loop arrive_all given_all
receive_all [] k i v =
    let u : Uart = k.uart in
    (
      record k { uart = record u { rx = [] } },
      refl,
      IsServed-uart k (record u { rx = [] }) i v,
      SameRest-devices k (record u { rx = [] }) k.uart_ringbuffer refl,
    )
receive_all (dr ∷ rest) k i v =
    let u : Uart = k.uart in
    let u' : Uart = record u { rx = rest } in
    let k1 : Kernel = record k { uart = u' } in
    let v1 : IsServed k1 i = IsServed-uart k u' i v in
    let (k2, done, v2, same) =
      char_step k1 i v1 (dr % 256) (omega arith) i.queues.wait
        (scheduler_notify_one_from_irq uart_wait_queue (dr % 256) k1) refl
        (notify_refines k1 i.queues v1.scheduled (dr % 256)) in
    let (k3, done', v3, same') = receive_all rest k2 (arrive_from i.queues.wait (dr % 256) i) v2 in
    rw done (
      k3,
      done',
      v3,
      SameRest-trans [] (given_all (dr ∷ rest) i) k k1 k3
          (SameRest-devices k u' k.uart_ringbuffer refl)
          (SameRest-trans (given_from i.queues.wait (dr % 256)) _ k1 k2 k3 same same'),
    )

-- The interrupt handler delivers every character that has arrived, in order, each to the thread that
-- then waits longest or else to the buffer, which drops it when full. The handler always returns, and
-- leaves the processor, the timer, the interrupt controller, the counters of the sleepers, what has
-- been printed, and every thread that gets no character, alone; a thread that does finds it in its
-- `r0`, and is ready.
pub handle_irq_refines :
    (k : Kernel) (i : Inbox)
    → IsServed k i
    → (k' : Kernel) × (uart_handle_irq k ≡ ok tt k')
      × IsServed k' (if test_bit k.uart.mis uart_rx then arrive_all k.uart.rx i else i)
      × SameRest (if test_bit k.uart.mis uart_rx then given_all k.uart.rx i else []) k k'
unfolding uart_handle_irq uart_check_irq uart_clear_irq
handle_irq_refines k i v = elim (Bool-cases (test_bit k.uart.mis uart_rx)) [
  | inl e ↦
      let k0 : Kernel = record k { uart = uart_clear_irq uart_rx k.uart } in
      let (k', done, v', same) =
        receive_all k.uart.rx k0 i (IsServed-uart k (uart_clear_irq uart_rx k.uart) i v) in
      rw e (
        k',
        done,
        v',
        SameRest-trans [] (given_all k.uart.rx i) k k0 k'
            (SameRest-devices k (uart_clear_irq uart_rx k.uart) k.uart_ringbuffer refl) same,
      )
  | inr e ↦ rw e (k, refl, v, SameRest-devices k k.uart k.uart_ringbuffer refl)
]
