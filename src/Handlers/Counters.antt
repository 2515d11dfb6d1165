-- ===== src/Handlers/Counters.antt =====
-- kernel/handlers.c: what the exceptions leave of the counters of sleeping threads.
use betriebssysteme.Common.{ℕ, ◌-◌, ◌≡◌, arith, refl, ap, ◌∙◌, true, false, if◌then◌else◌, has}
use betriebssysteme.Handlers.{handle_irq}
use betriebssysteme.Handlers.User.{arrived, is_due-same, gifts}
use betriebssysteme.Kernel.{Kernel, ok}
use betriebssysteme.Scheduler.{
  scheduler_begin_exception, make_thread, find_free_thread_id, scheduler_tick_from_irq,
}
use betriebssysteme.Scheduler.Counters.{
  counter-create, counter-terminate, counter-tick, counter-wait, counter-sleep,
}
use betriebssysteme.Scheduler.Inv.{IsValid, IsValid-cong}
use betriebssysteme.Handlers.Served.{IsServed-begin}
use betriebssysteme.Systick.{systick_handle_irq, next_period}
use betriebssysteme.Systick.Period.{is_due, systick_idle}
use betriebssysteme.Uart.Deliver.{handle_irq_refines}
use betriebssysteme.Uart.Spec.{Inbox, IsServed}
use betriebssysteme.Scheduler.Wake.{counter}
use betriebssysteme.Thread.{ThreadPtr, SavedRegisters}
use betriebssysteme.Handlers.Kept.{IsKept}

pub counter-IsKept : (t : ThreadPtr) → IsKept t (λ k. counter k t)
unfolding make_thread
counter-IsKept t = record {
  begins = λ regs k. refl;
  sends = λ cs k. refl;
  stores = λ b k. refl;
  terminates = λ k. counter-terminate t k;
  waits = λ q k ne. counter-wait t q k;
  sleeps = λ cycles k ne. counter-sleep t cycles k ne;
  creates =
      λ layout fn arg size k alive. counter-create t k layout fn arg size (find_free_thread_id k);
}

tick_at :
    (k : Kernel) (i : Inbox)
    → IsServed k i
    → is_due k ≡ true
    → (k' : Kernel) × (systick_handle_irq k ≡ ok tt k')
      × ((t : ThreadPtr)
          → counter k' t ≡ (if has t i.queues.sleep then counter k t - 1 else counter k t))
unfolding systick_handle_irq
tick_at k i v due =
    let k0 : Kernel = record k { timer = next_period k.timer } in
    let valid : IsValid k0 i.queues =
      IsValid-cong k k0 i.queues v.scheduled refl refl (λ t. refl) in
    let (k', done, counters) = counter-tick k0 i.queues valid v.started in
    let on : systick_handle_irq k ≡ scheduler_tick_from_irq k0 = ground arith in
    (k', on ∙ done, counters)

module _ (regs : SavedRegisters) (k : Kernel) (i : Inbox) (v : IsServed k i) where
  -- An interrupt with a tick takes one from the counters of the threads that sleep.
  pub counter-due :
      is_due k ≡ true
      → (k' : Kernel) × (handle_irq regs k ≡ ok tt k')
        × ((t : ThreadPtr)
            → counter k' t
              ≡ (if has t (arrived k i).queues.sleep then counter k t - 1 else counter k t))
  unfolding handle_irq scheduler_begin_exception
  counter-due e =
      let k0 : Kernel = scheduler_begin_exception regs k in
      let (k1, done, v1, same) = handle_irq_refines k0 i (IsServed-begin regs k i v) in
      let (k2, end, counters) =
        tick_at k1 (arrived k i) v1 (is_due-same (gifts k i) k0 k1 same ∙ e) in
      let before : (t : ThreadPtr) → counter k1 t ≡ counter k t =
        λ t. ap (λ (c : ThreadPtr → ℕ). c t) same.counters in
      rw done (k2, end, λ t. counters t ∙ rw (before t) refl)

  -- Any other interrupt leaves them.
  pub counter-idle :
      is_due k ≡ false
      → (k' : Kernel) × (handle_irq regs k ≡ ok tt k')
        × ((t : ThreadPtr) → counter k' t ≡ counter k t)
  unfolding handle_irq scheduler_begin_exception
  counter-idle e =
      let k0 : Kernel = scheduler_begin_exception regs k in
      let (k1, done, v1, same) = handle_irq_refines k0 i (IsServed-begin regs k i v) in
      rw done (
        k1,
        systick_idle k1 (is_due-same (gifts k i) k0 k1 same ∙ e),
        λ t. ap (λ (c : ThreadPtr → ℕ). c t) same.counters,
      )
