-- ===== src/Systick/Period.antt =====
-- kernel/systick.c: what one timer interrupt does to the scheduler and to the timer.
use betriebssysteme.Common.{◌≡◌, arith, refl, ap, ◌∙◌, Bool, true, false, ◌&&◌, ◌⊎◌, []}
use betriebssysteme.Common.Words.{add_u32}
use betriebssysteme.Devices.InterruptController.{
  system_timer_c1_irq, interrupt_controller_check_pending,
}
use betriebssysteme.Devices.SystemTimer.{
  SystemTimerRegs, system_timer_check_compare, system_timer_clear_interrupt,
  system_timer_update_compare,
}
use betriebssysteme.Kernel.{Kernel, ok}
use betriebssysteme.Scheduler.{
  switch_to_next, scheduler_tick_from_irq, scheduler_run_next, scheduler_save_current,
  scheduler_replace_irq_context,
}
use betriebssysteme.Scheduler.Inv.{IsValid-cong}
use betriebssysteme.Scheduler.Sleepers.{update_sleepers_refines}
use betriebssysteme.Scheduler.Spec
use betriebssysteme.Scheduler.Tick.{tick_step, switch_refines}
use betriebssysteme.Scheduler.Waiters.{tick-wait}
use betriebssysteme.Scheduler.Wake.{counter}
use betriebssysteme.Systick.{
  systick_handle_irq, next_period, systick_timer_channel, systick_timer_interval,
}
use betriebssysteme.Uart.Spec.{Inbox, IsServed}

-- The switch of threads touches neither the buffer nor the timer.
switch-kept :
    (k : Kernel)
    → ((switch_to_next k).uart_ringbuffer ≡ k.uart_ringbuffer)
      × ((switch_to_next k).timer ≡ k.timer)
      × ((switch_to_next k).is_running ≡ k.is_running)
      × ((switch_to_next k).uart ≡ k.uart)
unfolding switch_to_next scheduler_run_next scheduler_save_current scheduler_replace_irq_context
switch-kept k = ground arith

-- Whether the timer interrupt is for the tick.
abbrev pub is_due : Kernel → Bool
is_due k =
    interrupt_controller_check_pending system_timer_c1_irq k.irqs
    && (system_timer_check_compare systick_timer_channel k.timer).value

waits_on :
    (k : Kernel) (i : Inbox)
    → IsServed k i
    → ((Spec.tick (counter k) i.queues).wait ≡ []) ⊎ (i.stored ≡ [])
waits_on k i v = rw (tick-wait (counter k) i.queues) v.no_lost

module _ (k : Kernel) (i : Inbox) (v : IsServed k i) where
  pub tick-Served :
      (k' : Kernel) × (scheduler_tick_from_irq k ≡ ok tt k')
      × IsServed k' (record i { queues = Spec.tick (counter k) i.queues })
      × (k'.timer ≡ k.timer)
      × (k'.uart ≡ k.uart)
  unfolding Spec.tick
  tick-Served =
      let (k1, done, valid, passed) = update_sleepers_refines k i.queues v.scheduled in
      let (ring, timer, on, device) = switch-kept k1 in
      let same : k1.uart_ringbuffer ≡ k.uart_ringbuffer =
        ap (λ (x : Kernel). x.uart_ringbuffer) passed.others in
      (
        switch_to_next k1,
        tick_step k k1 v.started done,
        record {
          scheduled = switch_refines k1 (Spec.wake (counter k) i.queues) valid;
          buffer = rw (ring, same) v.buffer;
          holds = rw (ring, same) v.holds;
          started = on ∙ ap (λ (x : Kernel). x.is_running) passed.others ∙ v.started;
          no_lost = waits_on k i v;
        },
        timer ∙ ap (λ (x : Kernel). x.timer) passed.others,
        device ∙ ap (λ (x : Kernel). x.uart) passed.others,
      )

-- The state in which the tick of a timer interrupt runs.
abbrev pub armed : Kernel → Kernel
armed k = record k { timer = next_period k.timer }

armed-IsServed : (k : Kernel) (i : Inbox) → IsServed k i → IsServed (armed k) i
armed-IsServed k i v = record {
  scheduled = IsValid-cong k (armed k) i.queues v.scheduled refl refl (λ t. refl);
  buffer = v.buffer;
  holds = v.holds;
  started = v.started;
  no_lost = v.no_lost;
}

systick_due :
    (k : Kernel) → is_due k ≡ true → systick_handle_irq k ≡ scheduler_tick_from_irq (armed k)
unfolding systick_handle_irq
systick_due k due = ground arith

-- A tick prints nothing.
pub systick_silent :
    (k : Kernel) (i : Inbox)
    → IsServed k i
    → is_due k ≡ true
    → (k' : Kernel) × (systick_handle_irq k ≡ ok tt k') × (k'.uart ≡ k.uart)
systick_silent k i v due =
    let (k', done, served, timer, device) = tick-Served (armed k) i (armed-IsServed k i v) in
    (k', systick_due k due ∙ done, device)

-- A timer interrupt that is due runs one tick of the scheduler, and moves the compare register by
-- exactly one interval from where it stood: the period does not depend on when the handler runs.
pub systick_refines :
    (k : Kernel) (i : Inbox)
    → IsServed k i
    → is_due k ≡ true
    → (k' : Kernel) × (systick_handle_irq k ≡ ok tt k')
      × IsServed k' (record i { queues = Spec.tick (counter k) i.queues })
      × (k'.timer.c1 ≡ add_u32 k.timer.c1 systick_timer_interval)
unfolding next_period system_timer_clear_interrupt system_timer_update_compare
systick_refines k i v due =
    let (k', done, served, timer, device) = tick-Served (armed k) i (armed-IsServed k i v) in
    (k', systick_due k due ∙ done, served, ap (λ (t : SystemTimerRegs). t.c1) timer)

-- Any other interrupt leaves the kernel as it is.
pub systick_idle : (k : Kernel) → is_due k ≡ false → systick_handle_irq k ≡ ok tt k
unfolding systick_handle_irq
systick_idle k off = ground arith
