-- ===== src/Systick.antt =====
-- kernel/systick.c: the periodic tick, on channel 1 of the system timer.
pub mod Period
use betriebssysteme.Common.{ℕ, Bool, true, false, ◌&&◌, not, ◌||◌, if◌then◌else◌}
use betriebssysteme.Devices.InterruptController.{
  system_timer_c1_irq, interrupt_controller_enable_irq, interrupt_controller_check_pending,
}
use betriebssysteme.Devices.SystemTimer.{
  SystemTimerRegs, system_timer_set_interval, system_timer_check_compare,
  system_timer_clear_interrupt, system_timer_update_compare,
}
use betriebssysteme.Kernel.{Kernel, Cmd, ok}
use betriebssysteme.Scheduler.{scheduler_tick_from_irq}

-- `SYSTICK_TIMER_CHANNEL`, for which no function prints the message about an invalid channel.
abbrev pub systick_timer_channel : ℕ
systick_timer_channel = 1

-- `TIMER_INTERVAL` in microseconds.
abbrev pub systick_timer_interval : ℕ
systick_timer_interval = 1000000

unfoldable pub systick_init : Kernel → Kernel
systick_init k = record k {
  irqs = interrupt_controller_enable_irq system_timer_c1_irq k.irqs;
  timer = (system_timer_set_interval systick_timer_channel systick_timer_interval k.timer).regs;
}

-- The two writes to the timer, in order.
unfoldable pub next_period : SystemTimerRegs → SystemTimerRegs
next_period t =
    (system_timer_update_compare systick_timer_channel systick_timer_interval
      (system_timer_clear_interrupt systick_timer_channel t).regs).regs

unfoldable pub systick_handle_irq : Cmd (Unit {0})
systick_handle_irq k =
    if not (interrupt_controller_check_pending system_timer_c1_irq k.irqs)
      || not (system_timer_check_compare systick_timer_channel k.timer).value
    then ok tt k
    else scheduler_tick_from_irq (record k { timer = next_period k.timer })

unfoldable pub systick_postpone : Kernel → Kernel
systick_postpone k = record k {
  timer = (system_timer_set_interval systick_timer_channel systick_timer_interval k.timer).regs;
}
