-- ===== src/Tests/Devices.antt =====
-- arch/bsp and arch/cpu, and lib/mem.c, on concrete input.
use betriebssysteme.Common.{◌≡◌, refl, true, ◌+◌, ◌/◌, ◌%◌, [], ◌∷◌}
use betriebssysteme.Cpu.{Cpu, cpu_mode_svc, cpu_mode_usr}
use betriebssysteme.Devices.InterruptController.{InterruptControllerRegs}
use betriebssysteme.Devices.SystemTimer.{
  SystemTimerRegs, system_timer_check_compare, system_timer_clear_interrupt,
}
use betriebssysteme.Devices.SystemTimer.Flags.{check-clear}
use betriebssysteme.Mem.{memcmp, memmove}
use betriebssysteme.Mem.Compare.{less, sign, compare, memcmp-compare}
use betriebssysteme.Mem.Copy.{copied, memmove-copied}

abbrev cpu : Cpu
cpu = record {
  cpsr = cpu_mode_svc;
  lr = λ b. 7;
  sp = λ b. 9;
  spsr = λ b. cpu_mode_usr;
  dfsr = 5;
  dfar = 0;
  ifsr = 7;
  ifar = 0;
  vbar = 0;
  unpredictable = 0;
}

abbrev irqs : InterruptControllerRegs
irqs = record {
  irq_basic_pending = 0;
  irq_pending_1 = 0;
  irq_pending_2 = 0;
  fiq_control = 0;
  enable_irqs_1 = 0;
  enable_irqs_2 = 0;
  enable_basic_irqs = 0;
  disable_irqs_1 = 0;
  disable_irqs_2 = 0;
  disable_basic_irqs = 0;
}

-- Overlapping areas, byte 101 of the result.
memmove-copied_example : memmove 101 100 8 (λ a. a) 101 ≡ copied 101 100 8 (λ a. a) 101
memmove-copied_example = memmove-copied 101 100 8 (λ a. a) 101

-- Two strings that differ in their third byte.
memcmp-compare_example :
    sign (memcmp 0 8 4 (λ a. a % 8 + a / 10)) ≡ compare (0 ∷ 1 ∷ 2 ∷ 3 ∷ []) (0 ∷ 1 ∷ 3 ∷ 4 ∷ [])
memcmp-compare_example = memcmp-compare 0 8 4 (λ a. a % 8 + a / 10)

finds_less : sign (memcmp 0 8 4 (λ a. a % 8 + a / 10)) ≡ less
unfolding memcmp
finds_less = refl

-- Channels 1 and 3 have matched.
abbrev matched : SystemTimerRegs
matched = record { cs = 10; clo = 0; chi = 0; c0 = 0; c1 = 0; c2 = 0; c3 = 0 }

check-clear_example :
    (system_timer_check_compare 3 (system_timer_clear_interrupt 1 matched).regs).value ≡ true
unfolding system_timer_check_compare
check-clear_example = check-clear 1 3 matched
