-- ===== src/Devices/InterruptController.antt =====
-- arch/bsp/interrupt_controller.c: the registers of the controller, and the driver.
use betriebssysteme.Common.{ℕ, ◌-◌, ◌^◌, ◌<◌, ◌≡◌, arith, Bool, leb, if◌then◌else◌}
use betriebssysteme.Common.Words.{test_bit}

-- `struct interrupt_controller_regs`
pub record InterruptControllerRegs : Type 0 where
  pub irq_basic_pending : ℕ
  pub irq_pending_1 : ℕ
  pub irq_pending_2 : ℕ
  pub fiq_control : ℕ
  pub enable_irqs_1 : ℕ
  pub enable_irqs_2 : ℕ
  pub enable_basic_irqs : ℕ
  pub disable_irqs_1 : ℕ
  pub disable_irqs_2 : ℕ
  pub disable_basic_irqs : ℕ

-- `enum irq_id`, by its values.
abbrev pub system_timer_c1_irq : ℕ
system_timer_c1_irq = 1

abbrev pub uart_irq : ℕ
uart_irq = 57

-- A line above 63 is none of `enum irq_id`; the shift of a wider count is undefined in C.
unfoldable pub interrupt_controller_enable_irq :
    ℕ → InterruptControllerRegs → InterruptControllerRegs
interrupt_controller_enable_irq irq c =
    if leb irq 31
    then record c { enable_irqs_1 = 2 ^ irq }
    else record c { enable_irqs_2 = 2 ^ (irq - 32) }

unfoldable pub interrupt_controller_disable_irq :
    ℕ → InterruptControllerRegs → InterruptControllerRegs
interrupt_controller_disable_irq irq c =
    if leb irq 31
    then record c { disable_irqs_1 = 2 ^ irq }
    else record c { disable_irqs_2 = 2 ^ (irq - 32) }

-- Both branches read `irq_pending_1`.
unfoldable pub interrupt_controller_check_pending : ℕ → InterruptControllerRegs → Bool
unfolding test_bit
interrupt_controller_check_pending irq c =
    if leb irq 31 then test_bit c.irq_pending_1 irq else test_bit c.irq_pending_1 (irq - 32)

-- For a line of the second bank the answer is that of the line 32 below it: the pending register of
-- the second bank is never looked at.
check_pending_second_bank :
    (irq v : ℕ) (c : InterruptControllerRegs)
    → 31 < irq
    → irq < 64
    → interrupt_controller_check_pending irq (record c { irq_pending_2 = v })
      ≡ interrupt_controller_check_pending (irq - 32) c
unfolding interrupt_controller_check_pending
check_pending_second_bank irq v c h k = ground arith
