-- ===== src/Devices/YellowLed.antt =====
-- arch/bsp/yellow_led.c and the registers of include/arch/bsp/gpio.h that it writes.
use Prim.Native.Nat.{bit_and, bit_or}
use betriebssysteme.Common.{ℕ, ◌-◌, ◌*◌, ◌^◌}

-- `struct gpio`, with the first word of each array of registers.
pub record Gpio : Type 0 where
  pub func : ℕ
  pub set : ℕ
  pub clr : ℕ

abbrev yellow_led : ℕ
yellow_led = 7

abbrev yellow_led_gpf_shift : ℕ
yellow_led_gpf_shift = yellow_led * 3

abbrev gpio_output : ℕ
gpio_output = 1

-- `(func & ~(GPF_MASK << SHIFT)) | (gpio_output << SHIFT)`
unfoldable pub init_yellow : Gpio → Gpio
init_yellow g = record g {
  func =
      bit_or (bit_and g.func (2 ^ 32 - 1 - 7 * 2 ^ yellow_led_gpf_shift))
        (gpio_output * 2 ^ yellow_led_gpf_shift);
}

unfoldable pub yellow_on : Gpio → Gpio
yellow_on g = record g { set = 2 ^ yellow_led }

unfoldable pub yellow_off : Gpio → Gpio
yellow_off g = record g { clr = 2 ^ yellow_led }
