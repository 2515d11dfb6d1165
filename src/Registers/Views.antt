-- ===== src/Registers/Views.antt =====
-- Registers are read both as words with masks and by their bit-fields.
use betriebssysteme.Common.{ℕ, ◌^◌, ◌≡◌, ◌==◌, arith, refl, sym, ◌∙◌, some, get_elem?, ==_iff, true}
use betriebssysteme.Common.Bits.Single.{test_bit-digit, test_bit-or}
use betriebssysteme.Common.Words.{test_bit}
use betriebssysteme.Cpu.{psr_mode, set_psr_mode}
use betriebssysteme.Kernel.{Uart}
use betriebssysteme.Registers.{
  place, places, Register, psr, uart_irq_bits, uart_lcrh, fields, end_of, uart_fr, read_field,
  write_field, mode_field, rx_field, fen_field,
}
use betriebssysteme.Uart.{uart_rx, uart_enable_irq, uart_check_irq}
use Prim.Native.Nat.{bit_or}

pub test_bit-read_field : (r bit : ℕ) → test_bit r bit ≡ (read_field (bit, 1) r == 1)
unfolding read_field
test_bit-read_field r bit = test_bit-digit r bit

-- `psr.d.mode` is the number that the mode is.
pub psr_mode-read_field :
    (r : ℕ)
    → (get_elem? (places 0 (fields psr)) 0 ≡ some mode_field)
      × (read_field mode_field r ≡ psr_mode r)
unfolding places place read_field
psr_mode-read_field r = (refl, omega arith)

pub set_psr_mode-write_field : (mode r : ℕ) → write_field mode_field mode r ≡ set_psr_mode mode r
unfolding write_field
set_psr_mode-write_field mode r = omega arith

-- The number `UART_RX`, with which the driver shifts its masks, is the place of the bit-field `rx` of the
-- interrupt registers: `uart_enable_irq` sets it, and `uart_check_irq` tests it.
pub uart_rx_views :
    (u : Uart)
    → (get_elem? (places 0 (fields uart_irq_bits)) 4 ≡ some rx_field)
      × (uart_check_irq uart_rx u ≡ (read_field rx_field u.mis == 1))
      × (read_field rx_field (uart_enable_irq uart_rx u).imsc ≡ 1)
unfolding places place uart_check_irq uart_enable_irq
uart_rx_views u =
    let set : (read_field rx_field (bit_or u.imsc (2 ^ 4)) == 1) ≡ true =
      sym (test_bit-read_field (bit_or u.imsc (2 ^ 4)) 4) ∙ test_bit-or u.imsc 4 in
    (refl, test_bit-read_field u.mis 4, (==_iff _ 1).0 set)

-- `lcrh.d.fen`, and the sizes that the headers assert: each register is a word.
fen_field-places : get_elem? (places 0 (fields uart_lcrh)) 4 ≡ some fen_field
unfolding places place
fen_field-places = refl

pub register_bits : (reg : Register) → end_of 0 (fields reg) ≡ 32
unfolding end_of place
register_bits psr = refl
register_bits uart_fr = refl
register_bits uart_irq_bits = refl
register_bits uart_lcrh = refl
