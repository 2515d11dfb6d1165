-- ===== src/Devices/SystemTimer/Flags.antt =====
-- arch/bsp/system_timer.c: the match flags of the four channels, tested and cleared.
use Prim.Native.Nat.{bit_and}
use betriebssysteme.Common.{
  ℕ, ◌-◌, ◌^◌, ◌≡◌, arith, ◌==◌, ◌&&◌, not, false, if◌then◌else◌, refl, ap, ◌∙◌,
}
use betriebssysteme.Common.Bits.Single.{test_bit-and}
use betriebssysteme.Common.Words.{test_bit}
use betriebssysteme.Devices.SystemTimer.{
  SystemTimerRegs, system_timer_check_compare, system_timer_clear_interrupt,
}

-- The tests of the four flags in a register of which a mask has been cleared.
abbrev Masked : ℕ → ℕ → Type 0
Masked cs mask =
    (test_bit (bit_and cs (2 ^ 32 - 1 - mask)) 0 ≡ (test_bit cs 0 && not (mask == 1)))
    × (test_bit (bit_and cs (2 ^ 32 - 1 - mask)) 1 ≡ (test_bit cs 1 && not (mask == 2)))
    × (test_bit (bit_and cs (2 ^ 32 - 1 - mask)) 2 ≡ (test_bit cs 2 && not (mask == 4)))
    × (test_bit (bit_and cs (2 ^ 32 - 1 - mask)) 3 ≡ (test_bit cs 3 && not (mask == 8)))

Masked-intro :
    (cs mask : ℕ)
    → test_bit (2 ^ 32 - 1 - mask) 0 ≡ not (mask == 1)
    → test_bit (2 ^ 32 - 1 - mask) 1 ≡ not (mask == 2)
    → test_bit (2 ^ 32 - 1 - mask) 2 ≡ not (mask == 4)
    → test_bit (2 ^ 32 - 1 - mask) 3 ≡ not (mask == 8)
    → Masked cs mask
Masked-intro cs mask e0 e1 e2 e3 =
    let m : ℕ = 2 ^ 32 - 1 - mask in
    (
      test_bit-and cs m 0 ∙ ap (λ t. test_bit cs 0 && t) e0,
      test_bit-and cs m 1 ∙ ap (λ t. test_bit cs 1 && t) e1,
      test_bit-and cs m 2 ∙ ap (λ t. test_bit cs 2 && t) e2,
      test_bit-and cs m 3 ∙ ap (λ t. test_bit cs 3 && t) e3,
    )

flags-Masked : (cs : ℕ) → Masked cs 0 × Masked cs 1 × Masked cs 2 × Masked cs 4 × Masked cs 8
unfolding test_bit
flags-Masked cs = (
  Masked-intro cs 0 refl refl refl refl,
  Masked-intro cs 1 refl refl refl refl,
  Masked-intro cs 2 refl refl refl refl,
  Masked-intro cs 4 refl refl refl refl,
  Masked-intro cs 8 refl refl refl refl,
)

-- Clearing the interrupt of a channel clears its match flag, and what `system_timer_check_compare` says
-- of every other channel stays, whether the channels exist or not.
pub check-clear :
    (a b : ℕ) (t : SystemTimerRegs)
    → (system_timer_check_compare b (system_timer_clear_interrupt a t).regs).value
      ≡ (if a == b then false else (system_timer_check_compare b t).value)
unfolding system_timer_check_compare system_timer_clear_interrupt
check-clear a b t = ground (arith, flags-Masked t.cs)
