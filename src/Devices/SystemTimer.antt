-- ===== src/Devices/SystemTimer.antt =====
-- arch/bsp/system_timer.c: the four compare channels of the system timer.
pub mod Flags
use Prim.Native.Nat.{bit_and}
use betriebssysteme.Common.{ℕ, ◌-◌, ◌^◌, Bool, true, false, ◌==◌, if◌then◌else◌}
use betriebssysteme.Common.Words.{add_u32, test_bit}

-- `struct system_timer_regs`. Writing a one to a match bit of `cs` clears it in the device.
pub record SystemTimerRegs : Type 0 where
  pub cs : ℕ
  pub clo : ℕ
  pub chi : ℕ
  pub c0 : ℕ
  pub c1 : ℕ
  pub c2 : ℕ
  pub c3 : ℕ

-- What a function leaves and returns; `invalid` says that it printed "Invalid timer channel".
pub record Reply (A : Type 0) : Type 0 where
  pub regs : SystemTimerRegs
  pub value : A
  pub invalid : Bool

abbrev pub reply : {A : Type 0} → SystemTimerRegs → A → Bool → Reply A
reply t a b = record { regs = t; value = a; invalid = b }

-- `switch (channel)` with a case for each of the four channels.
abbrev pub by_channel : {A : Type 0} → ℕ → A → A → A → A → A → A
by_channel channel a0 a1 a2 a3 other =
    if channel == 0
    then a0
    else if channel == 1
    then a1
    else if channel == 2
    then a2
    else if channel == 3
    then a3
    else other

unfoldable pub system_timer_set_interval : ℕ → ℕ → SystemTimerRegs → Reply (Unit {0})
system_timer_set_interval channel interval_us t =
    let compare : ℕ = add_u32 t.clo interval_us in
    by_channel channel (reply (record t { c0 = compare }) tt false)
      (reply (record t { c1 = compare }) tt false) (reply (record t { c2 = compare }) tt false)
      (reply (record t { c3 = compare }) tt false) (reply t tt true)

unfoldable pub system_timer_check_compare : ℕ → SystemTimerRegs → Reply Bool
unfolding test_bit
system_timer_check_compare channel t =
    by_channel channel (reply t (test_bit t.cs 0) false) (reply t (test_bit t.cs 1) false)
      (reply t (test_bit t.cs 2) false) (reply t (test_bit t.cs 3) false) (reply t false true)

-- The device's side of `SYSTEM_TIMER->cs.r = v`: each bit that `v` has is cleared.
abbrev pub write_cs : ℕ → SystemTimerRegs → SystemTimerRegs
write_cs v t = record t { cs = bit_and t.cs (2 ^ 32 - 1 - v) }

-- On an invalid channel the zero is written all the same.
unfoldable pub system_timer_clear_interrupt : ℕ → SystemTimerRegs → Reply (Unit {0})
system_timer_clear_interrupt channel t =
    by_channel channel (reply (write_cs 1 t) tt false) (reply (write_cs 2 t) tt false)
      (reply (write_cs 4 t) tt false) (reply (write_cs 8 t) tt false) (reply (write_cs 0 t) tt true)

unfoldable pub system_timer_update_compare : ℕ → ℕ → SystemTimerRegs → Reply (Unit {0})
system_timer_update_compare channel interval_us t =
    by_channel channel (reply (record t { c0 = add_u32 t.c0 interval_us }) tt false)
      (reply (record t { c1 = add_u32 t.c1 interval_us }) tt false)
      (reply (record t { c2 = add_u32 t.c2 interval_us }) tt false)
      (reply (record t { c3 = add_u32 t.c3 interval_us }) tt false) (reply t tt true)

unfoldable pub system_timer_get_counter : SystemTimerRegs → ℕ
system_timer_get_counter t = t.clo
