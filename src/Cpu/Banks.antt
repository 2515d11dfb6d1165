-- ===== src/Cpu/Banks.antt =====
-- What the accesses of arch/cpu/registers.c by mode do, in whatever mode the processor is.
use betriebssysteme.Common.{ℕ, ◌≡◌, arith, true, false, some}
use betriebssysteme.Cpu.{
  Bank, Cpu, is_own_bank, mrs_banked, msr_banked, psr_mode, share_register_bank, bank_of_mode,
  current_bank, set_bank, read_lr, read_sp, read_lr_mode, read_sp_mode, write_lr_mode,
  write_sp_mode,
}

-- In a mode that has registers, an access by mode reaches the bank of its mode, also where it goes
-- through the registers of the current mode.
shared_bank :
    (cpu : Cpu) (mode : ℕ) (b : Bank)
    → bank_of_mode mode ≡ some b
    → share_register_bank (psr_mode cpu.cpsr) mode ≡ true
    → current_bank cpu ≡ b
unfolding share_register_bank bank_of_mode current_bank
shared_bank cpu mode b e s = ground arith

-- Else the bank of its mode is another than that of the current mode.
other_bank :
    (cpu : Cpu) (mode : ℕ) (b : Bank)
    → bank_of_mode mode ≡ some b
    → share_register_bank (psr_mode cpu.cpsr) mode ≡ false
    → is_own_bank b cpu ≡ false
unfolding share_register_bank bank_of_mode is_own_bank
other_bank cpu mode b e s = ground arith

module _ (cpu : Cpu) (mode : ℕ) (b : Bank) (e : bank_of_mode mode ≡ some b) where
  pub read_lr_mode_lem : read_lr_mode mode cpu ≡ cpu.lr b
  unfolding read_lr_mode read_lr mrs_banked bank_of_mode
  read_lr_mode_lem = ground (arith, shared_bank cpu mode b e, other_bank cpu mode b e)

  pub read_sp_mode_lem : read_sp_mode mode cpu ≡ cpu.sp b
  unfolding read_sp_mode read_sp mrs_banked bank_of_mode
  read_sp_mode_lem = ground (arith, shared_bank cpu mode b e, other_bank cpu mode b e)

  pub write_lr_mode_lem :
      (v : ℕ) → write_lr_mode mode v cpu ≡ record cpu { lr = set_bank cpu.lr b v }
  unfolding write_lr_mode msr_banked bank_of_mode
  write_lr_mode_lem v = ground (arith, shared_bank cpu mode b e, other_bank cpu mode b e)

  pub write_sp_mode_lem :
      (v : ℕ) → write_sp_mode mode v cpu ≡ record cpu { sp = set_bank cpu.sp b v }
  unfolding write_sp_mode msr_banked bank_of_mode
  write_sp_mode_lem v = ground (arith, shared_bank cpu mode b e, other_bank cpu mode b e)
