-- ===== src/Cpu.antt =====
-- include/arch/cpu/modes.h, include/arch/cpu/registers.h and arch/cpu/registers.c: processor modes,
-- the program status register, and the banked registers as the virtualisation extension reaches
-- them. The inline assembly of one instruction is a read or a write of one register.
pub mod Banks
use betriebssysteme.Common.{
  ℕ, zero, suc, ◌+◌, ◌-◌, ◌*◌, ◌/◌, ◌%◌, Bool, true, false, ◌&&◌, ◌||◌, Option, none, some, ◌==◌,
  if◌then◌else◌,
}

-- `enum cpu_mode`, by its values.
abbrev pub cpu_mode_usr : ℕ
cpu_mode_usr = 0x10

abbrev pub cpu_mode_fiq : ℕ
cpu_mode_fiq = 0x11

abbrev pub cpu_mode_irq : ℕ
cpu_mode_irq = 0x12

abbrev pub cpu_mode_svc : ℕ
cpu_mode_svc = 0x13

abbrev pub cpu_mode_abt : ℕ
cpu_mode_abt = 0x17

abbrev pub cpu_mode_und : ℕ
cpu_mode_und = 0x1B

abbrev pub cpu_mode_sys : ℕ
cpu_mode_sys = 0x1F

-- `psr.d.mode`, the low five bits of `psr.r`, and `psr.d.mode = mode`.
abbrev pub psr_mode : ℕ → ℕ
psr_mode r = r % 32

abbrev pub set_psr_mode : ℕ → ℕ → ℕ
set_psr_mode mode r = r / 32 * 32 + mode % 32

-- The register banks. USR and SYS share one.
pub data Bank : Type 0 where
  usr fiq irq svc abt und : Bank

abbrev pub bank_index : Bank → ℕ
bank_index usr = 0
bank_index fiq = 1
bank_index irq = 2
bank_index svc = 3
bank_index abt = 4
bank_index und = 5

-- A banked register holds a value in each bank.
abbrev pub Banked : Type 0
Banked = Bank → ℕ

abbrev pub set_bank : Banked → Bank → ℕ → Banked
set_bank f b v c = if bank_index b == bank_index c then v else f c

pub record Cpu : Type 0 where
  pub cpsr : ℕ
  pub lr : Banked
  pub sp : Banked
  -- The bank `usr` has no SPSR: its value is never read.
  pub spsr : Banked
  -- The fault registers of coprocessor 15.
  pub dfsr : ℕ
  pub dfar : ℕ
  pub ifsr : ℕ
  pub ifar : ℕ
  -- The address of the vector table.
  pub vbar : ℕ
  -- What a banked access leaves where the architecture does not say.
  pub unpredictable : ℕ

unfoldable pub share_register_bank : ℕ → ℕ → Bool
share_register_bank mode1 mode2 =
    if mode1 == mode2
    then true
    else ((mode1 == cpu_mode_usr || mode1 == cpu_mode_sys)
        && (mode2 == cpu_mode_usr || mode2 == cpu_mode_sys))

-- The bank of a mode, as the processor has it.
unfoldable pub bank_of_mode : ℕ → Option Bank
bank_of_mode mode =
    if mode == cpu_mode_usr || mode == cpu_mode_sys
    then some usr
    else if mode == cpu_mode_irq
    then some irq
    else if mode == cpu_mode_abt
    then some abt
    else if mode == cpu_mode_und
    then some und
    else if mode == cpu_mode_svc
    then some svc
    else if mode == cpu_mode_fiq
    then some fiq
    else none

-- The bank that a plain access to LR, SP or SPSR reaches, in the mode that the processor is in.
unfoldable pub current_bank : Cpu → Bank
unfolding bank_of_mode
current_bank cpu = elim (bank_of_mode (psr_mode cpu.cpsr)) [ some b ↦ b | none ↦ usr ]

unfoldable pub read_cpsr : Cpu → ℕ
read_cpsr cpu = cpu.cpsr

unfoldable pub read_dfsr : Cpu → ℕ
read_dfsr cpu = cpu.dfsr

unfoldable pub read_dfar : Cpu → ℕ
read_dfar cpu = cpu.dfar

unfoldable pub read_ifsr : Cpu → ℕ
read_ifsr cpu = cpu.ifsr

unfoldable pub read_ifar : Cpu → ℕ
read_ifar cpu = cpu.ifar

unfoldable pub read_lr : Cpu → ℕ
unfolding current_bank
read_lr cpu = cpu.lr (current_bank cpu)

unfoldable pub read_sp : Cpu → ℕ
unfolding current_bank
read_sp cpu = cpu.sp (current_bank cpu)

unfoldable pub read_spsr : Cpu → ℕ
unfolding current_bank
read_spsr cpu = cpu.spsr (current_bank cpu)

unfoldable pub write_spsr : ℕ → Cpu → Cpu
unfolding current_bank
write_spsr v cpu = record cpu { spsr = set_bank cpu.spsr (current_bank cpu) v }

-- A banked access of the virtualisation extension is for the banks of other modes. To the bank of the
-- mode that the processor is in it is unpredictable.
unfoldable pub is_own_bank : Bank → Cpu → Bool
unfolding bank_of_mode
is_own_bank b cpu = elim (bank_of_mode (psr_mode cpu.cpsr)) [
  | some own ↦ bank_index b == bank_index own
  | none ↦ false
]

-- `mrs %0, lr_x`, `mrs %0, sp_x` and `mrs %0, spsr_x`.
unfoldable pub mrs_banked : Banked → Bank → Cpu → ℕ
unfolding is_own_bank
mrs_banked f b cpu = if is_own_bank b cpu then cpu.unpredictable else f b

-- `msr lr_x, %0` and `msr sp_x, %0`.
unfoldable pub msr_banked : Banked → Bank → ℕ → Cpu → Banked
unfolding is_own_bank
msr_banked f b v cpu = set_bank f b (if is_own_bank b cpu then cpu.unpredictable else v)

unfoldable pub read_lr_mode : ℕ → Cpu → ℕ
unfolding share_register_bank mrs_banked read_lr
read_lr_mode mode cpu =
    if share_register_bank (psr_mode cpu.cpsr) mode
    then read_lr cpu
    else if mode == cpu_mode_usr || mode == cpu_mode_sys
    then mrs_banked cpu.lr usr cpu
    else if mode == cpu_mode_irq
    then mrs_banked cpu.lr irq cpu
    else if mode == cpu_mode_abt
    then mrs_banked cpu.lr abt cpu
    else if mode == cpu_mode_und
    then mrs_banked cpu.lr und cpu
    else if mode == cpu_mode_svc
    then mrs_banked cpu.lr svc cpu
    else if mode == cpu_mode_fiq
    then mrs_banked cpu.lr fiq cpu
    else 0

unfoldable pub read_sp_mode : ℕ → Cpu → ℕ
unfolding share_register_bank mrs_banked read_sp
read_sp_mode mode cpu =
    if share_register_bank (psr_mode cpu.cpsr) mode
    then read_sp cpu
    else if mode == cpu_mode_usr || mode == cpu_mode_sys
    then mrs_banked cpu.sp usr cpu
    else if mode == cpu_mode_irq
    then mrs_banked cpu.sp irq cpu
    else if mode == cpu_mode_abt
    then mrs_banked cpu.sp abt cpu
    else if mode == cpu_mode_und
    then mrs_banked cpu.sp und cpu
    else if mode == cpu_mode_svc
    then mrs_banked cpu.sp svc cpu
    else if mode == cpu_mode_fiq
    then mrs_banked cpu.sp fiq cpu
    else 0

unfoldable pub read_spsr_mode : ℕ → Cpu → ℕ
unfolding mrs_banked read_spsr
read_spsr_mode mode cpu =
    if psr_mode cpu.cpsr == cpu_mode_usr
    then 0
    else if psr_mode cpu.cpsr == mode
    then read_spsr cpu
    else if mode == cpu_mode_irq
    then mrs_banked cpu.spsr irq cpu
    else if mode == cpu_mode_abt
    then mrs_banked cpu.spsr abt cpu
    else if mode == cpu_mode_und
    then mrs_banked cpu.spsr und cpu
    else if mode == cpu_mode_svc
    then mrs_banked cpu.spsr svc cpu
    else if mode == cpu_mode_fiq
    then mrs_banked cpu.spsr fiq cpu
    else 0

unfoldable pub write_lr_mode : ℕ → ℕ → Cpu → Cpu
unfolding share_register_bank msr_banked current_bank
write_lr_mode mode v cpu =
    if share_register_bank (psr_mode cpu.cpsr) mode
    then record cpu { lr = set_bank cpu.lr (current_bank cpu) v }
    else if mode == cpu_mode_usr || mode == cpu_mode_sys
    then record cpu { lr = msr_banked cpu.lr usr v cpu }
    else if mode == cpu_mode_irq
    then record cpu { lr = msr_banked cpu.lr irq v cpu }
    else if mode == cpu_mode_abt
    then record cpu { lr = msr_banked cpu.lr abt v cpu }
    else if mode == cpu_mode_und
    then record cpu { lr = msr_banked cpu.lr und v cpu }
    else if mode == cpu_mode_svc
    then record cpu { lr = msr_banked cpu.lr svc v cpu }
    else if mode == cpu_mode_fiq
    then record cpu { lr = msr_banked cpu.lr fiq v cpu }
    else cpu

unfoldable pub write_sp_mode : ℕ → ℕ → Cpu → Cpu
unfolding share_register_bank msr_banked current_bank
write_sp_mode mode v cpu =
    if share_register_bank (psr_mode cpu.cpsr) mode
    then record cpu { sp = set_bank cpu.sp (current_bank cpu) v }
    else if mode == cpu_mode_usr || mode == cpu_mode_sys
    then record cpu { sp = msr_banked cpu.sp usr v cpu }
    else if mode == cpu_mode_irq
    then record cpu { sp = msr_banked cpu.sp irq v cpu }
    else if mode == cpu_mode_abt
    then record cpu { sp = msr_banked cpu.sp abt v cpu }
    else if mode == cpu_mode_und
    then record cpu { sp = msr_banked cpu.sp und v cpu }
    else if mode == cpu_mode_svc
    then record cpu { sp = msr_banked cpu.sp svc v cpu }
    else if mode == cpu_mode_fiq
    then record cpu { sp = msr_banked cpu.sp fiq v cpu }
    else cpu
