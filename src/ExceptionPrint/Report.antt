-- ===== src/ExceptionPrint/Report.antt =====
-- arch/cpu/exceptions/exception_print.c: the report of an exception, as the calls of `kprintf` that it
-- makes, one after the other.
pub mod Defined
pub mod Bounds
use betriebssysteme.Common.{ℕ, Bool, Option, none, some, List, [], ◌∷◌, ◌++◌, if◌then◌else◌}
use betriebssysteme.Common.Words.{codes, test_bit}
use betriebssysteme.Cpu.{
  Cpu, cpu_mode_usr, cpu_mode_irq, cpu_mode_svc, cpu_mode_abt, cpu_mode_und, psr_mode, read_cpsr,
  read_dfsr, read_dfar, read_ifsr, read_ifar, read_lr_mode, read_sp_mode, read_spsr_mode,
}
use betriebssysteme.ExceptionPrint.Names.{get_mode_name, get_fsr_description}
use betriebssysteme.Kernel.{Run, ok, Cmd, send}
use betriebssysteme.Kprintf.Print.{
  Arg, number, text, Output, printed, undefined, out_of_fuel, before, kprintf,
}
use betriebssysteme.Thread.{SavedRegisters}

-- What the first call prints, and then what the second one does.
abbrev pub then_print : Output → Output → Output
then_print (printed cs) o = before cs o
then_print undefined o = undefined
then_print out_of_fuel o = out_of_fuel

abbrev pub print_all : List Output → Output
print_all [] = printed []
print_all (o ∷ os) = then_print o (print_all os)

-- Groups of calls, one after the other.
abbrev pub in_order : List (List Output) → List Output
in_order [] = []
in_order (g ∷ gs) = g ++ in_order gs

-- `struct mode_regs`
pub record ModeRegs : Type 0 where
  pub user_lr : ℕ
  pub user_sp : ℕ
  pub irq_lr : ℕ
  pub irq_sp : ℕ
  pub abort_lr : ℕ
  pub abort_sp : ℕ
  pub undefined_lr : ℕ
  pub undefined_sp : ℕ
  pub supervisor_lr : ℕ
  pub supervisor_sp : ℕ

unfoldable pub read_mode_specific_registers : Cpu → ModeRegs
read_mode_specific_registers cpu = record {
  user_lr = read_lr_mode cpu_mode_usr cpu;
  user_sp = read_sp_mode cpu_mode_usr cpu;
  irq_lr = read_lr_mode cpu_mode_irq cpu;
  irq_sp = read_sp_mode cpu_mode_irq cpu;
  abort_lr = read_lr_mode cpu_mode_abt cpu;
  abort_sp = read_sp_mode cpu_mode_abt cpu;
  undefined_lr = read_lr_mode cpu_mode_und cpu;
  undefined_sp = read_sp_mode cpu_mode_und cpu;
  supervisor_lr = read_lr_mode cpu_mode_svc cpu;
  supervisor_sp = read_sp_mode cpu_mode_svc cpu;
}

-- `psr.d.n ? 'N' : '_'`, for the flag at a bit of the register.
unfoldable pub flag : ℕ → ℕ → ℕ → Arg
flag psr bit letter = number (if test_bit psr bit then letter else b'_')

unfoldable pub print_psr : ℕ → List Output
unfolding flag
print_psr psr =
    kprintf (codes "%c%c%c%c %c %c%c%c") (
      flag psr 31 b'N'
      ∷ flag psr 30 b'Z'
      ∷ flag psr 29 b'C'
      ∷ flag psr 28 b'V'
      ∷ flag psr 9 b'E'
      ∷ flag psr 7 b'I'
      ∷ flag psr 6 b'F'
      ∷ flag psr 5 b'T'
      ∷ [])
    ∷ kprintf (codes " %10s") (text (get_mode_name (psr_mode psr)) ∷ [])
    ∷ kprintf (codes " 0x%08x") (number psr ∷ [])
    ∷ []

-- The lines about a fault, from its status and its address; a status without a description is a read
-- behind the table.
abbrev pub with_description : List ℕ → ℕ → Option (List ℕ) → Output
with_description format fsr none = undefined
with_description format fsr (some description) = kprintf format (number fsr ∷ text description ∷ [])

unfoldable pub data_fault : Cpu → List Output
data_fault cpu =
    with_description (codes "Data Fault Status Register: 0x%08x -> %s\n") (read_dfsr cpu)
      (get_fsr_description (read_dfsr cpu))
    ∷ kprintf (codes "Data Fault Adress Register: 0x%08x\n") (number (read_dfar cpu) ∷ [])
    ∷ []

unfoldable pub instruction_fault : Cpu → List Output
instruction_fault cpu =
    with_description (codes "Instruction Fault Status Register: 0x%08x -> %s\n") (read_ifsr cpu)
      (get_fsr_description (read_ifsr cpu))
    ∷ kprintf (codes "Instruction Fault Adress Register: 0x%08x\n") (number (read_ifar cpu) ∷ [])
    ∷ []

-- The snapshot of the registers that the exception saved.
unfoldable pub snapshot : SavedRegisters → List Output
snapshot frame =
    kprintf (codes "\n>> Registerschnappschuss <<\n") []
    ∷ kprintf (codes "R0: 0x%08x  R5: 0x%08x  R10: 0x%08x\n")
        (number frame.r0 ∷ number frame.r5 ∷ number frame.r10 ∷ [])
    ∷ kprintf (codes "R1: 0x%08x  R6: 0x%08x  R11: 0x%08x\n")
        (number frame.r1 ∷ number frame.r6 ∷ number frame.r11 ∷ [])
    ∷ kprintf (codes "R2: 0x%08x  R7: 0x%08x  R12: 0x%08x\n")
        (number frame.r2 ∷ number frame.r7 ∷ number frame.r12 ∷ [])
    ∷ kprintf (codes "R3: 0x%08x  R8: 0x%08x\n") (number frame.r3 ∷ number frame.r8 ∷ [])
    ∷ kprintf (codes "R4: 0x%08x  R9: 0x%08x\n") (number frame.r4 ∷ number frame.r9 ∷ [])
    ∷ []

-- One line of the registers of a mode.
abbrev pub mode_line : List ℕ → ℕ → ℕ → ℕ → List Output
mode_line format lr sp psr = kprintf format (number lr ∷ number sp ∷ []) ∷ print_psr psr

unfoldable pub mode_specific : Cpu → List (List Output)
unfolding read_mode_specific_registers
mode_specific cpu =
    let m : ModeRegs = read_mode_specific_registers cpu in
    (kprintf (codes "\n>> Modusspezifische Register <<\n") [] ∷ [])
    ∷ mode_line (codes "User/System | LR: 0x%08x | SP: 0x%08x | CPSR: ") m.user_lr m.user_sp
        (read_cpsr cpu)
    ∷ mode_line (codes "\nIRQ         | LR: 0x%08x | SP: 0x%08x | SPSR: ") m.irq_lr m.irq_sp
        (read_spsr_mode cpu_mode_irq cpu)
    ∷ mode_line (codes "\nAbort       | LR: 0x%08x | SP: 0x%08x | SPSR: ") m.abort_lr m.abort_sp
        (read_spsr_mode cpu_mode_abt cpu)
    ∷ mode_line (codes "\nUndefined   | LR: 0x%08x | SP: 0x%08x | SPSR: ") m.undefined_lr
        m.undefined_sp (read_spsr_mode cpu_mode_und cpu)
    ∷ mode_line (codes "\nSupervisor  | LR: 0x%08x | SP: 0x%08x | SPSR: ") m.supervisor_lr
        m.supervisor_sp (read_spsr_mode cpu_mode_svc cpu)
    ∷ (kprintf (codes "\n") [] ∷ [])
    ∷ []

-- The calls that `print_exception_infos` makes, in groups.
unfoldable pub exception_report : List ℕ → Bool → Bool → SavedRegisters → Cpu → List (List Output)
unfolding data_fault instruction_fault snapshot mode_specific
exception_report exception_name is_data_abort is_prefetch_abort frame cpu =
    (kprintf (codes "############ EXCEPTION ############\n") []
      ∷ kprintf (codes "%s an Adresse: 0x%08x\n") (text exception_name ∷ number frame.pc ∷ [])
      ∷ [])
    ∷ (if is_data_abort then data_fault cpu else [])
    ∷ (if is_prefetch_abort then instruction_fault cpu else [])
    ∷ snapshot frame
    ∷ mode_specific cpu

abbrev pub put : Output → Cmd (Unit {0})
put (printed cs) k = ok tt (send cs k)
put undefined k = Run.undefined
put out_of_fuel k = Run.out_of_fuel

unfoldable pub print_exception_infos : List ℕ → Bool → Bool → SavedRegisters → Cmd (Unit {0})
print_exception_infos exception_name is_data_abort is_prefetch_abort frame k =
    put
      (print_all
        (in_order (exception_report exception_name is_data_abort is_prefetch_abort frame k.cpu)))
      k
