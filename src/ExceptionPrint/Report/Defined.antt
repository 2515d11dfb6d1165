-- ===== src/ExceptionPrint/Report/Defined.antt =====
-- arch/cpu/exceptions/exception_print.c: the report has defined behaviour.
use betriebssysteme.Common.{ℕ, ◌≡◌, refl, Bool, true, false, List, [], ◌∷◌, ◌++◌, if◌then◌else◌}
use betriebssysteme.Cpu.{Cpu, read_dfsr, read_ifsr}
use betriebssysteme.ExceptionPrint.Names.{fsr_status, fsr_described}
use betriebssysteme.ExceptionPrint.Report.{
  put, print_exception_infos, in_order, print_all, print_psr, mode_line, data_fault,
  instruction_fault, snapshot, mode_specific, exception_report,
}
use betriebssysteme.Kernel.{Kernel, ok, send}
use betriebssysteme.Kprintf.Print.{Output, number, printed, undefined, out_of_fuel}
use betriebssysteme.Kprintf.Print.Defined.{Prints, kprintf-Prints, before-Prints, fits}
use betriebssysteme.Thread.{SavedRegisters}

-- Every call of the list prints something.
abbrev AllPrint : List Output → Type 0
AllPrint [] = Unit {0}
AllPrint (o ∷ os) = Prints o × AllPrint os

AllPrint-append : (a b : List Output) → AllPrint a → AllPrint b → AllPrint (a ++ b)
AllPrint-append [] b pa pb = pb
AllPrint-append (o ∷ a) b (p, pa) pb = (p, AllPrint-append a b pa pb)

abbrev EachPrints : List (List Output) → Type 0
EachPrints [] = Unit {0}
EachPrints (g ∷ gs) = AllPrint g × EachPrints gs

in_order-AllPrint : (gs : List (List Output)) → EachPrints gs → AllPrint (in_order gs)
in_order-AllPrint [] p = tt
in_order-AllPrint (g ∷ gs) (p, ps) = AllPrint-append g (in_order gs) p (in_order-AllPrint gs ps)

print_all-Prints : (os : List Output) → AllPrint os → Prints (print_all os)
print_all-Prints [] p = ([], refl)
print_all-Prints (o ∷ os) ((cs, done), p) =
    rw done (before-Prints cs (print_all os) (print_all-Prints os p))

print_psr-AllPrint : (psr : ℕ) → AllPrint (print_psr psr)
unfolding print_psr fits
print_psr-AllPrint psr =
    (kprintf-Prints _ _ refl, (kprintf-Prints _ _ refl, (kprintf-Prints _ _ refl, tt)))

mode_line-AllPrint :
    (format : List ℕ) (lr sp psr : ℕ)
    → fits format (number lr ∷ number sp ∷ []) ≡ true
    → AllPrint (mode_line format lr sp psr)
mode_line-AllPrint format lr sp psr e = (kprintf-Prints format _ e, print_psr-AllPrint psr)

data_fault-AllPrint :
    (cpu : Cpu) → (fsr_status (read_dfsr cpu) ≡ 31 → ⊥) → AllPrint (data_fault cpu)
unfolding data_fault fits
data_fault-AllPrint cpu ne =
    let (t, known) = fsr_described (read_dfsr cpu) ne in
    rw known (kprintf-Prints _ _ refl, (kprintf-Prints _ _ refl, tt))

instruction_fault-AllPrint :
    (cpu : Cpu) → (fsr_status (read_ifsr cpu) ≡ 31 → ⊥) → AllPrint (instruction_fault cpu)
unfolding instruction_fault fits
instruction_fault-AllPrint cpu ne =
    let (t, known) = fsr_described (read_ifsr cpu) ne in
    rw known (kprintf-Prints _ _ refl, (kprintf-Prints _ _ refl, tt))

snapshot-AllPrint : (frame : SavedRegisters) → AllPrint (snapshot frame)
unfolding snapshot fits
snapshot-AllPrint frame = (
  kprintf-Prints _ _ refl,
  (
    kprintf-Prints _ _ refl,
    (
      kprintf-Prints _ _ refl,
      (kprintf-Prints _ _ refl, (kprintf-Prints _ _ refl, (kprintf-Prints _ _ refl, tt))),
    ),
  ),
)

mode_specific-EachPrints : (cpu : Cpu) → EachPrints (mode_specific cpu)
unfolding mode_specific fits
mode_specific-EachPrints cpu = (
  (kprintf-Prints _ _ refl, tt),
  (
    mode_line-AllPrint _ _ _ _ refl,
    (
      mode_line-AllPrint _ _ _ _ refl,
      (
        mode_line-AllPrint _ _ _ _ refl,
        (
          mode_line-AllPrint _ _ _ _ refl,
          (mode_line-AllPrint _ _ _ _ refl, ((kprintf-Prints _ _ refl, tt), tt)),
        ),
      ),
    ),
  ),
)

-- The report of an exception has defined behaviour: no call of `kprintf` in it misses an argument or
-- writes behind its buffer. The condition is that the status of the fault that it describes is not the
-- one behind the table.
pub report-Prints :
    (name : List ℕ) (d p : Bool) (frame : SavedRegisters) (cpu : Cpu)
    → (d ≡ true → fsr_status (read_dfsr cpu) ≡ 31 → ⊥)
    → (p ≡ true → fsr_status (read_ifsr cpu) ≡ 31 → ⊥)
    → Prints (print_all (in_order (exception_report name d p frame cpu)))
unfolding exception_report fits
report-Prints name d p frame cpu data_ne prefetch_ne =
    let groups = exception_report name d p frame cpu in
    print_all-Prints (in_order groups) (
      in_order-AllPrint groups (
        (kprintf-Prints _ _ refl, (kprintf-Prints _ _ refl, tt)),
        (
          data_part d data_ne,
          (prefetch_part p prefetch_ne, (snapshot-AllPrint frame, mode_specific-EachPrints cpu)),
        ),
      ))
  where
    data_part :
        (d : Bool)
        → (d ≡ true → fsr_status (read_dfsr cpu) ≡ 31 → ⊥)
        → AllPrint (if d then data_fault cpu else [])
    data_part true ne = data_fault-AllPrint cpu (ne refl)
    data_part false ne = tt

    prefetch_part :
        (p : Bool)
        → (p ≡ true → fsr_status (read_ifsr cpu) ≡ 31 → ⊥)
        → AllPrint (if p then instruction_fault cpu else [])
    prefetch_part true ne = instruction_fault-AllPrint cpu (ne refl)
    prefetch_part false ne = tt

-- The characters of what is printed.
abbrev text_of : Output → List ℕ
text_of (printed cs) = cs
text_of undefined = []
text_of out_of_fuel = []

-- The text of a report.
abbrev pub report : List ℕ → Bool → Bool → SavedRegisters → Cpu → List ℕ
report name d p frame cpu = text_of (print_all (in_order (exception_report name d p frame cpu)))

put-Prints : (o : Output) (k : Kernel) → Prints o → put o k ≡ ok tt (send (text_of o) k)
put-Prints o k (cs, done) = rw done refl

-- The same in the kernel's state, where the report is only sent.
pub infos_sent :
    (name : List ℕ) (d p : Bool) (frame : SavedRegisters) (k : Kernel)
    → (d ≡ true → fsr_status (read_dfsr k.cpu) ≡ 31 → ⊥)
    → (p ≡ true → fsr_status (read_ifsr k.cpu) ≡ 31 → ⊥)
    → print_exception_infos name d p frame k ≡ ok tt (send (report name d p frame k.cpu) k)
unfolding print_exception_infos
infos_sent name d p frame k data_ne prefetch_ne =
    put-Prints _ k (report-Prints name d p frame k.cpu data_ne prefetch_ne)

pub infos_done :
    (name : List ℕ) (d p : Bool) (frame : SavedRegisters) (k : Kernel)
    → (d ≡ true → fsr_status (read_dfsr k.cpu) ≡ 31 → ⊥)
    → (p ≡ true → fsr_status (read_ifsr k.cpu) ≡ 31 → ⊥)
    → (cs : List ℕ) × (print_exception_infos name d p frame k ≡ ok tt (send cs k))
infos_done name d p frame k data_ne prefetch_ne =
    (_, infos_sent name d p frame k data_ne prefetch_ne)
