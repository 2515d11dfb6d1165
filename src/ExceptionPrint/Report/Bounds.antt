-- ===== src/ExceptionPrint/Report/Bounds.antt =====
-- arch/cpu/exceptions/exception_print.c: when the report reads behind its table of descriptions.
use betriebssysteme.Common.{ℕ, zero, suc, get_or, ◌≡◌, ◌↔◌, refl, Bool, true, List, [], ◌∷◌, ◌++◌}
use betriebssysteme.Cpu.{Cpu, read_dfsr, read_ifsr}
use betriebssysteme.ExceptionPrint.Names.{fsr_status, fsr_bounds}
use betriebssysteme.ExceptionPrint.Report.{
  print_all, in_order, exception_report, data_fault, instruction_fault,
}
use betriebssysteme.ExceptionPrint.Report.Defined.{report-Prints}
use betriebssysteme.Kprintf.Print.{Output, printed, undefined, out_of_fuel, before}
use betriebssysteme.Kprintf.Print.Defined.{Prints, before-Prints}
use betriebssysteme.Thread.{SavedRegisters}

-- A list of calls of which one has no defined behaviour.
abbrev Fails : List Output → Type 0
Fails os = Prints (print_all os) → ⊥

before-inv : (cs : List ℕ) (o : Output) → Prints (before cs o) → Prints o
before-inv cs (printed ds) p = (ds, refl)
before-inv cs undefined (ds, e) = cc
before-inv cs out_of_fuel (ds, e) = cc

Fails-here : (os : List Output) → Fails (undefined ∷ os)
Fails-here os (cs, e) = cc

Fails-later : (os rest : List Output) → Fails rest → Fails (os ++ rest)
Fails-later [] rest f = f
Fails-later (printed ds ∷ os) rest f = λ p. Fails-later os rest f (before-inv ds _ p)
Fails-later (undefined ∷ os) rest f = Fails-here (os ++ rest)
Fails-later (out_of_fuel ∷ os) rest f = λ p. cc (p.1)

Fails-first : (os rest : List Output) → Fails os → Fails (os ++ rest)
Fails-first [] rest f = absurd (f ([], refl))
Fails-first (printed ds ∷ os) rest f =
    λ p. Fails-first os rest (λ q. f (before-Prints ds _ q)) (before-inv ds _ p)
Fails-first (undefined ∷ os) rest f = Fails-here (os ++ rest)
Fails-first (out_of_fuel ∷ os) rest f = λ p. cc (p.1)

Fails-nth : (gs : List (List Output)) (i : ℕ) → Fails (get_or gs i []) → Fails (in_order gs)
Fails-nth [] i f = f
Fails-nth (g ∷ gs) zero f = Fails-first g (in_order gs) f
Fails-nth (g ∷ gs) (suc i) f = Fails-later g (in_order gs) (Fails-nth gs i f)

data_fault-Fails : (cpu : Cpu) → fsr_status (read_dfsr cpu) ≡ 31 → Fails (data_fault cpu)
unfolding data_fault
data_fault-Fails cpu e = rw ((fsr_bounds (read_dfsr cpu)).1 e) (λ p. cc (p.1))

instruction_fault-Fails :
    (cpu : Cpu) → fsr_status (read_ifsr cpu) ≡ 31 → Fails (instruction_fault cpu)
unfolding instruction_fault
instruction_fault-Fails cpu e = rw ((fsr_bounds (read_ifsr cpu)).1 e) (λ p. cc (p.1))

-- The report of an exception has defined behaviour exactly if the status of the fault that it describes
-- is not 31, for which the description is read behind the end of its table; no call of `kprintf` in it
-- misses an argument or writes behind its buffer.
pub report-Prints_iff :
    (name : List ℕ) (d p : Bool) (frame : SavedRegisters) (cpu : Cpu)
    → Prints (print_all (in_order (exception_report name d p frame cpu))) ↔ (
        (d ≡ true → fsr_status (read_dfsr cpu) ≡ 31 → ⊥)
        × (p ≡ true → fsr_status (read_ifsr cpu) ≡ 31 → ⊥))
unfolding exception_report
report-Prints_iff name d p frame cpu = (
  λ fine. (
    λ is bad.
        Fails-nth (exception_report name d p frame cpu) 1 (rw is (data_fault-Fails cpu bad)) fine,
    λ is bad.
        Fails-nth (exception_report name d p frame cpu) 2 (rw is (instruction_fault-Fails cpu bad))
          fine,
  ),
  λ (data_ne, prefetch_ne). report-Prints name d p frame cpu data_ne prefetch_ne,
)
