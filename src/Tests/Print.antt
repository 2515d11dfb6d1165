-- ===== src/Tests/Print.antt =====
-- lib/kprintf.c: numbers printed.
use betriebssysteme.Kprintf.Format.{check_for_unknown_format, read_directive}
use betriebssysteme.Kprintf.Print.{number, text, printed, kprintf, print_loop, convert}
use betriebssysteme.Kprintf.Print.Defined.{Prints}
use betriebssysteme.Kprintf.Print.Renders.{kprintf_renders}
use betriebssysteme.Kprintf.Print.Spec.{numeral, shows, render}
use betriebssysteme.ExceptionPrint.Names.{fsr_status}
use betriebssysteme.ExceptionPrint.Report.{print_all, in_order, exception_report}
use betriebssysteme.ExceptionPrint.Report.Bounds.{report-Prints_iff}
use betriebssysteme.Cpu.{read_dfsr, read_ifsr}
use betriebssysteme.Tests.Threads.{no_registers, cpu}
use betriebssysteme.Common.{true, false, [], ◌∷◌, ◌≡◌, ◌↔◌, false, arith, refl, inr, some}
use betriebssysteme.Common.Words.{codes}
use betriebssysteme.Kprintf.{
  convert_loop, convert_to_base_string, print_in_base_unsigned, print_in_base_signed,
}
use betriebssysteme.Kprintf.Number.{decode, convert-decode}

prints_hex : print_in_base_unsigned 0x1_beef 16 8 48 ≡ some (codes "0001beef")
unfolding print_in_base_unsigned convert_to_base_string convert_loop
prints_hex = refl

prints_negative : print_in_base_signed 0xffff_fffb 10 4 48 ≡ some (codes "-005")
unfolding print_in_base_signed convert_to_base_string convert_loop
prints_negative = refl

convert-decode_example : decode 16 (convert_to_base_string 48879 16) ≡ 48879
convert-decode_example = convert-decode 48879 16 (omega arith) (inr refl)

prints_line :
    kprintf (codes "%s an Adresse: 0x%08x\n") (text (codes "Data Abort") ∷ number 0x8010 ∷ [])
    ≡ printed (codes "Data Abort an Adresse: 0x00008010\n")
unfolding kprintf print_loop convert read_directive print_in_base_unsigned convert_to_base_string
    convert_loop
prints_line = refl

-- A width of three digits passes the check, and is read as one of two digits.
prints_wide :
    kprintf (codes "%123u!") (number 7 ∷ []) ≡ printed (codes "Unknown conversion specifier\nu!")
unfolding kprintf print_loop convert read_directive
prints_wide = refl

-- A format that ends behind its width is reported as unknown.
unknown_at_end : check_for_unknown_format (codes "100%8") ≡ true
unfolding check_for_unknown_format
unknown_at_end = refl

kprintf_renders_example :
    kprintf (codes "%5s:%5i|%04x%%\n") (text (codes "IRQ") ∷ number 0xffff_fff4 ∷ number 0x1f ∷ [])
    ≡ printed (codes "  IRQ:  -12|001f%\n")
unfolding check_for_unknown_format render shows numeral
kprintf_renders_example =
    kprintf_renders (codes "%5s:%5i|%04x%%\n")
      (text (codes "IRQ") ∷ number 0xffff_fff4 ∷ number 0x1f ∷ [])

report-Prints_iff_example :
    Prints
      (print_all (in_order (exception_report (codes "Data Abort") true false no_registers cpu)))
    ↔ ((true ≡ true → fsr_status (read_dfsr cpu) ≡ 31 → ⊥)
        × (false ≡ true → fsr_status (read_ifsr cpu) ≡ 31 → ⊥))
report-Prints_iff_example = report-Prints_iff (codes "Data Abort") true false no_registers cpu
