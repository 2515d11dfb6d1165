-- ===== src/Kprintf/Print/Plain.antt =====
-- lib/kprintf.c: what is printed for a format without directives, and for a number without padding.
use mathlib.Core.List.{append-nil}
use betriebssysteme.Common.{
  ℕ, zero, suc, ◌^◌, ◌<◌, ◌≤◌, ◌≡◌, ◌⊎◌, arith, refl, true, false, some, List, [], ◌∷◌, ◌==◌, leb,
  length, ◌∉◌,
}
use betriebssysteme.Kprintf.{reverse_onto, convert_to_base_string, print_in_base_unsigned}
use betriebssysteme.Kprintf.Format.{check_from, check_for_unknown_format, in_text}
use betriebssysteme.Kprintf.Number.{length-convert}
use betriebssysteme.Kprintf.Print.{Arg, printed, print_loop, kprintf}

check-plain : (f : List ℕ) → b'%' ∉ f → check_from in_text f ≡ false
unfolding check_from
check-plain [] none_in = refl
check-plain (c ∷ f) none_in = ground (arith, check-plain f)

loop-plain :
    (fuel : ℕ) (f : List ℕ) (args : List Arg)
    → length f < fuel
    → b'%' ∉ f
    → print_loop fuel f args ≡ printed f
unfolding print_loop
loop-plain zero f args lt none_in = absurd (omega arith)
loop-plain (suc fuel) [] args lt none_in = refl
loop-plain (suc fuel) (c ∷ f) args lt none_in =
    let other : (c == b'%') ≡ false = ground arith in
    rw (other, loop-plain fuel f args (omega arith) (ground arith)) refl

-- A format without a percent sign is printed as it stands.
pub kprintf-plain : (f : List ℕ) (args : List Arg) → b'%' ∉ f → kprintf f args ≡ printed f
unfolding kprintf check_for_unknown_format
kprintf-plain f args none_in =
    rw (check-plain f none_in) (loop-plain (suc (length f)) f args (omega arith) none_in)

-- The digits of a number, the first one first.
abbrev pub digits_of : ℕ → ℕ → List ℕ
digits_of value base = reverse_onto (convert_to_base_string value base) []

pub print_unsigned-digits :
    (value base pad : ℕ)
    → value < 2 ^ 32
    → (base ≡ 10) ⊎ (base ≡ 16)
    → print_in_base_unsigned value base 0 pad ≡ some (digits_of value base)
unfolding print_in_base_unsigned
print_unsigned-digits value base pad lt b =
    let buffer : List ℕ = convert_to_base_string value base in
    let short : length buffer ≤ 10 = length-convert value base lt b in
    let none_needed : leb 0 (length buffer) ≡ true = ground arith in
    let fits_in : leb (length buffer) 16 ≡ true = ground arith in
    rw (none_needed, append-nil buffer, fits_in) refl
