-- ===== src/Kprintf/Print.antt =====
-- lib/kprintf.c: `kprintf`, as the characters that it prints.
pub mod Defined
pub mod Shorter
pub mod Plain
pub mod Spec
pub mod Fields
pub mod Renders
use betriebssysteme.Common.{
  ℕ, zero, suc, ◌-◌, ◌%◌, ◌^◌, ◌||◌, true, false, Bool, Option, none, some, List, [], ◌∷◌, ◌++◌,
  ◌==◌, leb, if◌then◌else◌, length, replicate,
}
use betriebssysteme.Common.Words.{codes}
use betriebssysteme.Kprintf.{print_in_base_signed, print_in_base_unsigned}
use betriebssysteme.Kprintf.Format.{Directive, read_directive, check_for_unknown_format}

-- A variable argument: a word, or a pointer to a text without its closing zero.
pub data Arg : Type 0 where
  number : ℕ → Arg
  text : List ℕ → Arg

-- The characters; undefined behaviour, for a write behind the buffer or an argument that is missing or
-- of another type; or too little fuel.
pub data Output : Type 0 where
  printed : List ℕ → Output
  undefined : Output
  out_of_fuel : Output

abbrev pub before : List ℕ → Output → Output
before cs (printed ds) = printed (cs ++ ds)
before cs undefined = undefined
before cs out_of_fuel = out_of_fuel

-- `kprintf("Unknown conversion specifier\n")`, which has no directive.
abbrev pub unknown_conversion : List ℕ
unknown_conversion = codes "Unknown conversion specifier\n"

abbrev pub with_rest : List Arg → Option (List ℕ) → Option (List ℕ × List Arg)
with_rest rest none = none
with_rest rest (some cs) = some (cs, rest)

-- The cases that read a number, with the value that `va_arg` gives.
abbrev pub convert_number : Directive → ℕ → Option (List ℕ)
convert_number d v =
    if d.conversion == b'c'
    then some (v % 256 ∷ [])
    else if d.conversion == b'i'
    then print_in_base_signed v 10 d.width d.pad
    else if d.conversion == b'u'
    then print_in_base_unsigned v 10 d.width d.pad
    else print_in_base_unsigned v 16 d.width d.pad

-- `case 's'`: the padding, then the text.
abbrev pub convert_text : Directive → List ℕ → List ℕ
convert_text d str =
    replicate (if leb d.width (length str) then 0 else d.width - length str) d.pad ++ str

abbrev pub prefixed : Option (List ℕ) → Option (List ℕ)
prefixed none = none
prefixed (some cs) = some (b'0' ∷ b'x' ∷ cs)

abbrev pub take_number : Directive → List Arg → Option (List ℕ × List Arg)
take_number d (number v ∷ rest) = with_rest rest (convert_number d (v % 2 ^ 32))
take_number d _ = none

abbrev pub take_pointer : List Arg → Option (List ℕ × List Arg)
take_pointer (number v ∷ rest) =
    with_rest rest (prefixed (print_in_base_unsigned (v % 2 ^ 32) 16 8 b'0'))
take_pointer _ = none

abbrev pub take_text : Directive → List Arg → Option (List ℕ × List Arg)
take_text d (text str ∷ rest) = some (convert_text d str, rest)
take_text d _ = none

-- `switch (*format)`: what is printed, and the arguments that are left.
unfoldable pub convert : Directive → List Arg → Option (List ℕ × List Arg)
convert d args =
    if d.conversion == b'c' || d.conversion == b'i' || d.conversion == b'u' || d.conversion == b'x'
    then take_number d args
    else if d.conversion == b's'
    then take_text d args
    else if d.conversion == b'p'
    then take_pointer args
    else if d.conversion == b'%'
    then some (b'%' ∷ [], args)
    else some (unknown_conversion, args)

abbrev pub print_piece : (List ℕ → List Arg → Output) → List ℕ → Option (List ℕ × List Arg) → Output
print_piece go format none = undefined
print_piece go format (some (cs, rest)) = before cs (go format rest)

abbrev pub print_directive :
    (List ℕ → List Arg → Output) → Option (Directive × List ℕ) → List Arg → Output
print_directive go none args = printed []
print_directive go (some (d, format)) args = print_piece go format (convert d args)

-- `while (*format)`, with `go` for the rounds that follow.
abbrev pub print_step : (List ℕ → List Arg → Output) → Bool → ℕ → List ℕ → List Arg → Output
print_step go true c format args = print_directive go (read_directive format) args
print_step go false c format args = before (c ∷ []) (go format args)

unfoldable pub print_loop : ℕ → List ℕ → List Arg → Output
unfolding convert
print_loop zero format args = out_of_fuel
print_loop (suc fuel) [] args = printed []
print_loop (suc fuel) (c ∷ format) args = print_step (print_loop fuel) (c == b'%') c format args

unfoldable pub kprintf : List ℕ → List Arg → Output
unfolding print_loop check_for_unknown_format
kprintf format args =
    if check_for_unknown_format format
    then printed unknown_conversion
    else print_loop (suc (length format)) format args
