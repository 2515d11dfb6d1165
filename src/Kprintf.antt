-- ===== src/Kprintf.antt =====
-- lib/kprintf.c: how numbers are printed, in a buffer of sixteen characters on the stack; the check of a
-- format and the printing by it are in the children Format and Print.
pub mod Number
pub mod Format
pub mod Print
use betriebssysteme.Common.{
  ℕ, zero, suc, ◌+◌, ◌-◌, ◌/◌, ◌%◌, ◌^◌, Bool, Option, none, some, List, [], ◌∷◌, ◌++◌, ◌==◌, ltb,
  leb, if◌then◌else◌, length, replicate,
}

-- `(digit < 10) ? '0' + digit : 'a' + digit - 10`
abbrev pub digit_char : ℕ → ℕ
digit_char digit = if ltb digit 10 then 48 + digit else 97 + digit - 10

-- The characters that `convert_to_base_string` writes, the last digit first. A 32-bit number has at
-- most 32 digits in any base: so many rounds are enough.
unfoldable pub convert_loop : ℕ → ℕ → ℕ → List ℕ
convert_loop zero value base = []
convert_loop (suc rounds) value base =
    let rest = convert_loop rounds (value / base) base in
    digit_char (value % base) ∷ (if value / base == 0 then [] else rest)

unfoldable pub convert_to_base_string : ℕ → ℕ → List ℕ
convert_to_base_string value base = convert_loop 32 value base

abbrev pub reverse_onto : List ℕ → List ℕ → List ℕ
reverse_onto [] out = out
reverse_onto (c ∷ cs) out = reverse_onto cs (c ∷ out)

-- `while (i > 0) uart_putc(buffer[--i])`; `none` if the buffer of 16 characters does not hold them.
abbrev pub flush : List ℕ → Option (List ℕ)
flush buffer = if leb (length buffer) 16 then some (reverse_onto buffer []) else none

unfoldable pub print_in_base_unsigned : ℕ → ℕ → ℕ → ℕ → Option (List ℕ)
print_in_base_unsigned value base width pad =
    let buffer = convert_to_base_string value base in
    let i = length buffer in
    let padding_needed = if leb width i then 0 else width - i in
    flush (buffer ++ replicate padding_needed pad)

-- `int` values as their 32-bit words; `pad` is a space or a zero.
unfoldable pub print_in_base_signed : ℕ → ℕ → ℕ → ℕ → Option (List ℕ)
print_in_base_signed value base width pad =
    let is_negative = leb (2 ^ 31) value in
    let abs = if is_negative then (2 ^ 32 - value) % 2 ^ 32 else value in
    let buffer = convert_to_base_string abs base in
    let i = length buffer in
    let padding_needed = if leb width i then 0 else width - i - (if is_negative then 1 else 0) in
    let sign : List ℕ = if is_negative then 45 ∷ [] else [] in
    let before : List ℕ = if pad == 32 then sign else [] in
    let after : List ℕ = if pad == 48 then sign else [] in
    flush (buffer ++ before ++ replicate padding_needed pad ++ after)
