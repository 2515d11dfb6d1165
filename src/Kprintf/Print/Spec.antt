-- ===== src/Kprintf/Print/Spec.antt =====
-- What `kprintf` of lib/kprintf.c promises: a format read from left to right, one character at a time,
-- and numbers in a field that is filled on the left.
use betriebssysteme.Common.{
  ℕ, zero, suc, ◌+◌, ◌-◌, ◌*◌, ◌/◌, ◌%◌, ◌^◌, ◌||◌, Option, none, some, List, [], ◌∷◌, ◌++◌, ◌==◌,
  leb, ltb, if◌then◌else◌, length, replicate,
}
use betriebssysteme.Kprintf.Format.{Directive, is_digit}
use betriebssysteme.Kprintf.Print.{
  Arg, number, text, Output, printed, undefined, unknown_conversion, with_rest,
}

abbrev pub digit_of : ℕ → ℕ
digit_of d = if ltb d 10 then b'0' + d else b'a' + d - 10

-- A number of at most so many digits, the first one first.
unfoldable pub numeral : ℕ → ℕ → ℕ → List ℕ
numeral zero base v = []
numeral (suc most) base v =
    let front = numeral most base (v / base) in
    (if v / base == 0 then [] else front) ++ digit_of (v % base) ∷ []

abbrev pub padded : ℕ → ℕ → List ℕ → List ℕ
padded width pad cs = replicate (width - length cs) pad ++ cs

abbrev pub unsigned_field : ℕ → ℕ → ℕ → ℕ → List ℕ
unsigned_field base width pad v = padded width pad (numeral 32 base v)

-- The sign stands in front of zeros and behind spaces. A word from 2 ^ 31 on is negative.
abbrev pub signed_field : ℕ → ℕ → ℕ → List ℕ
signed_field width pad v =
    if leb (2 ^ 31) v
    then (if pad == b'0'
        then b'-' ∷ padded (width - 1) pad (numeral 32 10 (2 ^ 32 - v))
        else padded width pad (b'-' ∷ numeral 32 10 (2 ^ 32 - v)))
    else padded width pad (numeral 32 10 v)

-- The buffer on the stack holds 16 characters.
abbrev pub in_buffer : ℕ → List ℕ → Option (List ℕ)
in_buffer width cs = if leb width 16 then some cs else none

-- A number by its conversion.
abbrev pub field : Directive → ℕ → Option (List ℕ)
field d v =
    if d.conversion == b'c'
    then some (v % 256 ∷ [])
    else in_buffer d.width (
        if d.conversion == b'i'
        then signed_field d.width d.pad v
        else unsigned_field (if d.conversion == b'u' then 10 else 16) d.width d.pad v)

-- What a directive shows, and the arguments that are left; `none` without an argument of its type, or if
-- the field is wider than the buffer.
abbrev pub shows_number : Directive → List Arg → Option (List ℕ × List Arg)
shows_number d (number v ∷ rest) = with_rest rest (field d (v % 2 ^ 32))
shows_number d _ = none

abbrev pub shows_text : Directive → List Arg → Option (List ℕ × List Arg)
shows_text d (text str ∷ rest) = some (padded d.width d.pad str, rest)
shows_text d _ = none

abbrev pub shows_pointer : List Arg → Option (List ℕ × List Arg)
shows_pointer (number v ∷ rest) = some (b'0' ∷ b'x' ∷ unsigned_field 16 8 b'0' (v % 2 ^ 32), rest)
shows_pointer _ = none

unfoldable pub shows : Directive → List Arg → Option (List ℕ × List Arg)
shows d args =
    if d.conversion == b'c' || d.conversion == b'i' || d.conversion == b'u' || d.conversion == b'x'
    then shows_number d args
    else if d.conversion == b's'
    then shows_text d args
    else if d.conversion == b'p'
    then shows_pointer args
    else if d.conversion == b'%'
    then some (b'%' ∷ [], args)
    else some (unknown_conversion, args)

-- How far a directive has been read: a percent sign; the padding; one digit or both digits of the width.
pub data Reading : Type 0 where
  plain : Reading
  percent : Reading
  flagged : ℕ → Reading
  one_digit : ℕ → ℕ → Reading
  two_digits : ℕ → ℕ → Reading

-- What the next character does: it is printed, it belongs to a directive, or it ends one.
pub data Action : Type 0 where
  put : Action
  goes_on : Reading → Action
  converts : Directive → Action

abbrev pub convert_by : ℕ → ℕ → ℕ → Action
convert_by pad width c = converts (record { pad = pad; width = width; conversion = c })

abbrev pub act : Reading → ℕ → Action
act plain c = if c == b'%' then goes_on percent else put
act percent c =
    if c == b'0'
    then goes_on (flagged b'0')
    else if is_digit c
    then goes_on (one_digit b' ' (c - b'0'))
    else convert_by b' ' 0 c
act (flagged pad) c = if is_digit c then goes_on (one_digit pad (c - b'0')) else convert_by pad 0 c
act (one_digit pad w) c =
    if is_digit c then goes_on (two_digits pad (w * 10 + (c - b'0'))) else convert_by pad w c
act (two_digits pad w) c = convert_by pad w c

abbrev pub behind : List ℕ → Option (List ℕ) → Option (List ℕ)
behind cs none = none
behind cs (some ds) = some (cs ++ ds)

abbrev pub shown_then : (List Arg → Option (List ℕ)) → Option (List ℕ × List Arg) → Option (List ℕ)
shown_then later none = none
shown_then later (some (cs, rest)) = behind cs (later rest)

abbrev pub after_action :
    (Reading → List Arg → Option (List ℕ)) → Action → ℕ → List Arg → Option (List ℕ)
after_action later put c args = behind (c ∷ []) (later plain args)
after_action later (goes_on r) c args = later r args
after_action later (converts d) c args = shown_then (later plain) (shows d args)

-- What the rest of a format prints. A directive that is not complete at its end prints nothing.
unfoldable pub render : List ℕ → Reading → List Arg → Option (List ℕ)
render [] r args = some []
render (c ∷ f) r args = after_action (render f) (act r c) c args

abbrev pub output : Option (List ℕ) → Output
output none = undefined
output (some cs) = printed cs
