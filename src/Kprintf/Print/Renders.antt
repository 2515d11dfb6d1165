-- ===== src/Kprintf/Print/Renders.antt =====
-- lib/kprintf.c: what `kprintf` prints is what its format and arguments say.
use betriebssysteme.Common.{
  ℕ, zero, suc, ◌+◌, ◌-◌, ◌*◌, ◌%◌, ◌^◌, ◌<◌, ◌≡◌, ◌⊎◌, inl, inr, arith, refl, Bool, true, false,
  Option, none, some, List, [], ◌∷◌, ◌==◌, leb, if◌then◌else◌, length, Bool-cases,
}
use betriebssysteme.Kprintf.Format.{
  Directive, is_digit, second_digit, parse_width, read_conversion, read_width, read_directive,
  check_for_unknown_format,
}
use betriebssysteme.Kprintf.Print.{
  Arg, number, text, printed, before, convert_number, convert, print_piece, print_directive,
  print_step, print_loop, kprintf, unknown_conversion, take_number, take_pointer, take_text,
}
use betriebssysteme.Kprintf.Print.Shorter.{IsShorter, read_directive-IsShorter}
use betriebssysteme.Kprintf.Print.Fields.{print_unsigned-field, print_signed-field}
use betriebssysteme.Kprintf.Print.Spec.{
  field, shows, shows_number, shows_text, shows_pointer, plain, percent, flagged, one_digit,
  two_digits, behind, shown_then, render, output,
}

-- The padding of a directive is a space or a zero.
abbrev HasPad : Directive → Type 0
HasPad d = (d.pad ≡ b' ') ⊎ (d.pad ≡ b'0')

module _ (d : Directive) (pad : HasPad d) where
  number-field : (v : ℕ) → v < 2 ^ 32 → convert_number d v ≡ field d v
  number-field v lt = elim (Bool-cases (d.conversion == b'c')) [
    | inl c ↦ rw c refl
    | inr c ↦ elim (Bool-cases (d.conversion == b'i')) [
      | inl i ↦ rw (c, i) (print_signed-field v d.width d.pad lt pad)
      | inr i ↦ elim (Bool-cases (d.conversion == b'u')) [
        | inl u ↦ rw (c, i, u) (print_unsigned-field 10 v d.width d.pad lt (inl refl))
        | inr u ↦ rw (c, i, u) (print_unsigned-field 16 v d.width d.pad lt (inr refl))
      ]
    ]
  ]

  take-number : (args : List Arg) → take_number d args ≡ shows_number d args
  take-number [] = refl
  take-number (text str ∷ rest) = refl
  take-number (number v ∷ rest) = rw (number-field (v % 2 ^ 32) (omega arith)) refl

  take-text : (args : List Arg) → take_text d args ≡ shows_text d args
  take-text [] = refl
  take-text (number v ∷ rest) = refl
  take-text (text str ∷ rest) =
      let same : (if leb d.width (length str) then 0 else d.width - length str)
          ≡ d.width - length str =
        ground arith in
      rw same refl

  take-pointer : (args : List Arg) → take_pointer args ≡ shows_pointer args
  take-pointer [] = refl
  take-pointer (text str ∷ rest) = refl
  take-pointer (number v ∷ rest) =
      rw (print_unsigned-field 16 (v % 2 ^ 32) 8 b'0' (omega arith) (inr refl)) refl

  convert-shows : (args : List Arg) → convert d args ≡ shows d args
  unfolding convert shows
  convert-shows args = rw (take-number args, take-text args, take-pointer args) refl

-- What is left of a directive that has been read, behind it the rest of the format.
abbrev finish : Option (Directive × List ℕ) → List Arg → Option (List ℕ)
finish none args = some []
finish (some (d, f)) args = shown_then (render f plain) (shows d args)

render-two :
    (f : List ℕ) (pad w : ℕ) (args : List Arg)
    → render f (two_digits pad w) args ≡ finish (read_conversion pad w f) args
unfolding render
render-two [] pad w args = refl
render-two (c ∷ f) pad w args = refl

render-one :
    (f : List ℕ) (pad w : ℕ) (args : List Arg)
    → render f (one_digit pad w) args ≡ finish (read_width pad (second_digit w f)) args
unfolding render
render-one [] pad w args = refl
render-one (c ∷ f) pad w args = elim (Bool-cases (is_digit c)) [
  | inl e ↦ rw e (render-two f pad (w * 10 + (c - b'0')) args)
  | inr e ↦ rw e refl
]

render-flagged :
    (f : List ℕ) (pad : ℕ) (args : List Arg)
    → render f (flagged pad) args ≡ finish (read_width pad (parse_width f 0)) args
unfolding render parse_width
render-flagged [] pad args = refl
render-flagged (c ∷ f) pad args = elim (Bool-cases (is_digit c)) [
  | inl e ↦ rw e (render-one f pad (c - b'0') args)
  | inr e ↦ rw e refl
]

render-percent :
    (f : List ℕ) (args : List Arg) → render f percent args ≡ finish (read_directive f) args
unfolding render read_directive parse_width
render-percent [] args = refl
render-percent (c ∷ f) args = elim (Bool-cases (c == b'0')) [
  | inl e ↦ rw e (render-flagged f b'0' args)
  | inr e ↦ rw e (render-flagged (c ∷ f) b' ' args)
]

-- Every directive that is read has a space or a zero for its padding.
abbrev ReadsPad : Option (Directive × List ℕ) → Type 0
ReadsPad none = Unit {0}
ReadsPad (some (d, f)) = HasPad d

read_width-ReadsPad :
    (pad : ℕ) (p : List ℕ × ℕ) → (pad ≡ b' ') ⊎ (pad ≡ b'0') → ReadsPad (read_width pad p)
read_width-ReadsPad pad ([], width) is = tt
read_width-ReadsPad pad (c ∷ f, width) is = is

read_directive-ReadsPad : (f : List ℕ) → ReadsPad (read_directive f)
unfolding read_directive
read_directive-ReadsPad [] = tt
read_directive-ReadsPad (c ∷ f) = elim (Bool-cases (c == b'0')) [
  | inl e ↦ rw e (read_width-ReadsPad b'0' (parse_width f 0) (inr refl))
  | inr e ↦ rw e (read_width-ReadsPad b' ' (parse_width (c ∷ f) 0) (inl refl))
]

before-output : (cs : List ℕ) (o : Option (List ℕ)) → before cs (output o) ≡ output (behind cs o)
before-output cs none = refl
before-output cs (some ds) = refl

module _ (fuel : ℕ)
    (later : (f : List ℕ) (args : List Arg)
      → length f < fuel
      → print_loop fuel f args ≡ output (render f plain args)) where
  piece-Renders :
      (f : List ℕ) (o : Option (List ℕ × List Arg))
      → length f < fuel
      → print_piece (print_loop fuel) f o ≡ output (shown_then (render f plain) o)
  piece-Renders f none lt = refl
  piece-Renders f (some (cs, rest)) lt =
      rw (later f rest lt) (before-output cs (render f plain rest))

  directive-Renders :
      (n : ℕ) (o : Option (Directive × List ℕ)) (args : List Arg)
      → n < fuel
      → IsShorter n o
      → ReadsPad o
      → print_directive (print_loop fuel) o args ≡ output (finish o args)
  directive-Renders n none args lt le pad = refl
  directive-Renders n (some (d, f)) args lt le pad =
      rw (convert-shows d pad args) (piece-Renders f (shows d args) (omega arith))

  step-Renders :
      (b : Bool) (c : ℕ) (f : List ℕ) (args : List Arg)
      → (c == b'%') ≡ b
      → length f < fuel
      → print_step (print_loop fuel) b c f args ≡ output (render (c ∷ f) plain args)
  unfolding render
  step-Renders true c f args e lt =
      rw (e, render-percent f args)
        (directive-Renders (length f) (read_directive f) args lt (read_directive-IsShorter f)
          (read_directive-ReadsPad f))
  step-Renders false c f args e lt =
      rw (e, later f args lt) (before-output (c ∷ []) (render f plain args))

loop-Renders :
    (fuel : ℕ) (f : List ℕ) (args : List Arg)
    → length f < fuel
    → print_loop fuel f args ≡ output (render f plain args)
unfolding print_loop render
loop-Renders zero f args lt = absurd (omega arith)
loop-Renders (suc fuel) [] args lt = refl
loop-Renders (suc fuel) (c ∷ f) args lt =
    step-Renders fuel (loop-Renders fuel) (c == b'%') c f args refl (omega arith)

-- `kprintf` prints the message for an unknown conversion if its check refuses the format. Else it
-- prints what the format says, read once from left to right: each directive as the field of its
-- argument, filled on the left to its width with spaces or zeros, or as that message if its
-- conversion is unknown; and every other character as it stands. Its behaviour is undefined exactly
-- if that reading meets a directive whose argument is missing or of another type, or a number with
-- a width above 16.
pub kprintf_renders :
    (format : List ℕ) (args : List Arg)
    → kprintf format args ≡ (
        if check_for_unknown_format format
        then printed unknown_conversion
        else output (render format plain args))
unfolding kprintf
kprintf_renders format args = elim (Bool-cases (check_for_unknown_format format)) [
  | inl e ↦ rw e refl
  | inr e ↦ rw e (loop-Renders (suc (length format)) format args (omega arith))
]
