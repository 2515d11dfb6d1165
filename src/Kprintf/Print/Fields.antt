-- ===== src/Kprintf/Print/Fields.antt =====
-- lib/kprintf.c: a number in the buffer prints as a field that is filled on the left.
use mathlib.Core.List.{append_assoc}
use betriebssysteme.Common.{
  ℕ, zero, suc, ◌+◌, ◌-◌, ◌%◌, ◌^◌, ◌/◌, ◌<◌, ◌≤◌, ◌≡◌, ◌⊎◌, inl, inr, arith, refl, ap, sym, ◌∙◌,
  none, some, List, [], ◌∷◌, ◌++◌, ◌==◌, leb, if◌then◌else◌, length, length-append,
  length-replicate, replicate, Bool-cases,
}
use betriebssysteme.Kprintf.{
  convert_loop, convert_to_base_string, digit_char, print_in_base_signed, print_in_base_unsigned,
  reverse_onto, flush,
}
use betriebssysteme.Kprintf.Number.{length-convert}
use betriebssysteme.Kprintf.Print.Spec.{numeral, padded, unsigned_field, signed_field, in_buffer}

reverse_onto-append :
    (a b out : List ℕ) → reverse_onto (a ++ b) out ≡ reverse_onto b (reverse_onto a out)
reverse_onto-append [] b out = refl
reverse_onto-append (x ∷ a) b out = reverse_onto-append a b (x ∷ out)

reverse_onto-out : (a out : List ℕ) → reverse_onto a out ≡ reverse_onto a [] ++ out
reverse_onto-out [] out = refl
reverse_onto-out (x ∷ a) out =
    reverse_onto-out a (x ∷ out)
    ∙ sym (append_assoc (reverse_onto a []) (x ∷ []) out)
    ∙ ap (λ l. l ++ out) (sym (reverse_onto-out a (x ∷ [])))

replicate-cons : (n a : ℕ) (l : List ℕ) → replicate n a ++ a ∷ l ≡ a ∷ replicate n a ++ l
replicate-cons zero a l = refl
replicate-cons (suc n) a l = ap (λ r. a ∷ r) (replicate-cons n a l)

reverse_onto-replicate :
    (n a : ℕ) (out : List ℕ) → reverse_onto (replicate n a) out ≡ replicate n a ++ out
reverse_onto-replicate zero a out = refl
reverse_onto-replicate (suc n) a out = reverse_onto-replicate n a (a ∷ out) ∙ replicate-cons n a out

length-reverse_onto : (a out : List ℕ) → length (reverse_onto a out) ≡ length a + length out
length-reverse_onto [] out = omega arith
length-reverse_onto (x ∷ a) out = omega (arith, length-reverse_onto a (x ∷ out))

-- The digits in the buffer are the numeral, the last one first.
reverse_onto-convert_loop :
    (most base v : ℕ) → reverse_onto (convert_loop most v base) [] ≡ numeral most base v
unfolding convert_loop numeral
reverse_onto-convert_loop zero base v = refl
reverse_onto-convert_loop (suc most) base v = elim (Bool-cases (v / base == 0)) [
  | inl e ↦ rw e refl
  | inr e ↦ rw e (
      reverse_onto-out (convert_loop most (v / base) base) (digit_char (v % base) ∷ [])
      ∙ ap (λ l. l ++ digit_char (v % base) ∷ []) (reverse_onto-convert_loop most base (v / base)))
]

reverse_onto-convert :
    (base v : ℕ) → reverse_onto (convert_to_base_string v base) [] ≡ numeral 32 base v
unfolding convert_to_base_string
reverse_onto-convert base v = reverse_onto-convert_loop 32 base v

length-numeral : (base v : ℕ) → length (numeral 32 base v) ≡ length (convert_to_base_string v base)
length-numeral base v =
    ap length (sym (reverse_onto-convert base v))
    ∙ omega (arith, length-reverse_onto (convert_to_base_string v base) [])

-- What the buffer prints once it holds the digits and the padding.
flushed :
    (base v n pad : ℕ)
    → reverse_onto (convert_to_base_string v base ++ replicate n pad) []
      ≡ replicate n pad ++ numeral 32 base v
flushed base v n pad =
    reverse_onto-append (convert_to_base_string v base) (replicate n pad) []
    ∙ reverse_onto-replicate n pad _
    ∙ ap (λ l. replicate n pad ++ l) (reverse_onto-convert base v)

pub print_unsigned-field :
    (base v width pad : ℕ)
    → v < 2 ^ 32
    → (base ≡ 10) ⊎ (base ≡ 16)
    → print_in_base_unsigned v base width pad ≡ in_buffer width (unsigned_field base width pad v)
unfolding print_in_base_unsigned
print_unsigned-field base v width pad lt b =
    let buffer : List ℕ = convert_to_base_string v base in
    let short : length buffer ≤ 10 = length-convert v base lt b in
    let n : ℕ = if leb width (length buffer) then 0 else width - length buffer in
    let same : n ≡ width - length (numeral 32 base v) = rw (length-numeral base v) (ground arith) in
    let total : length (buffer ++ replicate n pad) ≡ length buffer + n =
      length-append buffer (replicate n pad)
      ∙ ap (λ m. length buffer + m) (length-replicate n pad) in
    let room : leb (length (buffer ++ replicate n pad)) 16 ≡ leb width 16 =
      rw total (ground arith) in
    ap (λ t. if t then some (reverse_onto (buffer ++ replicate n pad) []) else none) room
    ∙ ap (in_buffer width)
        (flushed base v n pad ∙ ap (λ m. replicate m pad ++ numeral 32 base v) same)

-- The signed printer's buffer: the digits, a sign before or behind the padding.
module _ (v width n pad : ℕ) (bef aft : List ℕ) where
  abbrev filled : List ℕ
  filled = convert_to_base_string v 10 ++ bef ++ replicate n pad ++ aft

  reverse_onto-filled :
      reverse_onto filled []
      ≡ reverse_onto aft (replicate n pad ++ reverse_onto bef (numeral 32 10 v))
  reverse_onto-filled =
      let buffer : List ℕ = convert_to_base_string v 10 in
      reverse_onto-append (buffer ++ bef ++ replicate n pad) aft []
      ∙ ap (reverse_onto aft) (
          reverse_onto-append (buffer ++ bef) (replicate n pad) []
          ∙ reverse_onto-replicate n pad _
          ∙ ap (λ l. replicate n pad ++ l)
              (reverse_onto-append buffer bef []
                ∙ ap (reverse_onto bef) (reverse_onto-convert 10 v)))

  length-filled : length filled ≡ length (convert_to_base_string v 10) + length bef + n + length aft
  length-filled =
      let buffer : List ℕ = convert_to_base_string v 10 in
      omega (
        arith,
        length-append buffer bef,
        length-append (buffer ++ bef) (replicate n pad),
        length-append (buffer ++ bef ++ replicate n pad) aft,
        length-replicate n pad,
      )

  flush-filled :
      (m : ℕ)
      → leb (length filled) 16 ≡ leb width 16
      → n ≡ m
      → flush filled
        ≡ in_buffer width (reverse_onto aft (replicate m pad ++ reverse_onto bef (numeral 32 10 v)))
  flush-filled m room same =
      ap (λ t. if t then some (reverse_onto filled []) else none) room
      ∙ ap (in_buffer width) (
          reverse_onto-filled
          ∙ ap (λ (j : ℕ). reverse_onto aft (replicate j pad ++ reverse_onto bef (numeral 32 10 v)))
              same)

-- The digits of a number that is not negative, and those of the number behind a sign.
module _ (v width pad : ℕ) (lt : v < 2 ^ 32) where
  abbrev digit_count : ℕ
  digit_count = length (convert_to_base_string v 10)

  few : digit_count ≤ 10
  few = length-convert v 10 lt (inl refl)

  plus-field :
      flush
        (filled v width (if leb width digit_count then 0 else width - digit_count - 0) pad [] [])
      ≡ in_buffer width (padded width pad (numeral 32 10 v))
  plus-field =
      let n : ℕ = if leb width digit_count then 0 else width - digit_count - 0 in
      flush-filled v width n pad [] [] (width - length (numeral 32 10 v))
        (rw (length-filled v width n pad [] []) (ground (arith, few)))
        (rw (length-numeral 10 v) (ground arith))

  minus-spaces :
      flush (
        filled v width
          (if leb width digit_count then 0 else width - digit_count - 1)
          pad
          (45 ∷ [])
          [])
      ≡ in_buffer width (padded width pad (b'-' ∷ numeral 32 10 v))
  minus-spaces =
      let n : ℕ = if leb width digit_count then 0 else width - digit_count - 1 in
      flush-filled v width n pad (45 ∷ []) [] (width - suc (length (numeral 32 10 v)))
        (rw (length-filled v width n pad (45 ∷ []) []) (ground (arith, few)))
        (rw (length-numeral 10 v) (ground arith))

  minus-zeros :
      flush (
        filled v width
          (if leb width digit_count then 0 else width - digit_count - 1)
          pad
          []
          (45 ∷ []))
      ≡ in_buffer width (b'-' ∷ padded (width - 1) pad (numeral 32 10 v))
  minus-zeros =
      let n : ℕ = if leb width digit_count then 0 else width - digit_count - 1 in
      flush-filled v width n pad [] (45 ∷ []) (width - 1 - length (numeral 32 10 v))
        (rw (length-filled v width n pad [] (45 ∷ [])) (ground (arith, few)))
        (rw (length-numeral 10 v) (ground arith))

pub print_signed-field :
    (v width pad : ℕ)
    → v < 2 ^ 32
    → (pad ≡ b' ') ⊎ (pad ≡ b'0')
    → print_in_base_signed v 10 width pad ≡ in_buffer width (signed_field width pad v)
unfolding print_in_base_signed
print_signed-field v width pad lt p = elim (Bool-cases (leb (2 ^ 31) v)) [
  | inl minus ↦
      let abs : (2 ^ 32 - v) % 2 ^ 32 ≡ 2 ^ 32 - v = ground arith in
      let small : 2 ^ 32 - v < 2 ^ 32 = ground arith in
      elim p [
        | inl e ↦ rw (minus, e, abs) (minus-spaces (2 ^ 32 - v) width b' ' small)
        | inr e ↦ rw (minus, e, abs) (minus-zeros (2 ^ 32 - v) width b'0' small)
      ]
  | inr plus ↦ elim p [
    | inl e ↦ rw (plus, e) (plus-field v width b' ' lt)
    | inr e ↦ rw (plus, e) (plus-field v width b'0' lt)
  ]
]
