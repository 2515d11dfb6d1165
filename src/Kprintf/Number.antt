-- ===== src/Kprintf/Number.antt =====
-- The digits of lib/kprintf.c say the number.
use native.Mathlib.Nat.{pow-zero, pow-succ', div-add-mod}
use mathlib.Core.Path.{subst}
use betriebssysteme.Common.{
  length, length-append, length-replicate, replicate, none, ◌↔◌, true, ap, ==_iff, ℕ, zero, suc,
  ◌+◌, ◌-◌, ◌*◌, ◌/◌, ◌%◌, ◌^◌, ◌<◌, ◌≤◌, ◌≡◌, arith, ◌∙◌, ◌⊎◌, inl, inr, List, [], ◌∷◌, ◌==◌, leb,
  if◌then◌else◌, Bool-cases,
}
use betriebssysteme.Kprintf.{
  digit_char, convert_loop, convert_to_base_string, print_in_base_unsigned,
}

-- What a digit stands for, and the number that the digits write, the last one first.
abbrev pub char_digit : ℕ → ℕ
char_digit c = if leb c 57 then c - 48 else c - 87

abbrev pub decode : ℕ → List ℕ → ℕ
decode base [] = 0
decode base (c ∷ cs) = char_digit c + base * decode base cs

char_digit-digit_char : (d : ℕ) → char_digit (digit_char d) ≡ d
char_digit-digit_char d = ground arith

module _ (base : ℕ) (halves : (v n : ℕ) → v < 2 * n → v / base < n) where
  decode-step :
      (rounds value : ℕ)
      → decode base (convert_loop rounds (value / base) base) ≡ value / base
      → decode base (convert_loop (suc rounds) value base) ≡ value
  unfolding convert_loop
  decode-step rounds value e = elim (Bool-cases (value / base == 0)) [
    | inl z ↦ rw z (
        ap (λ d. d + base * 0) (char_digit-digit_char (value % base))
        ∙ omega (arith, div-add-mod value base, ap (λ q. base * q) ((==_iff (value / base) 0).0 z)))
    | inr z ↦
        rw (z, e)
          (ap (λ d. d + base * (value / base)) (char_digit-digit_char (value % base))
            ∙ omega (arith, div-add-mod value base))
  ]

  decode-convert_loop :
      (rounds value : ℕ) → value < 2 ^ rounds → decode base (convert_loop rounds value base) ≡ value
  unfolding convert_loop
  decode-convert_loop zero value lt = omega arith
  decode-convert_loop (suc rounds) value lt =
      let half : value < 2 * 2 ^ rounds = subst (λ m. value < m) (pow-succ' 2 rounds) lt in
      decode-step rounds value
        (decode-convert_loop rounds (value / base) (halves value (2 ^ rounds) half))

-- The digits that are printed in base 10 or 16 write the number, for every 32-bit number.
pub convert-decode :
    (value base : ℕ)
    → value < 2 ^ 32
    → (base ≡ 10) ⊎ (base ≡ 16)
    → decode base (convert_to_base_string value base) ≡ value
unfolding convert_to_base_string
convert-decode value base lt (inl e) =
    rw e (decode-convert_loop 10 (λ v n h. omega arith) 32 value lt)
convert-decode value base lt (inr e) =
    rw e (decode-convert_loop 16 (λ v n h. omega arith) 32 value lt)

module _ (base : ℕ) (shrinks : (v n : ℕ) → v < base * n → v / base < n) where
  length-convert_loop :
      (rounds n value : ℕ) → value < base ^ suc n → length (convert_loop rounds value base) ≤ suc n
  unfolding convert_loop
  length-convert_loop zero n value lt = omega arith
  length-convert_loop (suc rounds) zero value lt =
      let less : value / base < 1 =
        subst (λ m. value / base < m) (pow-zero base)
          (shrinks value (base ^ 0) (subst (λ m. value < m) (pow-succ' base 0) lt)) in
      let none_left : (value / base == 0) ≡ true = (==_iff (value / base) 0).1 (omega arith) in
      rw none_left (omega arith)
  length-convert_loop (suc rounds) (suc n) value lt =
      let less : value / base < base ^ suc n =
        shrinks value (base ^ suc n) (subst (λ m. value < m) (pow-succ' base (suc n)) lt) in
      let rest = length-convert_loop rounds n (value / base) less in
      elim (Bool-cases (value / base == 0)) [
        | inl z ↦ rw z (omega arith)
        | inr z ↦ rw z (omega (arith, rest))
      ]

pub length-convert :
    (value base : ℕ)
    → value < 2 ^ 32
    → (base ≡ 10) ⊎ (base ≡ 16)
    → length (convert_to_base_string value base) ≤ 10
unfolding convert_to_base_string
length-convert value base lt (inl e) =
    rw e (length-convert_loop 10 (λ v n h. omega arith) 32 9 value (omega arith))
length-convert value base lt (inr e) =
    rw e (length-convert_loop 16 (λ v n h. omega arith) 32 9 value (omega arith))

-- A number that is printed with a width of at most 16 fits the buffer of 16 characters; with a larger
-- width, which the format may ask for, the padding writes past its end.
print_unsigned_bounds :
    (value base width pad : ℕ)
    → value < 2 ^ 32
    → (base ≡ 10) ⊎ (base ≡ 16)
    → (print_in_base_unsigned value base width pad ≡ none) ↔ (16 < width)
unfolding print_in_base_unsigned
print_unsigned_bounds value base width pad lt b =
    let buffer : List ℕ = convert_to_base_string value base in
    let short : length buffer ≤ 10 = length-convert value base lt b in
    let total = λ (n : ℕ).
      length-append buffer (replicate n pad)
      ∙ ap (λ m. length buffer + m) (length-replicate n pad) in
    elim (Bool-cases (leb width (length buffer))) [
      | inl e ↦ rw (e, total 0) (ground arith)
      | inr e ↦ rw (e, total (width - length buffer)) (ground arith)
    ]
