-- ===== src/Kprintf/Print/Shorter.antt =====
-- lib/kprintf.c: each round of the loop of `kprintf` leaves a shorter format.
use betriebssysteme.Common.{
  ℕ, ◌-◌, ◌≤◌, inl, inr, arith, Option, none, some, List, [], ◌∷◌, ◌==◌, length, Bool-cases,
}
use betriebssysteme.Kprintf.Format.{
  Directive, second_digit, parse_width, read_width, read_directive,
}

second_digit-shorter : (d : ℕ) (f : List ℕ) → length (second_digit d f).0 ≤ length f
second_digit-shorter d [] = omega arith
second_digit-shorter d (c ∷ f) = ground arith

parse_width-shorter : (f : List ℕ) (w : ℕ) → length (parse_width f w).0 ≤ length f
unfolding parse_width
parse_width-shorter [] w = omega arith
parse_width-shorter (c ∷ f) w = ground (arith, second_digit-shorter (c - b'0') f)

-- What a directive leaves of a format of length `n`.
abbrev pub IsShorter : ℕ → Option (Directive × List ℕ) → Type 0
IsShorter n none = Unit {0}
IsShorter n (some (d, f)) = length f ≤ n

read_width-IsShorter :
    (pad n : ℕ) (p : List ℕ × ℕ) → length p.0 ≤ n → IsShorter n (read_width pad p)
read_width-IsShorter pad n ([], width) le = tt
read_width-IsShorter pad n (c ∷ f, width) le = omega arith

pub read_directive-IsShorter : (f : List ℕ) → IsShorter (length f) (read_directive f)
unfolding read_directive
read_directive-IsShorter [] = tt
read_directive-IsShorter (c ∷ f) = elim (Bool-cases (c == b'0')) [
  | inl e ↦ rw e (
      read_width-IsShorter b'0' (length (c ∷ f)) (parse_width f 0)
        (omega (arith, parse_width-shorter f 0)))
  | inr e ↦ rw e (
      read_width-IsShorter b' ' (length (c ∷ f)) (parse_width (c ∷ f) 0)
        (parse_width-shorter (c ∷ f) 0))
]
