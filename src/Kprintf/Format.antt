-- ===== src/Kprintf/Format.antt =====
-- lib/kprintf.c: how a format is read, by the check before printing and by the printing itself. A
-- format is its characters without the closing zero.
use betriebssysteme.Common.{
  ℕ, ◌+◌, ◌-◌, ◌*◌, Bool, true, false, ◌&&◌, ◌||◌, Option, none, some, List, [], ◌∷◌, ◌==◌, leb,
  if◌then◌else◌,
}

abbrev pub is_digit : ℕ → Bool
is_digit c = leb b'0' c && leb c b'9'

-- The characters of the cases of `switch (*format)`.
abbrev pub is_conversion : ℕ → Bool
is_conversion c =
    c == b'c' || c == b's' || c == b'i' || c == b'u' || c == b'x' || c == b'p' || c == b'%'

-- Where the check stands: in the outer loop, behind a percent sign, or in the loop over digits.
pub data Place : Type 0 where
  in_text after_percent in_width : Place

-- Where a character takes it; `none` is `return 1`.
unfoldable pub next_place : Place → ℕ → Option Place
next_place in_text c = some (if c == b'%' then after_percent else in_text)
next_place after_percent c =
    if is_digit c then some in_width else if is_conversion c then some in_text else none
next_place in_width c =
    if is_digit c then some in_width else if is_conversion c then some in_text else none

-- `true` is `return 1`. At the end of the format the tests `format == 0` of the loops over digits
-- never succeed, so that the `switch` decides there.
unfoldable pub check_from : Place → List ℕ → Bool
unfolding next_place
check_from in_text [] = false
check_from after_percent [] = false
check_from in_width [] = true
check_from p (c ∷ f) = elim (next_place p c) [ none ↦ true | some q ↦ check_from q f ]

unfoldable pub check_for_unknown_format : List ℕ → Bool
unfolding check_from
check_for_unknown_format format = check_from in_text format

-- The second round of the loop of `parse_width`, behind the digit `d`.
abbrev pub second_digit : ℕ → List ℕ → List ℕ × ℕ
second_digit d [] = ([], d)
second_digit d (c ∷ f) = if is_digit c then (f, d * 10 + (c - b'0')) else (c ∷ f, d)

-- The rest of the format, and the width, which stays where there is no digit.
unfoldable pub parse_width : List ℕ → ℕ → List ℕ × ℕ
parse_width [] width = ([], width)
parse_width (c ∷ f) width = if is_digit c then second_digit (c - b'0') f else (c ∷ f, width)

-- What stands behind a percent sign.
pub record Directive : Type 0 where
  pub pad : ℕ
  pub width : ℕ
  pub conversion : ℕ

-- `none`: the format ends, and `kprintf` returns.
abbrev pub read_conversion : ℕ → ℕ → List ℕ → Option (Directive × List ℕ)
read_conversion pad width [] = none
read_conversion pad width (c ∷ f) = some (record { pad = pad; width = width; conversion = c }, f)

abbrev pub read_width : ℕ → List ℕ × ℕ → Option (Directive × List ℕ)
read_width pad (f, width) = read_conversion pad width f

unfoldable pub read_directive : List ℕ → Option (Directive × List ℕ)
unfolding parse_width
read_directive [] = none
read_directive (c ∷ f) =
    if c == b'0' then read_width b'0' (parse_width f 0) else read_width b' ' (parse_width (c ∷ f) 0)
