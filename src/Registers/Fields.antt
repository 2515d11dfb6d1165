-- ===== src/Registers/Fields.antt =====
-- Reading and writing bit-fields.
use native.Mathlib.Nat.{
  div-add-mod', div-div-eq-div-mul, div-eq_of_lt, mul-add-div_right, mul-add-mod_self_right, mod-lt,
  mod-eq_of_lt, mul_comm, mul_assoc,
}
use betriebssysteme.Common.{ℕ, ◌+◌, ◌-◌, ◌*◌, ◌/◌, ◌%◌, ◌^◌, ◌<◌, ◌≤◌, ◌≡◌, arith, sym, ap, ◌∙◌}
use betriebssysteme.Common.Bits.{pow_pos, pow_add}
use betriebssysteme.Registers.{read_field, write_field}

-- The bits from `first` on of a number that is put together at that place.
above : (a b p : ℕ) → b < p → (a * p + b) / p ≡ a
above a b p lt =
    mul-add-div_right {m = p} (omega (arith, lt)) a b
    ∙ omega (arith, div-eq_of_lt {n = b} {m = p} lt)

module _ (first width v r : ℕ) where
  written_above :
      write_field (first, width) v r / 2 ^ first
      ≡ r / 2 ^ (first + width) * 2 ^ width + v % 2 ^ width
  unfolding write_field
  written_above = above _ (r % 2 ^ first) (2 ^ first) (mod-lt r (pow_pos first))

  -- What has been written is read back, cut to the width of the field.
  pub read_field-write_field :
      read_field (first, width) (write_field (first, width) v r) ≡ v % 2 ^ width
  unfolding read_field
  read_field-write_field =
      ap (λ x. x % 2 ^ width) written_above
      ∙ mul-add-mod_self_right (r / 2 ^ (first + width)) (2 ^ width) (v % 2 ^ width)
      ∙ mod-eq_of_lt (mod-lt v (pow_pos width))

  -- The bits behind the field stay.
  written_behind : write_field (first, width) v r / 2 ^ (first + width) ≡ r / 2 ^ (first + width)
  written_behind =
      ap (λ x. write_field (first, width) v r / x) (pow_add first width)
      ∙ sym (div-div-eq-div-mul (write_field (first, width) v r) (2 ^ first) (2 ^ width))
      ∙ ap (λ x. x / 2 ^ width) written_above
      ∙ above (r / 2 ^ (first + width)) (v % 2 ^ width) (2 ^ width) (mod-lt v (pow_pos width))

-- A field that lies behind another one is not touched by a write to that one.
pub read_field-behind :
    (first width v r next size : ℕ)
    → first + width ≤ next
    → read_field (next, size) (write_field (first, width) v r) ≡ read_field (next, size) r
unfolding read_field
read_field-behind first width v r next size le =
    ap (λ x. x % 2 ^ size)
      (further (write_field (first, width) v r)
        ∙ ap (λ x. x / 2 ^ (next - (first + width))) (written_behind first width v r)
        ∙ sym (further r))
  where
    further : (x : ℕ) → x / 2 ^ next ≡ x / 2 ^ (first + width) / 2 ^ (next - (first + width))
    further x =
        let whole : (first + width) + (next - (first + width)) ≡ next = omega arith in
        ap (λ (t : ℕ). x / 2 ^ t) (sym whole)
        ∙ ap (λ t. x / t) (pow_add (first + width) (next - (first + width)))
        ∙ sym (div-div-eq-div-mul x (2 ^ (first + width)) (2 ^ (next - (first + width))))

-- What stands behind a field is cut off when it is read.
cut :
    (a b first width rest : ℕ)
    → (a * (2 ^ first * (2 ^ width * 2 ^ rest)) + b) / 2 ^ first % 2 ^ width
      ≡ b / 2 ^ first % 2 ^ width
cut a b first width rest =
    let p : ℕ = 2 ^ first in
    let w : ℕ = 2 ^ width in
    let d : ℕ = 2 ^ rest in
    let order : a * (p * (w * d)) ≡ a * d * w * p =
      ap (λ x. a * x) (mul_comm p (w * d) ∙ ap (λ x. x * p) (mul_comm w d))
      ∙ sym (mul_assoc a (d * w) p)
      ∙ ap (λ x. x * p) (sym (mul_assoc a d w)) in
    ap (λ x. (x + b) / p % w) order
    ∙ ap (λ x. x % w) (mul-add-div_right {m = p} (pow_pos first) (a * d * w) b)
    ∙ mul-add-mod_self_right (a * d) w (b / p)

-- Nor is one that lies before it.
pub read_field-before :
    (first width v r prev size : ℕ)
    → prev + size ≤ first
    → read_field (prev, size) (write_field (first, width) v r) ≡ read_field (prev, size) r
unfolding read_field write_field
read_field-before first width v r prev size le =
    low (r / 2 ^ (first + width) * 2 ^ width + v % 2 ^ width) (r % 2 ^ first)
    ∙ sym (low (r / 2 ^ first) (r % 2 ^ first))
    ∙ ap (λ x. x / 2 ^ prev % 2 ^ size) (div-add-mod' r (2 ^ first))
  where
    low : (a b : ℕ) → (a * 2 ^ first + b) / 2 ^ prev % 2 ^ size ≡ b / 2 ^ prev % 2 ^ size
    low a b =
        let whole : prev + (size + (first - (prev + size))) ≡ first = omega arith in
        ap (λ x. (a * x + b) / 2 ^ prev % 2 ^ size)
          (ap (λ (t : ℕ). 2 ^ t) (sym whole)
            ∙ pow_add prev (size + (first - (prev + size)))
            ∙ ap (λ x. 2 ^ prev * x) (pow_add size (first - (prev + size))))
        ∙ cut a b prev size (first - (prev + size))
