-- ===== src/Common/Bits/Single.antt =====
-- One bit of a word: `x | 1 << k` has it.
use Prim.Native.Nat.{bit_and, bit_or, bit_and-bitwise, bit_or-bitwise, digits, min, max}
use native.Mathlib.Nat.{div-div-eq-div-mul, div_self, pow-suc, pow-succ', zero-div}
use betriebssysteme.Common.{
  ℕ, zero, suc, ◌+◌, ◌*◌, ◌/◌, ◌%◌, ◌^◌, ◌≤◌, ◌<◌, ◌≡◌, ◌⊎◌, inl, inr, ◌==◌, ◌&&◌, arith, refl,
  true, sym, ◌∙◌, ap,
}
use betriebssysteme.Common.Bits.{pow_pos}
use betriebssysteme.Common.Words.{test_bit}

half_pow : (k : ℕ) → (2 ^ suc k / 2 ≡ 2 ^ k) × (2 ^ suc k % 2 ≡ 0)
half_pow k = omega (arith, pow-suc 2 k)

-- The digit of `2 ^ k` in a number.
abbrev pub digit : ℕ → ℕ → ℕ
digit x k = x / 2 ^ k % 2

digit_half : (x k : ℕ) → digit x (suc k) ≡ digit (x / 2) k
digit_half x k = rw (pow-succ' 2 k, sym (div-div-eq-div-mul x 2 (2 ^ k))) refl

digit_double : (d c k : ℕ) → c < 2 → digit (d * 2 + c) (suc k) ≡ digit d k
digit_double d c k lt = digit_half (d * 2 + c) k ∙ ap (λ t. digit t k) (omega arith)

digit_pow : (k : ℕ) → digit (2 ^ k) k ≡ 1
digit_pow k = rw (div_self (pow_pos k)) refl

max_one : (x : ℕ) → x < 2 → max x 1 ≡ 1
max_one zero h = refl
max_one (suc zero) h = refl
max_one (suc (suc x)) h = absurd (omega arith)

max_zero : (x : ℕ) → max x 0 ≡ x
max_zero x = omega arith

min_zero : (x : ℕ) → min x 0 ≡ 0
min_zero x = omega arith

or_digits : (n a k : ℕ) → a ≤ n → digit (digits (λ b. b) max n a (2 ^ k)) k ≡ 1
or_digits zero a k h = digit_pow k
or_digits (suc n) zero k h = digit_pow k
or_digits (suc n) (suc a) zero h = rw (max_one (suc a % 2) (omega arith)) (omega arith)
or_digits (suc n) (suc a) (suc k) h =
    let rest : ℕ = digits (λ b. b) max n (suc a / 2) (2 ^ k) in
    rw ((half_pow k).0, (half_pow k).1, max_zero (suc a % 2))
      (digit_double rest (suc a % 2) k (omega arith) ∙ or_digits n (suc a / 2) k (omega arith))

and_none : (n x : ℕ) → digits (λ b. zero) min n x 0 ≡ 0
and_none zero x = refl
and_none (suc n) zero = refl
and_none (suc n) (suc x) = rw (and_none n (suc x / 2), min_zero (suc x % 2)) refl

and_digits : (n x k : ℕ) → x ≤ n → digit x k ≡ 1 → digits (λ b. zero) min n x (2 ^ k) ≡ 2 ^ k
and_digits n zero k h e = absurd (omega (arith, e, ap (λ t. t % 2) (zero-div (2 ^ k))))
and_digits zero (suc x) k h e = absurd (omega arith)
and_digits (suc n) (suc x) zero h e =
    let odd : suc x % 2 ≡ 1 = omega (arith, e) in rw (and_none n (suc x / 2), odd) refl
and_digits (suc n) (suc x) (suc k) h e =
    let next : digit (suc x / 2) k ≡ 1 = sym (digit_half (suc x) k) ∙ e in
    rw
      (
        (half_pow k).0,
        (half_pow k).1,
        min_zero (suc x % 2),
        and_digits n (suc x / 2) k (omega arith) next,
      )
      (omega (arith, pow-suc 2 k))

-- A bit that has been set is set.
pub test_bit-or : (x k : ℕ) → test_bit (bit_or x (2 ^ k)) k ≡ true
unfolding test_bit
test_bit-or x k =
    let set : digit (bit_or x (2 ^ k)) k ≡ 1 =
      ap (λ t. digit t k) (bit_or-bitwise x (2 ^ k)) ∙ or_digits x x k (omega arith) in
    let found : bit_and (bit_or x (2 ^ k)) (2 ^ k) ≡ 2 ^ k =
      bit_and-bitwise (bit_or x (2 ^ k)) (2 ^ k)
      ∙ and_digits (bit_or x (2 ^ k)) (bit_or x (2 ^ k)) k (omega arith) set in
    rw found (ground (arith, pow_pos k))

and_digits-none : (n x k : ℕ) → x ≤ n → digit x k ≡ 0 → digits (λ b. zero) min n x (2 ^ k) ≡ 0
and_digits-none zero x k h e = refl
and_digits-none (suc n) zero k h e = refl
and_digits-none (suc n) (suc x) zero h e =
    let even : suc x % 2 ≡ 0 = omega (arith, e) in rw (and_none n (suc x / 2), even) refl
and_digits-none (suc n) (suc x) (suc k) h e =
    let next : digit (suc x / 2) k ≡ 0 = sym (digit_half (suc x) k) ∙ e in
    rw
      (
        (half_pow k).0,
        (half_pow k).1,
        min_zero (suc x % 2),
        and_digits-none n (suc x / 2) k (omega arith) next,
      )
      refl

-- The test of a mask is the test of its digit.
pub test_bit-digit : (x k : ℕ) → test_bit x k ≡ (digit x k == 1)
unfolding test_bit
test_bit-digit x k = elim (one_or_none (digit x k) (omega arith)) [
  | inl e ↦
      let found : bit_and x (2 ^ k) ≡ 2 ^ k =
        bit_and-bitwise x (2 ^ k) ∙ and_digits x x k (omega arith) e in
      rw (found, e) (ground (arith, pow_pos k))
  | inr e ↦
      let none_found : bit_and x (2 ^ k) ≡ 0 =
        bit_and-bitwise x (2 ^ k) ∙ and_digits-none x x k (omega arith) e in
      rw (none_found, e) refl
]
  where
    one_or_none : (d : ℕ) → d < 2 → (d ≡ 1) ⊎ (d ≡ 0)
    one_or_none d lt = omega arith

and_digit :
    (n a b k : ℕ) → a ≤ n → digit (digits (λ b. zero) min n a b) k ≡ min (digit a k) (digit b k)
and_digit zero zero b k h = rw (zero-div (2 ^ k)) (omega arith)
and_digit zero (suc a) b k h = absurd (omega arith)
and_digit (suc n) zero b k h = rw (zero-div (2 ^ k)) (omega arith)
and_digit (suc n) (suc a) b zero h = omega arith
and_digit (suc n) (suc a) b (suc k) h =
    digit_double (digits (λ b. zero) min n (suc a / 2) (b / 2)) (min (suc a % 2) (b % 2)) k
      (omega arith)
    ∙ and_digit n (suc a / 2) (b / 2) k (omega arith)
    ∙ rw (digit_half (suc a) k, digit_half b k) refl

-- A bit of a conjunction.
pub test_bit-and : (x m k : ℕ) → test_bit (bit_and x m) k ≡ (test_bit x k && test_bit m k)
test_bit-and x m k =
    let both : digit (bit_and x m) k ≡ min (digit x k) (digit m k) =
      ap (λ t. digit t k) (bit_and-bitwise x m) ∙ and_digit x x m k (omega arith) in
    rw (test_bit-digit (bit_and x m) k, test_bit-digit x k, test_bit-digit m k, both) (ground arith)
