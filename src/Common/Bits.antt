-- ===== src/Common/Bits.antt =====
-- Masks: `x & (2 ^ k - 1)` keeps the low `k` bits.
pub mod Single
use Prim.Native.Nat.add
use mathlib.Core.Path.{subst}
use native.Mathlib.Decide.{dec_lt}
use Prim.Native.Nat.{◌∣◌, bit_and, bit_and-bitwise, digits, min}
use native.Mathlib.Nat.{
  mod-mod_of_dvd, dvd-mul_right, mod-add-mod, mod-eq-sub-mod, mod-eq_of_lt, mul-add-mod_self_left,
  div-add-mod, mod-lt, pow-suc, pow-succ', zero-mod,
}
use betriebssysteme.Common.{
  ◌≢◌, ℕ, zero, suc, ◌+◌, ◌-◌, ◌*◌, ◌/◌, ◌%◌, ◌^◌, ◌≤◌, ◌<◌, ◌≡◌, arith, sym, ◌∙◌, ap,
}

pub pow_pos : (k : ℕ) → 0 < 2 ^ k
pow_pos zero = omega arith
pow_pos (suc k) = omega (arith, pow-suc 2 k, pow_pos k)

-- One more bit of a remainder.
mod_double : (a p : ℕ) → 0 < p → a % (2 * p) ≡ a / 2 % p * 2 + a % 2
mod_double a p pos =
    let c : ℕ = a / 2 % p * 2 + a % 2 in
    let low : c < 2 * p = omega (arith, mod-lt (a / 2) pos) in
    let all : 2 * p * (a / 2 / p) + c ≡ a =
      omega (arith, ap (λ (t : ℕ). 2 * t) (div-add-mod (a / 2) p)) in
    ap (λ t. t % (2 * p)) (sym all) ∙ mul-add-mod_self_left (2 * p) (a / 2 / p) c ∙ mod-eq_of_lt low

mask_digits : (n a k : ℕ) → a ≤ n → digits (λ b. zero) min n a (2 ^ k - 1) ≡ a % 2 ^ k
mask_digits zero zero k h = sym (zero-mod (2 ^ k))
mask_digits zero (suc a) k h = absurd (omega arith)
mask_digits (suc n) zero k h = sym (zero-mod (2 ^ k))
mask_digits (suc n) (suc a) zero h = omega (arith, mask_digits n (suc a / 2) zero (omega arith))
mask_digits (suc n) (suc a) (suc k) h =
    let half : (2 ^ suc k - 1) / 2 ≡ 2 ^ k - 1 = omega (arith, pow-suc 2 k, pow_pos k) in
    let odd : (2 ^ suc k - 1) % 2 ≡ 1 = omega (arith, pow-suc 2 k, pow_pos k) in
    rw (half, odd, mask_digits n (suc a / 2) k (omega arith), pow-succ' 2 k)
      (omega (arith, mod_double (suc a) (2 ^ k) (pow_pos k)))

pub bit_and_mask : (a k : ℕ) → bit_and a (2 ^ k - 1) ≡ a % 2 ^ k
bit_and_mask a k = bit_and-bitwise a (2 ^ k - 1) ∙ mask_digits a a k (omega arith)

-- Wrapping to 32 bits keeps the low `k` bits.
pub pow_add : (a b : ℕ) → 2 ^ (a + b) ≡ 2 ^ a * 2 ^ b
pow_add zero b = rw add.zero (omega arith)
pow_add (suc a) b = rw (add.suc, pow-succ', pow-succ', pow_add a b) (omega arith)

pub wrap-mod_low : (x k : ℕ) → k ≤ 32 → x % 2 ^ 32 % 2 ^ k ≡ x % 2 ^ k
wrap-mod_low x k h =
    let whole : k + (32 - k) ≡ 32 = omega arith in
    let e : 2 ^ k * 2 ^ (32 - k) ≡ 2 ^ 32 =
      sym (pow_add k (32 - k)) ∙ ap (λ (t : ℕ). 2 ^ t) whole in
    mod-mod_of_dvd (2 ^ k) x (subst (λ t. 2 ^ k ∣ t) e (dvd-mul_right (2 ^ k) (2 ^ (32 - k))))

-- Going on by less than the modulus never comes back to the same remainder.
pub add-mod-ne : (u d p : ℕ) → 0 < d → d < p → (u + d) % p ≢ u % p
add-mod-ne u d p pos lt = elim (dec_lt (u % p + d) p) [
  | yes h ↦ omega (arith, mod-add-mod u p d, mod-eq_of_lt h)
  | no h ↦ omega (
    arith,
    mod-add-mod u p d,
    mod-lt u {m = p} (omega arith),
    mod-eq-sub-mod {n = u % p + d} {m = p} (omega arith),
    mod-eq_of_lt {n = u % p + d - p} {m = p} (omega (arith, mod-lt u {m = p} (omega arith))),
  )
]
