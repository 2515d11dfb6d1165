-- ===== src/Common/Pigeonhole.antt =====
-- A list of distinct numbers below `n` has at most `n` members.
use betriebssysteme.Common.{
  ℕ, zero, suc, ◌≤◌, ◌<◌, ◌≡◌, arith, refl, not, ◌&&◌, List, [], ◌∷◌, ◌==◌, if◌then◌else◌, length,
  has, ◌∈◌, Distinct,
}

erase : ℕ → List ℕ → List ℕ
erase n [] = []
erase n (x ∷ xs) = if n == x then xs else x ∷ erase n xs

has-erase : (a n : ℕ) (xs : List ℕ) → Distinct xs → has a (erase n xs) ≡ (has a xs && not (a == n))
unfolding erase
has-erase a n [] d = refl
has-erase a n (x ∷ xs) d = ground (arith, has-erase a n xs d.1)

Distinct-erase : (n : ℕ) (xs : List ℕ) → Distinct xs → Distinct (erase n xs)
unfolding erase
Distinct-erase n [] d = tt
Distinct-erase n (x ∷ xs) d = ground (arith, Distinct-erase n xs d.1, has-erase x n xs d.1)

length-erase : (n : ℕ) (xs : List ℕ) → length xs ≤ suc (length (erase n xs))
unfolding erase
length-erase n [] = omega arith
length-erase n (x ∷ xs) = ground (arith, length-erase n xs)

pub length-le_of_Distinct :
    (n : ℕ) (xs : List ℕ) → Distinct xs → ((a : ℕ) → a ∈ xs → a < n) → length xs ≤ n
length-le_of_Distinct zero [] d h = omega arith
length-le_of_Distinct zero (x ∷ xs) d h = absurd (omega (arith, h x (ground arith)))
length-le_of_Distinct (suc n) xs d h = omega (
  arith,
  length-erase n xs,
  length-le_of_Distinct n (erase n xs) (Distinct-erase n xs d)
      (λ a m. ground (arith, has-erase a n xs d, h a)),
)
