-- ===== src/Mem/Compare.antt =====
-- memcmp of lib/mem.c is the lexicographic order of two byte strings.
use betriebssysteme.Common.{
  ℕ, zero, suc, ◌+◌, ◌≡◌, ◌≢◌, arith, refl, List, [], ◌∷◌, ltb, ◌==◌, if◌then◌else◌,
}
use betriebssysteme.Common.Int.{ℤ, pos, negsuc, sub_ℕ}
use betriebssysteme.Mem.{Memory, memcmp, memcmp_loop}

pub data Order : Type 0 where
  less same greater : Order

-- What the sign of a result of `memcmp` says.
abbrev pub sign : ℤ → Order
sign (pos z) = if z == 0 then same else greater
sign (negsuc z) = less

-- The `n` bytes from an address on.
abbrev pub bytes : Memory → ℕ → ℕ → List ℕ
bytes m s zero = []
bytes m s (suc n) = m s ∷ bytes m (s + 1) n

-- The order of a dictionary; of two strings where one begins the other, the shorter comes first.
abbrev pub compare : List ℕ → List ℕ → Order
compare [] [] = same
compare [] (b ∷ ys) = less
compare (a ∷ xs) [] = greater
compare (a ∷ xs) (b ∷ ys) = if ltb a b then less else if ltb b a then greater else compare xs ys

loop_stops :
    (n s1 s2 : ℕ) (res : ℤ) (m : Memory) → sign res ≢ same → memcmp_loop n s1 s2 res m ≡ res
unfolding memcmp_loop
loop_stops zero s1 s2 res m ne = refl
loop_stops (suc n) s1 s2 (pos z) m ne = ground arith
loop_stops (suc n) s1 s2 (negsuc z) m ne = refl

next_byte :
    (a b n s1 s2 : ℕ) (m : Memory)
    → sign (memcmp_loop n s1 s2 (sub_ℕ a b) m) ≡ (
        if ltb a b then less else if ltb b a then greater else sign (memcmp_loop n s1 s2 (pos 0) m))
next_byte a b n s1 s2 m = ground (arith, loop_stops n s1 s2 (sub_ℕ a b) m)

-- The sign of the result of `memcmp` is the order of the two strings of `n` bytes.
pub memcmp-compare :
    (s1 s2 n : ℕ) (m : Memory) → sign (memcmp s1 s2 n m) ≡ compare (bytes m s1 n) (bytes m s2 n)
unfolding memcmp memcmp_loop
memcmp-compare s1 s2 zero m = refl
memcmp-compare s1 s2 (suc n) m =
    rw (next_byte (m s1) (m s2) n (s1 + 1) (s2 + 1) m)
      (rw (memcmp-compare (s1 + 1) (s2 + 1) n m) refl)
