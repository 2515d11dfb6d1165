-- ===== src/Mem/Copy.antt =====
-- What memcpy, memmove and memset of lib/mem.c leave at each address.
use betriebssysteme.Common.{
  ℕ, zero, suc, ◌+◌, ◌-◌, ◌%◌, ◌^◌, ◌≤◌, ◌≡◌, ◌⊎◌, arith, Bool, ◌&&◌, ltb, leb, if◌then◌else◌,
  update,
}
use betriebssysteme.Mem.{Memory, memcpy, memmove_down, memmove, memset}

-- Address `a` lies among the `n` bytes from `s` on.
abbrev pub within : ℕ → ℕ → ℕ → Bool
within s n a = leb s a && ltb a (s + n)

-- The memory with the `n` bytes from `s2` on copied, all at once, to `s1`.
abbrev pub copied : ℕ → ℕ → ℕ → Memory → Memory
copied s1 s2 n m a = if within s1 n a then m (s2 + (a - s1)) else m a

-- An upward copy is right unless the source begins below the target and reaches into it.
pub memcpy-copied :
    (s1 s2 n : ℕ) (m : Memory) (a : ℕ)
    → (s1 ≤ s2) ⊎ (s2 + n ≤ s1)
    → memcpy s1 s2 n m a ≡ copied s1 s2 n m a
unfolding memcpy
memcpy-copied s1 s2 zero m a h = ground arith
memcpy-copied s1 s2 (suc n) m a h =
    ground (arith, memcpy-copied (s1 + 1) (s2 + 1) n (update m s1 (m s2)) a)

memmove_down-copied :
    (s1 s2 n : ℕ) (m : Memory) (a : ℕ) → s2 ≤ s1 → memmove_down s1 s2 n m a ≡ copied s1 s2 n m a
unfolding memmove_down
memmove_down-copied s1 s2 zero m a h = ground arith
memmove_down-copied s1 s2 (suc n) m a h =
    ground (arith, memmove_down-copied s1 s2 n (update m (s1 + n) (m (s2 + n))) a)

-- `memmove` copies all bytes at once, however the areas overlap, and writes nowhere else.
pub memmove-copied : (s1 s2 n : ℕ) (m : Memory) (a : ℕ) → memmove s1 s2 n m a ≡ copied s1 s2 n m a
unfolding memmove
memmove-copied s1 s2 n m a =
    ground (arith, memcpy-copied s1 s2 n m a, memmove_down-copied s1 s2 n m a)

-- `memset` fills exactly the `n` bytes.
pub memset-filled :
    (s c n : ℕ) (m : Memory) (a : ℕ) → memset s c n m a ≡ (if within s n a then c % 2 ^ 8 else m a)
unfolding memset
memset-filled s c zero m a = ground arith
memset-filled s c (suc n) m a = ground (arith, memset-filled (s + 1) c n (update m s (c % 2 ^ 8)) a)
