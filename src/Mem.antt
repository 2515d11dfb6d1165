-- ===== src/Mem.antt =====
-- lib/mem.c: memcmp, memcpy, memmove and memset, on a flat memory of bytes.
pub mod Copy
pub mod Compare
use betriebssysteme.Common.{
  ℕ, zero, suc, ◌+◌, ◌-◌, ◌%◌, ◌^◌, Bool, true, false, ◌&&◌, ltb, ◌==◌, if◌then◌else◌, update,
}
use betriebssysteme.Common.Int.{ℤ, pos, negsuc, sub_ℕ}

-- The byte at each address. There is no MMU, so every address can be read and written.
abbrev pub Memory : Type 0
Memory = ℕ → ℕ

-- `while (n > 0 && res == 0)`; `n` falls with each round.
unfoldable pub memcmp_loop : ℕ → ℕ → ℕ → ℤ → Memory → ℤ
memcmp_loop zero str1 str2 res m = res
memcmp_loop (suc n) str1 str2 res m =
    let rest = memcmp_loop n (str1 + 1) (str2 + 1) (sub_ℕ (m str1) (m str2)) m in
    elim res [ pos z ↦ (if z == 0 then rest else pos z) | negsuc z ↦ negsuc z ]

unfoldable pub memcmp : ℕ → ℕ → ℕ → Memory → ℤ
unfolding memcmp_loop
memcmp s1 s2 n m = memcmp_loop n s1 s2 (pos 0) m

-- Upwards, byte by byte. The result of the function, `s1`, is the caller's own argument.
unfoldable pub memcpy : ℕ → ℕ → ℕ → Memory → Memory
memcpy s1 s2 zero m = m
memcpy s1 s2 (suc n) m = memcpy (s1 + 1) (s2 + 1) n (update m s1 (m s2))

-- The `else` branch of `memmove`: downwards, so that `n` is the index of the next byte.
unfoldable pub memmove_down : ℕ → ℕ → ℕ → Memory → Memory
memmove_down s1 s2 zero m = m
memmove_down s1 s2 (suc n) m = memmove_down s1 s2 n (update m (s1 + n) (m (s2 + n)))

-- Its first branch is the loop of `memcpy`, word for word.
unfoldable pub memmove : ℕ → ℕ → ℕ → Memory → Memory
unfolding memcpy memmove_down
memmove s1 s2 n m = if ltb s1 s2 then memcpy s1 s2 n m else memmove_down s1 s2 n m

-- `(unsigned char)c`
unfoldable pub memset : ℕ → ℕ → ℕ → Memory → Memory
memset s c zero m = m
memset s c (suc n) m = memset (s + 1) c n (update m s (c % 2 ^ 8))
