-- ===== src/RingBuffer/Inv.antt =====
-- The representation invariant of `struct ring_buff`: a buffer of 2 ^ k characters, at most so many
-- between the two positions.
use betriebssysteme.Common.{ℕ, ◌-◌, ◌^◌, ◌≤◌, ◌<◌, ◌≡◌, length}
use betriebssysteme.Common.Words.{sub_u32}
use betriebssysteme.RingBuffer.{RingBuff}

-- How many characters wait in the buffer: `head - tail` of `unsigned int`.
abbrev pub level : RingBuff → ℕ
level b = sub_u32 b.head b.tail

-- The buffer has 2 ^ k characters, and k is at most 31.
pub record IsValid (k : ℕ) (b : RingBuff) : Type 0 where
  pub small : k ≤ 31
  pub size_pow : b.size ≡ 2 ^ k
  pub mask_low : b.mask ≡ 2 ^ k - 1
  pub storage : length b.buffer ≡ 2 ^ k
  pub head_in : b.head < 2 ^ 32
  pub tail_in : b.tail < 2 ^ 32
  pub level_in : level b ≤ 2 ^ k
