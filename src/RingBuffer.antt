-- ===== src/RingBuffer.antt =====
-- include/lib/ringbuffer.h: the character ring behind the UART. `unsigned int` has 32 bits, and
-- the free-running positions `head` and `tail` wrap.
pub mod Fifo
pub mod Inv
pub mod Refine
use Prim.Native.Nat.{bit_and}
use betriebssysteme.Common.Words.{add_u32, sub_u32}
use betriebssysteme.Common.{
  ℕ, ◌+◌, ◌-◌, ◌%◌, ◌^◌, Bool, true, false, not, ◌&&◌, Option, none, some, List, [], ◌∷◌, leb, ◌==◌,
  if◌then◌else◌, get_or, set, replicate,
}

-- `struct ring_buff`; `buffer` is the array behind the pointer.
pub record RingBuff : Type 0 where
  pub head : ℕ
  pub tail : ℕ
  pub size : ℕ
  pub mask : ℕ
  pub buffer : List ℕ

-- Only called with `1 <= val`, where `val - 1` does not wrap.
unfoldable pub is_power_of_two : ℕ → Bool
is_power_of_two val = bit_and val (val - 1) == 0

-- `none` is a failing `static_assert`. A static array starts with zeros.
unfoldable pub create_ringbuffer : ℕ → Option RingBuff
unfolding is_power_of_two
create_ringbuffer size =
    if leb 1 size && is_power_of_two size
    then some
        (record { head = 0; tail = 0; size = size; mask = size - 1; buffer = replicate size 0 })
    else none

unfoldable pub buff_is_empty : RingBuff → Bool
buff_is_empty b = b.head == b.tail

unfoldable pub buff_is_full : RingBuff → Bool
unfolding buff_is_empty
buff_is_full b = (bit_and b.tail b.mask == bit_and b.head b.mask) && not (buff_is_empty b)

-- `true` says that the character was dropped.
unfoldable pub buff_putc : RingBuff → ℕ → Bool × RingBuff
unfolding buff_is_full
buff_putc b c = if buff_is_full b then (true, b) else (
  false,
  record b { buffer = set b.buffer (bit_and b.head b.mask) c; head = add_u32 b.head 1 },
)

-- `none`: the loop `while (buff_is_empty(b))` spins, as long as no interrupt adds a character.
unfoldable pub buff_getc : RingBuff → Option (ℕ × RingBuff)
unfolding buff_is_empty
buff_getc b =
    if buff_is_empty b
    then none
    else some (get_or b.buffer (bit_and b.tail b.mask) 0, record b { tail = add_u32 b.tail 1 })

unfoldable pub buff_peekc : RingBuff → Option ℕ
unfolding buff_is_empty
buff_peekc b = if buff_is_empty b then none else some (get_or b.buffer (bit_and b.tail b.mask) 0)

unfoldable pub buff_peekc_last : RingBuff → Option ℕ
unfolding buff_is_empty
buff_peekc_last b =
    if buff_is_empty b then none else some (get_or b.buffer (bit_and (sub_u32 b.head 1) b.mask) 0)
