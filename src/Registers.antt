-- ===== src/Registers.antt =====
-- The device and status registers that include/arch/cpu/registers.h and include/arch/bsp/uart.h take
-- apart into bit-fields.
pub mod Fields
pub mod Views
use betriebssysteme.Common.{ℕ, ◌+◌, ◌*◌, ◌/◌, ◌%◌, ◌^◌, List, [], ◌∷◌, leb, if◌then◌else◌}

-- A bit-field: the bits of the type that it is declared with, and its width.
pub record BitField : Type 0 where
  pub unit : ℕ
  pub width : ℕ

abbrev pub u8 : ℕ → BitField
u8 width = record { unit = 8; width = width }

abbrev pub u32 : ℕ → BitField
u32 width = record { unit = 32; width = width }

-- Where a field begins behind `at` bits: no field crosses the border of a unit of its type.
unfoldable pub place : ℕ → BitField → ℕ
place at f = if leb (at % f.unit + f.width) f.unit then at else (at / f.unit + 1) * f.unit

-- The first bit and the width of each field.
unfoldable pub places : ℕ → List BitField → List (ℕ × ℕ)
unfolding place
places at [] = []
places at (f ∷ fs) = (place at f, f.width) ∷ places (place at f + f.width) fs

-- The bits that all fields take.
unfoldable pub end_of : ℕ → List BitField → ℕ
unfolding place
end_of at [] = at
end_of at (f ∷ fs) = end_of (place at f + f.width) fs

-- The value of a field in a word.
unfoldable pub read_field : ℕ × ℕ → ℕ → ℕ
read_field (first, width) r = r / 2 ^ first % 2 ^ width

-- The word with another value, cut to the width, in the field.
unfoldable pub write_field : ℕ × ℕ → ℕ → ℕ → ℕ
write_field (first, width) v r =
    (r / 2 ^ (first + width) * 2 ^ width + v % 2 ^ width) * 2 ^ first + r % 2 ^ first

-- `struct psr`: mode, t, f, i, a, e, the bits that the kernel does not look at, v, c, z, n.
abbrev pub psr_fields : List BitField
psr_fields = u8 5 ∷ u8 1 ∷ u8 1 ∷ u8 1 ∷ u8 1 ∷ u8 1 ∷ u32 18 ∷ u8 1 ∷ u8 1 ∷ u8 1 ∷ u8 1 ∷ []

-- `struct uart_fr`: cts, dsr, dcd, busy, rxfe, txff, rxff, txfe, ri.
abbrev pub uart_fr_fields : List BitField
uart_fr_fields = u8 1 ∷ u8 1 ∷ u8 1 ∷ u8 1 ∷ u8 1 ∷ u8 1 ∷ u8 1 ∷ u8 1 ∷ u8 1 ∷ u32 23 ∷ []

-- `struct uart_irq_bits`: ri, cts, dcd, dsr, rx, tx, rt, fe, pe, be, oe.
abbrev pub uart_irq_bits_fields : List BitField
uart_irq_bits_fields =
    u8 1 ∷ u8 1 ∷ u8 1 ∷ u8 1 ∷ u8 1 ∷ u8 1 ∷ u8 1 ∷ u8 1 ∷ u8 1 ∷ u8 1 ∷ u8 1 ∷ u32 21 ∷ []

-- `struct uart_lcrh`: brk, pen, eps, stp2, fen, wlen, sps.
abbrev pub uart_lcrh_fields : List BitField
uart_lcrh_fields = u8 1 ∷ u8 1 ∷ u8 1 ∷ u8 1 ∷ u8 1 ∷ u8 2 ∷ u8 1 ∷ u32 24 ∷ []

pub data Register : Type 0 where
  psr uart_fr uart_irq_bits uart_lcrh : Register

abbrev pub fields : Register → List BitField
fields psr = psr_fields
fields uart_fr = uart_fr_fields
fields uart_irq_bits = uart_irq_bits_fields
fields uart_lcrh = uart_lcrh_fields

-- `psr.d.mode`, `imsc.d.rx` and `lcrh.d.fen`, by first bit and width.
abbrev pub mode_field : ℕ × ℕ
mode_field = (0, 5)

abbrev pub rx_field : ℕ × ℕ
rx_field = (4, 1)

abbrev pub fen_field : ℕ × ℕ
fen_field = (4, 1)
