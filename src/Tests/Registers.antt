-- ===== src/Tests/Registers.antt =====
-- Bit-fields of registers, at concrete places.
use betriebssysteme.Common.{◌≡◌, refl}
use betriebssysteme.Registers.{write_field, fen_field}

cleared : write_field fen_field 0 0x70 ≡ 0x60
unfolding write_field
cleared = refl
