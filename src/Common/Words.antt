-- ===== src/Common/Words.antt =====
-- `uint32_t`: numbers below 2 ^ 32, with the wrap-around written out. Text as character codes.
use Prim.Native.Nat.{bit_and}
use Prim.Native.Char.{code}
use Prim.Native.String.{String}
use betriebssysteme.Common.{ℕ, ◌+◌, ◌-◌, ◌%◌, ◌^◌, ◌==◌, Bool, not, List, [], ◌∷◌}

abbrev pub add_u32 : ℕ → ℕ → ℕ
add_u32 a b = (a + b) % 2 ^ 32

abbrev pub sub_u32 : ℕ → ℕ → ℕ
sub_u32 a b = (a + 2 ^ 32 - b) % 2 ^ 32

-- `word & (1 << i)` as a condition.
unfoldable pub test_bit : ℕ → ℕ → Bool
test_bit word i = not (bit_and word (2 ^ i) == 0)

-- The characters of a string literal, without the closing zero.
abbrev pub codes : String → List ℕ
codes String.[] = []
codes (String.◌∷◌ c s) = code c ∷ codes s
