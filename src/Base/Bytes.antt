-- ===== src/Base/Bytes.antt =====
-- `unsigned char` values: the casts to and from a byte, and the bit operations on one bit of it.
use Prim.Native.Nat.{ℕ, ◌-◌, ◌%◌, ◌^◌, bit_and, bit_or}
use mathlib.Core.Bool.{Bool}
use msdk_linux.Base.Tests.{ltb, if◌then◌else◌}
use msdk_linux.Base.Int.{ℤ, pos, negsuc}

-- `(unsigned char)n`
abbrev pub u8 : ℕ → ℕ
u8 n = n % 256

-- `(unsigned char)x` of an `int`, two's complement.
abbrev pub byte_of : ℤ → ℕ
byte_of (pos n) = n % 256
byte_of (negsuc n) = 255 - n % 256

-- `(signed char)b`
abbrev pub signed_char : ℕ → ℤ
signed_char b = if ltb b 128 then pos b else negsuc (255 - b)

-- `b |= 1 << k`
abbrev pub set_bit : ℕ → ℕ → ℕ
set_bit b k = bit_or b (2 ^ k)

-- `b &= ~(1 << k)` for `k < 8`: of the complement only the low eight bits meet a byte.
abbrev pub clear_bit : ℕ → ℕ → ℕ
clear_bit b k = bit_and b (255 - 2 ^ k)

-- `b & (1 << k)`, as a test.
abbrev pub test_bit : ℕ → ℕ → Bool
test_bit b k = ltb 0 (bit_and b (2 ^ k))
