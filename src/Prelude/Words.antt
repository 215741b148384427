-- ===== src/Prelude/Words.antt =====
-- Machine words as native numbers, the conversions between them, and the little-endian codecs of
-- Go's encoding/binary.
use Prim.Native.Nat.{ℕ, ◌+◌, ◌*◌, ◌/◌, ◌%◌, ◌^◌, ◌<◌}
use mathlib.Core.Path.{◌≡◌}
use native.Mathlib.Omega.{arith}

abbrev pub IsU8 : ℕ → Type 0
IsU8 n = n < 256

abbrev pub IsU16 : ℕ → Type 0
IsU16 n = n < 65536

abbrev pub IsU32 : ℕ → Type 0
IsU32 n = n < 4294967296

-- `uint8(n)`, `uint16(n)` and `uint32(n)` of a wider number.
abbrev pub u8 : ℕ → ℕ
u8 n = n % 256

abbrev pub u16 : ℕ → ℕ
u16 n = n % 65536

abbrev pub u32 : ℕ → ℕ
u32 n = n % 4294967296

infixl 70 ◌>>>◌ ◌<<<◌
abbrev pub ◌>>>◌ : ℕ → ℕ → ℕ
a >>> k = a / 2 ^ k

-- The caller cuts the result to its width.
abbrev pub ◌<<<◌ : ℕ → ℕ → ℕ
a <<< k = a * 2 ^ k

-- `LittleEndian.Uint16` and `Uint32` of the bytes in their order.
abbrev pub uint16 : ℕ → ℕ → ℕ
uint16 b0 b1 = b0 + b1 * 256

abbrev pub uint32 : ℕ → ℕ → ℕ → ℕ → ℕ
uint32 b0 b1 b2 b3 = b0 + b1 * 256 + b2 * 65536 + b3 * 16777216

-- Byte `i` that `PutUint16` and `PutUint32` write.
abbrev pub byte_of : ℕ → ℕ → ℕ
byte_of v i = v / 256 ^ i % 256

pub uint16-byte_of : (v : ℕ) → IsU16 v → uint16 (byte_of v 0) (byte_of v 1) ≡ v
uint16-byte_of v h = omega arith

pub uint32-byte_of :
    (v : ℕ) → IsU32 v → uint32 (byte_of v 0) (byte_of v 1) (byte_of v 2) (byte_of v 3) ≡ v
uint32-byte_of v h = omega arith

pub u8-eq_of_lt : (n : ℕ) → IsU8 n → u8 n ≡ n
u8-eq_of_lt n h = omega arith
