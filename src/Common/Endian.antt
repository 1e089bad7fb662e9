-- ===== src/Common/Endian.antt =====
-- encoding/binary as the program uses it: unsigned integers of 2, 4 and 8 bytes, in both orders.
use netman.Errors.{Result, ok, err, eof, unexpected_eof}
use netman.Common.Lists.{Bytes, All, length}
use Prim.Native.Nat.{ℕ, ◌+◌, ◌*◌, ◌/◌, ◌%◌, ◌<◌}
use mathlib.Core.Path.{◌≡◌, refl}
use mathlib.Core.List.{[], ◌∷◌, ◌++◌}
use native.Mathlib.Omega.{arith}

abbrev pub IsByte : ℕ → Type 0
IsByte b = b < 256

abbrev pub IsU16 : ℕ → Type 0
IsU16 n = n < 65536

abbrev pub IsU32 : ℕ → Type 0
IsU32 n = n < 4294967296

abbrev pub IsU64 : ℕ → Type 0
IsU64 n = n < 18446744073709551616

-- `binary.Write(buff, binary.LittleEndian, uint32(n))`.
unfoldable pub u32_le : ℕ → Bytes
u32_le n = n % 256 ∷ n / 256 % 256 ∷ n / 65536 % 256 ∷ n / 16777216 % 256 ∷ []

-- `binary.Read(buff, binary.LittleEndian, &n)`, with what the buffer then holds.
unfoldable pub read_u32_le : Bytes → Result (ℕ × Bytes)
read_u32_le [] = err eof
read_u32_le (a ∷ []) = err unexpected_eof
read_u32_le (a ∷ b ∷ []) = err unexpected_eof
read_u32_le (a ∷ b ∷ c ∷ []) = err unexpected_eof
read_u32_le (a ∷ b ∷ c ∷ d ∷ rest) = ok (a + b * 256 + c * 65536 + d * 16777216, rest)

unfoldable pub u16_be : ℕ → Bytes
u16_be n = n / 256 % 256 ∷ n % 256 ∷ []

unfoldable pub u64_be : ℕ → Bytes
u64_be n =
    n / 72057594037927936 % 256
    ∷ n / 281474976710656 % 256
    ∷ n / 1099511627776 % 256
    ∷ n / 4294967296 % 256
    ∷ n / 16777216 % 256
    ∷ n / 65536 % 256
    ∷ n / 256 % 256
    ∷ n % 256
    ∷ []

-- A big-endian number of any width, most significant byte first.
unfoldable pub from_be : ℕ → Bytes → ℕ
from_be acc [] = acc
from_be acc (b ∷ bs) = from_be (acc * 256 + b) bs

pub read-u32_le : (n : ℕ) (rest : Bytes) → IsU32 n → read_u32_le (u32_le n ++ rest) ≡ ok (n, rest)
unfolding u32_le read_u32_le
read-u32_le n rest h = ground arith

pub u32_le-read :
    (a b c d : ℕ)
    → IsByte a
    → IsByte b
    → IsByte c
    → IsByte d
    → u32_le (a + b * 256 + c * 65536 + d * 16777216) ≡ a ∷ b ∷ c ∷ d ∷ []
unfolding u32_le
u32_le-read a b c d ha hb hc hd = ground arith

pub length-u32_le : (n : ℕ) → length (u32_le n) ≡ 4
unfolding u32_le
length-u32_le n = refl

pub u32_le-IsByte : (n : ℕ) → All IsByte (u32_le n)
unfolding u32_le
u32_le-IsByte n = omega arith

pub from_be-u16_be : (n : ℕ) → IsU16 n → from_be 0 (u16_be n) ≡ n
unfolding from_be u16_be
from_be-u16_be n h = omega arith

pub from_be-u64_be : (n : ℕ) → IsU64 n → from_be 0 (u64_be n) ≡ n
unfolding from_be u64_be
from_be-u64_be n h = omega arith
