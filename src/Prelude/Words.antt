-- ===== src/Prelude/Words.antt =====
-- Machine words as native numbers below 2 ^ w: casts, shifts and two's complement.
use Prim.Native.Nat.{ℕ, ◌+◌, ◌-◌, ◌*◌, ◌/◌, ◌%◌, ◌^◌}
use spacewasm.Prelude.Tests.{ltb, if◌then◌else◌}

-- `as u8`, `as u16`, `as u32` and `as u64` of an unsigned value, or of a bit pattern.
abbrev pub as_u8 : ℕ → ℕ
as_u8 n = n % 2 ^ 8

abbrev pub as_u16 : ℕ → ℕ
as_u16 n = n % 2 ^ 16

abbrev pub as_u32 : ℕ → ℕ
as_u32 n = n % 2 ^ 32

abbrev pub as_u64 : ℕ → ℕ
as_u64 n = n % 2 ^ 64

-- `usize` on the 64-bit targets that the development reads the code for.
abbrev pub usize_max : ℕ
usize_max = 2 ^ 64 - 1

-- Shifts of a `w`-bit word: `<<` drops what leaves the word, `>>` of an unsigned word fills with 0.
abbrev pub shl : ℕ → ℕ → ℕ → ℕ
shl w x k = (x * 2 ^ k) % 2 ^ w

abbrev pub shr : ℕ → ℕ → ℕ
shr x k = x / 2 ^ k

-- `>>` of a signed `w`-bit word copies the sign bit. The word is its bit pattern.
abbrev pub sar : ℕ → ℕ → ℕ → ℕ
sar w x k = if ltb x (2 ^ (w - 1)) then x / 2 ^ k else 2 ^ w - 1 - (2 ^ w - 1 - x) / 2 ^ k

-- Wrapping addition and subtraction of `w`-bit words.
abbrev pub add_w : ℕ → ℕ → ℕ → ℕ
add_w w a b = (a + b) % 2 ^ w

abbrev pub sub_w : ℕ → ℕ → ℕ → ℕ
sub_w w a b = (a + 2 ^ w - b) % 2 ^ w
