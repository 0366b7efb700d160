-- ===== src/Reader/Leb.antt =====
-- src/reader.rs: the variable-length (LEB128) and fixed-length integers. The code unrolls its loops:
-- a block for each byte, alike but for the last. A signed integer is its bit pattern.
pub mod Groups
pub mod Unsigned
pub mod Signed
pub mod SignedWords
pub mod Progress
use spacewasm.Prelude.{
  ℕ, zero, suc, ◌+◌, ◌-◌, ◌*◌, ◌/◌, ◌%◌, ◌^◌, bit_and, bit_or, Bool, true, false, ◌||◌, List, [],
  ◌∷◌, ltb, ◌==◌, if◌then◌else◌, shl, sar, from_le_bytes,
}
use spacewasm.Errors.{ValidationError}
use spacewasm.Reader.{Reader, M, pure, fail, after, ◌>>=◌, ◌>>◌, read_u8, strip_bytes}

abbrev pub continuation_bit : ℕ
continuation_bit = 0b10000000

-- `!CONTINUATION_BIT`
abbrev pub integer_bit_flag : ℕ
integer_bit_flag = 0b01111111

-- `result |= u32::from(byte & INTEGER_BIT_FLAG) << shift` at `w` bits.
unfoldable pub add_group : ℕ → ℕ → ℕ → ℕ → ℕ
add_group w result byte shift = bit_or result (shl w (bit_and byte integer_bit_flag) shift)

-- One block of `read_u32`; `next` is the block after it.
unfoldable pub u32_group : ℕ → ℕ → (ℕ → M ℕ) → M ℕ
u32_group shift result next = do
  byte ← read_u8
  let result' = add_group 32 result byte shift
  if bit_and byte continuation_bit == 0 then pure result' else next result'

-- The fifth block of `read_u32`.
unfoldable pub u32_last : ℕ → ℕ → M ℕ
u32_last shift result = do
  byte ← read_u8
  let result' = add_group 32 result byte shift
  let has_next_byte = ltb 0 (bit_and byte continuation_bit)
  let padding_bits_are_not_zero = ltb 0 (bit_and byte 0b01110000)
  if has_next_byte || padding_bits_are_not_zero
      then fail ValidationError.malformed_integer
      else pure result'

-- The blocks from one on: so many before the last.
unfoldable pub u32_groups : ℕ → ℕ → ℕ → M ℕ
u32_groups zero shift result = u32_last shift result
u32_groups (suc k) shift result = u32_group shift result (u32_groups k (shift + 7))

unfoldable pub read_u32 : M ℕ
read_u32 = u32_groups 4 0 0

-- `count_ones` of a number below 2 ^ w.
unfoldable pub count_ones : ℕ → ℕ → ℕ
count_ones zero x = 0
count_ones (suc w) x = x % 2 + count_ones w (x / 2)

-- `(result << n) >> n` of a signed number, `n` being the bits of the type that no byte has set.
unfoldable pub sign_extended : ℕ → ℕ → ℕ → ℕ
sign_extended w result bits = sar w (shl w result (w - bits)) (w - bits)

-- One block of `read_i32` (`w` is 32) and `read_i64` (64).
unfoldable pub signed_group : ℕ → ℕ → ℕ → (ℕ → M ℕ) → M ℕ
signed_group w shift result next = do
  byte ← read_u8
  let result' = add_group w result byte shift
  if bit_and byte continuation_bit == 0
      then pure (sign_extended w result' (shift + 7))
      else next result'

-- The last block: `mask` holds the padding bits and the sign bit, which must be alike.
unfoldable pub signed_last : ℕ → ℕ → ℕ → ℕ → M ℕ
signed_last w mask shift result = do
  byte ← read_u8
  let result' = add_group w result byte shift
  let ones = count_ones 8 (bit_and byte mask)
  if ltb 0 (bit_and byte continuation_bit)
      then fail ValidationError.malformed_integer
      else (if ones == count_ones 8 mask || ones == 0
          then pure result'
          else fail ValidationError.malformed_integer)

unfoldable pub signed_groups : ℕ → ℕ → ℕ → ℕ → ℕ → M ℕ
signed_groups w mask zero shift result = signed_last w mask shift result
signed_groups w mask (suc k) shift result =
    signed_group w shift result (signed_groups w mask k (shift + 7))

-- `PADDING_IN_LAST_BYTE_BITMASK | SIGN_IN_LAST_BYTE_BITFLAG`
unfoldable pub read_i32 : M ℕ
read_i32 = signed_groups 32 (bit_or 0b01110000 0b00001000) 4 0 0

unfoldable pub read_i64 : M ℕ
read_i64 = signed_groups 64 (bit_or 0b01111110 0b00000001) 9 0 0

-- The bits of a float.
unfoldable pub read_f32_bits : M ℕ
read_f32_bits = strip_bytes 4 >>= λ bytes. pure (from_le_bytes bytes)

unfoldable pub read_f64_bits : M ℕ
read_f64_bits = strip_bytes 8 >>= λ bytes. pure (from_le_bytes bytes)
