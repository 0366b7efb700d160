-- ===== src/Interpreter/Integer.antt =====
-- The integer methods of the standard library that src/interpreter.rs calls, on bit patterns of `w` bits,
-- and its casts between widths.
pub mod Signed
pub mod Rotation
use spacewasm.Prelude.{
  ℕ, zero, suc, ◌+◌, ◌-◌, ◌*◌, ◌/◌, ◌%◌, ◌^◌, Bool, true, false, ltb, leb, ◌==◌, if◌then◌else◌,
}

pub wrapping_mul : ℕ → ℕ → ℕ → ℕ
wrapping_mul w a b = (a * b) % 2 ^ w

-- The sign bit of a pattern, and the distance from 0 of the number it stands for.
unfoldable pub is_negative : ℕ → ℕ → Bool
is_negative w a = leb (2 ^ (w - 1)) a

unfoldable pub magnitude : ℕ → ℕ → ℕ
magnitude w a = if is_negative w a then 2 ^ w - a else a

-- The pattern of a number given by its sign and its magnitude.
unfoldable pub with_sign : ℕ → Bool → ℕ → ℕ
with_sign w true m = (2 ^ w - m) % 2 ^ w
with_sign w false m = m

-- `a < b` of two signed numbers.
unfoldable pub signed_lt : ℕ → ℕ → ℕ → Bool
signed_lt w a b =
    if is_negative w a
    then (if is_negative w b then ltb a b else true)
    else (if is_negative w b then false else ltb a b)

-- Whether exactly one of two signs is negative.
abbrev pub differ : Bool → Bool → Bool
differ true true = false
differ true false = true
differ false true = true
differ false false = false

-- `/` and `wrapping_rem` of signed numbers round toward 0. The divisor is not 0.
unfoldable pub quotient : ℕ → ℕ → ℕ → ℕ
quotient w a b =
    with_sign w (differ (is_negative w a) (is_negative w b)) (magnitude w a / magnitude w b)

unfoldable pub remainder : ℕ → ℕ → ℕ → ℕ
remainder w a b = with_sign w (is_negative w a) (magnitude w a % magnitude w b)

unfoldable pub leading_zeros : ℕ → ℕ → ℕ
leading_zeros zero a = 0
leading_zeros (suc w) a = if leb (2 ^ w) a then 0 else suc (leading_zeros w a)

unfoldable pub trailing_zeros : ℕ → ℕ → ℕ
trailing_zeros zero a = 0
trailing_zeros (suc w) a = if a % 2 == 1 then 0 else suc (trailing_zeros w (a / 2))

unfoldable pub count_ones : ℕ → ℕ → ℕ
count_ones zero a = 0
count_ones (suc w) a = a % 2 + count_ones w (a / 2)

unfoldable pub rotate_left : ℕ → ℕ → ℕ → ℕ
rotate_left w a n = (a * 2 ^ (n % w)) % 2 ^ w + a / 2 ^ (w - n % w)

unfoldable pub rotate_right : ℕ → ℕ → ℕ → ℕ
rotate_right w a n = a / 2 ^ (n % w) + (a * 2 ^ (w - n % w)) % 2 ^ w

-- A cast from a signed type of `v` bits to a type of `w` bits: the low `v` bits, sign-extended.
unfoldable pub sign_extend : ℕ → ℕ → ℕ → ℕ
sign_extend v w a = if is_negative v (a % 2 ^ v) then a % 2 ^ v + (2 ^ w - 2 ^ v) else a % 2 ^ v
