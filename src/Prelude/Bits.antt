-- ===== src/Prelude/Bits.antt =====
-- `|` of disjoint fields and `&` with a mask, as arithmetic, at every width.
mod Step
use Step.{bit_or_digit, bit_and_digit}
use Prim.Native.Nat.{
  ℕ, zero, suc, ◌+◌, ◌-◌, ◌*◌, ◌/◌, ◌%◌, ◌^◌, ◌≤◌, ◌<◌, bit_and, bit_or, bit_and-bitwise,
  bit_or-bitwise,
}
use mathlib.Core.Path.{◌≡◌, refl, ap, ◌∙◌}
use native.Mathlib.Nat.{pow-suc, one-le-pow}
use native.Mathlib.Omega.{arith}

-- `|` and `&` do not mind the order of their arguments: by a bound on both.
both_comm :
    (bound x y : ℕ)
    → x ≤ bound
    → y ≤ bound
    → (bit_or x y ≡ bit_or y x) × (bit_and x y ≡ bit_and y x)
both_comm zero zero zero p q = (refl, refl)
both_comm zero zero (suc y) p q = absurd (omega arith)
both_comm zero (suc x) y p q = absurd (omega arith)
both_comm (suc bound) x y p q =
    let (ors, ands) = both_comm bound (x / 2) (y / 2) (omega arith) (omega arith) in
    (
      omega (arith, bit_or_digit x y, bit_or_digit y x, ors),
      omega (arith, bit_and_digit x y, bit_and_digit y x, ands),
    )

pub bit_or_comm : (x y : ℕ) → bit_or x y ≡ bit_or y x
bit_or_comm x y = (both_comm (x + y) x y (omega arith) (omega arith)).0

pub bit_and_comm : (x y : ℕ) → bit_and x y ≡ bit_and y x
bit_and_comm x y = (both_comm (x + y) x y (omega arith) (omega arith)).1

pub bit_or-zero : (x : ℕ) → bit_or x 0 ≡ x
bit_or-zero x = bit_or_comm x 0 ∙ bit_or-bitwise 0 x

pub bit_and-zero : (x : ℕ) → bit_and x 0 ≡ 0
bit_and-zero x = bit_and_comm x 0 ∙ bit_and-bitwise 0 x

-- A field that starts one bit higher.
shift_by_one : (width field : ℕ) → field * 2 ^ suc width ≡ 2 * (field * 2 ^ width)
shift_by_one width field =
    let twice : 2 ^ suc width ≡ 2 ^ width * 2 = pow-suc 2 width in
    ap (λ (t : ℕ). field * t) twice ∙ omega arith

-- A number below `2 ^ width`, joined by `|` with a field above it.
pub bit_or_high :
    (width low high : ℕ) → low < 2 ^ width → bit_or low (high * 2 ^ width) ≡ low + high * 2 ^ width
bit_or_high zero low high small = ground (arith, bit_or_comm low high, bit_or-zero high)
bit_or_high (suc width) low high small =
    let half : low / 2 < 2 ^ width = omega (arith, pow-suc 2 width) in
    let joined : bit_or (low / 2) (high * 2 ^ width) ≡ low / 2 + high * 2 ^ width =
      bit_or_high width (low / 2) high half in
    ground (arith, joined, shift_by_one width high, bit_or_digit low (high * 2 ^ suc width))

pub bit_or_low :
    (width high low : ℕ) → low < 2 ^ width → bit_or (high * 2 ^ width) low ≡ high * 2 ^ width + low
bit_or_low width high low small =
    omega (arith, bit_or_high width low high small, bit_or_comm (high * 2 ^ width) low)

-- A mask of `width` ones keeps the low bits, and so is a remainder.
low_field :
    (width high low : ℕ) → low < 2 ^ width → bit_and (high * 2 ^ width + low) (2 ^ width - 1) ≡ low
low_field zero high low small = ground (arith, bit_and-zero (high * 2 ^ 0 + low))
low_field (suc width) high low small =
    let half : low / 2 < 2 ^ width = omega (arith, pow-suc 2 width) in
    let rest : bit_and (high * 2 ^ width + low / 2) (2 ^ width - 1) ≡ low / 2 =
      low_field width high (low / 2) half in
    ground (
      arith,
      rest,
      pow-suc 2 width,
      one-le-pow width 2,
      shift_by_one width high,
      bit_and_digit (high * 2 ^ suc width + low) (2 ^ suc width - 1),
    )

pub bit_and_mask : (width x : ℕ) → bit_and x (2 ^ width - 1) ≡ x % 2 ^ width
bit_and_mask width x =
    let positive : 1 ≤ 2 ^ width = one-le-pow width 2 (omega arith) in
    ground (arith, low_field width (x / 2 ^ width) (x % 2 ^ width))

-- A mask above bit `width` looks at the field above it.
pub bit_and_high :
    (width high low mask : ℕ)
    → low < 2 ^ width
    → bit_and (high * 2 ^ width + low) (mask * 2 ^ width) ≡ bit_and high mask * 2 ^ width
bit_and_high zero high low mask small = ground arith
bit_and_high (suc width) high low mask small =
    let half : low / 2 < 2 ^ width = omega (arith, pow-suc 2 width) in
    let above : bit_and (high * 2 ^ width + low / 2) (mask * 2 ^ width)
        ≡ bit_and high mask * 2 ^ width =
      bit_and_high width high (low / 2) mask half in
    ground (
      arith,
      above,
      shift_by_one width high,
      shift_by_one width mask,
      shift_by_one width (bit_and high mask),
      bit_and_digit (high * 2 ^ suc width + low) (mask * 2 ^ suc width),
    )
