-- ===== src/Prelude/Bits/Step.antt =====
-- The lowest binary digit of `|` and of `&`. The native operations mean a recursion on digits with
-- fuel; here the fuel goes.
use Prim.Native.Nat.{
  ℕ, zero, suc, ◌+◌, ◌-◌, ◌*◌, ◌/◌, ◌%◌, ◌≤◌, min, max, bit_and, bit_or, digits, bitwise,
  bit_and-bitwise, bit_or-bitwise,
}
use mathlib.Core.Path.{◌≡◌, refl, ap, ◌∙◌}
use native.Mathlib.Omega.{arith}

module _ (on_zero : ℕ → ℕ) (digit : ℕ → ℕ → ℕ) where
  -- Fuel beyond the number itself is not used: one unit more, and any number of them.
  one_more :
      (fuel x y : ℕ)
      → x ≤ fuel
      → digits on_zero digit (suc fuel) x y ≡ digits on_zero digit fuel x y
  one_more zero zero y le = refl
  one_more (suc fuel) zero y le = refl
  one_more zero (suc x) y le = absurd (omega arith)
  one_more (suc fuel) (suc x) y le = rw (one_more fuel (suc x / 2) (y / 2) (omega arith))

  many_more : (extra x y : ℕ) → digits on_zero digit (extra + x) x y ≡ bitwise on_zero digit x y
  many_more zero x y =
      let e : zero + x ≡ x = omega arith in ap (λ fuel. digits on_zero digit fuel x y) e
  many_more (suc extra) x y =
      let e : suc extra + x ≡ suc (extra + x) = omega arith in
      ap (λ fuel. digits on_zero digit fuel x y) e
      ∙ one_more (extra + x) x y (omega arith)
      ∙ many_more extra x y

  halved :
      (x y : ℕ)
      → digits on_zero digit x (suc x / 2) (y / 2) ≡ bitwise on_zero digit (suc x / 2) (y / 2)
  halved x y =
      let e : x ≡ (x - suc x / 2) + suc x / 2 = omega arith in
      ap (λ fuel. digits on_zero digit fuel (suc x / 2) (y / 2)) e
      ∙ many_more (x - suc x / 2) (suc x / 2) (y / 2)

pub bit_or_digit : (x y : ℕ) → bit_or x y ≡ max (x % 2) (y % 2) + 2 * bit_or (x / 2) (y / 2)
bit_or_digit zero y = omega (arith, bit_or-bitwise 0 y, bit_or-bitwise 0 (y / 2))
bit_or_digit (suc x) y =
    omega
      (arith, bit_or-bitwise (suc x) y, bit_or-bitwise (suc x / 2) (y / 2), halved (λ d. d) max x y)

pub bit_and_digit : (x y : ℕ) → bit_and x y ≡ min (x % 2) (y % 2) + 2 * bit_and (x / 2) (y / 2)
bit_and_digit zero y = omega (arith, bit_and-bitwise 0 y, bit_and-bitwise 0 (y / 2))
bit_and_digit (suc x) y =
    omega (
      arith,
      bit_and-bitwise (suc x) y,
      bit_and-bitwise (suc x / 2) (y / 2),
      halved (λ d. 0) min x y,
    )
