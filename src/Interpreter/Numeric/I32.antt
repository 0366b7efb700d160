-- ===== src/Interpreter/Numeric/I32.antt =====
-- The i32 instructions of src/interpreter.rs. An operand is its bit pattern.
use spacewasm.Prelude.{
  ℕ, ◌-◌, ◌/◌, ◌%◌, ◌^◌, ◌&&◌, not, ltb, leb, ◌==◌, if◌then◌else◌, add_w, sub_w, bit_and, bit_or,
  bit_xor, shl, shr, sar,
}
use spacewasm.Engine.{M, pure, break, trap, TrapReason}
use spacewasm.Interpreter.Integer.{
  wrapping_mul, signed_lt, quotient, remainder, leading_zeros, trailing_zeros, count_ones,
  rotate_left, rotate_right,
}
use spacewasm.Interpreter.Numeric.{unary_i32, binary_i32, test_i32, relation_i32}

abbrev pub i32_eqz : M (Unit {0})
i32_eqz = test_i32 (λ i. i == 0)

abbrev pub i32_eq : M (Unit {0})
i32_eq = relation_i32 (λ a b. a == b)

abbrev pub i32_ne : M (Unit {0})
i32_ne = relation_i32 (λ a b. not (a == b))

abbrev pub i32_lt_s : M (Unit {0})
i32_lt_s = relation_i32 (λ a b. signed_lt 32 a b)

abbrev pub i32_lt_u : M (Unit {0})
i32_lt_u = relation_i32 (λ a b. ltb a b)

abbrev pub i32_gt_s : M (Unit {0})
i32_gt_s = relation_i32 (λ a b. signed_lt 32 b a)

abbrev pub i32_gt_u : M (Unit {0})
i32_gt_u = relation_i32 (λ a b. ltb b a)

abbrev pub i32_le_s : M (Unit {0})
i32_le_s = relation_i32 (λ a b. not (signed_lt 32 b a))

abbrev pub i32_le_u : M (Unit {0})
i32_le_u = relation_i32 (λ a b. leb a b)

abbrev pub i32_ge_s : M (Unit {0})
i32_ge_s = relation_i32 (λ a b. not (signed_lt 32 a b))

abbrev pub i32_ge_u : M (Unit {0})
i32_ge_u = relation_i32 (λ a b. leb b a)

abbrev pub i32_clz : M (Unit {0})
i32_clz = unary_i32 (leading_zeros 32)

abbrev pub i32_ctz : M (Unit {0})
i32_ctz = unary_i32 (trailing_zeros 32)

abbrev pub i32_popcnt : M (Unit {0})
i32_popcnt = unary_i32 (count_ones 32)

abbrev pub i32_add : M (Unit {0})
i32_add = binary_i32 (λ a b. pure (add_w 32 a b))

abbrev pub i32_sub : M (Unit {0})
i32_sub = binary_i32 (λ a b. pure (sub_w 32 a b))

abbrev pub i32_mul : M (Unit {0})
i32_mul = binary_i32 (λ a b. pure (wrapping_mul 32 a b))

-- The results of the divisions: they trap on a divisor 0, `div_s` also on the quotient that does not fit.
unfoldable pub div_s : ℕ → ℕ → M ℕ
div_s a b =
    if b == 0
    then break (trap TrapReason.divide_by_zero)
    else (if (a == 2 ^ 31) && (b == 2 ^ 32 - 1)
        then break (trap TrapReason.integer_overflow)
        else pure (quotient 32 a b))

unfoldable pub div_u : ℕ → ℕ → M ℕ
div_u a b = if b == 0 then break (trap TrapReason.divide_by_zero) else pure (a / b)

unfoldable pub rem_s : ℕ → ℕ → M ℕ
rem_s a b = if b == 0 then break (trap TrapReason.divide_by_zero) else pure (remainder 32 a b)

unfoldable pub rem_u : ℕ → ℕ → M ℕ
rem_u a b = if b == 0 then break (trap TrapReason.divide_by_zero) else pure (a % b)

unfoldable pub i32_div_s : M (Unit {0})
i32_div_s = binary_i32 div_s

abbrev pub i32_div_u : M (Unit {0})
i32_div_u = binary_i32 div_u

abbrev pub i32_rem_s : M (Unit {0})
i32_rem_s = binary_i32 rem_s

abbrev pub i32_rem_u : M (Unit {0})
i32_rem_u = binary_i32 rem_u

abbrev pub i32_and : M (Unit {0})
i32_and = binary_i32 (λ a b. pure (bit_and a b))

abbrev pub i32_or : M (Unit {0})
i32_or = binary_i32 (λ a b. pure (bit_or a b))

abbrev pub i32_xor : M (Unit {0})
i32_xor = binary_i32 (λ a b. pure (bit_xor a b))

abbrev pub i32_shl : M (Unit {0})
i32_shl = binary_i32 (λ a b. pure (shl 32 a (b % 32)))

abbrev pub i32_shr_s : M (Unit {0})
i32_shr_s = binary_i32 (λ a b. pure (sar 32 a (b % 32)))

abbrev pub i32_shr_u : M (Unit {0})
i32_shr_u = binary_i32 (λ a b. pure (shr a (b % 32)))

abbrev pub i32_rotl : M (Unit {0})
i32_rotl = binary_i32 (λ a b. pure (rotate_left 32 a b))

abbrev pub i32_rotr : M (Unit {0})
i32_rotr = binary_i32 (λ a b. pure (rotate_right 32 a b))
