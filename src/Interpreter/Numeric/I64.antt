-- ===== src/Interpreter/Numeric/I64.antt =====
-- The i64 instructions of src/interpreter.rs. An operand is its bit pattern.
use spacewasm.Prelude.{
  ℕ, ◌-◌, ◌/◌, ◌%◌, ◌^◌, ◌&&◌, not, ltb, leb, ◌==◌, if◌then◌else◌, add_w, sub_w, bit_and, bit_or,
  bit_xor, shl, shr, sar, as_u32,
}
use spacewasm.Engine.{M, pure, break, trap, TrapReason}
use spacewasm.Interpreter.Integer.{
  wrapping_mul, signed_lt, quotient, remainder, leading_zeros, trailing_zeros, count_ones,
  rotate_left, rotate_right,
}
use spacewasm.Interpreter.Numeric.{unary_i64, binary_i64, test_i64, relation_i64}

abbrev pub i64_eqz : M (Unit {0})
i64_eqz = test_i64 (λ i. i == 0)

abbrev pub i64_eq : M (Unit {0})
i64_eq = relation_i64 (λ a b. a == b)

abbrev pub i64_ne : M (Unit {0})
i64_ne = relation_i64 (λ a b. not (a == b))

abbrev pub i64_lt_s : M (Unit {0})
i64_lt_s = relation_i64 (λ a b. signed_lt 64 a b)

abbrev pub i64_lt_u : M (Unit {0})
i64_lt_u = relation_i64 (λ a b. ltb a b)

abbrev pub i64_gt_s : M (Unit {0})
i64_gt_s = relation_i64 (λ a b. signed_lt 64 b a)

abbrev pub i64_gt_u : M (Unit {0})
i64_gt_u = relation_i64 (λ a b. ltb b a)

abbrev pub i64_le_s : M (Unit {0})
i64_le_s = relation_i64 (λ a b. not (signed_lt 64 b a))

abbrev pub i64_le_u : M (Unit {0})
i64_le_u = relation_i64 (λ a b. leb a b)

abbrev pub i64_ge_s : M (Unit {0})
i64_ge_s = relation_i64 (λ a b. not (signed_lt 64 a b))

abbrev pub i64_ge_u : M (Unit {0})
i64_ge_u = relation_i64 (λ a b. leb b a)

abbrev pub i64_clz : M (Unit {0})
i64_clz = unary_i64 (leading_zeros 64)

abbrev pub i64_ctz : M (Unit {0})
i64_ctz = unary_i64 (trailing_zeros 64)

abbrev pub i64_popcnt : M (Unit {0})
i64_popcnt = unary_i64 (count_ones 64)

abbrev pub i64_add : M (Unit {0})
i64_add = binary_i64 (λ a b. pure (add_w 64 a b))

abbrev pub i64_sub : M (Unit {0})
i64_sub = binary_i64 (λ a b. pure (sub_w 64 a b))

abbrev pub i64_mul : M (Unit {0})
i64_mul = binary_i64 (λ a b. pure (wrapping_mul 64 a b))

-- The results of the divisions: they trap on a divisor 0, `div_s` also on the quotient that does not fit.
unfoldable pub div_s : ℕ → ℕ → M ℕ
div_s a b =
    if b == 0
    then break (trap TrapReason.divide_by_zero)
    else (if (a == 2 ^ 63) && (b == 2 ^ 64 - 1)
        then break (trap TrapReason.integer_overflow)
        else pure (quotient 64 a b))

unfoldable pub div_u : ℕ → ℕ → M ℕ
div_u a b = if b == 0 then break (trap TrapReason.divide_by_zero) else pure (a / b)

unfoldable pub rem_s : ℕ → ℕ → M ℕ
rem_s a b = if b == 0 then break (trap TrapReason.divide_by_zero) else pure (remainder 64 a b)

unfoldable pub rem_u : ℕ → ℕ → M ℕ
rem_u a b = if b == 0 then break (trap TrapReason.divide_by_zero) else pure (a % b)

abbrev pub i64_div_s : M (Unit {0})
i64_div_s = binary_i64 div_s

abbrev pub i64_div_u : M (Unit {0})
i64_div_u = binary_i64 div_u

abbrev pub i64_rem_s : M (Unit {0})
i64_rem_s = binary_i64 rem_s

abbrev pub i64_rem_u : M (Unit {0})
i64_rem_u = binary_i64 rem_u

abbrev pub i64_and : M (Unit {0})
i64_and = binary_i64 (λ a b. pure (bit_and a b))

abbrev pub i64_or : M (Unit {0})
i64_or = binary_i64 (λ a b. pure (bit_or a b))

abbrev pub i64_xor : M (Unit {0})
i64_xor = binary_i64 (λ a b. pure (bit_xor a b))

abbrev pub i64_shl : M (Unit {0})
i64_shl = binary_i64 (λ a b. pure (shl 64 a (as_u32 b % 64)))

abbrev pub i64_shr_s : M (Unit {0})
i64_shr_s = binary_i64 (λ a b. pure (sar 64 a (as_u32 b % 64)))

abbrev pub i64_shr_u : M (Unit {0})
i64_shr_u = binary_i64 (λ a b. pure (shr a (as_u32 b % 64)))

abbrev pub i64_rotl : M (Unit {0})
i64_rotl = binary_i64 (λ a b. pure (rotate_left 64 a (as_u32 b)))

abbrev pub i64_rotr : M (Unit {0})
i64_rotr = binary_i64 (λ a b. pure (rotate_right 64 a (as_u32 b)))
