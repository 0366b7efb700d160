-- ===== src/Code/Tables.antt =====
-- The cases of `read_code` in src/code.rs that its macro `instruction!` makes, as tables from the opcode to
-- the handler.
use spacewasm.Prelude.{ℕ, List, [], ◌∷◌}
use spacewasm.Text.Builder.{M}
use spacewasm.Opcode
use spacewasm.Opcode.Fc
use spacewasm.Compiler.{nop, drop, select}
use spacewasm.Compiler.Control.{unreachable, else_, return_, br, br_if}
use spacewasm.Compiler.Calls.{call}
use spacewasm.Compiler.Variables.{local_get, local_set, local_tee, global_get, global_set}
use spacewasm.Compiler.Integers
use spacewasm.Compiler.Floats
use spacewasm.Compiler.Conversions
use spacewasm.Compiler.Memory
use spacewasm.Compiler.Memory.{MemArg}

abbrev pub control_handlers : List (ℕ × M (Unit {0}))
control_handlers =
    (Opcode.unreachable, unreachable)
    ∷ (Opcode.nop, nop)
    ∷ (Opcode.else_, else_)
    ∷ (Opcode.return_, return_)
    ∷ (Opcode.drop, drop)
    ∷ (Opcode.select, select)
    ∷ []

abbrev pub integer_handlers : List (ℕ × M (Unit {0}))
integer_handlers =
    (Opcode.i32_eqz, Integers.i32_eqz)
    ∷ (Opcode.i32_eq, Integers.i32_eq)
    ∷ (Opcode.i32_ne, Integers.i32_ne)
    ∷ (Opcode.i32_lt_s, Integers.i32_lt_s)
    ∷ (Opcode.i32_lt_u, Integers.i32_lt_u)
    ∷ (Opcode.i32_gt_s, Integers.i32_gt_s)
    ∷ (Opcode.i32_gt_u, Integers.i32_gt_u)
    ∷ (Opcode.i32_le_s, Integers.i32_le_s)
    ∷ (Opcode.i32_le_u, Integers.i32_le_u)
    ∷ (Opcode.i32_ge_s, Integers.i32_ge_s)
    ∷ (Opcode.i32_ge_u, Integers.i32_ge_u)
    ∷ (Opcode.i64_eqz, Integers.i64_eqz)
    ∷ (Opcode.i64_eq, Integers.i64_eq)
    ∷ (Opcode.i64_ne, Integers.i64_ne)
    ∷ (Opcode.i64_lt_s, Integers.i64_lt_s)
    ∷ (Opcode.i64_lt_u, Integers.i64_lt_u)
    ∷ (Opcode.i64_gt_s, Integers.i64_gt_s)
    ∷ (Opcode.i64_gt_u, Integers.i64_gt_u)
    ∷ (Opcode.i64_le_s, Integers.i64_le_s)
    ∷ (Opcode.i64_le_u, Integers.i64_le_u)
    ∷ (Opcode.i64_ge_s, Integers.i64_ge_s)
    ∷ (Opcode.i64_ge_u, Integers.i64_ge_u)
    ∷ (Opcode.i32_clz, Integers.i32_clz)
    ∷ (Opcode.i32_ctz, Integers.i32_ctz)
    ∷ (Opcode.i32_popcnt, Integers.i32_popcnt)
    ∷ (Opcode.i32_add, Integers.i32_add)
    ∷ (Opcode.i32_sub, Integers.i32_sub)
    ∷ (Opcode.i32_mul, Integers.i32_mul)
    ∷ (Opcode.i32_div_s, Integers.i32_div_s)
    ∷ (Opcode.i32_div_u, Integers.i32_div_u)
    ∷ (Opcode.i32_rem_s, Integers.i32_rem_s)
    ∷ (Opcode.i32_rem_u, Integers.i32_rem_u)
    ∷ (Opcode.i32_and, Integers.i32_and)
    ∷ (Opcode.i32_or, Integers.i32_or)
    ∷ (Opcode.i32_xor, Integers.i32_xor)
    ∷ (Opcode.i32_shl, Integers.i32_shl)
    ∷ (Opcode.i32_shr_s, Integers.i32_shr_s)
    ∷ (Opcode.i32_shr_u, Integers.i32_shr_u)
    ∷ (Opcode.i32_rotl, Integers.i32_rotl)
    ∷ (Opcode.i32_rotr, Integers.i32_rotr)
    ∷ (Opcode.i64_clz, Integers.i64_clz)
    ∷ (Opcode.i64_ctz, Integers.i64_ctz)
    ∷ (Opcode.i64_popcnt, Integers.i64_popcnt)
    ∷ (Opcode.i64_add, Integers.i64_add)
    ∷ (Opcode.i64_sub, Integers.i64_sub)
    ∷ (Opcode.i64_mul, Integers.i64_mul)
    ∷ (Opcode.i64_div_s, Integers.i64_div_s)
    ∷ (Opcode.i64_div_u, Integers.i64_div_u)
    ∷ (Opcode.i64_rem_s, Integers.i64_rem_s)
    ∷ (Opcode.i64_rem_u, Integers.i64_rem_u)
    ∷ (Opcode.i64_and, Integers.i64_and)
    ∷ (Opcode.i64_or, Integers.i64_or)
    ∷ (Opcode.i64_xor, Integers.i64_xor)
    ∷ (Opcode.i64_shl, Integers.i64_shl)
    ∷ (Opcode.i64_shr_s, Integers.i64_shr_s)
    ∷ (Opcode.i64_shr_u, Integers.i64_shr_u)
    ∷ (Opcode.i64_rotl, Integers.i64_rotl)
    ∷ (Opcode.i64_rotr, Integers.i64_rotr)
    ∷ []

abbrev pub float_handlers : List (ℕ × M (Unit {0}))
float_handlers =
    (Opcode.f32_eq, Floats.f32_eq)
    ∷ (Opcode.f32_ne, Floats.f32_ne)
    ∷ (Opcode.f32_lt, Floats.f32_lt)
    ∷ (Opcode.f32_gt, Floats.f32_gt)
    ∷ (Opcode.f32_le, Floats.f32_le)
    ∷ (Opcode.f32_ge, Floats.f32_ge)
    ∷ (Opcode.f64_eq, Floats.f64_eq)
    ∷ (Opcode.f64_ne, Floats.f64_ne)
    ∷ (Opcode.f64_lt, Floats.f64_lt)
    ∷ (Opcode.f64_gt, Floats.f64_gt)
    ∷ (Opcode.f64_le, Floats.f64_le)
    ∷ (Opcode.f64_ge, Floats.f64_ge)
    ∷ (Opcode.f32_abs, Floats.f32_abs)
    ∷ (Opcode.f32_neg, Floats.f32_neg)
    ∷ (Opcode.f32_ceil, Floats.f32_ceil)
    ∷ (Opcode.f32_floor, Floats.f32_floor)
    ∷ (Opcode.f32_trunc, Floats.f32_trunc)
    ∷ (Opcode.f32_nearest, Floats.f32_nearest)
    ∷ (Opcode.f32_sqrt, Floats.f32_sqrt)
    ∷ (Opcode.f32_add, Floats.f32_add)
    ∷ (Opcode.f32_sub, Floats.f32_sub)
    ∷ (Opcode.f32_mul, Floats.f32_mul)
    ∷ (Opcode.f32_div, Floats.f32_div)
    ∷ (Opcode.f32_min, Floats.f32_min)
    ∷ (Opcode.f32_max, Floats.f32_max)
    ∷ (Opcode.f32_copysign, Floats.f32_copysign)
    ∷ (Opcode.f64_abs, Floats.f64_abs)
    ∷ (Opcode.f64_neg, Floats.f64_neg)
    ∷ (Opcode.f64_ceil, Floats.f64_ceil)
    ∷ (Opcode.f64_floor, Floats.f64_floor)
    ∷ (Opcode.f64_trunc, Floats.f64_trunc)
    ∷ (Opcode.f64_nearest, Floats.f64_nearest)
    ∷ (Opcode.f64_sqrt, Floats.f64_sqrt)
    ∷ (Opcode.f64_add, Floats.f64_add)
    ∷ (Opcode.f64_sub, Floats.f64_sub)
    ∷ (Opcode.f64_mul, Floats.f64_mul)
    ∷ (Opcode.f64_div, Floats.f64_div)
    ∷ (Opcode.f64_min, Floats.f64_min)
    ∷ (Opcode.f64_max, Floats.f64_max)
    ∷ (Opcode.f64_copysign, Floats.f64_copysign)
    ∷ []

abbrev pub conversion_handlers : List (ℕ × M (Unit {0}))
conversion_handlers =
    (Opcode.i32_wrap_i64, Conversions.i32_wrap_i64)
    ∷ (Opcode.i32_trunc_f32_s, Conversions.i32_trunc_f32_s)
    ∷ (Opcode.i32_trunc_f32_u, Conversions.i32_trunc_f32_u)
    ∷ (Opcode.i32_trunc_f64_s, Conversions.i32_trunc_f64_s)
    ∷ (Opcode.i32_trunc_f64_u, Conversions.i32_trunc_f64_u)
    ∷ (Opcode.i64_extend_i32_s, Conversions.i64_extend_i32_s)
    ∷ (Opcode.i64_extend_i32_u, Conversions.i64_extend_i32_u)
    ∷ (Opcode.i64_trunc_f32_s, Conversions.i64_trunc_f32_s)
    ∷ (Opcode.i64_trunc_f32_u, Conversions.i64_trunc_f32_u)
    ∷ (Opcode.i64_trunc_f64_s, Conversions.i64_trunc_f64_s)
    ∷ (Opcode.i64_trunc_f64_u, Conversions.i64_trunc_f64_u)
    ∷ (Opcode.f32_convert_i32_s, Conversions.f32_convert_i32_s)
    ∷ (Opcode.f32_convert_i32_u, Conversions.f32_convert_i32_u)
    ∷ (Opcode.f32_convert_i64_s, Conversions.f32_convert_i64_s)
    ∷ (Opcode.f32_convert_i64_u, Conversions.f32_convert_i64_u)
    ∷ (Opcode.f32_demote_f64, Conversions.f32_demote_f64)
    ∷ (Opcode.f64_convert_i32_s, Conversions.f64_convert_i32_s)
    ∷ (Opcode.f64_convert_i32_u, Conversions.f64_convert_i32_u)
    ∷ (Opcode.f64_convert_i64_s, Conversions.f64_convert_i64_s)
    ∷ (Opcode.f64_convert_i64_u, Conversions.f64_convert_i64_u)
    ∷ (Opcode.f64_promote_f32, Conversions.f64_promote_f32)
    ∷ (Opcode.i32_reinterpret_f32, Conversions.i32_reinterpret_f32)
    ∷ (Opcode.i64_reinterpret_f64, Conversions.i64_reinterpret_f64)
    ∷ (Opcode.f32_reinterpret_i32, Conversions.f32_reinterpret_i32)
    ∷ (Opcode.f64_reinterpret_i64, Conversions.f64_reinterpret_i64)
    ∷ (Opcode.i32_extend_8_s, Conversions.i32_extend8_s)
    ∷ (Opcode.i32_extend_16_s, Conversions.i32_extend16_s)
    ∷ (Opcode.i64_extend_8_s, Conversions.i64_extend8_s)
    ∷ (Opcode.i64_extend_16_s, Conversions.i64_extend16_s)
    ∷ (Opcode.i64_extend_32_s, Conversions.i64_extend32_s)
    ∷ []

-- The opcodes behind `extended_fc`.
abbrev pub fc_handlers : List (ℕ × M (Unit {0}))
fc_handlers =
    (Fc.i32_trunc_sat_f32_s, Conversions.i32_trunc_sat_f32_s)
    ∷ (Fc.i32_trunc_sat_f32_u, Conversions.i32_trunc_sat_f32_u)
    ∷ (Fc.i32_trunc_sat_f64_s, Conversions.i32_trunc_sat_f64_s)
    ∷ (Fc.i32_trunc_sat_f64_u, Conversions.i32_trunc_sat_f64_u)
    ∷ (Fc.i64_trunc_sat_f32_s, Conversions.i64_trunc_sat_f32_s)
    ∷ (Fc.i64_trunc_sat_f32_u, Conversions.i64_trunc_sat_f32_u)
    ∷ (Fc.i64_trunc_sat_f64_s, Conversions.i64_trunc_sat_f64_s)
    ∷ (Fc.i64_trunc_sat_f64_u, Conversions.i64_trunc_sat_f64_u)
    ∷ []

-- The instructions with an index.
abbrev pub index_handlers : List (ℕ × (ℕ → M (Unit {0})))
index_handlers =
    (Opcode.br, br)
    ∷ (Opcode.br_if, br_if)
    ∷ (Opcode.call, call)
    ∷ (Opcode.local_get, local_get)
    ∷ (Opcode.local_set, local_set)
    ∷ (Opcode.local_tee, local_tee)
    ∷ (Opcode.global_get, global_get)
    ∷ (Opcode.global_set, global_set)
    ∷ []

-- The loads and the stores.
abbrev pub memory_handlers : List (ℕ × (MemArg → M (Unit {0})))
memory_handlers =
    (Opcode.i32_load, Memory.i32_load)
    ∷ (Opcode.i64_load, Memory.i64_load)
    ∷ (Opcode.f32_load, Memory.f32_load)
    ∷ (Opcode.f64_load, Memory.f64_load)
    ∷ (Opcode.i32_load8_s, Memory.i32_load8_s)
    ∷ (Opcode.i32_load8_u, Memory.i32_load8_u)
    ∷ (Opcode.i32_load16_s, Memory.i32_load16_s)
    ∷ (Opcode.i32_load16_u, Memory.i32_load16_u)
    ∷ (Opcode.i64_load8_s, Memory.i64_load8_s)
    ∷ (Opcode.i64_load8_u, Memory.i64_load8_u)
    ∷ (Opcode.i64_load16_s, Memory.i64_load16_s)
    ∷ (Opcode.i64_load16_u, Memory.i64_load16_u)
    ∷ (Opcode.i64_load32_s, Memory.i64_load32_s)
    ∷ (Opcode.i64_load32_u, Memory.i64_load32_u)
    ∷ (Opcode.i32_store, Memory.i32_store)
    ∷ (Opcode.i64_store, Memory.i64_store)
    ∷ (Opcode.f32_store, Memory.f32_store)
    ∷ (Opcode.f64_store, Memory.f64_store)
    ∷ (Opcode.i32_store8, Memory.i32_store8)
    ∷ (Opcode.i32_store16, Memory.i32_store16)
    ∷ (Opcode.i64_store8, Memory.i64_store8)
    ∷ (Opcode.i64_store16, Memory.i64_store16)
    ∷ (Opcode.i64_store32, Memory.i64_store32)
    ∷ []
