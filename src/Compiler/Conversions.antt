-- ===== src/Compiler/Conversions.antt =====
-- The handlers of src/compiler.rs for conversions, made by its macro `instruction!`, and for reinterpretations,
-- which emit nothing: the bits on the stack stay.
use spacewasm.Prelude.{[], ◌∷◌}
use spacewasm.Types.{i32, i64, f32, f64}
use spacewasm.Text.Builder.{M}
use spacewasm.Opcode
use spacewasm.Opcode.Fc
use spacewasm.Text.Operands.{validate}
use spacewasm.Compiler.{instruction, instruction_ext}

abbrev pub i32_wrap_i64 : M (Unit {0})
i32_wrap_i64 = instruction Opcode.i32_wrap_i64 (i64 ∷ []) (i32 ∷ [])

abbrev pub i32_trunc_f32_s : M (Unit {0})
i32_trunc_f32_s = instruction Opcode.i32_trunc_f32_s (f32 ∷ []) (i32 ∷ [])

abbrev pub i32_trunc_f32_u : M (Unit {0})
i32_trunc_f32_u = instruction Opcode.i32_trunc_f32_u (f32 ∷ []) (i32 ∷ [])

abbrev pub i32_trunc_f64_s : M (Unit {0})
i32_trunc_f64_s = instruction Opcode.i32_trunc_f64_s (f64 ∷ []) (i32 ∷ [])

abbrev pub i32_trunc_f64_u : M (Unit {0})
i32_trunc_f64_u = instruction Opcode.i32_trunc_f64_u (f64 ∷ []) (i32 ∷ [])

abbrev pub i64_extend_i32_s : M (Unit {0})
i64_extend_i32_s = instruction Opcode.i64_extend_i32_s (i32 ∷ []) (i64 ∷ [])

abbrev pub i64_extend_i32_u : M (Unit {0})
i64_extend_i32_u = instruction Opcode.i64_extend_i32_u (i32 ∷ []) (i64 ∷ [])

abbrev pub i64_trunc_f32_s : M (Unit {0})
i64_trunc_f32_s = instruction Opcode.i64_trunc_f32_s (f32 ∷ []) (i64 ∷ [])

abbrev pub i64_trunc_f32_u : M (Unit {0})
i64_trunc_f32_u = instruction Opcode.i64_trunc_f32_u (f32 ∷ []) (i64 ∷ [])

abbrev pub i64_trunc_f64_s : M (Unit {0})
i64_trunc_f64_s = instruction Opcode.i64_trunc_f64_s (f64 ∷ []) (i64 ∷ [])

abbrev pub i64_trunc_f64_u : M (Unit {0})
i64_trunc_f64_u = instruction Opcode.i64_trunc_f64_u (f64 ∷ []) (i64 ∷ [])

abbrev pub f32_convert_i32_s : M (Unit {0})
f32_convert_i32_s = instruction Opcode.f32_convert_i32_s (i32 ∷ []) (f32 ∷ [])

abbrev pub f32_convert_i32_u : M (Unit {0})
f32_convert_i32_u = instruction Opcode.f32_convert_i32_u (i32 ∷ []) (f32 ∷ [])

abbrev pub f32_convert_i64_s : M (Unit {0})
f32_convert_i64_s = instruction Opcode.f32_convert_i64_s (i64 ∷ []) (f32 ∷ [])

abbrev pub f32_convert_i64_u : M (Unit {0})
f32_convert_i64_u = instruction Opcode.f32_convert_i64_u (i64 ∷ []) (f32 ∷ [])

abbrev pub f32_demote_f64 : M (Unit {0})
f32_demote_f64 = instruction Opcode.f32_demote_f64 (f64 ∷ []) (f32 ∷ [])

abbrev pub f64_convert_i32_s : M (Unit {0})
f64_convert_i32_s = instruction Opcode.f64_convert_i32_s (i32 ∷ []) (f64 ∷ [])

abbrev pub f64_convert_i32_u : M (Unit {0})
f64_convert_i32_u = instruction Opcode.f64_convert_i32_u (i32 ∷ []) (f64 ∷ [])

abbrev pub f64_convert_i64_s : M (Unit {0})
f64_convert_i64_s = instruction Opcode.f64_convert_i64_s (i64 ∷ []) (f64 ∷ [])

abbrev pub f64_convert_i64_u : M (Unit {0})
f64_convert_i64_u = instruction Opcode.f64_convert_i64_u (i64 ∷ []) (f64 ∷ [])

abbrev pub f64_promote_f32 : M (Unit {0})
f64_promote_f32 = instruction Opcode.f64_promote_f32 (f32 ∷ []) (f64 ∷ [])

abbrev pub i32_extend8_s : M (Unit {0})
i32_extend8_s = instruction Opcode.i32_extend_8_s (i32 ∷ []) (i32 ∷ [])

abbrev pub i32_extend16_s : M (Unit {0})
i32_extend16_s = instruction Opcode.i32_extend_16_s (i32 ∷ []) (i32 ∷ [])

abbrev pub i64_extend8_s : M (Unit {0})
i64_extend8_s = instruction Opcode.i64_extend_8_s (i64 ∷ []) (i64 ∷ [])

abbrev pub i64_extend16_s : M (Unit {0})
i64_extend16_s = instruction Opcode.i64_extend_16_s (i64 ∷ []) (i64 ∷ [])

abbrev pub i64_extend32_s : M (Unit {0})
i64_extend32_s = instruction Opcode.i64_extend_32_s (i64 ∷ []) (i64 ∷ [])

abbrev pub i32_trunc_sat_f32_s : M (Unit {0})
i32_trunc_sat_f32_s =
    instruction_ext Opcode.extended_fc Fc.i32_trunc_sat_f32_s (f32 ∷ []) (i32 ∷ [])

abbrev pub i32_trunc_sat_f32_u : M (Unit {0})
i32_trunc_sat_f32_u =
    instruction_ext Opcode.extended_fc Fc.i32_trunc_sat_f32_u (f32 ∷ []) (i32 ∷ [])

abbrev pub i32_trunc_sat_f64_s : M (Unit {0})
i32_trunc_sat_f64_s =
    instruction_ext Opcode.extended_fc Fc.i32_trunc_sat_f64_s (f64 ∷ []) (i32 ∷ [])

abbrev pub i32_trunc_sat_f64_u : M (Unit {0})
i32_trunc_sat_f64_u =
    instruction_ext Opcode.extended_fc Fc.i32_trunc_sat_f64_u (f64 ∷ []) (i32 ∷ [])

abbrev pub i64_trunc_sat_f32_s : M (Unit {0})
i64_trunc_sat_f32_s =
    instruction_ext Opcode.extended_fc Fc.i64_trunc_sat_f32_s (f32 ∷ []) (i64 ∷ [])

abbrev pub i64_trunc_sat_f32_u : M (Unit {0})
i64_trunc_sat_f32_u =
    instruction_ext Opcode.extended_fc Fc.i64_trunc_sat_f32_u (f32 ∷ []) (i64 ∷ [])

abbrev pub i64_trunc_sat_f64_s : M (Unit {0})
i64_trunc_sat_f64_s =
    instruction_ext Opcode.extended_fc Fc.i64_trunc_sat_f64_s (f64 ∷ []) (i64 ∷ [])

abbrev pub i64_trunc_sat_f64_u : M (Unit {0})
i64_trunc_sat_f64_u =
    instruction_ext Opcode.extended_fc Fc.i64_trunc_sat_f64_u (f64 ∷ []) (i64 ∷ [])

abbrev pub i32_reinterpret_f32 : M (Unit {0})
i32_reinterpret_f32 = validate (f32 ∷ []) (i32 ∷ [])

abbrev pub f64_reinterpret_i64 : M (Unit {0})
f64_reinterpret_i64 = validate (i64 ∷ []) (f64 ∷ [])

abbrev pub f32_reinterpret_i32 : M (Unit {0})
f32_reinterpret_i32 = validate (i32 ∷ []) (f32 ∷ [])

abbrev pub i64_reinterpret_f64 : M (Unit {0})
i64_reinterpret_f64 = validate (f64 ∷ []) (i64 ∷ [])
