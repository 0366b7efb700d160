-- ===== src/Interpreter/Execute.antt =====
-- The visits of `Interpreter` that `IrReader::visit_instruction` makes, by the opcode.
use spacewasm.Prelude.{ℕ, Option, none, some, List, [], ◌∷◌, get_elem?, ltb, ◌==◌, if◌then◌else◌}
use spacewasm.Engine.{TrapReason, trap, M, break}
use spacewasm.Text.{LabelTarget}
use spacewasm.Opcode
use spacewasm.IrReader.Decode.{Instruction}
use spacewasm.Interpreter.{drop, select, if_, br, br_if, br_table, return_, call, call_extern}
use spacewasm.Interpreter.Variables.{
  local_get, local_set, local_tee, global_get, global_set, global_get_extern, global_set_extern,
}
use spacewasm.Interpreter.Host.{
  Host, call_host, call_indirect, global_get_host, global_set_host, memory_grow,
}
use spacewasm.Interpreter.Access.{
  i32_load, i64_load, f32_load, f64_load, i32_load8_s, i32_load8_u, i32_load16_s, i32_load16_u,
  i64_load8_s, i64_load8_u, i64_load16_s, i64_load16_u, i64_load32_s, i64_load32_u, i32_store,
  i64_store, f32_store, f64_store, i32_store8, i32_store16, i64_store8, i64_store16, i64_store32,
  memory_size, i32_const, i64_const, f32_const, f64_const,
}
use spacewasm.Interpreter.Numeric.{
  i32_wrap_i64, i64_extend_i32_s, i64_extend_i32_u, i32_extend8_s, i32_extend16_s, i64_extend8_s,
  i64_extend16_s, i64_extend32_s,
}
use spacewasm.Interpreter.Numeric.I32.{
  i32_eqz, i32_eq, i32_ne, i32_lt_s, i32_lt_u, i32_gt_s, i32_gt_u, i32_le_s, i32_le_u, i32_ge_s,
  i32_ge_u, i32_clz, i32_ctz, i32_popcnt, i32_add, i32_sub, i32_mul, i32_div_s, i32_div_u,
  i32_rem_s, i32_rem_u, i32_and, i32_or, i32_xor, i32_shl, i32_shr_s, i32_shr_u, i32_rotl, i32_rotr,
}
use spacewasm.Interpreter.Numeric.I64.{
  i64_eqz, i64_eq, i64_ne, i64_lt_s, i64_lt_u, i64_gt_s, i64_gt_u, i64_le_s, i64_le_u, i64_ge_s,
  i64_ge_u, i64_clz, i64_ctz, i64_popcnt, i64_add, i64_sub, i64_mul, i64_div_s, i64_div_u,
  i64_rem_s, i64_rem_u, i64_and, i64_or, i64_xor, i64_shl, i64_shr_s, i64_shr_u, i64_rotl, i64_rotr,
}

unfoldable pub lookup {ℓ} : {A : Type ℓ} → List (ℕ × A) → ℕ → A → A
lookup [] opcode other = other
lookup ((o, a) ∷ rest) opcode other = if o == opcode then a else lookup rest opcode other

-- The integer instructions.
abbrev pub i32_instructions : List (ℕ × M (Unit {0}))
i32_instructions =
    (Opcode.i32_eqz, i32_eqz)
    ∷ (Opcode.i32_eq, i32_eq)
    ∷ (Opcode.i32_ne, i32_ne)
    ∷ (Opcode.i32_lt_s, i32_lt_s)
    ∷ (Opcode.i32_lt_u, i32_lt_u)
    ∷ (Opcode.i32_gt_s, i32_gt_s)
    ∷ (Opcode.i32_gt_u, i32_gt_u)
    ∷ (Opcode.i32_le_s, i32_le_s)
    ∷ (Opcode.i32_le_u, i32_le_u)
    ∷ (Opcode.i32_ge_s, i32_ge_s)
    ∷ (Opcode.i32_ge_u, i32_ge_u)
    ∷ (Opcode.i32_clz, i32_clz)
    ∷ (Opcode.i32_ctz, i32_ctz)
    ∷ (Opcode.i32_popcnt, i32_popcnt)
    ∷ (Opcode.i32_add, i32_add)
    ∷ (Opcode.i32_sub, i32_sub)
    ∷ (Opcode.i32_mul, i32_mul)
    ∷ (Opcode.i32_div_s, i32_div_s)
    ∷ (Opcode.i32_div_u, i32_div_u)
    ∷ (Opcode.i32_rem_s, i32_rem_s)
    ∷ (Opcode.i32_rem_u, i32_rem_u)
    ∷ (Opcode.i32_and, i32_and)
    ∷ (Opcode.i32_or, i32_or)
    ∷ (Opcode.i32_xor, i32_xor)
    ∷ (Opcode.i32_shl, i32_shl)
    ∷ (Opcode.i32_shr_s, i32_shr_s)
    ∷ (Opcode.i32_shr_u, i32_shr_u)
    ∷ (Opcode.i32_rotl, i32_rotl)
    ∷ (Opcode.i32_rotr, i32_rotr)
    ∷ []

-- And those of 64 bits.
abbrev pub i64_instructions : List (ℕ × M (Unit {0}))
i64_instructions =
    (Opcode.i64_eqz, i64_eqz)
    ∷ (Opcode.i64_eq, i64_eq)
    ∷ (Opcode.i64_ne, i64_ne)
    ∷ (Opcode.i64_lt_s, i64_lt_s)
    ∷ (Opcode.i64_lt_u, i64_lt_u)
    ∷ (Opcode.i64_gt_s, i64_gt_s)
    ∷ (Opcode.i64_gt_u, i64_gt_u)
    ∷ (Opcode.i64_le_s, i64_le_s)
    ∷ (Opcode.i64_le_u, i64_le_u)
    ∷ (Opcode.i64_ge_s, i64_ge_s)
    ∷ (Opcode.i64_ge_u, i64_ge_u)
    ∷ (Opcode.i64_clz, i64_clz)
    ∷ (Opcode.i64_ctz, i64_ctz)
    ∷ (Opcode.i64_popcnt, i64_popcnt)
    ∷ (Opcode.i64_add, i64_add)
    ∷ (Opcode.i64_sub, i64_sub)
    ∷ (Opcode.i64_mul, i64_mul)
    ∷ (Opcode.i64_div_s, i64_div_s)
    ∷ (Opcode.i64_div_u, i64_div_u)
    ∷ (Opcode.i64_rem_s, i64_rem_s)
    ∷ (Opcode.i64_rem_u, i64_rem_u)
    ∷ (Opcode.i64_and, i64_and)
    ∷ (Opcode.i64_or, i64_or)
    ∷ (Opcode.i64_xor, i64_xor)
    ∷ (Opcode.i64_shl, i64_shl)
    ∷ (Opcode.i64_shr_s, i64_shr_s)
    ∷ (Opcode.i64_shr_u, i64_shr_u)
    ∷ (Opcode.i64_rotl, i64_rotl)
    ∷ (Opcode.i64_rotr, i64_rotr)
    ∷ []

-- The conversions between integers, and the size of the memory.
abbrev pub conversions : List (ℕ × M (Unit {0}))
conversions =
    (Opcode.i32_wrap_i64, i32_wrap_i64)
    ∷ (Opcode.i64_extend_i32_s, i64_extend_i32_s)
    ∷ (Opcode.i64_extend_i32_u, i64_extend_i32_u)
    ∷ (Opcode.i32_extend_8_s, i32_extend8_s)
    ∷ (Opcode.i32_extend_16_s, i32_extend16_s)
    ∷ (Opcode.i64_extend_8_s, i64_extend8_s)
    ∷ (Opcode.i64_extend_16_s, i64_extend16_s)
    ∷ (Opcode.i64_extend_32_s, i64_extend32_s)
    ∷ (Opcode.memory_size, memory_size)
    ∷ []

-- The loads and stores, which take an offset.
abbrev pub accesses : List (ℕ × (ℕ → M (Unit {0})))
accesses =
    (Opcode.i32_load, i32_load)
    ∷ (Opcode.i64_load, i64_load)
    ∷ (Opcode.f32_load, f32_load)
    ∷ (Opcode.f64_load, f64_load)
    ∷ (Opcode.i32_load8_s, i32_load8_s)
    ∷ (Opcode.i32_load8_u, i32_load8_u)
    ∷ (Opcode.i32_load16_s, i32_load16_s)
    ∷ (Opcode.i32_load16_u, i32_load16_u)
    ∷ (Opcode.i64_load8_s, i64_load8_s)
    ∷ (Opcode.i64_load8_u, i64_load8_u)
    ∷ (Opcode.i64_load16_s, i64_load16_s)
    ∷ (Opcode.i64_load16_u, i64_load16_u)
    ∷ (Opcode.i64_load32_s, i64_load32_s)
    ∷ (Opcode.i64_load32_u, i64_load32_u)
    ∷ (Opcode.i32_store, i32_store)
    ∷ (Opcode.i64_store, i64_store)
    ∷ (Opcode.f32_store, f32_store)
    ∷ (Opcode.f64_store, f64_store)
    ∷ (Opcode.i32_store8, i32_store8)
    ∷ (Opcode.i32_store16, i32_store16)
    ∷ (Opcode.i64_store8, i64_store8)
    ∷ (Opcode.i64_store16, i64_store16)
    ∷ (Opcode.i64_store32, i64_store32)
    ∷ []

-- The other instructions without operands are on floats.
unfoldable pub execute_plain : Host → ℕ → M (Unit {0})
execute_plain h opcode =
    if opcode == Opcode.unreachable
    then break (trap TrapReason.unreachable)
    else (if opcode == Opcode.memory_grow
        then memory_grow h
        else lookup i32_instructions opcode (
            lookup i64_instructions opcode
              (lookup conversions opcode (h.float_instruction opcode 0))))

-- The target that `br_table` chooses: the case, or the default behind the last case.
abbrev pub or_label : Option LabelTarget → LabelTarget
or_label none = record { word = 0 }
or_label (some l) = l

unfoldable pub target_of : ℕ → List LabelTarget → ℕ → LabelTarget
target_of n targets case_ = or_label (get_elem? targets (if ltb case_ n then case_ else n))

unfoldable pub execute : Host → Instruction → M (Unit {0})
execute h Instruction.malformed_ir = break (trap TrapReason.malformed_ir)
execute h (Instruction.plain opcode) = execute_plain h opcode
execute h (Instruction.extended imm) = h.float_instruction Opcode.extended_fc imm
execute h (Instruction.access opcode offset) =
    lookup accesses opcode (λ _. break (trap TrapReason.malformed_ir)) offset
execute h (Instruction.br_table n targets) = br_table n (target_of n targets)
execute h (Instruction.if_ l) = if_ l
execute h (Instruction.br l) = br l
execute h (Instruction.br_if l) = br_if l
execute h (Instruction.return_ size) = return_ size
execute h (Instruction.call x) = call x
execute h (Instruction.drop ty) = drop ty
execute h (Instruction.select ty) = select ty
execute h (Instruction.local_get l) = local_get l
execute h (Instruction.local_set l) = local_set l
execute h (Instruction.local_tee l) = local_tee l
execute h (Instruction.global_get i) = global_get i
execute h (Instruction.global_set i) = global_set i
execute h (Instruction.i32_const n) = i32_const n
execute h (Instruction.i64_const n) = i64_const n
execute h (Instruction.f32_const z) = f32_const z
execute h (Instruction.f64_const z) = f64_const z
execute h (Instruction.call_extern r x) = call_extern r x
execute h (Instruction.global_get_extern r i) = global_get_extern r i
execute h (Instruction.global_set_extern r i) = global_set_extern r i
execute h (Instruction.call_host r x) = call_host h r x
execute h (Instruction.call_indirect x) = call_indirect h x
execute h (Instruction.global_get_host r i) = global_get_host h r i
execute h (Instruction.global_set_host r i) = global_set_host h r i
