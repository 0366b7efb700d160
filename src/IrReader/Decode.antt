-- ===== src/IrReader/Decode.antt =====
-- `IrReader::visit_instruction` of src/ir_reader.rs: the instruction that it visits, with its immediates.
-- The reads of an instruction come before the visit, also those of the closure that `br_table` calls.
use spacewasm.Prelude.{
  ℕ, ◌+◌, ◌/◌, ◌^◌, Bool, true, ◌&&◌, none, some, List, leb, ◌==◌, if◌then◌else◌, bit_and,
}
use spacewasm.Types.{ValType, from_repr}
use spacewasm.Text.{LabelTarget}
use spacewasm.Opcode
use spacewasm.Interpreter.Variables.{LocalVariable}
use spacewasm.IrReader.{R, pure, ◌>>=◌, read, read_u32, read_u64, read_targets}

-- `plain` is an instruction without operands and `access` one with a `MemArg`, by their opcodes.
-- `extended` is one of `fc`.
pub data Instruction : Type 0 where
  malformed_ir : Instruction
  plain extended call call_indirect global_get global_set return_ : ℕ → Instruction
  i32_const i64_const f32_const f64_const : ℕ → Instruction
  if_ br br_if : LabelTarget → Instruction
  br_table : ℕ → List LabelTarget → Instruction
  call_host call_extern global_get_host global_set_host global_get_extern global_set_extern :
      ℕ → ℕ → Instruction
  drop select : ValType → Instruction
  local_get local_set local_tee : LocalVariable → Instruction
  access : ℕ → ℕ → Instruction

-- `imm_valtype!`
abbrev pub imm_valtype : ℕ → (ValType → Instruction) → Instruction
imm_valtype imm visit = elim (from_repr imm) [
  | none ↦ Instruction.malformed_ir
  | some ty ↦ visit ty
]

unfoldable pub local_operand : ℕ → (LocalVariable → Instruction) → R Instruction
local_operand imm visit = do
  frame_offset ← read
  pure (imm_valtype imm (λ ty. visit (record { frame_offset = frame_offset; ty = ty })))

unfoldable pub label_operand : (LabelTarget → Instruction) → R Instruction
label_operand visit = read_u32 >>= λ w. pure (visit (record { word = w }))

-- An immediate of 8 bits, where 0xFF tells that it follows.
unfoldable pub imm_or : ℕ → R ℕ → R ℕ
imm_or imm wide = if imm == 0xFF then wide else pure imm

-- The opcodes of `instruction!($name)`. The tests and the operators of the four types and the conversions
-- stand in two runs.
unfoldable pub is_plain : ℕ → Bool
is_plain opcode =
    if opcode == Opcode.unreachable
    then true
    else (if opcode == Opcode.memory_size
        then true
        else (if opcode == Opcode.memory_grow
            then true
            else (if leb Opcode.i32_eqz opcode && leb opcode Opcode.f64_promote_f32
                then true
                else (leb Opcode.i32_extend_8_s opcode && leb opcode Opcode.i64_extend_32_s))))

-- The loads and the stores.
unfoldable pub is_access : ℕ → Bool
is_access opcode = leb Opcode.i32_load opcode && leb opcode Opcode.i64_store32

-- Instructions that transfer control.
unfoldable pub decode_control : ℕ → ℕ → R Instruction → R Instruction
decode_control opcode imm others =
    if opcode == Opcode.if_
    then label_operand Instruction.if_
    else (if opcode == Opcode.br
        then label_operand Instruction.br
        else (if opcode == Opcode.br_if
            then label_operand Instruction.br_if
            else (if opcode == Opcode.br_table
                then (do
                  n ← imm_or imm read
                  targets ← read_targets (n + 1)
                  pure (Instruction.br_table n targets))
                else (if opcode == Opcode.return_
                    then pure (Instruction.return_ imm)
                    else (if opcode == Opcode.call
                        then (read >>= λ idx. pure (Instruction.call idx))
                        else (if opcode == Opcode.call_host
                            then (read >>= λ idx. pure (Instruction.call_host imm idx))
                            else (if opcode == Opcode.call_extern
                                then (read >>= λ idx. pure (Instruction.call_extern imm idx))
                                else (if opcode == Opcode.call_indirect
                                    then (read >>= λ n. pure (Instruction.call_indirect n))
                                    else others))))))))

-- Parametric instructions and variables.
unfoldable pub decode_variable : ℕ → ℕ → R Instruction → R Instruction
decode_variable opcode imm others =
    if opcode == Opcode.drop
    then pure (imm_valtype imm Instruction.drop)
    else (if opcode == Opcode.select
        then pure (imm_valtype imm Instruction.select)
        else (if opcode == Opcode.local_get
            then local_operand imm Instruction.local_get
            else (if opcode == Opcode.local_set
                then local_operand imm Instruction.local_set
                else (if opcode == Opcode.local_tee
                    then local_operand imm Instruction.local_tee
                    else (if opcode == Opcode.global_get
                        then (imm_or imm read >>= λ i. pure (Instruction.global_get i))
                        else (if opcode == Opcode.global_set
                            then (imm_or imm read >>= λ i. pure (Instruction.global_set i))
                            else (if opcode == Opcode.global_get_host
                                then (read >>= λ i. pure (Instruction.global_get_host imm i))
                                else (if opcode == Opcode.global_set_host
                                    then (read >>= λ i. pure (Instruction.global_set_host imm i))
                                    else (if opcode == Opcode.global_get_extern
                                        then (read >>= λ i.
                                            pure (Instruction.global_get_extern imm i))
                                        else (if opcode == Opcode.global_set_extern
                                            then (read >>= λ i.
                                                pure (Instruction.global_set_extern imm i))
                                            else others))))))))))

-- Memory accesses, constants and the rest.
unfoldable pub decode_numeric : ℕ → ℕ → R Instruction
decode_numeric opcode imm =
    if is_access opcode
    then (read_u32 >>= λ offset. pure (Instruction.access opcode offset))
    else (if opcode == Opcode.i32_const
        then (imm_or imm read_u32 >>= λ n. pure (Instruction.i32_const n))
        else (if opcode == Opcode.i64_const
            then (imm_or imm read_u64 >>= λ n. pure (Instruction.i64_const n))
            else (if opcode == Opcode.f32_const
                then (read_u32 >>= λ z. pure (Instruction.f32_const z))
                else (if opcode == Opcode.f64_const
                    then (read_u64 >>= λ z. pure (Instruction.f64_const z))
                    else (if is_plain opcode
                        then pure (Instruction.plain opcode)
                        else (if opcode == Opcode.extended_fc
                            then pure (
                                if leb imm 7
                                then Instruction.extended imm
                                else Instruction.malformed_ir)
                            else pure Instruction.malformed_ir))))))

unfoldable pub decode : R Instruction
decode = do
  first ← read
  let opcode = first / 2 ^ 8
  let imm = bit_and first 0xFF
  decode_control opcode imm (decode_variable opcode imm (decode_numeric opcode imm))
