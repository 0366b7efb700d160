-- ===== src/Compiler.antt =====
-- The handlers of src/compiler.rs, one for each WebAssembly instruction: each checks the operand types and
-- emits the instruction. Here are the shapes of its macros, `drop`, `select` and the constants.
pub mod Integers
pub mod Floats
pub mod Conversions
pub mod Memory
pub mod Control
pub mod Calls
pub mod Variables
pub mod Valid
use spacewasm.Prelude.{ℕ, List, [], ◌∷◌}
use spacewasm.Types.{ValType, i32, i64, f32, f64}
use spacewasm.Text.Emit.{
  instr, instr_imm_8, instr_imm_8_or_32, instr_imm_8_or_64, write_16, write_32, write_64, allocated,
}
use spacewasm.Text.Builder.{OperandType, known, M, pure, ◌>>=◌, ◌>>◌, emit}
use spacewasm.Text.Operands.{operand_repr, pop_stack_t, pop_stack, push_stack, validate}
use spacewasm.Opcode

-- `instr(op)?`, `instr_imm_8(op, imm)?` and `write_16(word)?`
unfoldable pub plain : ℕ → M (Unit {0})
plain op = emit (λ boxes c. allocated (instr boxes op c))

unfoldable pub with_imm : ℕ → ℕ → M (Unit {0})
with_imm op imm = emit (λ boxes c. allocated (instr_imm_8 boxes op imm c))

unfoldable pub operand_word : ℕ → M (Unit {0})
operand_word word = emit (λ boxes c. allocated (write_16 boxes word c))

-- `instruction!` without operands, and with an extended opcode.
unfoldable pub instruction : ℕ → List ValType → List ValType → M (Unit {0})
instruction op ins outs = validate ins outs >> plain op

unfoldable pub instruction_ext : ℕ → ℕ → List ValType → List ValType → M (Unit {0})
instruction_ext ext_op op ins outs = validate ins outs >> with_imm ext_op op

unfoldable pub drop : M (Unit {0})
drop = do ty ← pop_stack_t; with_imm Opcode.drop (operand_repr ty)

unfoldable pub select : M (Unit {0})
select = do
  pop_stack (known i32)
  t1 ← pop_stack_t
  t2 ← pop_stack t1
  push_stack t2
  with_imm Opcode.select (operand_repr t2)

pub nop : M (Unit {0})
nop = pure tt

-- The constants; a number is its bit pattern.
unfoldable pub i32_const : ℕ → M (Unit {0})
i32_const n = do
  validate [] (i32 ∷ [])
  emit (λ boxes c. allocated (instr_imm_8_or_32 boxes Opcode.i32_const n c))

unfoldable pub i64_const : ℕ → M (Unit {0})
i64_const n = do
  validate [] (i64 ∷ [])
  emit (λ boxes c. allocated (instr_imm_8_or_64 boxes Opcode.i64_const n c))

unfoldable pub f32_const : ℕ → M (Unit {0})
f32_const z = do
  validate [] (f32 ∷ [])
  plain Opcode.f32_const
  emit (λ boxes c. allocated (write_32 boxes z c))

unfoldable pub f64_const : ℕ → M (Unit {0})
f64_const z = do
  validate [] (f64 ∷ [])
  plain Opcode.f64_const
  emit (λ boxes c. allocated (write_64 boxes z c))
