-- ===== src/Compiler/Variables.antt =====
-- The handlers of src/compiler.rs for local and global variables.
use spacewasm.Prelude.{ℕ, if◌then◌else◌}
use spacewasm.Errors.{ValidationError}
use spacewasm.Types.{to_repr}
use spacewasm.Interpreter.Variables.{LocalVariable}
use spacewasm.Modules.{Ref}
use spacewasm.Text.Emit.{instr_imm_8_or_16}
use spacewasm.Text.Builder.{
  GlobalVariable, known, M, pure, fail, ◌>>=◌, ◌>>◌, asks, lift, emit, get_global,
}
use spacewasm.Text.Operands.{pop_stack, push_stack}
use spacewasm.Text.Locals
use spacewasm.Opcode
use spacewasm.Compiler.{with_imm, operand_word}

unfoldable pub get_local : ℕ → M LocalVariable
get_local x = do
  this ← asks (λ c. c.this)
  f ← asks (λ c. c.func)
  lift (Locals.get_local this.types f x)

unfoldable pub emit_local : ℕ → LocalVariable → M (Unit {0})
emit_local op l = do with_imm op (to_repr l.ty); operand_word l.frame_offset

unfoldable pub local_get : ℕ → M (Unit {0})
local_get x = do l ← get_local x; push_stack (known l.ty); emit_local Opcode.local_get l

unfoldable pub local_set : ℕ → M (Unit {0})
local_set x = do l ← get_local x; pop_stack (known l.ty); emit_local Opcode.local_set l

unfoldable pub local_tee : ℕ → M (Unit {0})
local_tee x = do
  l ← get_local x
  pop_stack (known l.ty)
  push_stack (known l.ty)
  emit_local Opcode.local_tee l

-- The instruction on a global, by the kind of the reference.
unfoldable pub emit_global : ℕ → ℕ → ℕ → Ref → M (Unit {0})
emit_global op op_extern op_host (Ref.own index) =
    emit (λ boxes c. instr_imm_8_or_16 boxes op index c)
emit_global op op_extern op_host (Ref.extern m index) = with_imm op_extern m >> operand_word index
emit_global op op_extern op_host (Ref.host m index) = with_imm op_host m >> operand_word index

unfoldable pub global_get : ℕ → M (Unit {0})
global_get x = do
  g ← get_global x
  push_stack (known g.ty)
  emit_global Opcode.global_get Opcode.global_get_extern Opcode.global_get_host g.reference

unfoldable pub pop_mutable : GlobalVariable → M (Unit {0})
pop_mutable g =
    if g.mutable then pop_stack (known g.ty) >> pure tt else fail ValidationError.global_not_mutable

unfoldable pub global_set : ℕ → M (Unit {0})
global_set x = do
  g ← get_global x
  pop_mutable g
  emit_global Opcode.global_set Opcode.global_set_extern Opcode.global_set_host g.reference
