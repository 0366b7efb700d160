-- ===== src/Compiler/Control.antt =====
-- The handlers of src/compiler.rs for blocks, branches and returns.
use spacewasm.Prelude.{ℕ, ◌/◌, none, some}
use spacewasm.Types.{i32, ResultType, val_size}
use spacewasm.Text.Emit.{instr_imm_8_or_16}
use spacewasm.Text.Builder.{
  BlockKind, known, M, ◌>>=◌, ◌>>◌, asks, emit, check_br_table_result,
  check_and_clear_br_table_result,
}
use spacewasm.Text.Operands.{
  mark_unreachable, pop_stack, pop_result_type, push_result_type, push_control,
}
use spacewasm.Text.Branches.{
  pc, write_label_target, set_control_target, write_if_else_target, pop_control,
  pop_control_and_patch_if,
}
use spacewasm.Opcode
use spacewasm.Compiler.{plain, with_imm}

unfoldable pub unreachable : M (Unit {0})
unreachable = do with_imm Opcode.unreachable 0; mark_unreachable

unfoldable pub enter_block : ResultType → M (Unit {0})
enter_block block_type = push_control BlockKind.block block_type block_type

unfoldable pub exit_block : M (Unit {0})
exit_block = do results ← pop_control; push_result_type results

-- The `RETURN` of a result type, which holds its number of words.
unfoldable pub emit_return : ResultType → M (Unit {0})
emit_return none = plain Opcode.return_
emit_return (some ty) = with_imm Opcode.return_ (val_size ty / 4)

unfoldable pub finish : M (Unit {0})
finish = do ty ← pop_control; emit_return ty

unfoldable pub loop_ : ResultType → M (Unit {0})
loop_ block_type = do
  push_control BlockKind.loop none block_type
  start ← pc
  set_control_target start

unfoldable pub if_ : ResultType → M (Unit {0})
if_ block_type = do
  pop_stack (known i32)
  plain Opcode.if_
  push_control BlockKind.if_ block_type block_type
  write_if_else_target

unfoldable pub else_ : M (Unit {0})
else_ = do
  plain Opcode.br
  write_label_target 0
  if_end ← pop_control_and_patch_if
  push_control BlockKind.block if_end.0 if_end.0
  set_control_target if_end.1

unfoldable pub br : ℕ → M (Unit {0})
br l = do
  plain Opcode.br
  lbl_types ← write_label_target l
  pop_result_type lbl_types
  mark_unreachable

unfoldable pub br_if : ℕ → M (Unit {0})
br_if l = do
  pop_stack (known i32)
  plain Opcode.br_if
  lbl_types ← write_label_target l
  pop_result_type lbl_types
  push_result_type lbl_types

unfoldable pub br_table_start : ℕ → M (Unit {0})
br_table_start len = do
  pop_stack (known i32)
  emit (λ boxes c. instr_imm_8_or_16 boxes Opcode.br_table len c)

unfoldable pub br_table_branch : ℕ → M (Unit {0})
br_table_branch l = do case_return ← write_label_target l; check_br_table_result case_return

unfoldable pub br_table_finish : ℕ → M (Unit {0})
br_table_finish default_ = do
  def_result ← write_label_target default_
  check_and_clear_br_table_result def_result
  pop_result_type def_result
  mark_unreachable

unfoldable pub return_ : M (Unit {0})
return_ = do
  f ← asks (λ c. c.func)
  pop_result_type f.return_ty
  emit_return f.return_ty
  mark_unreachable
