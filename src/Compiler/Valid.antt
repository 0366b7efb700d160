-- ===== src/Compiler/Valid.antt =====
-- The handlers of src/compiler.rs keep the invariant of the two stacks of the builder.
pub mod Handlers
use spacewasm.Prelude.{ℕ, Bool-cases, inl, inr, Option, none, some, List, ltb, if◌then◌else◌}
use spacewasm.Types.{ValType, ResultType}
use spacewasm.Interpreter.Variables.{LocalVariable}
use spacewasm.Engine.{TableKind}
use spacewasm.Modules.{Ref}
use spacewasm.Text.Builder.{
  GlobalVariable, M, check_result, check_br_table_result, check_and_clear,
  check_and_clear_br_table_result, global_at, get_global,
}
use spacewasm.Text.Builder.Keeps.{Keeps, Keeps-emit, Leads-pure, keeps_rules}
use spacewasm.Text.Operands.{stack_height}
use spacewasm.Text.Operands.Valid.{
  IsValid, IgnoresCode-IsValid, Keeps-push_stack, Keeps-pop_stack_t, Keeps-pop_stack,
  Keeps-pop_result_type, Keeps-push_result_type, Keeps-pop_types, Keeps-push_types, Keeps-validate,
  Keeps-mark_unreachable, Keeps-push_control,
}
use spacewasm.Text.Branches.Valid.{
  Keeps-pc, Keeps-write_label_target, Keeps-set_control_target, Keeps-write_if_else_target,
  Keeps-pop_control, Keeps-pop_control_and_patch_if,
}
use spacewasm.Compiler.{
  plain, with_imm, operand_word, instruction, instruction_ext, drop, select, nop, i32_const,
  i64_const, f32_const, f64_const,
}
use spacewasm.Compiler.Control.{
  unreachable, enter_block, exit_block, emit_return, finish, loop_, if_, else_, br, br_if,
  br_table_start, br_table_branch, br_table_finish, return_,
}
use spacewasm.Compiler.Calls.{call_ref, call, table_defined, check_index, call_indirect}
use spacewasm.Compiler.Memory.{memory_defined, instruction_mem, memory_size, memory_grow, MemArg}
use spacewasm.Compiler.Variables.{
  get_local, emit_local, local_get, local_set, local_tee, emit_global, global_get, pop_mutable,
  global_set,
}

pub ruleset operand_rules = (
  keeps_rules, Keeps-emit, IgnoresCode-IsValid, Keeps-push_stack, Keeps-pop_stack_t,
  Keeps-pop_stack, Keeps-pop_result_type, Keeps-push_result_type, Keeps-pop_types, Keeps-push_types,
  Keeps-validate, Keeps-mark_unreachable, Keeps-push_control,
)

pub Keeps-plain : (op : ℕ) → Keeps IsValid (plain op)
unfolding plain
Keeps-plain op = search operand_rules

pub Keeps-with_imm : (op imm : ℕ) → Keeps IsValid (with_imm op imm)
unfolding with_imm
Keeps-with_imm op imm = search operand_rules

pub Keeps-operand_word : (word : ℕ) → Keeps IsValid (operand_word word)
unfolding operand_word
Keeps-operand_word word = search operand_rules

pub ruleset emit_rules = (operand_rules, Keeps-plain, Keeps-with_imm, Keeps-operand_word)

pub Keeps-instruction : (op : ℕ) (ins outs : List ValType) → Keeps IsValid (instruction op ins outs)
unfolding instruction
Keeps-instruction op ins outs = search emit_rules

pub Keeps-instruction_ext :
    (ext_op op : ℕ) (ins outs : List ValType) → Keeps IsValid (instruction_ext ext_op op ins outs)
unfolding instruction_ext
Keeps-instruction_ext ext_op op ins outs = search emit_rules

pub Keeps-drop : Keeps IsValid drop
unfolding drop
Keeps-drop = search emit_rules

pub Keeps-select : Keeps IsValid select
unfolding select
Keeps-select = search emit_rules depth 16

pub Keeps-nop : Keeps IsValid nop
unfolding nop
Keeps-nop = Leads-pure tt

pub Keeps-i32_const : (n : ℕ) → Keeps IsValid (i32_const n)
unfolding i32_const
Keeps-i32_const n = search emit_rules

pub Keeps-i64_const : (n : ℕ) → Keeps IsValid (i64_const n)
unfolding i64_const
Keeps-i64_const n = search emit_rules

pub Keeps-f32_const : (n : ℕ) → Keeps IsValid (f32_const n)
unfolding f32_const
Keeps-f32_const n = search emit_rules depth 12

pub Keeps-f64_const : (n : ℕ) → Keeps IsValid (f64_const n)
unfolding f64_const
Keeps-f64_const n = search emit_rules depth 12

-- Memory

Keeps-memory_defined : Keeps IsValid memory_defined
unfolding memory_defined
Keeps-memory_defined = search emit_rules

pub Keeps-instruction_mem :
    (op ty_align : ℕ) (ins outs : List ValType) (m : MemArg)
    → Keeps IsValid (instruction_mem op ty_align ins outs m)
unfolding instruction_mem
Keeps-instruction_mem op ty_align ins outs m = search (emit_rules, Keeps-memory_defined) depth 12

pub Keeps-memory_size : Keeps IsValid memory_size
unfolding memory_size
Keeps-memory_size = search (emit_rules, Keeps-memory_defined) depth 12

pub Keeps-memory_grow : Keeps IsValid memory_grow
unfolding memory_grow
Keeps-memory_grow = search (emit_rules, Keeps-memory_defined) depth 16

-- Blocks and branches

pub ruleset control_rules = (
  emit_rules, Keeps-pc, Keeps-write_label_target, Keeps-set_control_target,
  Keeps-write_if_else_target, Keeps-pop_control, Keeps-pop_control_and_patch_if,
)

pub Keeps-unreachable : Keeps IsValid unreachable
unfolding unreachable
Keeps-unreachable = search control_rules

pub Keeps-enter_block : (t : ResultType) → Keeps IsValid (enter_block t)
unfolding enter_block
Keeps-enter_block t = search control_rules

pub Keeps-exit_block : Keeps IsValid exit_block
unfolding exit_block
Keeps-exit_block = search control_rules

pub Keeps-emit_return : (t : ResultType) → Keeps IsValid (emit_return t)
unfolding emit_return
Keeps-emit_return none = search control_rules
Keeps-emit_return (some t) = search control_rules

pub Keeps-finish : Keeps IsValid finish
unfolding finish
Keeps-finish = search (control_rules, Keeps-emit_return)

pub Keeps-loop_ : (t : ResultType) → Keeps IsValid (loop_ t)
unfolding loop_
Keeps-loop_ t = search control_rules depth 12

pub Keeps-if_ : (t : ResultType) → Keeps IsValid (if_ t)
unfolding if_
Keeps-if_ t = search control_rules depth 16

pub Keeps-else_ : Keeps IsValid else_
unfolding else_
Keeps-else_ = search control_rules depth 16

pub Keeps-br : (l : ℕ) → Keeps IsValid (br l)
unfolding br
Keeps-br l = search control_rules depth 16

pub Keeps-br_if : (l : ℕ) → Keeps IsValid (br_if l)
unfolding br_if
Keeps-br_if l = search control_rules depth 16

pub Keeps-br_table_start : (len : ℕ) → Keeps IsValid (br_table_start len)
unfolding br_table_start
Keeps-br_table_start len = search control_rules
