-- ===== src/Compiler/Valid/Handlers.antt =====
-- The handlers of src/compiler.rs for branch tables, returns, calls and variables keep the invariant of the
-- two stacks.
use spacewasm.Prelude.{ℕ, Option, none, some}
use spacewasm.Types.{ResultType}
use spacewasm.Interpreter.Variables.{LocalVariable}
use spacewasm.Engine.{TableKind}
use spacewasm.Modules.{Ref}
use spacewasm.Text.Builder.{
  GlobalVariable, check_result, check_br_table_result, check_and_clear,
  check_and_clear_br_table_result, global_at, get_global, modify,
}
use spacewasm.Text.Builder.Keeps.{Keeps}
use spacewasm.Text.Operands.{stack_height}
use spacewasm.Text.Operands.Valid.{IsValid}
use spacewasm.Compiler.Valid.{emit_rules, control_rules, Keeps-emit_return}
use spacewasm.Compiler.Control.{br_table_branch, br_table_finish, return_}
use spacewasm.Compiler.Calls.{call_ref, call, table_defined, check_index, call_indirect}
use spacewasm.Compiler.Variables.{
  get_local, emit_local, local_get, local_set, local_tee, emit_global, global_get, pop_mutable,
  global_set,
}

Keeps-set_result :
    (r : Option ResultType) → Keeps IsValid (modify (λ s. record s { br_table_result = r }))
unfolding stack_height
Keeps-set_result r = record {
  at = λ c s h. record {
    capacity = h.capacity;
    depth = h.depth;
    heights = h.heights;
    highwater = h.highwater;
    bounded = h.bounded;
  };
}

Keeps-check_result : (o : Option ResultType) (r : ResultType) → Keeps IsValid (check_result o r)
unfolding check_result
Keeps-check_result none r = Keeps-set_result (some r)
Keeps-check_result (some other) r = search control_rules

Keeps-check_and_clear :
    (o : Option ResultType) (r : ResultType) → Keeps IsValid (check_and_clear o r)
unfolding check_and_clear
Keeps-check_and_clear none r = search control_rules
Keeps-check_and_clear (some other) r = search (control_rules, Keeps-set_result)

pub Keeps-br_table_branch : (l : ℕ) → Keeps IsValid (br_table_branch l)
unfolding br_table_branch check_br_table_result
Keeps-br_table_branch l = search (control_rules, Keeps-check_result) depth 12

pub Keeps-br_table_finish : (l : ℕ) → Keeps IsValid (br_table_finish l)
unfolding br_table_finish check_and_clear_br_table_result
Keeps-br_table_finish l = search (control_rules, Keeps-check_and_clear) depth 16

pub Keeps-return_ : Keeps IsValid return_
unfolding return_
Keeps-return_ = search (control_rules, Keeps-emit_return) depth 12

-- Calls

Keeps-call_ref : (r : Ref) → Keeps IsValid (call_ref r)
unfolding call_ref
Keeps-call_ref (Ref.own index) = search emit_rules depth 20
Keeps-call_ref (Ref.host m index) = search emit_rules depth 20
Keeps-call_ref (Ref.extern m index) = search emit_rules depth 20

pub Keeps-call : (x : ℕ) → Keeps IsValid (call x)
unfolding call
Keeps-call x = search (emit_rules, Keeps-call_ref)

Keeps-table_defined : (t : Option TableKind) → Keeps IsValid (table_defined t)
unfolding table_defined
Keeps-table_defined none = search emit_rules
Keeps-table_defined (some t) = search emit_rules

Keeps-check_index : (x : ℕ) → Keeps IsValid (check_index x)
unfolding check_index
Keeps-check_index x = search emit_rules

pub Keeps-call_indirect : (x : ℕ) → Keeps IsValid (call_indirect x)
unfolding call_indirect
Keeps-call_indirect x = search (emit_rules, Keeps-table_defined, Keeps-check_index) depth 24

-- Variables

Keeps-get_local : (x : ℕ) → Keeps IsValid (get_local x)
unfolding get_local
Keeps-get_local x = search emit_rules

Keeps-emit_local : (op : ℕ) (l : LocalVariable) → Keeps IsValid (emit_local op l)
unfolding emit_local
Keeps-emit_local op l = search emit_rules

Keeps-global_at : (r : Ref) → Keeps IsValid (global_at r)
unfolding global_at
Keeps-global_at (Ref.own index) = search emit_rules depth 12
Keeps-global_at (Ref.host m index) = search emit_rules depth 12
Keeps-global_at (Ref.extern m index) = search emit_rules depth 12

Keeps-get_global : (x : ℕ) → Keeps IsValid (get_global x)
unfolding get_global
Keeps-get_global x = search (emit_rules, Keeps-global_at) depth 12

Keeps-emit_global : (op e h : ℕ) (r : Ref) → Keeps IsValid (emit_global op e h r)
unfolding emit_global
Keeps-emit_global op e h (Ref.own index) = search emit_rules
Keeps-emit_global op e h (Ref.host m index) = search emit_rules
Keeps-emit_global op e h (Ref.extern m index) = search emit_rules

Keeps-pop_mutable : (g : GlobalVariable) → Keeps IsValid (pop_mutable g)
unfolding pop_mutable
Keeps-pop_mutable g = search emit_rules

ruleset variable_rules = (
  emit_rules, Keeps-get_local, Keeps-emit_local, Keeps-get_global, Keeps-emit_global,
  Keeps-pop_mutable,
)

pub Keeps-local_get : (x : ℕ) → Keeps IsValid (local_get x)
unfolding local_get
Keeps-local_get x = search variable_rules depth 12

pub Keeps-local_set : (x : ℕ) → Keeps IsValid (local_set x)
unfolding local_set
Keeps-local_set x = search variable_rules depth 12

pub Keeps-local_tee : (x : ℕ) → Keeps IsValid (local_tee x)
unfolding local_tee
Keeps-local_tee x = search variable_rules depth 16

pub Keeps-global_get : (x : ℕ) → Keeps IsValid (global_get x)
unfolding global_get
Keeps-global_get x = search variable_rules depth 12

pub Keeps-global_set : (x : ℕ) → Keeps IsValid (global_set x)
unfolding global_set
Keeps-global_set x = search variable_rules depth 12
