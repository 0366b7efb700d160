-- ===== src/Compiler/Calls.antt =====
-- The handlers of src/compiler.rs for calls.
use spacewasm.Prelude.{ℕ, Option, none, some, List, [], ◌∷◌, ◌++◌, ltb, if◌then◌else◌, get_elem?}
use spacewasm.Errors.{ValidationError}
use spacewasm.Types.{ValType, i32}
use spacewasm.Engine.{TableKind}
use spacewasm.Modules.{Ref, get_func_ref}
use spacewasm.Text.Builder.{known, M, pure, fail, ◌>>=◌, ◌>>◌, asks, or_panic, or_fail}
use spacewasm.Text.Operands.{pop_stack, pop_types, push_types, push_result_type}
use spacewasm.Opcode
use spacewasm.Compiler.{plain, with_imm, operand_word}

-- `iter().rev()`
unfoldable pub rev : List ValType → List ValType
rev [] = []
rev (t ∷ ts) = rev ts ++ (t ∷ [])

-- The checks of the signature, and the call of the function.
unfoldable pub call_ref : Ref → M (Unit {0})
call_ref (Ref.own index) = do
  this ← asks (λ c. c.this)
  f ← or_panic (get_elem? this.functions index)
  ty ← or_panic (get_elem? this.types f.ty)
  pop_types (rev ty.params)
  push_types (rev ty.returns)
  with_imm Opcode.call 0
  operand_word index
call_ref (Ref.host m index) = do
  host_modules ← asks (λ c. c.host_modules)
  hm ← or_panic (get_elem? host_modules m)
  f ← or_panic (get_elem? hm.functions index)
  pop_types (rev f.params)
  push_result_type f.returns
  with_imm Opcode.call_host m
  operand_word index
call_ref (Ref.extern m index) = do
  modules ← asks (λ c. c.modules)
  em ← or_panic (get_elem? modules m)
  f ← or_panic (get_elem? em.functions index)
  ty ← or_panic (get_elem? em.types f.ty)
  pop_types (rev ty.params)
  push_types (rev ty.returns)
  with_imm Opcode.call_extern m
  operand_word index

unfoldable pub call : ℕ → M (Unit {0})
call x = do
  this ← asks (λ c. c.this)
  f_ref ← or_fail ValidationError.function_idx_out_of_range (get_func_ref this x)
  call_ref f_ref

unfoldable pub table_defined : Option TableKind → M (Unit {0})
table_defined none = fail ValidationError.table_not_defined
table_defined (some t) = pure tt

unfoldable pub check_index : ℕ → M (Unit {0})
check_index x = if ltb 0xFFFF x then fail ValidationError.idx_too_large else pure tt

unfoldable pub call_indirect : ℕ → M (Unit {0})
call_indirect x = do
  this ← asks (λ c. c.this)
  table_defined this.table
  pop_stack (known i32)
  ty ← or_fail ValidationError.type_idx_out_of_range (get_elem? this.types x)
  pop_types (rev ty.params)
  push_types ty.returns
  check_index x
  plain Opcode.call_indirect
  operand_word x
