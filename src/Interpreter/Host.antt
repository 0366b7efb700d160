-- ===== src/Interpreter/Host.antt =====
-- Calls that leave src/interpreter.rs: host functions and host globals, and `memory_grow`, which needs the
-- only other reference to the memory. What the embedder brings is a parameter, a `Host`.
use spacewasm.Prelude.{
  ℕ, ◌+◌, Bool, true, false, ◌&&◌, Option, none, some, List, [], ◌∷◌, get_elem?, ◌==◌,
  if◌then◌else◌,
}
use spacewasm.Errors.{MemoryError, Result, ok, err}
use spacewasm.Types.{ValType, i32, i64, f32, f64, ResultType, FuncType, to_repr}
use spacewasm.Types.Raw.{Value}
use spacewasm.Memory.{Memory, is_zero, grow}
use spacewasm.Engine.{
  Engine, TrapReason, pause, trap, M, pure, break, fault, ◌>>=◌, ◌>>◌, gets, modify, or_fault,
  below_top, drop_words, read_u32, read_u64, write_u32, push_u32, push_u64, pop_u32, pop_u64,
  clear_memory, get_memory,
}
use spacewasm.Interpreter.{words_of, call_element}
use spacewasm.Interpreter.Access.{put_memory}

-- `HostFunctionResult`: `ControlFlow::Continue`, or a `HostFunctionBreak`.
pub data HostFunctionResult : Type 0 where
  continue : Option Value → HostFunctionResult
  break_pause break_trap : HostFunctionResult

-- `HostFunction`. Its closure may change the engine; a panic of it is `none`.
pub record HostFunction : Type 0 where
  pub params : List ValType
  pub returns : ResultType
  pub f : List Value → Engine → Option (HostFunctionResult × Engine)

-- The methods of `GlobalValue`: `read` is `none`, and `write` false, on an error.
pub record HostGlobal : Type 0 where
  pub ty : ValType
  pub read : Option Value
  pub write : Value → Bool

-- The embedder: its modules, whether nothing else refers to a memory, and the instructions on floats,
-- given by the opcode and the immediate.
pub record Host : Type 0 where
  pub functions : ℕ → ℕ → Option HostFunction
  pub globals : ℕ → ℕ → Option HostGlobal
  pub is_unique : Engine → ℕ → Bool
  pub float_instruction : ℕ → ℕ → M (Unit {0})

-- Pushes the bits of a value.
unfoldable pub push_value : Value → M (Unit {0})
push_value (Value.i32 v) = push_u32 v
push_value (Value.i64 v) = push_u64 v
push_value (Value.f32 v) = push_u32 v
push_value (Value.f64 v) = push_u64 v

unfoldable pub read_value : ValType → ℕ → M Value
read_value i32 at = read_u32 at >>= λ v. pure (Value.i32 v)
read_value i64 at = read_u64 at >>= λ v. pure (Value.i64 v)
read_value f32 at = read_u32 at >>= λ v. pure (Value.f32 v)
read_value f64 at = read_u64 at >>= λ v. pure (Value.f64 v)

-- `HostFunction::param_size`
unfoldable pub param_size : List ValType → ℕ
param_size [] = 0
param_size (ty ∷ tys) = words_of ty + param_size tys

-- The parameters from an address on.
unfoldable pub read_params : List ValType → ℕ → M (List Value)
read_params [] at = pure []
read_params (ty ∷ tys) at = do
  v ← read_value ty at
  vs ← read_params tys (at + words_of ty)
  pure (v ∷ vs)

unfoldable pub same_type : ValType → ValType → Bool
same_type a b = to_repr a == to_repr b

-- Pushes a result of the declared type; another one is a panic.
unfoldable pub push_result : Option Value → ResultType → M (Unit {0})
push_result none none = pure tt
push_result none (some ty) = fault
push_result (some v) none = fault
push_result (some (Value.i32 v)) (some ty) = if same_type i32 ty then push_u32 v else fault
push_result (some (Value.i64 v)) (some ty) = if same_type i64 ty then push_u64 v else fault
push_result (some (Value.f32 v)) (some ty) = if same_type f32 ty then push_u32 v else fault
push_result (some (Value.f64 v)) (some ty) = if same_type f64 ty then push_u64 v else fault

-- Records the result that a pause waits for; a pause while paused is a panic.
unfoldable pub pause_for : ResultType → Option ResultType → M (Unit {0})
pause_for returns none = do modify (λ e. record e { host_pause_result = some returns }); break pause
pause_for returns (some other) = fault

unfoldable pub finish_call : ResultType → HostFunctionResult → M (Unit {0})
finish_call returns (continue v) = push_result v returns
finish_call returns break_pause = gets (λ e. e.host_pause_result) >>= pause_for returns
finish_call returns break_trap = break (trap TrapReason.host)

-- The closure's answer.
unfoldable pub run_closure : Option (HostFunctionResult × Engine) → M HostFunctionResult
run_closure none e = none
run_closure (some (r, e')) e = some (ok r, e')

unfoldable pub call_host : Host → ℕ → ℕ → M (Unit {0})
call_host h r x = do
  f ← or_fault (h.functions r x)
  drop_words (param_size f.params)
  sp ← gets (λ e. e.sp)
  args ← read_params f.params sp
  result ← (λ e. run_closure (f.f args e) e)
  finish_call f.returns result

-- `==` of slices and of `Option<ValType>` as a slice.
unfoldable pub same_types : List ValType → List ValType → Bool
same_types [] [] = true
same_types [] (y ∷ ys) = false
same_types (x ∷ xs) [] = false
same_types (x ∷ xs) (y ∷ ys) = same_type x y && same_types xs ys

abbrev pub return_vals : ResultType → List ValType
return_vals none = []
return_vals (some v) = v ∷ []

abbrev pub same_signature : FuncType → FuncType → Bool
same_signature a b = same_types a.params b.params && same_types a.returns b.returns

-- A host function in a table is called when its type is the expected one.
unfoldable pub call_host_element : Host → FuncType → ℕ → ℕ → M (Unit {0})
call_host_element h f_expected r index = do
  f ← or_fault (h.functions r index)
  if same_types f.params f_expected.params && same_types (return_vals f.returns) f_expected.returns
      then call_host h r index
      else break (trap TrapReason.invalid_table_function_type)

unfoldable pub call_indirect : Host → ℕ → M (Unit {0})
call_indirect h x = do
  i ← pop_u32
  modules ← gets (λ e. e.store.modules)
  r ← gets (λ e. e.module_ref)
  m ← or_fault (get_elem? modules r)
  f_expected ← or_fault (get_elem? m.types x)
  table ← gets (λ e. e.table)
  call_element same_signature (call_host_element h) f_expected (get_elem? table i)

unfoldable pub global_get_host : Host → ℕ → ℕ → M (Unit {0})
global_get_host h r index = do
  g ← or_fault (h.globals r index)
  elim g.read [ none ↦ break (trap TrapReason.global_get_failed) | some v ↦ push_value v ]

abbrev pub or_set_failed : Bool → M (Unit {0})
or_set_failed true = pure tt
or_set_failed false = break (trap TrapReason.global_set_failed)

unfoldable pub global_set_host : Host → ℕ → ℕ → M (Unit {0})
global_set_host h r index = do
  g ← or_fault (h.globals r index)
  elim g.ty [
    | i32 ↦ pop_u32 >>= λ v. or_set_failed (g.write (Value.i32 v))
    | i64 ↦ pop_u64 >>= λ v. or_set_failed (g.write (Value.i64 v))
    | f32 ↦ pop_u32 >>= λ v. or_set_failed (g.write (Value.f32 v))
    | f64 ↦ pop_u64 >>= λ v. or_set_failed (g.write (Value.f64 v))
  ]

-- The memory after `memory.grow(n)`, and its old number of pages or 2 ^ 32 - 1.
unfoldable pub write_grown : ℕ → Result MemoryError (ℕ × Memory) → M (Unit {0})
write_grown top (ok (old_size, m)) = do put_memory m; write_u32 top old_size
write_grown top (err x) = write_u32 top 0xFFFFFFFF

-- The zero memory has no other reference to drop and does not grow.
unfoldable pub memory_grow : Host → M (Unit {0})
memory_grow h = do
  top ← below_top 1
  n ← read_u32 top
  modify clear_memory
  store ← gets (λ e. e.store)
  r ← gets (λ e. e.module_ref)
  ref ← or_fault (get_memory store r)
  memory ← or_fault (get_elem? store.memories ref)
  unique ← gets (λ e. h.is_unique e ref)
  if is_zero memory
      then (do
        modify (λ e. record e { memory = ref })
        write_grown top (err MemoryError.out_of_memory))
      else (if unique
          then (do modify (λ e. record e { memory = ref }); write_grown top (grow memory n))
          else break (trap TrapReason.memory_ref_not_unique))
