-- ===== src/Interpreter.antt =====
-- src/interpreter.rs: calls, branches and the parametric instructions. An operation of the visitor
-- takes its operands and the engine.
pub mod Access
pub mod Variables
pub mod Host
pub mod Execute
pub mod Run
pub mod Invoke
pub mod Frames
pub mod Unwind
pub mod Context
pub mod Calls
pub mod Integer
pub mod Numeric
use spacewasm.Prelude.{
  ℕ, zero, suc, ◌+◌, ◌-◌, ◌*◌, ◌/◌, ◌%◌, ◌^◌, Bool, true, false, Option, none, some, List, [], ◌∷◌,
  get_elem?, ltb, ◌==◌, if◌then◌else◌, as_u8, as_u16, as_u32,
}
use spacewasm.Errors.{Result, ok, err}
use spacewasm.Types.{ValType, i32, i64, f32, f64, FuncType}
use spacewasm.Types.Raw.{RawValue, from_32, from_64}
use spacewasm.Text.{
  JumpTarget, JumpOffset, LabelTarget, LabelArity, no_result, one_word, two_words, add_offset,
  add_words, arity, depth, jump, is_sentinel,
}
use spacewasm.Stack.{len}
use spacewasm.Engine.{
  Engine, Func, Module, TableElement, TrapReason, InterpreterBreak, finished, trap, M, pure, break,
  fault, ◌>>=◌, ◌>>◌, gets, modify, or_fault, below_top, drop_words, grow_words, read_u32, read_u64,
  write_u32, write_u64, pop_u32, required_stack_words, get_func, enter_context,
}

-- `CallFrame`: `module_delta` is the bit pattern of its `i8`.
pub record CallFrame : Type 0 where
  pub frame_length : ℕ
  pub module_delta : ℕ
  pub parameter_size : ℕ

-- The `repr(C)` layout on a little-endian target.
unfoldable pub into_bits : CallFrame → ℕ
into_bits f = f.frame_length + f.module_delta * 2 ^ 16 + f.parameter_size * 2 ^ 24

unfoldable pub from_bits : ℕ → CallFrame
from_bits bits = record {
  frame_length = bits % 2 ^ 16;
  module_delta = bits / 2 ^ 16 % 2 ^ 8;
  parameter_size = bits / 2 ^ 24;
}

-- Zeroes `count` words from `addr` on.
unfoldable pub zero_locals : ℕ → ℕ → M (Unit {0})
zero_locals zero addr = pure tt
zero_locals (suc count) addr = do write_u32 addr 0; zero_locals count (addr + 1)

-- `call_impl` past its test of the stack.
unfoldable pub push_frame : ℕ → Func → M (Unit {0})
push_frame module_delta f = do
  sp ← gets (λ e. e.sp)
  fp ← gets (λ e. e.fp)
  pc ← gets (λ e. e.pc)
  frame_length ← below_top fp
  write_u32 sp (
      into_bits (record {
        frame_length = as_u16 (as_u32 frame_length);
        module_delta = module_delta;
        parameter_size = f.parameter_size;
      }))
  write_u32 (sp + 1) pc.address
  modify (λ e. record e { fp = as_u32 sp })
  zero_locals f.local_size (sp + 2)
  grow_words (2 + f.local_size)
  modify (λ e. record e { pc = f.expr; jumped = true })

unfoldable pub call_impl : ℕ → ℕ → M (Unit {0})
call_impl module_delta index = do
  r ← gets (λ e. e.module_ref)
  f ← get_func r index
  room ← gets (λ e. len e.stack)
  sp ← gets (λ e. e.sp)
  if ltb room (sp + required_stack_words f)
      then break (trap TrapReason.stack_overflow)
      else push_frame module_delta f

-- `call_impl_enter_module`: the delta of two 8-bit module numbers, wrapping.
unfoldable pub call_impl_enter_module : ℕ → ℕ → M (Unit {0})
call_impl_enter_module r index = do
  current ← gets (λ e. e.module_ref)
  if r == current
      then call_impl 0 index
      else (do enter_context r; call_impl (as_u8 (r + 2 ^ 8 - current)) index)

-- Copies `count` words up from `from`, lowest first.
unfoldable pub copy_words : ℕ → ℕ → ℕ → M (Unit {0})
copy_words zero from to = pure tt
copy_words (suc count) from to = do
  v ← read_u32 from
  write_u32 to v
  copy_words count (from + 1) (to + 1)

-- The result that leaves the interpreter.
unfoldable pub return_value : ℕ → M RawValue
return_value return_size = do
  sp ← gets (λ e. e.sp)
  if return_size == 0
      then pure (from_64 0)
      else (if return_size == 1
          then (read_u32 sp >>= λ v. pure (from_32 v))
          else (if return_size == 2 then (read_u64 sp >>= λ v. pure (from_64 v)) else fault))

unfoldable pub leave_context : ℕ → M (Unit {0})
leave_context module_delta =
    if module_delta == 0
    then pure tt
    else (gets (λ e. e.module_ref) >>= λ r. enter_context (as_u8 (r + 2 ^ 8 - module_delta)))

-- The end of `return_`: to the caller, or out of the interpreter.
unfoldable pub return_to : ℕ → ℕ → ℕ → M (Unit {0})
return_to return_size parameter_start return_pc =
    if return_pc == 0xFFFFFFFF
    then (do
      modify (λ e. record e {
        sp = parameter_start;
        pc = record { address = 0xFFFFFFFF };
        jumped = true;
      })
      v ← return_value return_size
      modify (λ e. record e { result = some v })
      break finished)
    else modify (λ e. record e {
      sp = parameter_start + return_size;
      pc = add_words (record { address = return_pc }) 2;
      jumped = true;
    })

-- `a - b` of unsigned numbers; below 0 is a fault.
unfoldable pub checked_sub : ℕ → ℕ → M ℕ
checked_sub a b = if ltb a b then fault else pure (a - b)

unfoldable pub return_ : ℕ → M (Unit {0})
return_ return_size = do
  fp ← gets (λ e. e.fp)
  return_pc ← read_u32 (fp + 1)
  bits ← read_u32 fp
  let call_frame = from_bits bits
  return_fp ← checked_sub fp call_frame.frame_length
  parameter_start ← checked_sub fp call_frame.parameter_size
  from ← below_top return_size
  copy_words return_size from parameter_start
  modify (λ e. record e { fp = return_fp })
  leave_context call_frame.module_delta
  return_to return_size parameter_start return_pc

-- The copy of the results in `br_impl`, after `sp -= depth`.
unfoldable pub move_results : LabelArity → ℕ → M (Unit {0})
move_results no_result d = pure tt
move_results one_word d = do
  sp ← gets (λ e. e.sp)
  from ← checked_sub (sp + d) 1
  w ← read_u32 from
  write_u32 sp w
  grow_words 1
move_results two_words d = do
  sp ← gets (λ e. e.sp)
  from ← checked_sub (sp + d) 2
  w1 ← read_u32 from
  w2 ← read_u32 (from + 1)
  write_u32 sp w1
  write_u32 (sp + 1) w2
  grow_words 2

-- The number of an arity, which `return_` is given.
abbrev pub arity_size : LabelArity → ℕ
arity_size no_result = 0
arity_size one_word = 1
arity_size two_words = 2

unfoldable pub jump_to : JumpOffset → LabelTarget → M (Unit {0})
jump_to label_pc_offset addr =
    modify (λ e. record e {
      pc = add_offset (add_offset e.pc label_pc_offset) (jump addr);
      jumped = true;
    })

unfoldable pub br_impl : JumpOffset → LabelTarget → M (Unit {0})
br_impl label_pc_offset addr = do
  a ← or_fault (arity addr)
  if is_sentinel addr
      then return_ (arity_size a)
      else (do drop_words (depth addr); move_results a (depth addr); jump_to label_pc_offset addr)

abbrev pub offset_of : ℕ → JumpOffset
offset_of n = record { bits = n }

unfoldable pub words_of : ValType → ℕ
words_of i32 = 1
words_of f32 = 1
words_of i64 = 2
words_of f64 = 2

pub drop : ValType → M (Unit {0})
unfolding words_of
drop ty = drop_words (words_of ty)

unfoldable pub select_words : ℕ → ℕ → M (Unit {0})
select_words n c =
    if c == 0
    then (do
      from ← below_top n
      to ← below_top (n + n)
      val2 ← (if n == 1 then read_u32 from else read_u64 from)
      (if n == 1 then write_u32 to val2 else write_u64 to val2)
      drop_words n)
    else drop_words n

pub select : ValType → M (Unit {0})
unfolding words_of
select ty = do c ← pop_u32; select_words (words_of ty) c

pub if_ : LabelTarget → M (Unit {0})
if_ false_address = do v ← pop_u32; if v == 0 then jump_to (offset_of 1) false_address else pure tt

pub br : LabelTarget → M (Unit {0})
br addr = br_impl (offset_of 1) addr

pub br_if : LabelTarget → M (Unit {0})
br_if true_address = do v ← pop_u32; if v == 0 then pure tt else br_impl (offset_of 1) true_address

-- The number of words before the first case is 2 when the count takes a word of its own.
pub br_table : ℕ → (ℕ → LabelTarget) → M (Unit {0})
br_table n cases = do
  v ← pop_u32
  let op_offset = if ltb n 0xFF then 1 else 2
  br_impl (offset_of (op_offset + 2 * (if ltb v n then v else n))) (cases v)

pub call : ℕ → M (Unit {0})
call x = call_impl 0 x

pub call_extern : ℕ → ℕ → M (Unit {0})
call_extern r x = call_impl_enter_module r x

-- The entry of a table that `call_indirect` looks up. A host function is called by `call_host`.
unfoldable pub call_element :
    (FuncType → FuncType → Bool)
    → (FuncType → ℕ → ℕ → M (Unit {0}))
    → FuncType
    → Option TableElement
    → M (Unit {0})
call_element same call_host f_expected none = break (trap TrapReason.invalid_table_index)
call_element same call_host f_expected (some TableElement.uninitialized) =
    break (trap TrapReason.uninitialized_table_element)
call_element same call_host f_expected (some (TableElement.host_func r index)) =
    call_host f_expected r index
call_element same call_host f_expected (some (TableElement.func r index)) = do
  f ← get_func r index
  modules ← gets (λ e. e.store.modules)
  m ← or_fault (get_elem? modules r)
  f_actual ← or_fault (get_elem? m.types f.ty)
  if same f_actual f_expected
      then call_impl_enter_module r index
      else break (trap TrapReason.invalid_table_function_type)
