-- ===== src/Text/Operands.antt =====
-- The operand stack of `TextBuilder` in src/text.rs. The functions take the type of an operand where the
-- code converts into one.
pub mod Valid
pub mod Typing
pub mod Accepts
use spacewasm.Prelude.{
  ℕ, zero, suc, ◌+◌, ◌-◌, Bool, true, false, ◌&&◌, Option, none, some, List, [], ◌∷◌, length, ltb,
  leb, ◌==◌, if◌then◌else◌, as_u16, ◌++◌,
}
use spacewasm.Errors.{AllocError, ValidationError, Result, ok, err}
use spacewasm.Types.{ValType, i32, i64, f32, f64, ResultType, to_repr}
use spacewasm.Text.{CodeBuilder, sentinel_target}
use spacewasm.Text.Builder.{
  OperandType, unknown, known, BlockKind, ControlFrame, TextBuilder, Scope, M, pure, fail, ◌>>=◌,
  ◌>>◌, gets, modify, push_frame,
}

-- `ValType::from` of an operand, and `u8::from` of it.
unfoldable pub val_type_of : OperandType → ValType
val_type_of unknown = i32
val_type_of (known t) = t

abbrev pub operand_repr : OperandType → ℕ
operand_repr o = to_repr (val_type_of o)

-- The innermost frame; there is always one, the function's.
unfoldable pub last_frame : TextBuilder → Option ControlFrame
last_frame s = elim s.control_frames [ [] ↦ none | f ∷ fs ↦ some f ]

-- Keeps the `n` operands that were pushed first.
unfoldable pub truncate : ℕ → List OperandType → List OperandType
truncate n [] = []
truncate n (o ∷ os) = let rest = truncate n os in if leb (length (o ∷ os)) n then o ∷ os else rest

unfoldable pub mark_frame : TextBuilder → List ControlFrame → TextBuilder
mark_frame s [] = s
mark_frame s (f ∷ fs) = record s {
  value_stack = truncate f.height s.value_stack;
  control_frames = record f { unreachable = true } ∷ fs;
}

unfoldable pub mark_unreachable : M (Unit {0})
mark_unreachable = modify (λ s. mark_frame s s.control_frames)

unfoldable pub is_unreachable : TextBuilder → Bool
is_unreachable s = elim s.control_frames [ [] ↦ false | f ∷ fs ↦ f.unreachable ]

unfoldable pub frame_height : TextBuilder → ℕ
frame_height s = elim s.control_frames [ [] ↦ 0 | f ∷ fs ↦ f.height ]

unfoldable pub control_frame_stack_len : TextBuilder → ℕ
control_frame_stack_len s = length s.value_stack - frame_height s

abbrev pub operand_words : ValType → ℕ
operand_words i32 = 1
operand_words i64 = 2
operand_words f32 = 1
operand_words f64 = 2

-- The loop of `stack_height`, from the bottom of the stack: it ends at the first `unknown`.
unfoldable pub count_words : List OperandType → ℕ
count_words [] = 0
count_words (unknown ∷ os) = 0
count_words (known t ∷ os) = operand_words t + count_words os

-- The stack from its bottom up.
unfoldable pub bottom_up : List OperandType → List OperandType
bottom_up [] = []
bottom_up (o ∷ os) = bottom_up os ++ (o ∷ [])

unfoldable pub stack_height : TextBuilder → ℕ
stack_height s = count_words (bottom_up s.value_stack)

-- `none` is the failed `assert!`.
unfoldable pub stack_height_for : TextBuilder → ℕ → Option ℕ
stack_height_for s truncate_len =
    if leb truncate_len (length s.value_stack)
    then some (count_words (bottom_up (truncate truncate_len s.value_stack)))
    else none

unfoldable pub raise_highwater : TextBuilder → TextBuilder
raise_highwater s =
    if ltb s.stack_highwater (stack_height s)
    then record s { stack_highwater = stack_height s }
    else s

unfoldable pub push_stack : OperandType → M (Unit {0})
push_stack ty c s =
    if ltb (length s.value_stack) c.max_stack_depth
    then some (ok (tt, raise_highwater (record s { value_stack = ty ∷ s.value_stack })))
    else some (err (ValidationError.alloc_error AllocError.out_of_memory))

-- `value_stack.pop()`
unfoldable pub pop_value : M OperandType
pop_value c s = elim s.value_stack [
  | [] ↦ some (err ValidationError.stack_underflow)
  | o ∷ os ↦ some (ok (o, record s { value_stack = os }))
]

unfoldable pub pop_stack_t : M OperandType
pop_stack_t c s =
    if (control_frame_stack_len s == 0) && is_unreachable s
    then some (ok (unknown, s))
    else (if control_frame_stack_len s == 0
        then some (err ValidationError.stack_underflow)
        else pop_value c s)

-- The types that `pop_stack` compares.
unfoldable pub agree : OperandType → OperandType → M OperandType
agree expect unknown = pure expect
agree unknown (known a) = pure (known a)
agree (known e) (known a) =
    if to_repr a == to_repr e then pure (known a) else fail ValidationError.type_mismatch

unfoldable pub pop_stack : OperandType → M OperandType
pop_stack expect = do actual ← pop_stack_t; agree expect actual

unfoldable pub pop_result_type : ResultType → M (Unit {0})
pop_result_type none = pure tt
pop_result_type (some result) = pop_stack (known result) >> pure tt

unfoldable pub push_result_type : ResultType → M (Unit {0})
push_result_type none = pure tt
push_result_type (some result) = push_stack (known result)

unfoldable pub push_control : BlockKind → ResultType → ResultType → M (Unit {0})
push_control kind label out = do
  height ← gets (λ s. as_u16 (length s.value_stack))
  push_frame (record {
    kind = kind;
    label = label;
    out = out;
    height = height;
    target = sentinel_target;
    unreachable = false;
  })

-- `TextBuilder::new`: the frame of the function is pushed, and a failure of that is not looked at.
unfoldable pub started :
    TextBuilder → Option (Result ValidationError ((Unit {0}) × TextBuilder)) → TextBuilder
started s none = s
started s (some (err e)) = s
started s (some (ok (u, s'))) = s'

unfoldable pub new : Scope → CodeBuilder → TextBuilder
new c code =
    let s : TextBuilder = record {
      code = code;
      control_frames = [];
      value_stack = [];
      stack_highwater = 0;
      br_table_result = none;
    } in
    started s (push_control BlockKind.block c.func.return_ty c.func.return_ty c s)

-- `validate!`: pops the types in order, then pushes the others.
unfoldable pub pop_types : List ValType → M (Unit {0})
pop_types [] = pure tt
pop_types (t ∷ ts) = pop_stack (known t) >> pop_types ts

unfoldable pub push_types : List ValType → M (Unit {0})
push_types [] = pure tt
push_types (t ∷ ts) = push_stack (known t) >> push_types ts

unfoldable pub validate : List ValType → List ValType → M (Unit {0})
validate ins outs = pop_types ins >> push_types outs
