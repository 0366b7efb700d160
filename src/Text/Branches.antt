-- ===== src/Text/Branches.antt =====
-- The control frames of `TextBuilder` in src/text.rs: the targets of branches and the ends of blocks, with
-- the jumps that are patched there.
pub mod Valid
use spacewasm.Prelude.{
  ℕ, ◌-◌, Bool, true, false, ◌&&◌, Option, none, some, List, [], ◌∷◌, length, get_elem?, set, ltb,
  leb, ◌==◌, if◌then◌else◌, as_u8, as_u16, shr, bit_and, not,
}
use spacewasm.Errors.{ValidationError, ok, err}
use spacewasm.Types.{ResultType}
use spacewasm.Text.{
  JumpTarget, LabelTarget, sentinel_offset, new_offset, new_label, early_return, backpatch,
}
use spacewasm.Text
use spacewasm.Text.Patches.{patch_to, patch_tail, start_of_chain}
use spacewasm.Text.Emit.{push_word, allocated}
use spacewasm.Text.Builder.{
  BlockKind, ControlFrame, TextBuilder, Scope, M, pure, fail, panic, ◌>>=◌, ◌>>◌, gets, asks,
  modify, or_panic, or_fail, lift, with_code, emit,
}
use spacewasm.Text.Operands.{last_frame, stack_height, stack_height_for, pop_result_type}

unfoldable pub pc : M JumpTarget
pc = do code ← gets (λ s. s.code); or_panic (Text.pc code)

-- `push(lt.0 as u16)?; push((lt.0 >> 16) as u16)?`
unfoldable pub push_label : LabelTarget → M (Unit {0})
push_label lt =
    emit (λ boxes c. allocated (push_word boxes (as_u16 lt.word) c))
    >> emit (λ boxes c. allocated (push_word boxes (as_u16 (shr lt.word 16)) c))

-- A jump back to the start of a loop.
unfoldable pub write_backward : ControlFrame → JumpTarget → ℕ → M ResultType
write_backward frame at stack_delta = do
  o ← lift (new_offset at frame.target)
  push_label (new_label none (as_u8 stack_delta) o)
  pure none

-- A jump to an end that is not known yet: it becomes the head of the frame's list of jumps, and its word
-- holds the way to the old head.
unfoldable pub set_head : ControlFrame → ℕ → JumpTarget → M (Unit {0})
set_head frame label at =
    modify
      (λ s. record s { control_frames = set s.control_frames label (record frame { target = at }) })

unfoldable pub write_link : ControlFrame → JumpTarget → ℕ → M ResultType
write_link frame at stack_delta = do
  o ← lift (new_offset at frame.target)
  push_label (new_label frame.out (bit_and stack_delta 0xFF) o)
  pure frame.label

unfoldable pub write_forward : ControlFrame → ℕ → JumpTarget → ℕ → M ResultType
write_forward frame label at stack_delta =
    set_head frame label at >> write_link frame at stack_delta

unfoldable pub write_jump : BlockKind → ControlFrame → ℕ → JumpTarget → ℕ → M ResultType
write_jump BlockKind.loop frame label at stack_delta = write_backward frame at stack_delta
write_jump BlockKind.block frame label at stack_delta = write_forward frame label at stack_delta
write_jump BlockKind.if_ frame label at stack_delta = write_forward frame label at stack_delta

unfoldable pub write_jump_of : ControlFrame → ℕ → JumpTarget → ℕ → M ResultType
write_jump_of frame label at stack_delta =
    if ltb 0xFF stack_delta
    then fail ValidationError.label_stack_jump_too_deep
    else write_jump frame.kind frame label at stack_delta

-- The words that the branch takes off the stack.
unfoldable pub stack_delta_of : ControlFrame → M ℕ
stack_delta_of frame = do
  start_stack_height ← gets stack_height
  bottom ← gets (λ s. stack_height_for s frame.height)
  end_stack_height ← or_panic bottom
  pure (start_stack_height - end_stack_height)

unfoldable pub write_target : ControlFrame → ℕ → M ResultType
write_target frame label = do
  at ← pc
  stack_delta ← stack_delta_of frame
  write_jump_of frame label at stack_delta

-- A branch out of the outermost frame returns from the function.
unfoldable pub write_early_return : M ResultType
write_early_return = do
  f ← asks (λ c. c.func)
  push_label (early_return f.return_ty)
  pure f.return_ty

-- `label` counts from the innermost frame, the head of the list; the last one is the function's.
unfoldable pub write_label_target : ℕ → M ResultType
write_label_target label c s = elim (get_elem? s.control_frames label) [
  | none ↦ some (err ValidationError.invalid_label_index)
  | some frame ↦
      (if length s.control_frames - 1 - label == 0
        then write_early_return c s
        else write_target frame label c s)
]

-- Gives the innermost frame another target.
unfoldable pub retarget : JumpTarget → List ControlFrame → M (Unit {0})
retarget target [] = fail ValidationError.invalid_end_block
retarget target (frame ∷ frames) =
    modify (λ s. record s { control_frames = record frame { target = target } ∷ frames })

unfoldable pub set_control_target : JumpTarget → M (Unit {0})
set_control_target target = do frames ← gets (λ s. s.control_frames); retarget target frames

unfoldable pub write_if_else_target : M (Unit {0})
write_if_else_target = do
  last ← gets last_frame
  frame ← or_fail ValidationError.invalid_end_block last
  patch_location ← pc
  push_label (new_label frame.out 0 sentinel_offset)
  set_control_target patch_location

-- Takes the innermost frame off, with its result still expected on the operand stack.
unfoldable pub leave_frame : ControlFrame → M (Unit {0})
leave_frame frame = do
  pop_result_type frame.out
  len ← gets (λ s. length s.value_stack)
  if not (len == frame.height) then fail ValidationError.block_result_type_mismatch else pure tt

-- `control_frames.pop().unwrap()`
unfoldable pub pop_frame : M ControlFrame
pop_frame c s = elim s.control_frames [
  | [] ↦ none
  | frame ∷ frames ↦ some (ok (frame, record s { control_frames = frames }))
]

-- Makes the jumps of a list lead to the address.
unfoldable pub backpatch_to : JumpTarget → JumpTarget → M (Unit {0})
backpatch_to start to = do
  fuel ← asks (λ c. c.fuel)
  code ← gets (λ s. s.code)
  patched ← or_panic (backpatch fuel tt code start (patch_to to))
  p ← lift patched
  modify (λ s. record s { code = p.0 })

-- An `if` without `else` has no result.
unfoldable pub patch_kind : BlockKind → ResultType → JumpTarget → M (Unit {0})
patch_kind BlockKind.loop out target = pure tt
patch_kind BlockKind.block out target = pc >>= backpatch_to target
patch_kind BlockKind.if_ none target = pc >>= backpatch_to target
patch_kind BlockKind.if_ (some t) target = fail ValidationError.block_result_type_mismatch

unfoldable pub patch_end : ControlFrame → M (Unit {0})
patch_end frame = patch_kind frame.kind frame.out frame.target

unfoldable pub pop_control : M ResultType
pop_control = do
  top ← gets last_frame
  frame ← or_panic top
  leave_frame frame
  last ← pop_frame
  patch_end last
  pure last.out

unfoldable pub is_if : BlockKind → Bool
is_if BlockKind.loop = false
is_if BlockKind.block = false
is_if BlockKind.if_ = true

-- Cuts the tail off the list of an `if`, with its jump patched to here; the rest stays to be patched.
unfoldable pub patch_if : JumpTarget → M JumpTarget
patch_if start = do
  to ← pc
  fuel ← asks (λ c. c.fuel)
  code ← gets (λ s. s.code)
  patched ← or_panic (backpatch fuel start_of_chain code start (patch_tail start to))
  p ← lift patched
  modify (λ s. record s { code = p.0 })
  pure p.1.remaining_chain

unfoldable pub leave_if : ControlFrame → M (ResultType × JumpTarget)
leave_if frame = do
  leave_frame frame
  last ← pop_frame
  remaining_chain ← patch_if last.target
  pure (last.out, remaining_chain)

unfoldable pub pop_control_and_patch_if : M (ResultType × JumpTarget)
pop_control_and_patch_if = do
  top ← gets last_frame
  frame ← or_panic top
  (if not (is_if frame.kind) then fail ValidationError.invalid_else_block else leave_if frame)
