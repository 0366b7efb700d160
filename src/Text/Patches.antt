-- ===== src/Text/Patches.antt =====
-- The closures that `pop_control` and `pop_control_and_patch_if` of src/text.rs pass to `backpatch`.
use spacewasm.Prelude.{◌==◌, if◌then◌else◌}
use spacewasm.Errors.{ValidationError, Result, ok, ◌>>=◌}
use spacewasm.Text.{
  CodeBuilder, JumpTarget, Patch, sentinel_target, sentinel_offset, new_offset, is_sentinel,
  with_jump, write_32, read_32,
}

-- The jump of a label becomes one to `to`.
unfoldable pub patch_to : JumpTarget → Patch (Unit {0})
patch_to to u code address label =
    new_offset address to >>= (λ o. write_32 code address (with_jump label o).word) >>= λ code'.
    ok (code', tt)

-- What the closure in `pop_control_and_patch_if` keeps from one label of the list to the next.
pub record Chain : Type 0 where
  pub prev : JumpTarget
  pub remaining_chain : JumpTarget

abbrev pub start_of_chain : Chain
start_of_chain = record { prev = sentinel_target; remaining_chain = sentinel_target }

-- The label before the tail becomes the tail, and the rest of the list starts at its old head.
unfoldable pub cut_tail :
    JumpTarget → Chain → CodeBuilder → Result ValidationError (CodeBuilder × Chain)
cut_tail start ch code =
    if ch.prev.address == 0xFFFFFFFF
    then ok (code, ch)
    else (read_32 code ch.prev
        >>= (λ old. write_32 code ch.prev (with_jump (record { word = old }) sentinel_offset).word)
        >>= λ code'. ok (code', record ch { remaining_chain = start }))

-- The tail of the list is the jump of the false branch: it is patched and cut off.
unfoldable pub patch_tail : JumpTarget → JumpTarget → Patch Chain
patch_tail start to ch code address label =
    if (is_sentinel label)
    then (new_offset address to
        >>= (λ o. write_32 code address (with_jump label o).word)
        >>= cut_tail start ch)
    else ok (code, record ch { prev = address })
