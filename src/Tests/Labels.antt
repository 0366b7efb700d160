-- ===== src/Tests/Labels.antt =====
-- Labels and jumps on concrete addresses.
use spacewasm.Prelude.{◌+◌, ◌-◌, ◌^◌, ◌≡◌, inl, inr, some, arith}
use spacewasm.Errors.{ValidationError, ok, err}
use spacewasm.Types.{i64}
use spacewasm.Text.{
  JumpTarget, JumpOffset, LabelTarget, new_label, new_offset, add_offset, with_jump, jump, depth,
  arity,
}
use spacewasm.Text.Labels.{
  IsOffset, arity_for, new_label-fields, with_jump-fields, new_offset-add_offset,
  new_offset_too_far,
}

-- Five words back.
abbrev back : JumpOffset
back = record { bits = 2 ^ 32 - 5 }

back-IsOffset : IsOffset back
unfolding IsOffset
back-IsOffset = inr (omega arith, omega arith)

new_label-fields_example :
    (arity (new_label (some i64) 3 back) ≡ some (arity_for (some i64)))
    × (depth (new_label (some i64) 3 back) ≡ 3)
    × (jump (new_label (some i64) 3 back) ≡ back)
new_label-fields_example = new_label-fields (some i64) 3 back (omega arith) back-IsOffset

abbrev label : LabelTarget
label = record { word = 0x40800007 }

with_jump-fields_example :
    (jump (with_jump label back) ≡ back)
    × (depth (with_jump label back) ≡ depth label)
    × (arity (with_jump label back) ≡ arity label)
with_jump-fields_example = with_jump-fields label back (omega arith) back-IsOffset

abbrev here : JumpTarget
here = record { address = 1000 }

abbrev there : JumpTarget
there = record { address = 900 }

new_offset-add_offset_example :
    (o : JumpOffset) × ((new_offset here there ≡ ok o) × (IsOffset o) × (add_offset here o ≡ there))
new_offset-add_offset_example =
    new_offset-add_offset here there (omega arith) (omega arith) (omega arith) (omega arith)

abbrev far : JumpTarget
far = record { address = 1000 + 2 ^ 21 }

new_offset_too_far_example : new_offset here far ≡ err ValidationError.label_jump_too_large
new_offset_too_far_example =
    new_offset_too_far here far (omega arith) (omega arith) (inl (omega arith))
