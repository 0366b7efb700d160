-- ===== src/Text/Branches/Valid.antt =====
-- The operations on control frames of src/text.rs keep the invariant of the two stacks.
use spacewasm.Prelude.{
  ℕ, zero, suc, ◌-◌, ◌≤◌, ◌≡◌, refl, subst, none, some, List, [], ◌∷◌, length, get_elem?, set, inl,
  inr, Bool-cases, Option-cases, ◌==◌, ltb,
}
use spacewasm.Errors.{ValidationError}
use spacewasm.Types.{ResultType}
use spacewasm.Text.{CodeBuilder, JumpTarget, LabelTarget}
use spacewasm.Text.Builder.{BlockKind, ControlFrame, TextBuilder, Scope, M, ◌>>=◌, modify}
use spacewasm.Text.Builder.Keeps.{
  Condition, Kept, Leads, Keeps, IgnoresCode, Keeps-emit, Leads-bind, Leads-then, Leads-fail,
  Leads-pure, keeps_rules,
}
use spacewasm.Text.Operands.{stack_height}
use spacewasm.Text.Operands.Valid.{
  Heights, Heights-mono, IsValid, IgnoresCode-IsValid, Keeps-pop_result_type,
}
use spacewasm.Text.Branches.{
  pc, push_label, write_backward, set_head, write_link, write_forward, write_jump, write_jump_of,
  stack_delta_of, write_target, write_early_return, write_label_target, retarget,
  set_control_target, write_if_else_target, leave_frame, pop_frame, backpatch_to, patch_kind,
  patch_end, pop_control, patch_if, leave_if, pop_control_and_patch_if,
}

module _ {P : Condition} where
  pub Keeps-pc : Keeps P pc
  unfolding pc
  Keeps-pc = search keeps_rules

  pub Keeps-push_label : (lt : LabelTarget) → IgnoresCode P → Keeps P (push_label lt)
  unfolding push_label
  Keeps-push_label lt free = search (keeps_rules, Keeps-emit)

-- Another target of a frame does not change its height.
Heights-set :
    (n k : ℕ) (fs : List ControlFrame) (f : ControlFrame) (target : JumpTarget)
    → get_elem? fs k ≡ some f
    → Heights n fs
    → Heights n (set fs k (record f { target = target }))
Heights-set n k [] f target e h = tt
Heights-set n zero (g ∷ fs) f target e h =
    let same : g ≡ f = cc in subst (λ x. (x.height ≤ n) × Heights x.height fs) same h
Heights-set n (suc k) (g ∷ fs) f target e h = (h.0, Heights-set g.height k fs f target e h.1)

-- A valid builder with the frame at the label.
abbrev pub HasFrame : ControlFrame → ℕ → Condition
HasFrame frame label c s = IsValid c s × (get_elem? s.control_frames label ≡ some frame)

Leads-write_backward :
    (frame : ControlFrame) (at : JumpTarget) (d : ℕ) → Keeps IsValid (write_backward frame at d)
unfolding write_backward
Leads-write_backward frame at d = search (keeps_rules, Keeps-push_label, IgnoresCode-IsValid)

Leads-set_head :
    (frame : ControlFrame) (label : ℕ) (at : JumpTarget)
    → Leads (HasFrame frame label) (set_head frame label at) IsValid
unfolding set_head stack_height
Leads-set_head frame label at = record {
  at = λ c s h. record {
    capacity = h.0.capacity;
    depth = h.0.depth;
    heights = Heights-set (length s.value_stack) label s.control_frames frame at h.1 h.0.heights;
    highwater = h.0.highwater;
    bounded = h.0.bounded;
  };
}

Leads-write_forward :
    (frame : ControlFrame) (label : ℕ) (at : JumpTarget) (d : ℕ)
    → Leads (HasFrame frame label) (write_forward frame label at d) IsValid
unfolding write_forward write_link
Leads-write_forward frame label at d =
    Leads-then (set_head frame label at) (write_link frame at d) (Leads-set_head frame label at)
      (search (keeps_rules, Keeps-push_label, IgnoresCode-IsValid))

Leads-weaken :
    {P Q : Condition} {A : Type 0} (m : M A)
    → ((c : Scope) (s : TextBuilder) → P c s → Q c s)
    → Leads Q m Q
    → Leads P m Q
Leads-weaken m w h = record { at = λ c s p. h.at c s (w c s p) }

Leads-write_jump :
    (kind : BlockKind) (frame : ControlFrame) (label : ℕ) (at : JumpTarget) (d : ℕ)
    → Leads (HasFrame frame label) (write_jump kind frame label at d) IsValid
unfolding write_jump
Leads-write_jump BlockKind.loop frame label at d =
    Leads-weaken (write_backward frame at d) (λ c s h. h.0) (Leads-write_backward frame at d)
Leads-write_jump BlockKind.block frame label at d = Leads-write_forward frame label at d
Leads-write_jump BlockKind.if_ frame label at d = Leads-write_forward frame label at d

Leads-write_jump_of :
    (frame : ControlFrame) (label : ℕ) (at : JumpTarget) (d : ℕ)
    → Leads (HasFrame frame label) (write_jump_of frame label at d) IsValid
unfolding write_jump_of
Leads-write_jump_of frame label at d = elim (Bool-cases (ltb 0xFF d)) [
  | inl t ↦ rw t (record { at = λ c s h. tt })
  | inr t ↦ rw t (Leads-write_jump frame.kind frame label at d)
]

Keeps-stack_delta_of : {P : Condition} (frame : ControlFrame) → Keeps P (stack_delta_of frame)
unfolding stack_delta_of
Keeps-stack_delta_of frame = search keeps_rules

pub Leads-write_target :
    (frame : ControlFrame) (label : ℕ)
    → Leads (HasFrame frame label) (write_target frame label) IsValid
unfolding write_target
Leads-write_target frame label =
    Leads-bind {P = HasFrame frame label} {Q = HasFrame frame label} pc
      (λ at. stack_delta_of frame >>= λ d. write_jump_of frame label at d) Keeps-pc
      λ at.
        Leads-bind {P = HasFrame frame label} {Q = HasFrame frame label} (stack_delta_of frame)
          (λ d. write_jump_of frame label at d) (Keeps-stack_delta_of frame)
          (λ d. Leads-write_jump_of frame label at d)

Keeps-write_early_return : Keeps IsValid write_early_return
unfolding write_early_return
Keeps-write_early_return = search (keeps_rules, Keeps-push_label, IgnoresCode-IsValid)

pub Keeps-write_label_target : (label : ℕ) → Keeps IsValid (write_label_target label)
unfolding write_label_target
Keeps-write_label_target label = record {
  at = λ c s h. elim (Option-cases (get_elem? s.control_frames label)) [
    | inl e ↦ rw (e, write_label_target) tt
    | inr (frame, e) ↦ elim (Bool-cases (length s.control_frames - 1 - label == 0)) [
      | inl t ↦ rw (e, t, write_label_target) (Keeps-write_early_return.at c s h)
      | inr t ↦ rw (e, t, write_label_target) ((Leads-write_target frame label).at c s (h, e))
    ]
  ];
}

Keeps-retarget :
    (target : JumpTarget) (c : Scope) (s : TextBuilder) (fs : List ControlFrame)
    → s.control_frames ≡ fs
    → IsValid c s
    → Kept IsValid c (retarget target fs c s)
unfolding retarget stack_height
Keeps-retarget target c s [] e h = tt
Keeps-retarget target c s (f ∷ fs) e h = record {
  capacity = h.capacity;
  depth = h.depth;
  heights = subst (λ x. Heights (length s.value_stack) x) e h.heights;
  highwater = h.highwater;
  bounded = h.bounded;
}

pub Keeps-set_control_target : (target : JumpTarget) → Keeps IsValid (set_control_target target)
unfolding set_control_target
Keeps-set_control_target target = record {
  at = λ c s h. Keeps-retarget target c s s.control_frames refl h;
}

pub Keeps-write_if_else_target : Keeps IsValid write_if_else_target
unfolding write_if_else_target
Keeps-write_if_else_target =
    search (keeps_rules, Keeps-pc, Keeps-push_label, IgnoresCode-IsValid, Keeps-set_control_target)
      depth 12

Keeps-leave_frame : (frame : ControlFrame) → Keeps IsValid (leave_frame frame)
unfolding leave_frame
Keeps-leave_frame frame = search (keeps_rules, Keeps-pop_result_type)

Kept-pop_frame :
    (c : Scope) (s : TextBuilder) (fs : List ControlFrame)
    → s.control_frames ≡ fs
    → IsValid c s
    → Kept IsValid c (pop_frame c s)
unfolding pop_frame stack_height
Kept-pop_frame c s [] e h = rw (e, pop_frame) tt
Kept-pop_frame c s (f ∷ fs) e h =
    let frames : Heights (length s.value_stack) (f ∷ fs) =
      subst (λ x. Heights (length s.value_stack) x) e h.heights in
    rw (e, pop_frame)
      (record {
        capacity = h.capacity;
        depth = h.depth;
        heights = Heights-mono f.height (length s.value_stack) fs frames.0 frames.1;
        highwater = h.highwater;
        bounded = h.bounded;
      })

Keeps-pop_frame : Keeps IsValid pop_frame
Keeps-pop_frame = record { at = λ c s h. Kept-pop_frame c s s.control_frames refl h }

Keeps-set_code : (code : CodeBuilder) → Keeps IsValid (modify (λ s. record s { code = code }))
Keeps-set_code code = record { at = λ c s h. IgnoresCode-IsValid c s code h }

Keeps-backpatch_to : (start to : JumpTarget) → Keeps IsValid (backpatch_to start to)
unfolding backpatch_to
Keeps-backpatch_to start to = search (keeps_rules, Keeps-set_code)

Keeps-patch_kind :
    (kind : BlockKind) (out : ResultType) (target : JumpTarget)
    → Keeps IsValid (patch_kind kind out target)
unfolding patch_kind
Keeps-patch_kind BlockKind.loop out target = Leads-pure tt
Keeps-patch_kind BlockKind.block out target = search (keeps_rules, Keeps-pc, Keeps-backpatch_to)
Keeps-patch_kind BlockKind.if_ none target = search (keeps_rules, Keeps-pc, Keeps-backpatch_to)
Keeps-patch_kind BlockKind.if_ (some t) target =
    Leads-fail ValidationError.block_result_type_mismatch

Keeps-patch_end : (frame : ControlFrame) → Keeps IsValid (patch_end frame)
unfolding patch_end
Keeps-patch_end frame = Keeps-patch_kind frame.kind frame.out frame.target

ruleset frame_rules =
    (keeps_rules, Keeps-pc, Keeps-leave_frame, Keeps-pop_frame, Keeps-patch_end, Keeps-set_code)

pub Keeps-pop_control : Keeps IsValid pop_control
unfolding pop_control
Keeps-pop_control = search frame_rules depth 16

Keeps-patch_if : (start : JumpTarget) → Keeps IsValid (patch_if start)
unfolding patch_if
Keeps-patch_if start = search frame_rules depth 16

Keeps-leave_if : (frame : ControlFrame) → Keeps IsValid (leave_if frame)
unfolding leave_if
Keeps-leave_if frame = search (frame_rules, Keeps-patch_if) depth 16

pub Keeps-pop_control_and_patch_if : Keeps IsValid pop_control_and_patch_if
unfolding pop_control_and_patch_if
Keeps-pop_control_and_patch_if = search (frame_rules, Keeps-leave_if) depth 16
