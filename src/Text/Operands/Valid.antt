-- ===== src/Text/Operands/Valid.antt =====
-- The invariant of the two stacks of `TextBuilder` in src/text.rs.
use spacewasm.Prelude.{
  ℕ, zero, suc, ◌-◌, ◌*◌, ◌^◌, ◌≤◌, ◌<◌, ◌≡◌, refl, sym, ap, subst, inl, inr, false, ◌&&◌, ◌++◌,
  none, some, List, [], ◌∷◌, length, length-append, ltb, leb, ◌==◌, as_u16, Bool-cases, arith,
}
use spacewasm.Types.{ValType, i32, i64, f32, f64, ResultType}
use spacewasm.Text.{sentinel_target}
use spacewasm.Text.Builder.{
  OperandType, unknown, known, BlockKind, ControlFrame, TextBuilder, Scope, push_frame,
}
use spacewasm.Text.Builder.Keeps.{
  Kept, Keeps, IgnoresCode, keeps_rules, Leads-bind, Leads-then, Leads-pure, Leads-modify,
}
use spacewasm.Text.Operands.{
  truncate, mark_frame, mark_unreachable, frame_height, control_frame_stack_len, bottom_up,
  count_words, operand_words, stack_height, raise_highwater, push_stack, pop_value, pop_stack_t,
  agree, pop_stack, pop_result_type, push_result_type, push_control, pop_types, push_types,
  validate, is_unreachable,
}

-- The heights of the frames, from the innermost one out, do not rise, and the first is at most `n`.
abbrev pub Heights : ℕ → List ControlFrame → Type 0
Heights n [] = Unit
Heights n (f ∷ fs) = (f.height ≤ n) × Heights f.height fs

-- The operands of a frame are above its height, the stack is within its capacity, which a `u16` holds, and
-- the high-water mark is at least the words on the stack and at most two for each operand.
pub record IsValid (c : Scope) (s : TextBuilder) : Type 0 where
  pub capacity : 2 * c.max_stack_depth < 2 ^ 16
  pub depth : length s.value_stack ≤ c.max_stack_depth
  pub heights : Heights (length s.value_stack) s.control_frames
  pub highwater : stack_height s ≤ s.stack_highwater
  pub bounded : s.stack_highwater ≤ 2 * c.max_stack_depth

pub IgnoresCode-IsValid : IgnoresCode IsValid
unfolding stack_height
IgnoresCode-IsValid c s code h = record {
  capacity = h.capacity;
  depth = h.depth;
  heights = h.heights;
  highwater = h.highwater;
  bounded = h.bounded;
}

pub Heights-mono : (n m : ℕ) (fs : List ControlFrame) → n ≤ m → Heights n fs → Heights m fs
Heights-mono n m [] le h = tt
Heights-mono n m (f ∷ fs) le h = (omega (arith, le, h.0), h.1)

pub count_words_append :
    (xs : List OperandType) (o : OperandType) → count_words xs ≤ count_words (xs ++ (o ∷ []))
unfolding count_words
count_words_append [] o = omega arith
count_words_append (unknown ∷ xs) o = omega arith
count_words_append (known t ∷ xs) o = omega (arith, count_words_append xs o)

-- The words of a stack are no more than those of the stack with another operand on top.
pub height-cons :
    (o : OperandType) (os : List OperandType)
    → count_words (bottom_up os) ≤ count_words (bottom_up (o ∷ os))
unfolding bottom_up
height-cons o os = count_words_append (bottom_up os) o

pub height-truncate :
    (n : ℕ) (os : List OperandType)
    → count_words (bottom_up (truncate n os)) ≤ count_words (bottom_up os)
unfolding truncate
height-truncate n [] = omega arith
height-truncate n (o ∷ os) = elim (Bool-cases (leb (length (o ∷ os)) n)) [
  | inl t ↦ rw t (omega arith)
  | inr t ↦ rw t (omega (arith, height-truncate n os, height-cons o os))
]

pub length-truncate : (n : ℕ) (os : List OperandType) → n ≤ length os → length (truncate n os) ≡ n
unfolding truncate
length-truncate n [] h = omega (arith, h)
length-truncate n (o ∷ os) h = elim (Bool-cases (leb (length (o ∷ os)) n)) [
  | inl t ↦ rw t (ground arith)
  | inr t ↦ rw t (length-truncate n os (ground arith))
]

pub operand_words_bound : (t : ValType) → operand_words t ≤ 2
operand_words_bound i32 = omega arith
operand_words_bound i64 = omega arith
operand_words_bound f32 = omega arith
operand_words_bound f64 = omega arith

count_words_bound : (os : List OperandType) (n : ℕ) → length os ≤ n → count_words os ≤ 2 * n
unfolding count_words
count_words_bound [] n h = omega arith
count_words_bound (unknown ∷ os) n h = omega arith
count_words_bound (known t ∷ os) zero h = absurd (omega (arith, h))
count_words_bound (known t ∷ os) (suc n) h =
    omega (arith, operand_words_bound t, count_words_bound os n (omega (arith, h)))

length-bottom_up : (os : List OperandType) → length (bottom_up os) ≡ length os
unfolding bottom_up
length-bottom_up [] = refl
length-bottom_up (o ∷ os) =
    omega (arith, length-append {0} (bottom_up os) (o ∷ []), length-bottom_up os)

-- No operand has more than two words.
height-bound : (os : List OperandType) → count_words (bottom_up os) ≤ 2 * length os
height-bound os = count_words_bound (bottom_up os) (length os) (omega (arith, length-bottom_up os))

raise_highwater-IsValid :
    (c : Scope) (s : TextBuilder)
    → 2 * c.max_stack_depth < 2 ^ 16
    → length s.value_stack ≤ c.max_stack_depth
    → Heights (length s.value_stack) s.control_frames
    → s.stack_highwater ≤ 2 * c.max_stack_depth
    → IsValid c (raise_highwater s)
unfolding raise_highwater stack_height
raise_highwater-IsValid c s small d h b =
    elim (Bool-cases (ltb s.stack_highwater (stack_height s))) [
      | inl t ↦ rw t (record {
        capacity = small;
        depth = d;
        heights = h;
        highwater = omega arith;
        bounded = omega (arith, height-bound s.value_stack, d);
      })
      | inr t ↦ rw t (record {
        capacity = small;
        depth = d;
        heights = h;
        highwater = ground arith;
        bounded = b;
      })
    ]

pub Keeps-push_stack : (ty : OperandType) → Keeps IsValid (push_stack ty)
unfolding push_stack
Keeps-push_stack ty = record {
  at = λ c s h. elim (Bool-cases (ltb (length s.value_stack) c.max_stack_depth)) [
    | inr t ↦ rw t tt
    | inl t ↦ rw t (
        raise_highwater-IsValid c (record s { value_stack = ty ∷ s.value_stack }) h.capacity
          (ground arith)
          (Heights-mono (length s.value_stack) (suc (length s.value_stack)) s.control_frames
            (omega arith) h.heights)
          h.bounded)
  ];
}

-- The stack without its top operand, which is above the height of the innermost frame.
popped-IsValid :
    (c : Scope) (s : TextBuilder) (o : OperandType) (os : List OperandType)
    → s.value_stack ≡ o ∷ os
    → frame_height s ≤ length os
    → IsValid c s
    → IsValid c (record s { value_stack = os })
unfolding stack_height frame_height
popped-IsValid c s o os e le h = record {
  capacity = h.capacity;
  depth = omega (arith, ap length e, h.depth);
  heights = lowered s.control_frames (length s.value_stack) (length os) h.heights le;
  highwater = omega (arith, height-cons o os, ap (λ x. count_words (bottom_up x)) e, h.highwater);
  bounded = h.bounded;
}
  where
    lowered :
        (fs : List ControlFrame) (n m : ℕ)
        → Heights n fs
        → (elim fs [ [] ↦ 0 | f ∷ rest ↦ f.height ]) ≤ m
        → Heights m fs
    lowered [] n m h le = tt
    lowered (f ∷ fs) n m h le = (le, h.1)

Kept-pop_value :
    (c : Scope) (s : TextBuilder) (os : List OperandType)
    → s.value_stack ≡ os
    → frame_height s < length os
    → IsValid c s
    → Kept IsValid c (pop_value c s)
unfolding pop_value
Kept-pop_value c s [] e lt h = rw (e, pop_value) tt
Kept-pop_value c s (o ∷ os) e lt h =
    rw (e, pop_value) (popped-IsValid c s o os e (omega (arith, lt)) h)

pub Keeps-pop_stack_t : Keeps IsValid pop_stack_t
unfolding pop_stack_t control_frame_stack_len
Keeps-pop_stack_t = record {
  at = λ c s h.
      elim (Bool-cases ((length s.value_stack - frame_height s == 0) && is_unreachable s)) [
        | inl t ↦ rw t h
        | inr t ↦ elim (Bool-cases (length s.value_stack - frame_height s == 0)) [
          | inl u ↦ rw (t, u) tt
          | inr u ↦ rw (t, u) (Kept-pop_value c s s.value_stack refl (ground arith) h)
        ]
      ];
}

Keeps-agree : (expect actual : OperandType) → Keeps IsValid (agree expect actual)
unfolding agree
Keeps-agree expect unknown = Leads-pure expect
Keeps-agree unknown (known a) = Leads-pure (known a)
Keeps-agree (known e) (known a) = search keeps_rules

pub Keeps-pop_stack : (expect : OperandType) → Keeps IsValid (pop_stack expect)
unfolding pop_stack
Keeps-pop_stack expect =
    Leads-bind pop_stack_t (agree expect) Keeps-pop_stack_t (Keeps-agree expect)

ruleset stack_rules = (keeps_rules, Keeps-push_stack, Keeps-pop_stack_t, Keeps-pop_stack)

pub Keeps-pop_result_type : (r : ResultType) → Keeps IsValid (pop_result_type r)
unfolding pop_result_type
Keeps-pop_result_type none = search stack_rules
Keeps-pop_result_type (some t) = search stack_rules

pub Keeps-push_result_type : (r : ResultType) → Keeps IsValid (push_result_type r)
unfolding push_result_type
Keeps-push_result_type none = search stack_rules
Keeps-push_result_type (some t) = search stack_rules

pub Keeps-pop_types : (ts : List ValType) → Keeps IsValid (pop_types ts)
unfolding pop_types
Keeps-pop_types [] = Leads-pure tt
Keeps-pop_types (t ∷ ts) =
    Leads-then (pop_stack (known t)) (pop_types ts) (Keeps-pop_stack (known t)) (Keeps-pop_types ts)

pub Keeps-push_types : (ts : List ValType) → Keeps IsValid (push_types ts)
unfolding push_types
Keeps-push_types [] = Leads-pure tt
Keeps-push_types (t ∷ ts) =
    Leads-then (push_stack (known t)) (push_types ts) (Keeps-push_stack (known t))
      (Keeps-push_types ts)

pub Keeps-validate : (ins outs : List ValType) → Keeps IsValid (validate ins outs)
unfolding validate
Keeps-validate ins outs =
    Leads-then (pop_types ins) (push_types outs) (Keeps-pop_types ins) (Keeps-push_types outs)

marked-IsValid :
    (c : Scope) (s : TextBuilder) (fs : List ControlFrame)
    → s.control_frames ≡ fs
    → IsValid c s
    → IsValid c (mark_frame s fs)
unfolding mark_frame stack_height
marked-IsValid c s [] e h = h
marked-IsValid c s (f ∷ fs) e h =
    let frames : Heights (length s.value_stack) (f ∷ fs) =
      subst (λ x. Heights (length s.value_stack) x) e h.heights in
    let len : length (truncate f.height s.value_stack) ≡ f.height =
      length-truncate f.height s.value_stack frames.0 in
    record {
      capacity = h.capacity;
      depth = omega (arith, len, frames.0, h.depth);
      heights = (omega (arith, len), frames.1);
      highwater = omega (arith, height-truncate f.height s.value_stack, h.highwater);
      bounded = h.bounded;
    }

pub Keeps-mark_unreachable : Keeps IsValid mark_unreachable
unfolding mark_unreachable
Keeps-mark_unreachable =
    Leads-modify {P = IsValid} (λ s. mark_frame s s.control_frames)
      λ c s h. marked-IsValid c s s.control_frames refl h

pub Keeps-push_control :
    (kind : BlockKind) (label out : ResultType) → Keeps IsValid (push_control kind label out)
unfolding push_control push_frame stack_height
Keeps-push_control kind label out = record {
  at = λ c s h. elim (Bool-cases (ltb (length s.control_frames) c.max_control_frames)) [
    | inr t ↦ rw t tt
    | inl t ↦
        rw t (pushed c s (as_u16 (length s.value_stack)) (omega (arith, h.capacity, h.depth)) h)
  ];
}
  where
    pushed :
        (c : Scope) (s : TextBuilder) (height : ℕ)
        → height ≡ length s.value_stack
        → IsValid c s
        → IsValid c (record s {
          control_frames =
              record {
                kind = kind;
                label = label;
                out = out;
                height = height;
                target = sentinel_target;
                unreachable = false;
              }
              ∷ s.control_frames;
        })
    pushed c s height e h = record {
      capacity = h.capacity;
      depth = h.depth;
      heights = (omega (arith, e), subst (λ n. Heights n s.control_frames) (sym e) h.heights);
      highwater = h.highwater;
      bounded = h.bounded;
    }
