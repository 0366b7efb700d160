-- ===== src/Text/Operands/Typing.antt =====
-- What the validator of src/text.rs accepts in code that is reached: the operands on the stack are of the
-- expected types, and the results take their place.
use spacewasm.Prelude.{
  ℕ, ◌+◌, ◌≤◌, ◌≡◌, refl, ◌∙◌, ap, inl, inr, true, false, Bool-cases, ◌++◌, Option, none, some,
  List, [], ◌∷◌, length, ltb, ◌==◌, arith,
}
use spacewasm.Errors.{ValidationError, Result, ok, err}
use spacewasm.Types.{ValType, i32, i64, f32, f64, to_repr}
use spacewasm.Text.{CodeBuilder}
use spacewasm.Text.Emit.{Boxes}
use spacewasm.Text.Builder.{
  OperandType, unknown, known, TextBuilder, Scope, M, after, emit, with_code,
}
use spacewasm.Text.Operands.{
  is_unreachable, control_frame_stack_len, operand_words, count_words, bottom_up, stack_height,
  raise_highwater, push_stack, pop_value, pop_stack_t, agree, pop_stack, pop_types, push_types,
  validate,
}

-- An outcome that, where it is a builder, satisfies `Q`.
abbrev pub Ends {ℓ} :
    {A : Type ℓ}
    → (TextBuilder → Type 0)
    → Option (Result ValidationError (A × TextBuilder))
    → Type 0
Ends Q none = Unit
Ends Q (some (err e)) = Unit
Ends Q (some (ok (a, s))) = Q s

pub Ends-after {ℓ κ} :
    {A : Type ℓ} {B : Type κ} (Q R : TextBuilder → Type 0) (f : A → M B) (c : Scope)
    (x : Option (Result ValidationError (A × TextBuilder)))
    → Ends Q x
    → ((a : A) (s : TextBuilder) → Q s → Ends R (f a c s))
    → Ends R (after f c x)
Ends-after Q R f c none h k = tt
Ends-after Q R f c (some (err e)) h k = tt
Ends-after Q R f c (some (ok (a, s))) h k = k a s h

abbrev pub knowns : List ValType → List OperandType
knowns [] = []
knowns (t ∷ ts) = known t ∷ knowns ts

-- The words of operands.
abbrev pub words : List ValType → ℕ
words [] = 0
words (t ∷ ts) = operand_words t + words ts

-- The operands after others were pushed, one by one.
abbrev pub pushed_onto : List ValType → List ValType → List ValType
pushed_onto [] ts = ts
pushed_onto (u ∷ us) ts = pushed_onto us (u ∷ ts)

abbrev AllKnown : List OperandType → Type 0
AllKnown [] = Unit
AllKnown (unknown ∷ os) = ⊥
AllKnown (known t ∷ os) = AllKnown os

AllKnown-snoc :
    (os : List OperandType) (t : ValType) → AllKnown os → AllKnown (os ++ (known t ∷ []))
AllKnown-snoc [] t h = tt
AllKnown-snoc (unknown ∷ os) t h = h
AllKnown-snoc (known u ∷ os) t h = AllKnown-snoc os t h

AllKnown-bottom_up : (ts : List ValType) → AllKnown (bottom_up (knowns ts))
unfolding bottom_up
AllKnown-bottom_up [] = tt
AllKnown-bottom_up (t ∷ ts) = AllKnown-snoc (bottom_up (knowns ts)) t (AllKnown-bottom_up ts)

count_words-snoc :
    (os : List OperandType) (t : ValType)
    → AllKnown os
    → count_words (os ++ (known t ∷ [])) ≡ operand_words t + count_words os
unfolding count_words
count_words-snoc [] t h = refl
count_words-snoc (unknown ∷ os) t h = absurd h
count_words-snoc (known u ∷ os) t h = omega (arith, count_words-snoc os t h)

-- Counted from the bottom, known operands have their words.
pub height-knowns : (ts : List ValType) → count_words (bottom_up (knowns ts)) ≡ words ts
unfolding count_words bottom_up
height-knowns [] = refl
height-knowns (t ∷ ts) =
    count_words-snoc (bottom_up (knowns ts)) t (AllKnown-bottom_up ts)
    ∙ ap (λ n. operand_words t + n) (height-knowns ts)

same_repr : (a b : ValType) → (to_repr a == to_repr b) ≡ true → a ≡ b
same_repr i32 i32 h = refl
same_repr i32 i64 h = absurd (ground arith)
same_repr i32 f32 h = absurd (ground arith)
same_repr i32 f64 h = absurd (ground arith)
same_repr i64 i32 h = absurd (ground arith)
same_repr i64 i64 h = refl
same_repr i64 f32 h = absurd (ground arith)
same_repr i64 f64 h = absurd (ground arith)
same_repr f32 i32 h = absurd (ground arith)
same_repr f32 i64 h = absurd (ground arith)
same_repr f32 f32 h = refl
same_repr f32 f64 h = absurd (ground arith)
same_repr f64 i32 h = absurd (ground arith)
same_repr f64 i64 h = absurd (ground arith)
same_repr f64 f32 h = absurd (ground arith)
same_repr f64 f64 h = refl

-- A builder whose operands are of the types, in code that is reached, with a high-water mark of `n` or more
-- and no less than the words of the operands.
pub record Operands (n : ℕ) (ts : List ValType) (s : TextBuilder) : Type 0 where
  pub types : s.value_stack ≡ knowns ts
  pub reached : is_unreachable s ≡ false
  pub reserved : words ts ≤ s.stack_highwater
  pub above : n ≤ s.stack_highwater

-- The builder after the operand `t` was taken off, which was there.
abbrev Popped : ℕ → ValType → List ValType → TextBuilder → Type 0
Popped n t ts s = (rest : List ValType) × ((ts ≡ t ∷ rest) × Operands n rest s)

agreed :
    (n : ℕ) (t u : ValType) (ts : List ValType) (c : Scope) (s : TextBuilder)
    → Operands n ts s
    → Ends (Popped n t (u ∷ ts)) (agree (known t) (known u) c s)
unfolding agree
agreed n t u ts c s h = elim (Bool-cases (to_repr u == to_repr t)) [
  | inl e ↦ rw e (ts, (ap (λ x. x ∷ ts) (same_repr u t e), h))
  | inr e ↦ rw e tt
]

pop_value-Popped :
    (n : ℕ) (t : ValType) (ts : List ValType) (c : Scope) (s : TextBuilder)
    → Operands n ts s
    → Ends (Popped n t ts) (after (agree (known t)) c (pop_value c s))
unfolding pop_value is_unreachable
pop_value-Popped n t [] c s h = rw (h.types, pop_value) tt
pop_value-Popped n t (u ∷ ts) c s h =
    rw (h.types, pop_value)
      (agreed n t u ts c (record s { value_stack = knowns ts })
        (record {
          types = refl;
          reached = h.reached;
          reserved = omega (arith, h.reserved);
          above = h.above;
        }))

pub pop_stack-Popped :
    (n : ℕ) (t : ValType) (ts : List ValType) (c : Scope) (s : TextBuilder)
    → Operands n ts s
    → Ends (Popped n t ts) (pop_stack (known t) c s)
unfolding pop_stack pop_stack_t
pop_stack-Popped n t ts c s h = elim (Bool-cases (control_frame_stack_len s == 0)) [
  | inl e ↦ rw (e, h.reached) tt
  | inr e ↦ rw e (pop_value-Popped n t ts c s h)
]

abbrev AllPopped : ℕ → List ValType → List ValType → TextBuilder → Type 0
AllPopped n ins ts s = (rest : List ValType) × ((ts ≡ ins ++ rest) × Operands n rest s)

pop_types-AllPopped :
    (n : ℕ) (ins ts : List ValType) (c : Scope) (s : TextBuilder)
    → Operands n ts s
    → Ends (AllPopped n ins ts) (pop_types ins c s)
unfolding pop_types
pop_types-AllPopped n [] ts c s h = (ts, (refl, h))
pop_types-AllPopped n (t ∷ ins) ts c s h =
    Ends-after (Popped n t ts) (AllPopped n (t ∷ ins) ts) (λ _. pop_types ins) c
      (pop_stack (known t) c s) (pop_stack-Popped n t ts c s h)
      λ o s' p. under t ts p.0 p.1.0 (pop_types ins c s') (pop_types-AllPopped n ins p.0 c s' p.1.1)
  where
    under :
        (t : ValType) (ts rest : List ValType)
        → ts ≡ t ∷ rest
        → (x : Option (Result ValidationError (Unit {0} × TextBuilder)))
        → Ends (AllPopped n ins rest) x
        → Ends (AllPopped n (t ∷ ins) ts) x
    under t ts rest e none h = tt
    under t ts rest e (some (err x)) h = tt
    under t ts rest e (some (ok (u, s'))) h = (h.0, (e ∙ ap (λ l. t ∷ l) h.1.0, h.1.1))

raised :
    (n : ℕ) (ts : List ValType) (s : TextBuilder)
    → s.value_stack ≡ knowns ts
    → is_unreachable s ≡ false
    → n ≤ s.stack_highwater
    → Operands n ts (raise_highwater s)
unfolding raise_highwater is_unreachable stack_height
raised n ts s e reach above =
    let height : stack_height s ≡ words ts =
      ap (λ x. count_words (bottom_up x)) e ∙ height-knowns ts in
    elim (Bool-cases (ltb s.stack_highwater (stack_height s))) [
      | inl t ↦ rw t (record {
        types = e;
        reached = reach;
        reserved = omega (arith, height);
        above = ground arith;
      })
      | inr t ↦
          rw t (record {
            types = e;
            reached = reach;
            reserved = ground (arith, height);
            above = above;
          })
    ]

pub push_stack-Operands :
    (n : ℕ) (t : ValType) (ts : List ValType) (c : Scope) (s : TextBuilder)
    → Operands n ts s
    → Ends (Operands n (t ∷ ts)) (push_stack (known t) c s)
unfolding push_stack is_unreachable
push_stack-Operands n t ts c s h =
    elim (Bool-cases (ltb (length s.value_stack) c.max_stack_depth)) [
      | inr e ↦ rw e tt
      | inl e ↦ rw e (
          raised n (t ∷ ts) (record s { value_stack = known t ∷ s.value_stack })
            (ap (λ l. known t ∷ l) h.types) h.reached h.above)
    ]

push_types-Operands :
    (n : ℕ) (us ts : List ValType) (c : Scope) (s : TextBuilder)
    → Operands n ts s
    → Ends (Operands n (pushed_onto us ts)) (push_types us c s)
unfolding push_types
push_types-Operands n [] ts c s h = h
push_types-Operands n (u ∷ us) ts c s h =
    Ends-after (Operands n (u ∷ ts)) (Operands n (pushed_onto us (u ∷ ts))) (λ _. push_types us) c
      (push_stack (known u) c s) (push_stack-Operands n u ts c s h)
      λ o s' p. push_types-Operands n us (u ∷ ts) c s' p

-- The builder after operands of the types `ins`, which were there, made way for `outs`.
abbrev pub Replaced : ℕ → List ValType → List ValType → List ValType → TextBuilder → Type 0
Replaced n ins outs ts s =
    (rest : List ValType) × ((ts ≡ ins ++ rest) × Operands n (pushed_onto outs rest) s)

-- What `validate!` accepts has the operands that it names on top of the stack, the first one topmost, and
-- gets the results in their place.
pub validate-Replaced :
    (n : ℕ) (ins outs ts : List ValType) (c : Scope) (s : TextBuilder)
    → Operands n ts s
    → Ends (Replaced n ins outs ts) (validate ins outs c s)
unfolding validate
validate-Replaced n ins outs ts c s h =
    Ends-after (AllPopped n ins ts) (Replaced n ins outs ts) (λ _. push_types outs) c
      (pop_types ins c s) (pop_types-AllPopped n ins ts c s h)
      λ o s' p.
        with_rest p.0 p.1.0 (push_types outs c s') (push_types-Operands n outs p.0 c s' p.1.1)
  where
    with_rest :
        (rest : List ValType)
        → ts ≡ ins ++ rest
        → (x : Option (Result ValidationError (Unit {0} × TextBuilder)))
        → Ends (Operands n (pushed_onto outs rest)) x
        → Ends (Replaced n ins outs ts) x
    with_rest rest e none h = tt
    with_rest rest e (some (err x)) h = tt
    with_rest rest e (some (ok (u, s'))) h = (rest, (e, h))

emitted :
    (n : ℕ) (ts : List ValType) (s : TextBuilder) (x : Result ValidationError CodeBuilder)
    → Operands n ts s
    → (c : Scope) → Ends (Operands n ts) (with_code (λ _ _. some x) c s)
unfolding with_code is_unreachable
emitted n ts s (err e) h c = tt
emitted n ts s (ok code) h c = record {
  types = h.types;
  reached = h.reached;
  reserved = h.reserved;
  above = h.above;
}

pub emit-Operands :
    (n : ℕ) (ts : List ValType) (f : Boxes → CodeBuilder → Result ValidationError CodeBuilder)
    (c : Scope) (s : TextBuilder)
    → Operands n ts s
    → Ends (Operands n ts) (emit f c s)
unfolding emit with_code
emit-Operands n ts f c s h = emitted n ts s (f c.boxes s.code) h c
