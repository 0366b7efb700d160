-- ===== src/Text/Operands/Accepts.antt =====
-- What the validator of src/text.rs does not refuse: operands of the expected types, with room for the
-- results.
use spacewasm.Prelude.{
  ℕ, suc, ◌+◌, ◌-◌, ◌≤◌, ◌<◌, ◌≡◌, refl, ◌∙◌, ap, true, false, ◌++◌, some, List, [], ◌∷◌, length,
  ltb, ◌==◌, arith, Bool-cases, inl, inr,
}
use spacewasm.Errors.{ok}
use spacewasm.Types.{ValType, i32, i64, f32, f64, to_repr}
use spacewasm.Text.Builder.{OperandType, known, TextBuilder, Scope}
use spacewasm.Text.Operands.{
  frame_height, control_frame_stack_len, raise_highwater, stack_height, push_stack, pop_value,
  pop_stack_t, agree, pop_stack, pop_types, push_types, validate,
}
use spacewasm.Text.Operands.Typing.{knowns, pushed_onto}

itself : (t : ValType) → (to_repr t == to_repr t) ≡ true
itself i32 = refl
itself i64 = refl
itself f32 = refl
itself f64 = refl

agree-itself :
    (t : ValType) (c : Scope) (s : TextBuilder)
    → agree (known t) (known t) c s ≡ some (ok (known t, s))
unfolding agree
agree-itself t c s = rw (itself t) refl

pop_stack_accepts :
    (t : ValType) (os : List OperandType) (c : Scope) (s : TextBuilder)
    → s.value_stack ≡ known t ∷ os
    → frame_height s ≤ length os
    → pop_stack (known t) c s ≡ some (ok (known t, record s { value_stack = os }))
unfolding pop_stack pop_stack_t control_frame_stack_len pop_value
pop_stack_accepts t os c s e h =
    let filled : (length s.value_stack - frame_height s == 0) ≡ false =
      ap (λ xs. length xs - frame_height s == 0) e ∙ above (length os) (frame_height s) h in
    rw (filled, e, pop_value) (agree-itself t c (record s { value_stack = os }))
  where
    above : (n k : ℕ) → k ≤ n → (suc n - k == 0) ≡ false
    above n k h = ground arith

length-knowns : (ts : List ValType) → length (knowns ts) ≡ length ts
length-knowns [] = refl
length-knowns (t ∷ ts) = ap (λ n. suc n) (length-knowns ts)

under : (ins rest : List ValType) {n : ℕ} → n ≤ length rest → n ≤ length (knowns (ins ++ rest))
under [] rest h = omega (arith, h, length-knowns rest)
under (t ∷ ins) rest h = omega (arith, under ins rest h)

pop_types_accepts :
    (ins : List ValType) (rest : List ValType) (c : Scope) (s : TextBuilder)
    → s.value_stack ≡ knowns (ins ++ rest)
    → frame_height s ≤ length rest
    → pop_types ins c s ≡ some (ok (tt, record s { value_stack = knowns rest }))
unfolding pop_types frame_height
pop_types_accepts [] rest c s e h = ap (λ xs. some (ok (tt, record s { value_stack = xs }))) e
pop_types_accepts (t ∷ ins) rest c s e h =
    rw (pop_stack_accepts t (knowns (ins ++ rest)) c s e (under ins rest h))
      (pop_types_accepts ins rest c (record s { value_stack = knowns (ins ++ rest) }) refl h)

raise_highwater-value_stack : (s : TextBuilder) → (raise_highwater s).value_stack ≡ s.value_stack
unfolding raise_highwater
raise_highwater-value_stack s = elim (Bool-cases (ltb s.stack_highwater (stack_height s))) [
  | inl t ↦ rw t refl
  | inr t ↦ rw t refl
]

push_types_accepts :
    (outs rest : List ValType) (c : Scope) (s : TextBuilder)
    → s.value_stack ≡ knowns rest
    → length rest + length outs ≤ c.max_stack_depth
    → (s' : TextBuilder) × ((push_types outs c s ≡ some (ok (tt, s')))
        × (s'.value_stack ≡ knowns (pushed_onto outs rest)))
unfolding push_types push_stack
push_types_accepts [] rest c s e room = (s, (refl, e))
push_types_accepts (t ∷ outs) rest c s e room =
    let fits : ltb (length s.value_stack) c.max_stack_depth ≡ true =
      ap (λ xs. ltb (length xs) c.max_stack_depth) e
      ∙ (ap (λ n. ltb n c.max_stack_depth) (length-knowns rest)
          ∙ below (length rest) c.max_stack_depth (omega (arith, room))) in
    rw (fits, push_stack)
      (push_types_accepts outs (t ∷ rest) c
        (raise_highwater (record s { value_stack = known t ∷ s.value_stack }))
        (raise_highwater-value_stack (record s { value_stack = known t ∷ s.value_stack })
          ∙ ap (λ xs. known t ∷ xs) e)
        (omega (arith, room)))
  where
    below : (n k : ℕ) → n < k → ltb n k ≡ true
    below n k h = ground arith

-- Operands of the expected types, from the last one down, in the innermost frame, with room on the stack for the
-- results, are accepted: they are taken off and the results are in their place, in reached code or not.
pub validate_accepts :
    (ins outs rest : List ValType) (c : Scope) (s : TextBuilder)
    → s.value_stack ≡ knowns (ins ++ rest)
    → frame_height s ≤ length rest
    → length rest + length outs ≤ c.max_stack_depth
    → (s' : TextBuilder) × ((validate ins outs c s ≡ some (ok (tt, s')))
        × (s'.value_stack ≡ knowns (pushed_onto outs rest)))
unfolding validate
validate_accepts ins outs rest c s operands frame room =
    rw (pop_types_accepts ins rest c s operands frame)
      (push_types_accepts outs rest c (record s { value_stack = knowns rest }) refl room)
