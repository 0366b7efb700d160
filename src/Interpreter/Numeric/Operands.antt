-- ===== src/Interpreter/Numeric/Operands.antt =====
-- The operands and the results of the numeric instructions of src/interpreter.rs.
use spacewasm.Prelude.{
  ℕ, ◌+◌, ◌-◌, ◌≤◌, ◌<◌, ◌≡◌, ◌≢◌, inl, inr, refl, sym, ◌∙◌, ap, Bool, some, length-set, Bool-cases,
  ==_iff, ◌==◌, if◌then◌else◌, arith,
}
use spacewasm.Errors.{ok}
use spacewasm.Stack.Words.{IsStack}
use spacewasm.Engine.{Engine, M, pure, after, write_u32}
use spacewasm.Engine.View.{
  word, dword, put_word, get_or-set_same, get_or-set_other, read_u32-in, write_u32-in, read_u64-in,
  below_top-in, drop_words-in,
}
use spacewasm.Interpreter.Numeric.{of_bool, binary_i32, relation_i64}
use spacewasm.Interpreter.Numeric.I32

-- A stack with `n` words or more above its bottom.
pub record Holds (e : Engine) (n : ℕ) : Type 0 where
  pub stack_sized : IsStack e.stack
  pub operands : n ≤ e.sp
  pub in_stack : e.sp ≤ e.stack.size

pub binary_i32-in :
    (f : ℕ → ℕ → M ℕ) (e : Engine)
    → Holds e 2
    → binary_i32 f e
      ≡ after
          (λ v. write_u32 (e.sp - 2) v)
          (f (word e (e.sp - 2)) (word e (e.sp - 1)) (record e { sp = e.sp - 1 }))
unfolding binary_i32
binary_i32-in f e h =
    let two : (e.sp - 1) - 1 ≡ e.sp - 2 = omega arith in
    rw
      (
        drop_words-in 1 e (omega (arith, h.operands)),
        read_u32-in (e.sp - 1) (record e { sp = e.sp - 1 }) (omega (arith, h.operands, h.in_stack)),
        below_top-in 1 (record e { sp = e.sp - 1 }) (omega (arith, h.operands)),
        two,
        read_u32-in (e.sp - 2) (record e { sp = e.sp - 1 }) (omega (arith, h.operands, h.in_stack)),
      )
      refl

-- What an instruction leaves that takes `n` words and pushes one: the word `v`, on an unchanged rest.
pub record Pushed (e e' : Engine) (n v : ℕ) : Type 0 where
  pub stack_sized : IsStack e'.stack
  pub top : e'.sp ≡ e.sp - n + 1
  pub result : word e' (e.sp - n) ≡ v
  pub rest : (k : ℕ) → word e' k ≡ (if k == e.sp - n then v else word e k)

put_word-Pushed :
    (e : Engine) (n v : ℕ)
    → Holds e n
    → 0 < n
    → Pushed e (put_word (record e { sp = e.sp - n + 1 }) (e.sp - n) v) n v
unfolding IsStack
put_word-Pushed e n v h pos = record {
  stack_sized = length-set e.stack.words (e.sp - n) v ∙ h.stack_sized;
  top = refl;
  result =
      get_or-set_same e.stack.words (e.sp - n) v
        (omega (arith, h.operands, h.in_stack, h.stack_sized, pos));
  rest = λ k. elim (Bool-cases (k == e.sp - n)) [
    | inl t ↦
        let p : k ≡ e.sp - n = (==_iff k (e.sp - n)).0 t in
        rw (t, p)
          (get_or-set_same e.stack.words (e.sp - n) v
            (omega (arith, h.operands, h.in_stack, h.stack_sized, pos)))
    | inr o ↦
        let p : k ≢ e.sp - n = λ q. ground arith in
        rw o (get_or-set_other e.stack.words (e.sp - n) k v (λ q. p (sym q)))
  ];
}

-- An operator on two `i32` takes the second operand from the top and the first from below it, and leaves its
-- result in their place, on an unchanged rest of the stack.
pub binary_i32_lem :
    (f : ℕ → ℕ → ℕ) (e : Engine)
    → Holds e 2
    → (e' : Engine) × ((binary_i32 (λ a b. pure (f a b)) e ≡ some (ok tt, e'))
        × Pushed e e' 2 (f (word e (e.sp - 2)) (word e (e.sp - 1))))
binary_i32_lem f e h =
    let sp : e.sp - 2 + 1 ≡ e.sp - 1 = omega (arith, h.operands) in
    let v : ℕ = f (word e (e.sp - 2)) (word e (e.sp - 1)) in
    (
      put_word (record e { sp = e.sp - 2 + 1 }) (e.sp - 2)
          (f (word e (e.sp - 2)) (word e (e.sp - 1))),
      (
        binary_i32-in (λ a b. pure (f a b)) e h
            ∙ write_u32-in (e.sp - 2) (f (word e (e.sp - 2)) (word e (e.sp - 1)))
                (record e { sp = e.sp - 1 }) (omega (arith, h.operands, h.in_stack))
            ∙ ap
                (λ s. some (
                  ok tt,
                  put_word (record e { sp = s }) (e.sp - 2)
                      (f (word e (e.sp - 2)) (word e (e.sp - 1))),
                ))
                (sym sp),
        put_word-Pushed e 2 (f (word e (e.sp - 2)) (word e (e.sp - 1))) h (omega arith),
      ),
    )

-- A comparison of two `i64`, which are two words each, leaves one word: 1 where it holds and 0 otherwise.
pub relation_i64_lem :
    (f : ℕ → ℕ → Bool) (e : Engine)
    → Holds e 4
    → (e' : Engine) × ((relation_i64 f e ≡ some (ok tt, e'))
        × Pushed e e' 4 (if f (dword e (e.sp - 4)) (dword e (e.sp - 2)) then 1 else 0))
unfolding relation_i64
relation_i64_lem f e h =
    let v : ℕ = of_bool (f (dword e (e.sp - 4)) (dword e (e.sp - 2))) in
    let second : (e.sp - 3) + 1 ≡ e.sp - 2 = omega (arith, h.operands) in
    let first : (e.sp - 3) - 1 ≡ e.sp - 4 = omega (arith, h.operands) in
    let sp : e.sp - 4 + 1 ≡ e.sp - 3 = omega (arith, h.operands) in
    (
      put_word (record e { sp = e.sp - 4 + 1 }) (e.sp - 4)
          (of_bool (f (dword e (e.sp - 4)) (dword e (e.sp - 2)))),
      (
        rw
            (
              drop_words-in 3 e (omega (arith, h.operands)),
              second,
              read_u64-in (e.sp - 2) (record e { sp = e.sp - 3 })
                  (omega (arith, h.operands, h.in_stack)),
              below_top-in 1 (record e { sp = e.sp - 3 }) (omega (arith, h.operands)),
              first,
              read_u64-in (e.sp - 4) (record e { sp = e.sp - 3 })
                  (omega (arith, h.operands, h.in_stack)),
              write_u32-in (e.sp - 4) (of_bool (f (dword e (e.sp - 4)) (dword e (e.sp - 2))))
                  (record e { sp = e.sp - 3 }) (omega (arith, h.operands, h.in_stack)),
              sp,
            )
            refl,
        put_word-Pushed e 4 (of_bool (f (dword e (e.sp - 4)) (dword e (e.sp - 2)))) h (omega arith),
      ),
    )
