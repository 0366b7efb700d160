-- ===== src/Interpreter/Numeric/Effects.antt =====
-- What the instructions of src/interpreter.rs on integers do to the height of the stack: they never fault on
-- a stack that has their operands and room for their result.
use spacewasm.Prelude.{
  ℕ, ◌+◌, ◌-◌, ◌≤◌, ◌≡◌, refl, subst, ◌∙◌, Bool, Option, none, some, set, length-set, arith, as_u32,
  shr,
}
use spacewasm.Errors.{Result, ok, err}
use spacewasm.Stack.Words.{IsStack}
use spacewasm.Engine.{
  Engine, InterpreterBreak, finished, pause, trap, M, after, ◌>>◌, write_u32, write_u64, push_u32,
  push_u64, grow_words,
}
use spacewasm.Engine.View.{
  word, dword, put_word, read_u32-in, write_u32-in, read_u64-in, write_u64-in, below_top-in,
  drop_words-in,
}
use spacewasm.Interpreter.Integer.{sign_extend}
use spacewasm.Interpreter.Numeric.{
  of_bool, unary_i32, unary_i64, binary_i32, binary_i64, test_i32, test_i64, relation_i32,
  relation_i64, i32_wrap_i64, i64_extend_i32_s, i64_extend_i32_u,
}
use spacewasm.Interpreter.Numeric.Operands.{Holds, binary_i32-in}

-- The outcome is a trap, or an engine with its stack pointer at `sp` on a stack of the same size.
abbrev pub Lands : ℕ → Engine → Option (Result InterpreterBreak (Unit {0}) × Engine) → Type 0
Lands sp e none = ⊥
Lands sp e (some (err (trap t), e')) = Unit
Lands sp e (some (err finished, e')) = ⊥
Lands sp e (some (err pause, e')) = ⊥
Lands sp e (some (ok u, e')) = (e'.sp ≡ sp) × (e'.stack.size ≡ e.stack.size) × IsStack e'.stack

-- The instruction takes `n` words from the stack and puts `k` there, or traps.
pub record Effect (m : M (Unit {0})) (n k : ℕ) : Type 0 where
  pub at : (e : Engine) → Holds e n → e.sp - n + k ≤ e.stack.size → Lands (e.sp - n + k) e (m e)

-- What an operator answers: a value, with the engine as it was, or a trap.
abbrev pub Settles : Engine → Option (Result InterpreterBreak ℕ × Engine) → Type 0
Settles e none = ⊥
Settles e (some (err (trap t), e')) = Unit
Settles e (some (err finished, e')) = ⊥
Settles e (some (err pause, e')) = ⊥
Settles e (some (ok v, e')) = e' ≡ e

abbrev pub Operator : (ℕ → ℕ → M ℕ) → Type 0
Operator f = (a b : ℕ) (e : Engine) → Settles e (f a b e)

-- The result of an operator, written to the stack.
written_32 :
    (e d : Engine) (addr : ℕ) (x : Option (Result InterpreterBreak ℕ × Engine))
    → Settles d x
    → IsStack d.stack
    → d.stack.size ≡ e.stack.size
    → addr + 1 ≤ d.stack.size
    → Lands d.sp e (after (λ v. write_u32 addr v) x)
unfolding IsStack
written_32 e d addr none h st size le = h
written_32 e d addr (some (err (trap t), d')) h st size le = tt
written_32 e d addr (some (err finished, d')) h st size le = h
written_32 e d addr (some (err pause, d')) h st size le = h
written_32 e d addr (some (ok v, d')) h st size le =
    rw (h, write_u32-in addr v d le) (refl, size, length-set d.stack.words addr v ∙ st)

written_64 :
    (e d : Engine) (addr : ℕ) (x : Option (Result InterpreterBreak ℕ × Engine))
    → Settles d x
    → IsStack d.stack
    → d.stack.size ≡ e.stack.size
    → addr + 2 ≤ d.stack.size
    → Lands d.sp e (after (λ v. write_u64 addr v) x)
unfolding IsStack
written_64 e d addr none h st size le = h
written_64 e d addr (some (err (trap t), d')) h st size le = tt
written_64 e d addr (some (err finished, d')) h st size le = h
written_64 e d addr (some (err pause, d')) h st size le = h
written_64 e d addr (some (ok v, d')) h st size le =
    rw (h, write_u64-in addr v d le)
      (
        refl,
        size,
        length-set (set d.stack.words addr (as_u32 v)) (addr + 1) (as_u32 (shr v 32))
            ∙ length-set d.stack.words addr (as_u32 v)
            ∙ st,
      )

-- Another name for the height.
lands_at :
    (sp sp' : ℕ) (e : Engine) (x : Option (Result InterpreterBreak (Unit {0}) × Engine))
    → sp ≡ sp'
    → Lands sp e x
    → Lands sp' e x
lands_at sp sp' e x p h = subst (λ n. Lands n e x) p h

pub Effect-unary_i32 : (f : ℕ → ℕ) → Effect (unary_i32 f) 1 1
unfolding unary_i32
Effect-unary_i32 f = record {
  at = λ e h room.
      rw
        (
          below_top-in 1 e h.operands,
          read_u32-in (e.sp - 1) e (omega (arith, h.operands, h.in_stack)),
        )
        (lands_at e.sp (e.sp - 1 + 1) e _ (omega (arith, h.operands)) (
          written_32 e e (e.sp - 1) (some (ok (f (word e (e.sp - 1))), e)) refl h.stack_sized refl
            (omega (arith, h.operands, h.in_stack))));
}

pub Effect-test_i32 : (f : ℕ → Bool) → Effect (test_i32 f) 1 1
unfolding test_i32
Effect-test_i32 f = record {
  at = λ e h room.
      rw
        (
          below_top-in 1 e h.operands,
          read_u32-in (e.sp - 1) e (omega (arith, h.operands, h.in_stack)),
        )
        (lands_at e.sp (e.sp - 1 + 1) e _ (omega (arith, h.operands)) (
          written_32 e e (e.sp - 1) (some (ok (of_bool (f (word e (e.sp - 1)))), e)) refl
            h.stack_sized refl (omega (arith, h.operands, h.in_stack))));
}

pub Effect-unary_i64 : (f : ℕ → ℕ) → Effect (unary_i64 f) 2 2
unfolding unary_i64
Effect-unary_i64 f = record {
  at = λ e h room.
      rw
        (
          below_top-in 2 e h.operands,
          read_u64-in (e.sp - 2) e (omega (arith, h.operands, h.in_stack)),
        )
        (lands_at e.sp (e.sp - 2 + 2) e _ (omega (arith, h.operands)) (
          written_64 e e (e.sp - 2) (some (ok (f (dword e (e.sp - 2))), e)) refl h.stack_sized refl
            (omega (arith, h.operands, h.in_stack))));
}

pub Effect-binary_i32 : (f : ℕ → ℕ → M ℕ) → Operator f → Effect (binary_i32 f) 2 1
Effect-binary_i32 f k = record {
  at = λ e h room. rw (binary_i32-in f e h) (
      lands_at (e.sp - 1) (e.sp - 2 + 1) e _ (omega (arith, h.operands)) (
        written_32 e (record e { sp = e.sp - 1 }) (e.sp - 2)
          (f (word e (e.sp - 2)) (word e (e.sp - 1)) (record e { sp = e.sp - 1 }))
          (k (word e (e.sp - 2)) (word e (e.sp - 1)) (record e { sp = e.sp - 1 })) h.stack_sized
          refl (omega (arith, h.operands, h.in_stack))));
}

pub Effect-relation_i32 : (f : ℕ → ℕ → Bool) → Effect (relation_i32 f) 2 1
unfolding relation_i32
Effect-relation_i32 f = record {
  at = λ e h room.
      let two : e.sp - 1 - 1 ≡ e.sp - 2 = omega arith in
      rw
        (
          drop_words-in 1 e (omega (arith, h.operands)),
          read_u32-in (e.sp - 1) (record e { sp = e.sp - 1 })
              (omega (arith, h.operands, h.in_stack)),
          below_top-in 1 (record e { sp = e.sp - 1 }) (omega (arith, h.operands)),
          two,
          read_u32-in (e.sp - 2) (record e { sp = e.sp - 1 })
              (omega (arith, h.operands, h.in_stack)),
        )
        (lands_at (e.sp - 1) (e.sp - 2 + 1) e _ (omega (arith, h.operands)) (
          written_32 e (record e { sp = e.sp - 1 }) (e.sp - 2)
            (some (
              ok (of_bool (f (word e (e.sp - 2)) (word e (e.sp - 1)))),
              record e { sp = e.sp - 1 },
            ))
            refl h.stack_sized refl (omega (arith, h.operands, h.in_stack))));
}

pub Effect-binary_i64 : (f : ℕ → ℕ → M ℕ) → Operator f → Effect (binary_i64 f) 4 2
unfolding binary_i64
Effect-binary_i64 f k = record {
  at = λ e h room.
      let four : e.sp - 2 - 2 ≡ e.sp - 4 = omega arith in
      rw
        (
          drop_words-in 2 e (omega (arith, h.operands)),
          read_u64-in (e.sp - 2) (record e { sp = e.sp - 2 })
              (omega (arith, h.operands, h.in_stack)),
          below_top-in 2 (record e { sp = e.sp - 2 }) (omega (arith, h.operands)),
          four,
          read_u64-in (e.sp - 4) (record e { sp = e.sp - 2 })
              (omega (arith, h.operands, h.in_stack)),
        )
        (lands_at (e.sp - 2) (e.sp - 4 + 2) e _ (omega (arith, h.operands)) (
          written_64 e (record e { sp = e.sp - 2 }) (e.sp - 4)
            (f (dword e (e.sp - 4)) (dword e (e.sp - 2)) (record e { sp = e.sp - 2 }))
            (k (dword e (e.sp - 4)) (dword e (e.sp - 2)) (record e { sp = e.sp - 2 })) h.stack_sized
            refl (omega (arith, h.operands, h.in_stack))));
}

pub Effect-test_i64 : (f : ℕ → Bool) → Effect (test_i64 f) 2 1
unfolding test_i64
Effect-test_i64 f = record {
  at = λ e h room.
      let two : e.sp - 1 - 1 ≡ e.sp - 2 = omega arith in
      rw
        (
          drop_words-in 1 e (omega (arith, h.operands)),
          below_top-in 1 (record e { sp = e.sp - 1 }) (omega (arith, h.operands)),
          two,
          read_u64-in (e.sp - 2) (record e { sp = e.sp - 1 })
              (omega (arith, h.operands, h.in_stack)),
        )
        (lands_at (e.sp - 1) (e.sp - 2 + 1) e _ (omega (arith, h.operands)) (
          written_32 e (record e { sp = e.sp - 1 }) (e.sp - 2)
            (some (ok (of_bool (f (dword e (e.sp - 2)))), record e { sp = e.sp - 1 })) refl
            h.stack_sized refl (omega (arith, h.operands, h.in_stack))));
}

pub Effect-relation_i64 : (f : ℕ → ℕ → Bool) → Effect (relation_i64 f) 4 1
unfolding relation_i64
Effect-relation_i64 f = record {
  at = λ e h room.
      let second : e.sp - 3 + 1 ≡ e.sp - 2 = omega (arith, h.operands) in
      let first : e.sp - 3 - 1 ≡ e.sp - 4 = omega arith in
      rw
        (
          drop_words-in 3 e (omega (arith, h.operands)),
          second,
          read_u64-in (e.sp - 2) (record e { sp = e.sp - 3 })
              (omega (arith, h.operands, h.in_stack)),
          below_top-in 1 (record e { sp = e.sp - 3 }) (omega (arith, h.operands)),
          first,
          read_u64-in (e.sp - 4) (record e { sp = e.sp - 3 })
              (omega (arith, h.operands, h.in_stack)),
        )
        (lands_at (e.sp - 3) (e.sp - 4 + 1) e _ (omega (arith, h.operands)) (
          written_32 e (record e { sp = e.sp - 3 }) (e.sp - 4)
            (some (
              ok (of_bool (f (dword e (e.sp - 4)) (dword e (e.sp - 2)))),
              record e { sp = e.sp - 3 },
            ))
            refl h.stack_sized refl (omega (arith, h.operands, h.in_stack))));
}

pub Effect-i32_wrap_i64 : Effect i32_wrap_i64 2 1
unfolding i32_wrap_i64 IsStack
Effect-i32_wrap_i64 = record {
  at = λ e h room.
      rw
        (
          below_top-in 2 e h.operands,
          read_u64-in (e.sp - 2) e (omega (arith, h.operands, h.in_stack)),
          write_u32-in (e.sp - 2) (as_u32 (dword e (e.sp - 2))) e
              (omega (arith, h.operands, h.in_stack)),
          drop_words-in 1 (put_word e (e.sp - 2) (as_u32 (dword e (e.sp - 2))))
              (omega (arith, h.operands)),
        )
        (
          omega (arith, h.operands),
          refl,
          length-set e.stack.words (e.sp - 2) (as_u32 (dword e (e.sp - 2))) ∙ h.stack_sized,
        );
}

-- One word on top becomes two.
extended :
    (e : Engine) (v : ℕ)
    → Holds e 1
    → e.sp - 1 + 2 ≤ e.stack.size
    → Lands (e.sp - 1 + 2) e ((write_u64 (e.sp - 1) v >> grow_words 1) e)
unfolding grow_words IsStack
extended e v h room = rw (write_u64-in (e.sp - 1) v e room) (
  omega (arith, h.operands),
  refl,
  length-set (set e.stack.words (e.sp - 1) (as_u32 v)) (e.sp - 1 + 1) (as_u32 (shr v 32))
      ∙ length-set e.stack.words (e.sp - 1) (as_u32 v)
      ∙ h.stack_sized,
)

pub Effect-i64_extend_i32_s : Effect i64_extend_i32_s 1 2
unfolding i64_extend_i32_s
Effect-i64_extend_i32_s = record {
  at = λ e h room.
      rw
        (
          below_top-in 1 e h.operands,
          read_u32-in (e.sp - 1) e (omega (arith, h.operands, h.in_stack)),
        )
        (extended e (sign_extend 32 64 (word e (e.sp - 1))) h room);
}

pub Effect-i64_extend_i32_u : Effect i64_extend_i32_u 1 2
unfolding i64_extend_i32_u
Effect-i64_extend_i32_u = record {
  at = λ e h room.
      rw
        (
          below_top-in 1 e h.operands,
          read_u32-in (e.sp - 1) e (omega (arith, h.operands, h.in_stack)),
        )
        (extended e (word e (e.sp - 1)) h room);
}

pub Effect-push_u32 : (v : ℕ) → Effect (push_u32 v) 0 1
unfolding push_u32 grow_words IsStack
Effect-push_u32 v = record {
  at = λ e h room.
      rw (write_u32-in e.sp v e (omega (arith, room)))
        (omega arith, refl, length-set e.stack.words e.sp v ∙ h.stack_sized);
}

pub Effect-push_u64 : (v : ℕ) → Effect (push_u64 v) 0 2
unfolding push_u64 grow_words IsStack
Effect-push_u64 v = record {
  at = λ e h room. rw (write_u64-in e.sp v e (omega (arith, room))) (
    omega arith,
    refl,
    length-set (set e.stack.words e.sp (as_u32 v)) (e.sp + 1) (as_u32 (shr v 32))
        ∙ length-set e.stack.words e.sp (as_u32 v)
        ∙ h.stack_sized,
  );
}
