-- ===== src/Soundness.antt =====
-- The validation of src/compiler.rs and the execution of src/interpreter.rs agree: code without branches on
-- integers, which the compiler accepts, takes no operand that is not there, and stays within the words that
-- the high-water mark of src/text.rs reserves.
pub mod Rules
use spacewasm.Prelude.{
  ℕ, ◌+◌, ◌-◌, ◌≤◌, ◌≡◌, refl, sym, ◌∙◌, ap, subst, inl, inr, Bool, false, Option, none, some,
  Option-cases, List, [], ◌∷◌, ◌++◌, arith,
}
use spacewasm.Errors.{ValidationError, Result, ok, err, AllocError}
use spacewasm.Types.{ValType, i32, i64}
use spacewasm.Stack.Words.{IsStack}
use spacewasm.Text.{CodeBuilder}
use spacewasm.Text.Emit.{Boxes, allocated, instr, instr_imm_8_or_32, instr_imm_8_or_64}
use spacewasm.Text.Builder
use spacewasm.Text.Builder.{OperandType, TextBuilder, Scope, emit}
use spacewasm.Text.Operands.{is_unreachable, operand_words, validate}
use spacewasm.Text.Operands.Typing.{
  Ends, Ends-after, knowns, words, pushed_onto, Operands, Replaced, validate-Replaced,
  emit-Operands,
}
use spacewasm.Opcode
use spacewasm.Compiler.{plain, instruction, i32_const, i64_const}
use spacewasm.Code
use spacewasm.Code.Tables.{integer_handlers}
use spacewasm.Engine
use spacewasm.Engine.{Engine, InterpreterBreak, finished, pause, trap, push_u32, push_u64}
use spacewasm.IrReader.Decode.{Instruction}
use spacewasm.Interpreter.Access
use spacewasm.Interpreter.Host.{Host}
use spacewasm.Interpreter.Execute.{execute}
use spacewasm.Interpreter.Numeric.Operands.{Holds}
use spacewasm.Interpreter.Numeric.Effects.{Lands, Effect, Effect-push_u32, Effect-push_u64}
use spacewasm.Soundness.Rules.{
  integer_conversions, Rule, AllRules-integer, AllRules-conversion, AllRules-append, FoundRule,
  lookup-FoundRule,
}

-- An instruction of such code: an operator by its opcode, or a constant.
pub data Straight : Type 0 where
  operator const_32 const_64 : ℕ → Straight

abbrev pub operators : List (ℕ × Builder.M (Unit {0}))
operators = integer_handlers ++ integer_conversions

-- The handler that the decoder calls, and what the interpreter executes.
unfoldable pub handled : ℕ → Option (Builder.M (Unit {0})) → Builder.M (Unit {0})
handled op none = Builder.fail (ValidationError.invalid_opcode op)
handled op (some m) = m

unfoldable pub handler : Straight → Builder.M (Unit {0})
handler (operator op) = handled op (Code.lookup op operators)
handler (const_32 n) = i32_const n
handler (const_64 n) = i64_const n

unfoldable pub executed : Host → Straight → Engine.M (Unit {0})
executed h (operator op) = execute h (Instruction.plain op)
executed h (const_32 n) = execute h (Instruction.i32_const n)
executed h (const_64 n) = execute h (Instruction.i64_const n)

-- One after the other, with the validation and with the execution.
unfoldable pub compile : List Straight → Builder.M (Unit {0})
compile [] c s = some (ok (tt, s))
compile (i ∷ is) c s = Builder.after (λ _. compile is) c (handler i c s)

unfoldable pub run_all : Host → List Straight → Engine.M (Unit {0})
run_all h [] e = some (ok tt, e)
run_all h (i ∷ is) e = Engine.after (λ _. run_all h is) (executed h i e)

-- An engine whose stack pointer is `n` words above the `base` of the operands, on a stack with room for
-- `reserved` words there.
pub record Ready (base n reserved : ℕ) (e : Engine) : Type 0 where
  pub height : e.sp ≡ base + n
  pub room : base + reserved ≤ e.stack.size
  pub stack_sized : IsStack e.stack

-- From operands of the types `ts` to such of the types `us`, the execution lands at their height.
abbrev Sound : ℕ → List ValType → List ValType → ℕ → Engine.M (Unit {0}) → Type 0
Sound base ts us reserved x =
    (e : Engine) → Ready base (words ts) reserved e → Lands (base + words us) e (x e)

words-append : (ts us : List ValType) → words (ts ++ us) ≡ words ts + words us
words-append [] us = omega arith
words-append (t ∷ ts) us = omega (arith, words-append ts us)

words-pushed_onto : (us ts : List ValType) → words (pushed_onto us ts) ≡ words us + words ts
words-pushed_onto [] ts = omega arith
words-pushed_onto (u ∷ us) ts = omega (arith, words-pushed_onto us (u ∷ ts))

-- An effect on the operands on top, with the others below them.
Effect-Sound :
    (base reserved : ℕ) (ins outs rest : List ValType) (x : Engine.M (Unit {0}))
    → Effect x (words ins) (words outs)
    → words (ins ++ rest) ≤ reserved
    → words (pushed_onto outs rest) ≤ reserved
    → Sound base (ins ++ rest) (pushed_onto outs rest) reserved x
Effect-Sound base reserved ins outs rest x h fits fits' e ready =
    let total : words (ins ++ rest) ≡ words ins + words rest = words-append ins rest in
    let left : words (pushed_onto outs rest) ≡ words outs + words rest =
      words-pushed_onto outs rest in
    let sp : e.sp - words ins + words outs ≡ base + words (pushed_onto outs rest) =
      omega (arith, total, left, ready.height) in
    subst (λ n. Lands n e (x e)) sp
      (h.at e
        (record {
          stack_sized = ready.stack_sized;
          operands = omega (arith, total, ready.height);
          in_stack = omega (arith, ready.height, fits, ready.room);
        })
        (omega (arith, sp, fits', ready.room)))

-- The builder after an instruction: its operands are of types for which the execution is sound.
abbrev Steps : ℕ → List ValType → ℕ → Engine.M (Unit {0}) → TextBuilder → Type 0
Steps base ts n x s = (us : List ValType) × (Operands n us s × Sound base ts us s.stack_highwater x)

after_emit :
    (base n : ℕ) (ins outs ts rest : List ValType) (x : Engine.M (Unit {0}))
    (y : Option (Result ValidationError (Unit {0} × TextBuilder)))
    → words ts ≤ n
    → ts ≡ ins ++ rest
    → Effect x (words ins) (words outs)
    → Ends (Operands n (pushed_onto outs rest)) y
    → Ends (Steps base ts n x) y
after_emit base n ins outs ts rest x none le e eff h = tt
after_emit base n ins outs ts rest x (some (err z)) le e eff h = tt
after_emit base n ins outs ts rest x (some (ok (u, s))) le e eff h = (
  pushed_onto outs rest,
  (
    h,
    subst (λ l. Sound base l (pushed_onto outs rest) s.stack_highwater x) (sym e)
        (Effect-Sound base s.stack_highwater ins outs rest x eff
          (omega (arith, ap words e, le, h.above)) h.reserved),
  ),
)

checked_then_emitted :
    (base : ℕ) (ins outs ts : List ValType) (x : Engine.M (Unit {0}))
    (f : Boxes → CodeBuilder → Result ValidationError CodeBuilder) (c : Scope) (s : TextBuilder)
    → Operands s.stack_highwater ts s
    → Effect x (words ins) (words outs)
    → Ends
        (Steps base ts s.stack_highwater x)
        (Builder.after (λ _. emit f) c (validate ins outs c s))
checked_then_emitted base ins outs ts x f c s h eff =
    Ends-after (Replaced s.stack_highwater ins outs ts) (Steps base ts s.stack_highwater x)
      (λ _. emit f) c (validate ins outs c s)
      (validate-Replaced s.stack_highwater ins outs ts c s h)
      λ u s' p.
        after_emit base s.stack_highwater ins outs ts p.0 x (emit f c s') h.reserved p.1.0 eff
          (emit-Operands s.stack_highwater (pushed_onto outs p.0) f c s' p.1.1)

operator-Steps :
    (base : ℕ) (ts : List ValType) (h : Host) (op : ℕ) (m : Option (Builder.M (Unit {0})))
    (c : Scope) (s : TextBuilder)
    → Operands s.stack_highwater ts s
    → FoundRule h op m
    → Ends (Steps base ts s.stack_highwater (executed h (operator op))) (handled op m c s)
unfolding handled executed execute instruction plain
operator-Steps base ts h op none c s o r = tt
operator-Steps base ts h op (some m) c s o r =
    subst (λ k. Ends (Steps base ts s.stack_highwater (executed h (operator op))) (k c s))
      (sym r.checks)
      (checked_then_emitted base r.ins r.outs ts (executed h (operator op))
        (λ boxes code. allocated (instr boxes op code)) c s o r.effect)

handler-Steps :
    (base : ℕ) (ts : List ValType) (h : Host) (i : Straight) (c : Scope) (s : TextBuilder)
    → Operands s.stack_highwater ts s
    → Ends (Steps base ts s.stack_highwater (executed h i)) (handler i c s)
unfolding handler executed execute i32_const i64_const Access.i32_const Access.i64_const
handler-Steps base ts h (operator op) c s o =
    operator-Steps base ts h op (Code.lookup op operators) c s o (
      lookup-FoundRule h op operators (
        AllRules-append h integer_handlers integer_conversions (AllRules-integer h)
          (AllRules-conversion h)))
handler-Steps base ts h (const_32 n) c s o =
    checked_then_emitted base [] (i32 ∷ []) ts (push_u32 n)
      (λ boxes code. allocated (instr_imm_8_or_32 boxes Opcode.i32_const n code)) c s o
      (Effect-push_u32 n)
handler-Steps base ts h (const_64 n) c s o =
    checked_then_emitted base [] (i64 ∷ []) ts (push_u64 n)
      (λ boxes code. allocated (instr_imm_8_or_64 boxes Opcode.i64_const n code)) c s o
      (Effect-push_u64 n)

-- A landing, and code that is sound from there.
then_lands :
    (base n reserved : ℕ) (us : List ValType) (e : Engine) (y : Engine.M (Unit {0}))
    (x : Option (Result InterpreterBreak (Unit {0}) × Engine))
    → base + reserved ≤ e.stack.size
    → Lands (base + words us) e x
    → ((e' : Engine) → Ready base (words us) reserved e' → Lands n e' (y e'))
    → Lands n e (Engine.after (λ _. y) x)
then_lands base n reserved us e y none room l k = l
then_lands base n reserved us e y (some (err (trap t), e')) room l k = tt
then_lands base n reserved us e y (some (err finished, e')) room l k = l
then_lands base n reserved us e y (some (err pause, e')) room l k = l
then_lands base n reserved us e y (some (ok u, e')) room l k =
    same_size n e e' (y e') l.1
      (k e' (record { height = l.0; room = omega (arith, room, l.1); stack_sized = l.2 }))
  where
    same_size :
        (n : ℕ) (e e' : Engine) (z : Option (Result InterpreterBreak (Unit {0}) × Engine))
        → e'.stack.size ≡ e.stack.size
        → Lands n e' z
        → Lands n e z
    same_size n e e' none q l = l
    same_size n e e' (some (err (trap t), d)) q l = tt
    same_size n e e' (some (err finished, d)) q l = l
    same_size n e e' (some (err pause, d)) q l = l
    same_size n e e' (some (ok u, d)) q l = (l.0, l.1 ∙ q, l.2)

chained :
    (base : ℕ) (ts us : List ValType) (h : Host) (i : Straight) (is : List Straight)
    (s s' : TextBuilder) (y : Option (Result ValidationError (Unit {0} × TextBuilder)))
    → Operands s.stack_highwater us s'
    → Sound base ts us s'.stack_highwater (executed h i)
    → Ends (Steps base us s'.stack_highwater (run_all h is)) y
    → Ends (Steps base ts s.stack_highwater (run_all h (i ∷ is))) y
unfolding run_all
chained base ts us h i is s s' none o first k = tt
chained base ts us h i is s s' (some (err z)) o first k = tt
chained base ts us h i is s s' (some (ok (u, d))) o first (vs, (o', rest)) = (
  vs,
  (
    record {
      types = o'.types;
      reached = o'.reached;
      reserved = o'.reserved;
      above = omega (arith, o.above, o'.above);
    },
    λ e ready.
        then_lands base (base + words vs) d.stack_highwater us e (run_all h is) (executed h i e)
          ready.room
          (first e (record {
            height = ready.height;
            room = omega (arith, ready.room, o'.above);
            stack_sized = ready.stack_sized;
          }))
          rest,
  ),
)

compile-Steps :
    (base : ℕ) (h : Host) (is : List Straight) (ts : List ValType) (c : Scope) (s : TextBuilder)
    → Operands s.stack_highwater ts s
    → Ends (Steps base ts s.stack_highwater (run_all h is)) (compile is c s)
unfolding compile run_all
compile-Steps base h [] ts c s o = (ts, (o, λ e ready. (ready.height, refl, ready.stack_sized)))
compile-Steps base h (i ∷ is) ts c s o =
    Ends-after (Steps base ts s.stack_highwater (executed h i))
      (Steps base ts s.stack_highwater (run_all h (i ∷ is))) (λ _. compile is) c (handler i c s)
      (handler-Steps base ts h i c s o)
      λ u s' p. chained base ts p.0 h i is s s' (compile is c s') p.1.0 p.1.1 (
        compile-Steps base h is p.0 c s' (record {
          types = p.1.0.types;
          reached = p.1.0.reached;
          reserved = p.1.0.reserved;
          above = omega arith;
        }))

-- Code of operators on integers and constants that the compiler accepts in reached code, on operands of the types
-- `ts`, leaves operands of some types `us`, and its execution on a stack with the words of `ts` above `base` and
-- with the room of the high-water mark either traps or ends with the words of `us` there: it never reads or
-- writes outside the stack.
pub compile-Lands :
    (h : Host) (is : List Straight) (ts : List ValType) (c : Scope) (s s' : TextBuilder) (base : ℕ)
    (e : Engine)
    → s.value_stack ≡ knowns ts
    → is_unreachable s ≡ false
    → words ts ≤ s.stack_highwater
    → compile is c s ≡ some (ok (tt, s'))
    → e.sp ≡ base + words ts
    → base + s'.stack_highwater ≤ e.stack.size
    → IsStack e.stack
    → (us : List ValType) × ((s'.value_stack ≡ knowns us)
        × (words us ≤ s'.stack_highwater)
        × Lands (base + words us) e (run_all h is e))
compile-Lands h is ts c s s' base e types reached reserved accepted sp room sized =
    let p : Steps base ts s.stack_highwater (run_all h is) s' =
      subst (λ x. Ends (Steps base ts s.stack_highwater (run_all h is)) x) accepted
        (compile-Steps base h is ts c s (record {
          types = types;
          reached = reached;
          reserved = reserved;
          above = omega arith;
        })) in
    (
      p.0,
      (
        p.1.0.types,
        p.1.0.reserved,
        p.1.1 e (record { height = sp; room = room; stack_sized = sized }),
      ),
    )
