-- ===== src/Soundness/Rules.antt =====
-- The typing rules that src/compiler.rs gives the instructions on integers, beside what src/interpreter.rs does
-- on their opcodes.
use spacewasm.Prelude.{
  ℕ, ◌-◌, ◌^◌, ◌≡◌, refl, subst, inl, inr, ==_iff, Bool-cases, ◌==◌, ◌&&◌, Option, none, some, List,
  [], ◌∷◌, ◌++◌,
}
use spacewasm.Types.{ValType}
use spacewasm.Engine.{pure}
use spacewasm.Text.Builder.{M}
use spacewasm.Text.Operands.Typing.{words}
use spacewasm.Opcode
use spacewasm.Compiler.{instruction}
use spacewasm.Compiler.Conversions
use spacewasm.Code
use spacewasm.Code.Tables.{integer_handlers}
use spacewasm.Interpreter.Host.{Host}
use spacewasm.Interpreter.Numeric.I32
use spacewasm.Interpreter.Numeric.I64
use spacewasm.Interpreter.Execute.{execute_plain, lookup}
use spacewasm.Interpreter.Numeric.Effects.{
  Effect, Operator, Effect-unary_i32, Effect-unary_i64, Effect-binary_i32, Effect-binary_i64,
  Effect-test_i32, Effect-test_i64, Effect-relation_i32, Effect-relation_i64, Effect-i32_wrap_i64,
  Effect-i64_extend_i32_s, Effect-i64_extend_i32_u,
}

-- The handlers of the conversions between integers.
abbrev pub integer_conversions : List (ℕ × M (Unit {0}))
integer_conversions =
    (Opcode.i32_wrap_i64, Conversions.i32_wrap_i64)
    ∷ (Opcode.i64_extend_i32_s, Conversions.i64_extend_i32_s)
    ∷ (Opcode.i64_extend_i32_u, Conversions.i64_extend_i32_u)
    ∷ (Opcode.i32_extend_8_s, Conversions.i32_extend8_s)
    ∷ (Opcode.i32_extend_16_s, Conversions.i32_extend16_s)
    ∷ (Opcode.i64_extend_8_s, Conversions.i64_extend8_s)
    ∷ (Opcode.i64_extend_16_s, Conversions.i64_extend16_s)
    ∷ (Opcode.i64_extend_32_s, Conversions.i64_extend32_s)
    ∷ []

-- The handler checks the operands `ins`, the last one first, and pushes `outs`; the interpreter takes the words
-- of `ins` on this opcode and leaves the words of `outs`.
pub record Rule (h : Host) (op : ℕ) (m : M (Unit {0})) : Type 0 where
  pub ins : List ValType
  pub outs : List ValType
  pub checks : m ≡ instruction op ins outs
  pub effect : Effect (execute_plain h op) (words ins) (words outs)

rule :
    (h : Host) (op : ℕ) (ins outs : List ValType)
    → Effect (execute_plain h op) (words ins) (words outs)
    → Rule h op (instruction op ins outs)
rule h op ins outs e = record { ins = ins; outs = outs; checks = refl; effect = e }

abbrev pub AllRules : Host → List (ℕ × M (Unit {0})) → Type 0
AllRules h [] = Unit
AllRules h ((op, m) ∷ rest) = Rule h op m × AllRules h rest

Operator-pure : (f : ℕ → ℕ → ℕ) → Operator (λ a b. pure (f a b))
Operator-pure f a b e = refl

-- The divisions trap on a divisor 0, and `div_s` on the quotient that does not fit.
Operator-div_s : Operator I32.div_s
unfolding I32.div_s
Operator-div_s a b e = elim (Bool-cases (b == 0)) [
  | inl t ↦ rw t tt
  | inr t ↦ elim (Bool-cases ((a == 2 ^ 31) && (b == 2 ^ 32 - 1))) [
    | inl u ↦ rw (t, u) tt
    | inr u ↦ rw (t, u) refl
  ]
]

Operator-div_u : Operator I32.div_u
unfolding I32.div_u
Operator-div_u a b e = elim (Bool-cases (b == 0)) [ inl t ↦ rw t tt | inr t ↦ rw t refl ]

Operator-rem_s : Operator I32.rem_s
unfolding I32.rem_s
Operator-rem_s a b e = elim (Bool-cases (b == 0)) [ inl t ↦ rw t tt | inr t ↦ rw t refl ]

Operator-rem_u : Operator I32.rem_u
unfolding I32.rem_u
Operator-rem_u a b e = elim (Bool-cases (b == 0)) [ inl t ↦ rw t tt | inr t ↦ rw t refl ]

Operator-div_s_64 : Operator I64.div_s
unfolding I64.div_s
Operator-div_s_64 a b e = elim (Bool-cases (b == 0)) [
  | inl t ↦ rw t tt
  | inr t ↦ elim (Bool-cases ((a == 2 ^ 63) && (b == 2 ^ 64 - 1))) [
    | inl u ↦ rw (t, u) tt
    | inr u ↦ rw (t, u) refl
  ]
]

Operator-div_u_64 : Operator I64.div_u
unfolding I64.div_u
Operator-div_u_64 a b e = elim (Bool-cases (b == 0)) [ inl t ↦ rw t tt | inr t ↦ rw t refl ]

Operator-rem_s_64 : Operator I64.rem_s
unfolding I64.rem_s
Operator-rem_s_64 a b e = elim (Bool-cases (b == 0)) [ inl t ↦ rw t tt | inr t ↦ rw t refl ]

Operator-rem_u_64 : Operator I64.rem_u
unfolding I64.rem_u
Operator-rem_u_64 a b e = elim (Bool-cases (b == 0)) [ inl t ↦ rw t tt | inr t ↦ rw t refl ]

ruleset effect_rules = (
  rule, Effect-unary_i32, Effect-unary_i64, Effect-binary_i32, Effect-binary_i64, Effect-test_i32,
  Effect-test_i64, Effect-relation_i32, Effect-relation_i64, Effect-i32_wrap_i64,
  Effect-i64_extend_i32_s, Effect-i64_extend_i32_u, Operator-pure, Operator-div_s, Operator-div_u,
  Operator-rem_s, Operator-rem_u, Operator-div_s_64, Operator-div_u_64, Operator-rem_s_64,
  Operator-rem_u_64,
)

pub AllRules-conversion : (h : Host) → AllRules h integer_conversions
unfolding execute_plain lookup
AllRules-conversion h = search effect_rules depth 100

pub AllRules-integer : (h : Host) → AllRules h integer_handlers
unfolding execute_plain lookup I32.i32_div_s
AllRules-integer h = search effect_rules depth 100

pub AllRules-append :
    (h : Host) (xs ys : List (ℕ × M (Unit {0})))
    → AllRules h xs
    → AllRules h ys
    → AllRules h (xs ++ ys)
AllRules-append h [] ys p q = q
AllRules-append h ((op, m) ∷ xs) ys p q = (p.0, AllRules-append h xs ys p.1 q)

abbrev pub FoundRule : Host → ℕ → Option (M (Unit {0})) → Type 0
FoundRule h op none = Unit
FoundRule h op (some m) = Rule h op m

pub lookup-FoundRule :
    (h : Host) (op : ℕ) (table : List (ℕ × M (Unit {0})))
    → AllRules h table
    → FoundRule h op (Code.lookup op table)
unfolding Code.lookup
lookup-FoundRule h op [] k = tt
lookup-FoundRule h op ((o, m) ∷ rest) k = elim (Bool-cases (o == op)) [
  | inl t ↦ rw t (subst (λ x. Rule h x m) ((==_iff o op).0 t) k.0)
  | inr t ↦ rw t (lookup-FoundRule h op rest k.1)
]
