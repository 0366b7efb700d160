-- ===== src/Text/Builder.antt =====
-- `TextBuilder` of src/text.rs: its state, its construction, the checks on the targets of a branch table
-- and the look-up of globals. The two stacks, `StaticVec`s in the code, are lists with their tops in
-- front, bounded by the constants of their types.
pub mod Keeps
use spacewasm.Prelude.{
  ℕ, Bool, true, false, ◌&&◌, Option, none, some, List, [], ◌∷◌, length, get_elem?, ltb, ◌==◌,
  if◌then◌else◌,
}
use spacewasm.Errors.{AllocError, ValidationError, Result, ok, err}
use spacewasm.Types.{ValType, ResultType, to_repr}
use spacewasm.Engine.{Module, Func}
use spacewasm.Modules.{HostModule, Ref, get_global_ref}
use spacewasm.Text.{CodeBuilder, JumpTarget, sentinel_target}
use spacewasm.Text.Emit.{Boxes}

-- `OperandType`: `unknown` is an operand of code that is never reached.
pub data OperandType : Type 0 where
  unknown : OperandType
  known : ValType → OperandType

-- `BlockKind`
pub data BlockKind : Type 0 where
  loop block if_ : BlockKind

-- `ControlFrame`. `height` counts operands, `target` is the start of a loop or the last jump to patch.
pub record ControlFrame : Type 0 where
  pub kind : BlockKind
  pub label : ResultType
  pub out : ResultType
  pub height : ℕ
  pub target : JumpTarget
  pub unreachable : Bool

-- The fields of `TextBuilder` that change.
pub record TextBuilder : Type 0 where
  pub code : CodeBuilder
  pub control_frames : List ControlFrame
  pub value_stack : List OperandType
  pub stack_highwater : ℕ
  pub br_table_result : Option ResultType

-- What does not change while a function is compiled: the other fields of `TextBuilder`, the capacities
-- MAX_CONTROL_FRAMES and MAX_STACK_DEPTH, the allocator's answers, and the fuel of `backpatch`.
pub record Scope : Type 0 where
  pub modules : List Module
  pub host_modules : List HostModule
  pub this : Module
  pub func : Func
  pub max_control_frames : ℕ
  pub max_stack_depth : ℕ
  pub boxes : Boxes
  pub fuel : ℕ

-- An operation on the builder. `none` is a panic, or fuel that does not suffice. An error ends the
-- compilation, and the builder it leaves is not looked at.
abbrev pub M {ℓ} : Type ℓ → Type ℓ
M A = Scope → TextBuilder → Option (Result ValidationError (A × TextBuilder))

abbrev pub pure {ℓ} : {A : Type ℓ} → A → M A
pure a c s = some (ok (a, s))

abbrev pub fail {ℓ} : {A : Type ℓ} → ValidationError → M A
fail e c s = some (err e)

abbrev pub panic {ℓ} : {A : Type ℓ} → M A
panic c s = none

abbrev pub after {ℓ κ} :
    {A : Type ℓ} {B : Type κ}
    → (A → M B)
    → Scope
    → Option (Result ValidationError (A × TextBuilder))
    → Option (Result ValidationError (B × TextBuilder))
after f c none = none
after f c (some (ok (a, s))) = f a c s
after f c (some (err e)) = some (err e)

infixl 5 ◌>>=◌ ◌>>◌
abbrev pub ◌>>=◌ {ℓ κ} : {A : Type ℓ} {B : Type κ} → M A → (A → M B) → M B
◌>>=◌ m f c s = after f c (m c s)

abbrev pub ◌>>◌ {ℓ κ} : {A : Type ℓ} {B : Type κ} → M A → M B → M B
m >> k = m >>= λ _. k

abbrev pub gets {ℓ} : {A : Type ℓ} → (TextBuilder → A) → M A
gets f c s = some (ok (f s, s))

abbrev pub asks {ℓ} : {A : Type ℓ} → (Scope → A) → M A
asks f c s = some (ok (f c, s))

abbrev pub modify : (TextBuilder → TextBuilder) → M (Unit {0})
modify f c s = some (ok (tt, f s))

abbrev pub or_panic {ℓ} : {A : Type ℓ} → Option A → M A
or_panic none c s = none
or_panic (some a) c s = some (ok (a, s))

abbrev pub or_fail {ℓ} : {A : Type ℓ} → ValidationError → Option A → M A
or_fail e none c s = some (err e)
or_fail e (some a) c s = some (ok (a, s))

abbrev pub lift {ℓ} : {A : Type ℓ} → Result ValidationError A → M A
lift (ok a) c s = some (ok (a, s))
lift (err e) c s = some (err e)

-- A step of the code builder.
unfoldable pub with_code :
    (Scope → CodeBuilder → Option (Result ValidationError CodeBuilder)) → M (Unit {0})
with_code f c s = elim (f c s.code) [
  | none ↦ none
  | some (ok code) ↦ some (ok (tt, record s { code = code }))
  | some (err e) ↦ some (err e)
]

-- An instruction of `Emit`.
unfoldable pub emit : (Boxes → CodeBuilder → Result ValidationError CodeBuilder) → M (Unit {0})
emit f = with_code (λ c code. some (f c.boxes code))

-- `==` of two `ResultType`s.
unfoldable pub same_result : ResultType → ResultType → Bool
same_result none none = true
same_result none (some b) = false
same_result (some a) none = false
same_result (some a) (some b) = to_repr a == to_repr b

unfoldable pub check_result : Option ResultType → ResultType → M (Unit {0})
check_result none r = modify (λ s. record s { br_table_result = some r })
check_result (some other) r =
    if same_result other r then pure tt else fail ValidationError.br_table_result_type_mismatch

unfoldable pub check_br_table_result : ResultType → M (Unit {0})
check_br_table_result r = do other ← gets (λ s. s.br_table_result); check_result other r

unfoldable pub check_and_clear : Option ResultType → ResultType → M (Unit {0})
check_and_clear none def_result = pure tt
check_and_clear (some other) def_result =
    if same_result other def_result
    then modify (λ s. record s { br_table_result = none })
    else fail ValidationError.br_table_result_type_mismatch

unfoldable pub check_and_clear_br_table_result : ResultType → M (Unit {0})
check_and_clear_br_table_result def_result = do
  other ← gets (λ s. s.br_table_result)
  check_and_clear other def_result

-- `GlobalVariable`
pub record GlobalVariable : Type 0 where
  pub reference : Ref
  pub ty : ValType
  pub mutable : Bool

-- The global that a reference names; an import is resolved before.
unfoldable pub global_at : Ref → M GlobalVariable
global_at (Ref.own index) = do
  this ← asks (λ c. c.this)
  g ← or_fail ValidationError.global_idx_out_of_range (get_elem? this.globals index)
  pure (record { reference = Ref.own index; ty = g.type.ty; mutable = g.type.mutable })
global_at (Ref.host m index) = do
  host_modules ← asks (λ c. c.host_modules)
  hm ← or_panic (get_elem? host_modules m)
  g ← or_panic (get_elem? hm.globals index)
  pure (record { reference = Ref.host m index; ty = g.ty; mutable = g.mutable })
global_at (Ref.extern m index) = do
  modules ← asks (λ c. c.modules)
  em ← or_panic (get_elem? modules m)
  g ← or_panic (get_elem? em.globals index)
  pure (record { reference = Ref.extern m index; ty = g.type.ty; mutable = g.type.mutable })

unfoldable pub get_global : ℕ → M GlobalVariable
get_global x = do
  this ← asks (λ c. c.this)
  reference ← or_fail ValidationError.global_idx_out_of_range (get_global_ref this x)
  global_at reference

-- `control_frames.push`, in `push_control` and in `new`.
unfoldable pub push_frame : ControlFrame → M (Unit {0})
push_frame frame c s =
    if ltb (length s.control_frames) c.max_control_frames
    then some (ok (tt, record s { control_frames = frame ∷ s.control_frames }))
    else some (err (ValidationError.alloc_error AllocError.out_of_memory))
