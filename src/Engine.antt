-- ===== src/Engine.antt =====
-- The state of the interpreter: src/engine.rs, with what src/store.rs, src/module.rs and src/code.rs
-- keep for it, and the monad of its operations.
-- Memories are shared by reference (`Rc<Memory>`): a reference is an index into `memories`. Number 0
-- is the store's `zero_memory`. Tables do not change while code runs and are kept by value.
use spacewasm.Prelude.{
  ℕ, ◌+◌, ◌-◌, ◌^◌, ◌<◌, Bool, true, false, Option, none, some, List, [], get_elem?, ◌==◌, ltb,
  if◌then◌else◌,
}
use spacewasm.Errors.{MemoryError, Result, ok, err}
use spacewasm.Types.{ValType, ResultType, FuncType, GlobalType}
use spacewasm.Types.Raw.{RawValue}
use spacewasm.Memory.{Memory}
use spacewasm.Stack
use spacewasm.Stack.{Stack}
use spacewasm.Text.{JumpTarget}
use spacewasm.Engine.Imports.{Import}
pub mod Imports
pub mod View

pub data TrapReason : Type 0 where
  unreachable host divide_by_zero invalid_table_index invalid_table_function_type : TrapReason
  uninitialized_table_element global_get_failed global_set_failed out_of_memory : TrapReason
  memory_ref_not_unique memory_out_of_bounds stack_overflow unrepresentable_result : TrapReason
  integer_overflow bad_conversion_to_integer malformed_ir : TrapReason

pub data InterpreterBreak : Type 0 where
  finished pause : InterpreterBreak
  trap : TrapReason → InterpreterBreak

-- `Func`: what is needed to call a function. `expr` is its entry point.
pub record Func : Type 0 where
  pub ty : ℕ
  pub stack_usage : ℕ
  pub local_size : ℕ
  pub parameter_size : ℕ
  pub return_ty : Option ValType
  pub locals : List (ℕ × ValType)
  pub expr : JumpTarget

abbrev pub required_stack_words : Func → ℕ
required_stack_words f = f.stack_usage + 2 + f.local_size

pub record Global : Type 0 where
  pub type : GlobalType
  pub value : RawValue

pub data TableElement : Type 0 where
  uninitialized : TableElement
  host_func func : ℕ → ℕ → TableElement

-- A memory owned, imported from a module, or imported from a host module.
pub data MemoryKind : Type 0 where
  owned import import_host : ℕ → MemoryKind

pub data TableKind : Type 0 where
  owned import_host : List TableElement → TableKind
  import : ℕ → TableKind

pub record Module : Type 0 where
  pub imports : List Import
  pub types : List FuncType
  pub functions : List Func
  pub table : Option TableKind
  pub memory : Option MemoryKind
  pub globals : List Global

pub record Store : Type 0 where
  pub modules : List Module
  pub memories : List Memory

pub record Engine : Type 0 where
  pub pc : JumpTarget
  pub jumped : Bool
  pub fp : ℕ
  pub sp : ℕ
  pub stack : Stack
  pub memory : ℕ
  pub table : List TableElement
  pub module_ref : ℕ
  pub store : Store
  pub host_pause_result : Option ResultType
  pub result : Option RawValue

-- An operation on the engine: its `Result`, and the engine as it leaves it, on an `Err` too. `none` is
-- a panic, or an access outside the stack or a list, which the code leaves to its validation.
abbrev pub M {ℓ} : Type ℓ → Type ℓ
M A = Engine → Option (Result InterpreterBreak A × Engine)

abbrev pub pure {ℓ} : {A : Type ℓ} → A → M A
pure a e = some (ok a, e)

abbrev pub break {ℓ} : {A : Type ℓ} → InterpreterBreak → M A
break b e = some (err b, e)

abbrev pub fault {ℓ} : {A : Type ℓ} → M A
fault e = none

abbrev pub after {ℓ κ} :
    {A : Type ℓ} {B : Type κ}
    → (A → M B)
    → Option (Result InterpreterBreak A × Engine)
    → Option (Result InterpreterBreak B × Engine)
after f none = none
after f (some (ok a, e)) = f a e
after f (some (err b, e)) = some (err b, e)

infixl 5 ◌>>=◌ ◌>>◌
abbrev pub ◌>>=◌ {ℓ κ} : {A : Type ℓ} {B : Type κ} → M A → (A → M B) → M B
◌>>=◌ m f e = after f (m e)

abbrev pub ◌>>◌ {ℓ κ} : {A : Type ℓ} {B : Type κ} → M A → M B → M B
m >> k = m >>= λ _. k

abbrev pub gets {ℓ} : {A : Type ℓ} → (Engine → A) → M A
gets f e = some (ok (f e), e)

abbrev pub modify : (Engine → Engine) → M (Unit {0})
modify f e = some (ok tt, f e)

abbrev pub or_fault {ℓ} : {A : Type ℓ} → Option A → M A
or_fault none e = none
or_fault (some a) e = some (ok a, e)

-- `f(...)?` of a memory access: `InterpreterBreak::from` of the other errors is `unreachable!()`.
abbrev pub of_memory_error : MemoryError → Option InterpreterBreak
of_memory_error MemoryError.out_of_bounds = some (trap TrapReason.memory_out_of_bounds)
of_memory_error MemoryError.out_of_memory = some (trap TrapReason.out_of_memory)
of_memory_error MemoryError.allocation_failed = none
of_memory_error MemoryError.page_too_small = none
of_memory_error MemoryError.heap_poisoned = none

abbrev pub break_or_fault {ℓ} : {A : Type ℓ} → Option InterpreterBreak → M A
break_or_fault none e = none
break_or_fault (some b) e = some (err b, e)

abbrev pub or_trap {ℓ} : {A : Type ℓ} → Result MemoryError A → M A
or_trap (ok a) = pure a
or_trap (err x) = break_or_fault (of_memory_error x)

-- The address `sp - n`, and `sp -= n`: a difference below 0 is a fault.
unfoldable pub below_top : ℕ → M ℕ
below_top n e = if ltb e.sp n then none else some (ok (e.sp - n), e)

unfoldable pub drop_words : ℕ → M (Unit {0})
drop_words n e = if ltb e.sp n then none else some (ok tt, record e { sp = e.sp - n })

unfoldable pub grow_words : ℕ → M (Unit {0})
grow_words n e = some (ok tt, record e { sp = e.sp + n })

unfoldable pub read_u32 : ℕ → M ℕ
read_u32 addr e = or_fault (Stack.read_u32 e.stack addr) e

unfoldable pub read_u64 : ℕ → M ℕ
read_u64 addr e = or_fault (Stack.read_u64 e.stack addr) e

abbrev pub put_stack : Option Stack → M (Unit {0})
put_stack none e = none
put_stack (some s) e = some (ok tt, record e { stack = s })

unfoldable pub write_u32 : ℕ → ℕ → M (Unit {0})
write_u32 addr v e = put_stack (Stack.write_u32 e.stack addr v) e

unfoldable pub write_u64 : ℕ → ℕ → M (Unit {0})
write_u64 addr v e = put_stack (Stack.write_u64 e.stack addr v) e

-- `stack.write_u32(sp, v); sp += 1`, and the same of two words.
unfoldable pub push_u32 : ℕ → M (Unit {0})
push_u32 v = do sp ← gets (λ e. e.sp); write_u32 sp v; grow_words 1

unfoldable pub push_u64 : ℕ → M (Unit {0})
push_u64 v = do sp ← gets (λ e. e.sp); write_u64 sp v; grow_words 2

-- `sp -= 1; stack.read_u32(sp)`, and the same of two words.
unfoldable pub pop_u32 : M ℕ
pop_u32 = do drop_words 1; sp ← gets (λ e. e.sp); read_u32 sp

unfoldable pub pop_u64 : M ℕ
pop_u64 = do drop_words 2; sp ← gets (λ e. e.sp); read_u64 sp

-- `Store::get_memory` and `Store::get_table`: an import of an import is `unreachable!()`.
unfoldable pub owned_memory : Option MemoryKind → Option ℕ
owned_memory (some (MemoryKind.owned m)) = some m
owned_memory (some (MemoryKind.import r)) = none
owned_memory (some (MemoryKind.import_host m)) = none
owned_memory none = none

unfoldable pub memory_of : Store → Option MemoryKind → Option ℕ
memory_of s none = some 0
memory_of s (some (MemoryKind.owned m)) = some m
memory_of s (some (MemoryKind.import r)) = elim (get_elem? s.modules r) [
  | none ↦ none
  | some m ↦ owned_memory m.memory
]
memory_of s (some (MemoryKind.import_host m)) = some m

unfoldable pub get_memory : Store → ℕ → Option ℕ
get_memory s r = elim (get_elem? s.modules r) [ none ↦ none | some m ↦ memory_of s m.memory ]

unfoldable pub owned_table : Option TableKind → Option (List TableElement)
owned_table (some (TableKind.owned t)) = some t
owned_table (some (TableKind.import r)) = none
owned_table (some (TableKind.import_host t)) = none
owned_table none = none

unfoldable pub table_of : Store → Option TableKind → Option (List TableElement)
table_of s none = some []
table_of s (some (TableKind.owned t)) = some t
table_of s (some (TableKind.import r)) = elim (get_elem? s.modules r) [
  | none ↦ none
  | some m ↦ owned_table m.table
]
table_of s (some (TableKind.import_host t)) = some t

unfoldable pub get_table : Store → ℕ → Option (List TableElement)
get_table s r = elim (get_elem? s.modules r) [ none ↦ none | some m ↦ table_of s m.table ]

-- Switches to the context of a module: its memory and its table.
unfoldable pub enter_context : ℕ → M (Unit {0})
enter_context r = do
  modify (λ e. record e { module_ref = r })
  store ← gets (λ e. e.store)
  memory ← or_fault (get_memory store r)
  table ← or_fault (get_table store r)
  modify (λ e. record e { memory = memory; table = table })

unfoldable pub get_func : ℕ → ℕ → M Func
get_func r index e = elim (get_elem? e.store.modules r) [
  | none ↦ none
  | some m ↦ or_fault (get_elem? m.functions index) e
]

-- `Engine::is_idle`, `clear_memory`, `clear_table` and `reset`.
pub is_idle : Engine → Bool
is_idle e = e.pc.address == 0xFFFFFFFF

pub clear_memory : Engine → Engine
clear_memory e = record e { memory = 0 }

pub clear_table : Engine → Engine
clear_table e = record e { table = [] }

pub reset : Engine → Engine
reset e = clear_table (
    clear_memory (record e {
      pc = record { address = 0xFFFFFFFF };
      sp = 0;
      fp = 0;
      jumped = false;
      result = none;
      host_pause_result = none;
    }))
