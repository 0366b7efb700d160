-- ===== src/Interpreter/Variables.antt =====
-- Local and global variables in src/interpreter.rs. The globals of host modules are not modelled.
use spacewasm.Prelude.{ℕ, ◌+◌, ◌-◌, ◌^◌, Option, none, some, get_elem?, set, ltb, if◌then◌else◌}
use spacewasm.Errors.{Result}
use spacewasm.Types.{ValType, i32, i64, f32, f64}
use spacewasm.Types.Raw.{read_32, read_64, write_32, write_64}
use spacewasm.Engine.{
  Engine, InterpreterBreak, Module, Global, M, pure, fault, ◌>>=◌, gets, modify, or_fault,
  below_top, read_u32, read_u64, write_u32, write_u64, push_u32, push_u64, pop_u32, pop_u64,
}

-- `frame_offset` is the bit pattern of an `i16`.
pub record LocalVariable : Type 0 where
  pub frame_offset : ℕ
  pub ty : ValType

-- The address of a variable: below the frame for a parameter, above it for a local. The frame pointer is
-- an index of the stack below 2 ^ 31, so the sum fits an `i32`; an address below 0 is out of the stack.
unfoldable pub addr : LocalVariable → ℕ → M ℕ
addr l fp =
    if ltb l.frame_offset (2 ^ 15)
    then pure (fp + l.frame_offset)
    else (if ltb (fp + l.frame_offset) (2 ^ 16) then fault else pure (fp + l.frame_offset - 2 ^ 16))

unfoldable pub local_get : LocalVariable → M (Unit {0})
local_get l = do
  fp ← gets (λ e. e.fp)
  local_addr ← addr l fp
  elim l.ty [
    | i32 ↦ read_u32 local_addr >>= push_u32
    | f32 ↦ read_u32 local_addr >>= push_u32
    | i64 ↦ read_u64 local_addr >>= push_u64
    | f64 ↦ read_u64 local_addr >>= push_u64
  ]

unfoldable pub local_set : LocalVariable → M (Unit {0})
local_set l = do
  fp ← gets (λ e. e.fp)
  local_addr ← addr l fp
  elim l.ty [
    | i32 ↦ pop_u32 >>= write_u32 local_addr
    | f32 ↦ pop_u32 >>= write_u32 local_addr
    | i64 ↦ pop_u64 >>= write_u64 local_addr
    | f64 ↦ pop_u64 >>= write_u64 local_addr
  ]

-- The top of the stack, which stays there.
unfoldable pub top_u32 : M ℕ
top_u32 = below_top 1 >>= read_u32

unfoldable pub top_u64 : M ℕ
top_u64 = below_top 2 >>= read_u64

unfoldable pub local_tee : LocalVariable → M (Unit {0})
local_tee l = do
  fp ← gets (λ e. e.fp)
  local_addr ← addr l fp
  elim l.ty [
    | i32 ↦ top_u32 >>= write_u32 local_addr
    | f32 ↦ top_u32 >>= write_u32 local_addr
    | i64 ↦ top_u64 >>= write_u64 local_addr
    | f64 ↦ top_u64 >>= write_u64 local_addr
  ]

unfoldable pub current_module : M Module
current_module e = or_fault (get_elem? e.store.modules e.module_ref) e

unfoldable pub global_get : ℕ → M (Unit {0})
global_get idx = do
  m ← current_module
  g ← or_fault (get_elem? m.globals idx)
  elim g.type.ty [
    | i32 ↦ push_u32 (read_32 g.value)
    | f32 ↦ push_u32 (read_32 g.value)
    | i64 ↦ push_u64 (read_64 g.value)
    | f64 ↦ push_u64 (read_64 g.value)
  ]

-- The module of the engine with another global at a number.
unfoldable pub put_global : ℕ → Module → Global → M (Unit {0})
put_global idx m g = modify (λ e. record e {
  store = record (e.store) {
    modules = set e.store.modules e.module_ref (record m { globals = set m.globals idx g });
  };
})

unfoldable pub global_set : ℕ → M (Unit {0})
global_set idx = do
  m ← current_module
  g ← or_fault (get_elem? m.globals idx)
  elim g.type.ty [
    | i32 ↦ pop_u32 >>= λ v. put_global idx m (record g { value = write_32 g.value v })
    | f32 ↦ pop_u32 >>= λ v. put_global idx m (record g { value = write_32 g.value v })
    | i64 ↦ pop_u64 >>= λ v. put_global idx m (record g { value = write_64 g.value v })
    | f64 ↦ pop_u64 >>= λ v. put_global idx m (record g { value = write_64 g.value v })
  ]

-- An access in the context of another module. The module comes back on an error too.
unfoldable pub set_module :
    ℕ
    → Option (Result InterpreterBreak (Unit {0}) × Engine)
    → Option (Result InterpreterBreak (Unit {0}) × Engine)
set_module r none = none
set_module r (some (res, e)) = some (res, record e { module_ref = r })

unfoldable pub in_module : ℕ → M (Unit {0}) → M (Unit {0})
in_module r m e = set_module e.module_ref (m (record e { module_ref = r }))

pub global_get_extern : ℕ → ℕ → M (Unit {0})
global_get_extern r index = in_module r (global_get index)

pub global_set_extern : ℕ → ℕ → M (Unit {0})
global_set_extern r index = in_module r (global_set index)
