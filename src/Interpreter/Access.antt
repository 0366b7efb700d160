-- ===== src/Interpreter/Access.antt =====
-- The loads, stores and constants of src/interpreter.rs, and `memory_size`. A `MemArg` is its offset: the
-- alignment is not used. A float is its bit pattern, and moves as an integer does.
use spacewasm.Prelude.{ℕ, ◌+◌, some, get_elem?, set, as_u8, as_u16, as_u32}
use spacewasm.Errors.{MemoryError, Result, ok}
use spacewasm.Memory.{
  Memory, effective_address, load_u8, load_u16, load_u32, load_u64, store_u8, store_u16, store_u32,
  store_u64, pages,
}
use spacewasm.Engine.{
  M, ◌>>=◌, ◌>>◌, gets, or_fault, or_trap, below_top, drop_words, grow_words, read_u32, read_u64,
  write_u32, write_u64, push_u32, push_u64,
}
use spacewasm.Interpreter.Integer.{sign_extend}

-- The memory of the engine, and the engine after a change of it, which all who share it see.
unfoldable pub current_memory : M Memory
current_memory e = or_fault (get_elem? e.store.memories e.memory) e

unfoldable pub put_memory : Memory → M (Unit {0})
put_memory m e =
    some
      (ok tt, record e { store = record (e.store) { memories = set e.store.memories e.memory m } })

-- The loads that put one word and two words on the stack, and the stores that take one and two.
unfoldable pub load_one : (Memory → ℕ → Result MemoryError ℕ) → (ℕ → ℕ) → ℕ → M (Unit {0})
load_one load cast offset = do
  top ← below_top 1
  base ← read_u32 top
  addr ← or_trap (effective_address base offset)
  memory ← current_memory
  v ← or_trap (load memory addr)
  write_u32 top (cast v)

unfoldable pub load_two : (Memory → ℕ → Result MemoryError ℕ) → (ℕ → ℕ) → ℕ → M (Unit {0})
load_two load cast offset = do
  top ← below_top 1
  base ← read_u32 top
  addr ← or_trap (effective_address base offset)
  memory ← current_memory
  v ← or_trap (load memory addr)
  write_u64 top (cast v)
  grow_words 1

unfoldable pub store_one : (Memory → ℕ → ℕ → Result MemoryError Memory) → (ℕ → ℕ) → ℕ → M (Unit {0})
store_one store cast offset = do
  drop_words 2
  sp ← gets (λ e. e.sp)
  v ← read_u32 (sp + 1)
  base ← read_u32 sp
  addr ← or_trap (effective_address base offset)
  memory ← current_memory
  memory' ← or_trap (store memory addr (cast v))
  put_memory memory'

unfoldable pub store_two : (Memory → ℕ → ℕ → Result MemoryError Memory) → (ℕ → ℕ) → ℕ → M (Unit {0})
store_two store cast offset = do
  drop_words 3
  sp ← gets (λ e. e.sp)
  v ← read_u64 (sp + 1)
  base ← read_u32 sp
  addr ← or_trap (effective_address base offset)
  memory ← current_memory
  memory' ← or_trap (store memory addr (cast v))
  put_memory memory'

pub i32_load : ℕ → M (Unit {0})
i32_load offset = load_one load_u32 (λ v. v) offset

pub i64_load : ℕ → M (Unit {0})
i64_load offset = load_two load_u64 (λ v. v) offset

pub f32_load : ℕ → M (Unit {0})
f32_load offset = load_one load_u32 (λ v. v) offset

pub f64_load : ℕ → M (Unit {0})
f64_load offset = load_two load_u64 (λ v. v) offset

pub i32_load8_s : ℕ → M (Unit {0})
i32_load8_s offset = load_one load_u8 (sign_extend 8 32) offset

pub i32_load8_u : ℕ → M (Unit {0})
i32_load8_u offset = load_one load_u8 (λ v. v) offset

pub i32_load16_s : ℕ → M (Unit {0})
i32_load16_s offset = load_one load_u16 (sign_extend 16 32) offset

pub i32_load16_u : ℕ → M (Unit {0})
i32_load16_u offset = load_one load_u16 (λ v. v) offset

pub i64_load8_s : ℕ → M (Unit {0})
i64_load8_s offset = load_two load_u8 (sign_extend 8 64) offset

pub i64_load8_u : ℕ → M (Unit {0})
i64_load8_u offset = load_two load_u8 (λ v. v) offset

pub i64_load16_s : ℕ → M (Unit {0})
i64_load16_s offset = load_two load_u16 (sign_extend 16 64) offset

pub i64_load16_u : ℕ → M (Unit {0})
i64_load16_u offset = load_two load_u16 (λ v. v) offset

pub i64_load32_s : ℕ → M (Unit {0})
i64_load32_s offset = load_two load_u32 (sign_extend 32 64) offset

pub i64_load32_u : ℕ → M (Unit {0})
i64_load32_u offset = load_two load_u32 (λ v. v) offset

pub i32_store : ℕ → M (Unit {0})
i32_store offset = store_one store_u32 (λ v. v) offset

pub i64_store : ℕ → M (Unit {0})
i64_store offset = store_two store_u64 (λ v. v) offset

pub f32_store : ℕ → M (Unit {0})
f32_store offset = store_one store_u32 (λ v. v) offset

pub f64_store : ℕ → M (Unit {0})
f64_store offset = store_two store_u64 (λ v. v) offset

pub i32_store8 : ℕ → M (Unit {0})
i32_store8 offset = store_one store_u8 as_u8 offset

pub i32_store16 : ℕ → M (Unit {0})
i32_store16 offset = store_one store_u16 as_u16 offset

pub i64_store8 : ℕ → M (Unit {0})
i64_store8 offset = store_two store_u8 as_u8 offset

pub i64_store16 : ℕ → M (Unit {0})
i64_store16 offset = store_two store_u16 as_u16 offset

pub i64_store32 : ℕ → M (Unit {0})
i64_store32 offset = store_two store_u32 as_u32 offset

pub memory_size : M (Unit {0})
memory_size = do memory ← current_memory; push_u32 (pages memory)

unfoldable pub i32_const : ℕ → M (Unit {0})
i32_const n = push_u32 n

unfoldable pub i64_const : ℕ → M (Unit {0})
i64_const n = push_u64 n

pub f32_const : ℕ → M (Unit {0})
f32_const z = push_u32 z

pub f64_const : ℕ → M (Unit {0})
f64_const z = push_u64 z
