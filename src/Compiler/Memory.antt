-- ===== src/Compiler/Memory.antt =====
-- The handlers of src/compiler.rs for loads, stores and the size of the memory. Numbers are `u32`.
use spacewasm.Prelude.{ℕ, List, [], ◌∷◌, ltb, if◌then◌else◌}
use spacewasm.Errors.{ValidationError}
use spacewasm.Types.{ValType, i32, i64, f32, f64}
use spacewasm.Modules.{check_memory_defined}
use spacewasm.Text.Emit.{instr_mem}
use spacewasm.Text.Builder.{M, fail, ◌>>=◌, ◌>>◌, asks, gets, lift, emit}
use spacewasm.Text.Operands.{validate}
use spacewasm.Opcode
use spacewasm.Compiler.{plain}

-- `MemArg` of src/code.rs
pub record MemArg : Type 0 where
  pub align : ℕ
  pub offset : ℕ

-- The macro `alignment!`, for the widths that it has.
unfoldable pub alignment : ℕ → ℕ
alignment width =
    if ltb width 16 then 0 else (if ltb width 32 then 1 else (if ltb width 64 then 2 else 3))

unfoldable pub memory_defined : M (Unit {0})
memory_defined = do this ← asks (λ c. c.this); lift (check_memory_defined this)

-- `instruction!` with a `MemArg`
unfoldable pub instruction_mem : ℕ → ℕ → List ValType → List ValType → MemArg → M (Unit {0})
instruction_mem op ty_align ins outs m = do
  memory_defined
  validate ins outs
  (if ltb ty_align m.align
      then fail ValidationError.alignment_larger_than_type
      else emit (λ boxes c. instr_mem boxes op m.align m.offset c))

unfoldable pub memory_size : M (Unit {0})
memory_size = do memory_defined; validate [] (i32 ∷ []); plain Opcode.memory_size

unfoldable pub memory_grow : M (Unit {0})
memory_grow = do
  memory_defined
  validate (i32 ∷ []) (i32 ∷ [])
  code ← gets (λ s. s.code)
  (if code.options.allow_memory_grow
      then plain Opcode.memory_grow
      else fail ValidationError.illegal_memory_grow)

abbrev pub i32_load : MemArg → M (Unit {0})
i32_load = instruction_mem Opcode.i32_load (alignment 32) (i32 ∷ []) (i32 ∷ [])

abbrev pub i64_load : MemArg → M (Unit {0})
i64_load = instruction_mem Opcode.i64_load (alignment 64) (i32 ∷ []) (i64 ∷ [])

abbrev pub f32_load : MemArg → M (Unit {0})
f32_load = instruction_mem Opcode.f32_load (alignment 32) (i32 ∷ []) (f32 ∷ [])

abbrev pub f64_load : MemArg → M (Unit {0})
f64_load = instruction_mem Opcode.f64_load (alignment 64) (i32 ∷ []) (f64 ∷ [])

abbrev pub i32_load8_s : MemArg → M (Unit {0})
i32_load8_s = instruction_mem Opcode.i32_load8_s (alignment 8) (i32 ∷ []) (i32 ∷ [])

abbrev pub i32_load8_u : MemArg → M (Unit {0})
i32_load8_u = instruction_mem Opcode.i32_load8_u (alignment 8) (i32 ∷ []) (i32 ∷ [])

abbrev pub i32_load16_s : MemArg → M (Unit {0})
i32_load16_s = instruction_mem Opcode.i32_load16_s (alignment 16) (i32 ∷ []) (i32 ∷ [])

abbrev pub i32_load16_u : MemArg → M (Unit {0})
i32_load16_u = instruction_mem Opcode.i32_load16_u (alignment 16) (i32 ∷ []) (i32 ∷ [])

abbrev pub i64_load8_s : MemArg → M (Unit {0})
i64_load8_s = instruction_mem Opcode.i64_load8_s (alignment 8) (i32 ∷ []) (i64 ∷ [])

abbrev pub i64_load8_u : MemArg → M (Unit {0})
i64_load8_u = instruction_mem Opcode.i64_load8_u (alignment 8) (i32 ∷ []) (i64 ∷ [])

abbrev pub i64_load16_s : MemArg → M (Unit {0})
i64_load16_s = instruction_mem Opcode.i64_load16_s (alignment 16) (i32 ∷ []) (i64 ∷ [])

abbrev pub i64_load16_u : MemArg → M (Unit {0})
i64_load16_u = instruction_mem Opcode.i64_load16_u (alignment 16) (i32 ∷ []) (i64 ∷ [])

abbrev pub i64_load32_s : MemArg → M (Unit {0})
i64_load32_s = instruction_mem Opcode.i64_load32_s (alignment 32) (i32 ∷ []) (i64 ∷ [])

abbrev pub i64_load32_u : MemArg → M (Unit {0})
i64_load32_u = instruction_mem Opcode.i64_load32_u (alignment 32) (i32 ∷ []) (i64 ∷ [])

abbrev pub i32_store : MemArg → M (Unit {0})
i32_store = instruction_mem Opcode.i32_store (alignment 32) (i32 ∷ i32 ∷ []) []

abbrev pub i64_store : MemArg → M (Unit {0})
i64_store = instruction_mem Opcode.i64_store (alignment 64) (i64 ∷ i32 ∷ []) []

abbrev pub f32_store : MemArg → M (Unit {0})
f32_store = instruction_mem Opcode.f32_store (alignment 32) (f32 ∷ i32 ∷ []) []

abbrev pub f64_store : MemArg → M (Unit {0})
f64_store = instruction_mem Opcode.f64_store (alignment 64) (f64 ∷ i32 ∷ []) []

abbrev pub i32_store8 : MemArg → M (Unit {0})
i32_store8 = instruction_mem Opcode.i32_store8 (alignment 8) (i32 ∷ i32 ∷ []) []

abbrev pub i32_store16 : MemArg → M (Unit {0})
i32_store16 = instruction_mem Opcode.i32_store16 (alignment 16) (i32 ∷ i32 ∷ []) []

abbrev pub i64_store8 : MemArg → M (Unit {0})
i64_store8 = instruction_mem Opcode.i64_store8 (alignment 8) (i64 ∷ i32 ∷ []) []

abbrev pub i64_store16 : MemArg → M (Unit {0})
i64_store16 = instruction_mem Opcode.i64_store16 (alignment 16) (i64 ∷ i32 ∷ []) []

abbrev pub i64_store32 : MemArg → M (Unit {0})
i64_store32 = instruction_mem Opcode.i64_store32 (alignment 32) (i64 ∷ i32 ∷ []) []
