-- ===== src/Interpreter/Numeric.antt =====
-- The numeric instructions of src/interpreter.rs: the shapes of its macro `instruction!`, which the
-- modules I32 and I64 apply, and the conversions between integers. Integers are bit patterns.
pub mod I32
pub mod I64
pub mod Operands
pub mod Effects
use spacewasm.Prelude.{ℕ, ◌+◌, ◌^◌, Bool, if◌then◌else◌, as_u32}
use spacewasm.Engine.{
  M, pure, ◌>>=◌, ◌>>◌, gets, below_top, drop_words, grow_words, read_u32, read_u64, write_u32,
  write_u64,
}
use spacewasm.Interpreter.Integer.{sign_extend}

-- `if ... { 1 } else { 0 }`
abbrev pub of_bool : Bool → ℕ
of_bool b = if b then 1 else 0

unfoldable pub unary_i32 : (ℕ → ℕ) → M (Unit {0})
unary_i32 f = do top ← below_top 1; i ← read_u32 top; write_u32 top (f i)

unfoldable pub unary_i64 : (ℕ → ℕ) → M (Unit {0})
unary_i64 f = do top ← below_top 2; i ← read_u64 top; write_u64 top (f i)

unfoldable pub binary_i32 : (ℕ → ℕ → M ℕ) → M (Unit {0})
binary_i32 f = do
  drop_words 1
  sp ← gets (λ e. e.sp)
  b ← read_u32 sp
  top ← below_top 1
  a ← read_u32 top
  v ← f a b
  write_u32 top v

unfoldable pub binary_i64 : (ℕ → ℕ → M ℕ) → M (Unit {0})
binary_i64 f = do
  drop_words 2
  sp ← gets (λ e. e.sp)
  b ← read_u64 sp
  top ← below_top 2
  a ← read_u64 top
  v ← f a b
  write_u64 top v

unfoldable pub test_i32 : (ℕ → Bool) → M (Unit {0})
test_i32 f = do top ← below_top 1; i ← read_u32 top; write_u32 top (of_bool (f i))

unfoldable pub test_i64 : (ℕ → Bool) → M (Unit {0})
test_i64 f = do drop_words 1; top ← below_top 1; i ← read_u64 top; write_u32 top (of_bool (f i))

unfoldable pub relation_i32 : (ℕ → ℕ → Bool) → M (Unit {0})
relation_i32 f = do
  drop_words 1
  sp ← gets (λ e. e.sp)
  b ← read_u32 sp
  top ← below_top 1
  a ← read_u32 top
  write_u32 top (of_bool (f a b))

unfoldable pub relation_i64 : (ℕ → ℕ → Bool) → M (Unit {0})
relation_i64 f = do
  drop_words 3
  sp ← gets (λ e. e.sp)
  b ← read_u64 (sp + 1)
  top ← below_top 1
  a ← read_u64 top
  write_u32 top (of_bool (f a b))

unfoldable pub i32_wrap_i64 : M (Unit {0})
i32_wrap_i64 = do from ← below_top 2; v ← read_u64 from; write_u32 from (as_u32 v); drop_words 1

unfoldable pub i64_extend_i32_s : M (Unit {0})
i64_extend_i32_s = do
  top ← below_top 1
  i ← read_u32 top
  write_u64 top (sign_extend 32 64 i)
  grow_words 1

unfoldable pub i64_extend_i32_u : M (Unit {0})
i64_extend_i32_u = do top ← below_top 1; i ← read_u32 top; write_u64 top i; grow_words 1

abbrev pub i32_extend8_s : M (Unit {0})
i32_extend8_s = unary_i32 (sign_extend 8 32)

abbrev pub i32_extend16_s : M (Unit {0})
i32_extend16_s = unary_i32 (sign_extend 16 32)

abbrev pub i64_extend8_s : M (Unit {0})
i64_extend8_s = unary_i64 (sign_extend 8 64)

abbrev pub i64_extend16_s : M (Unit {0})
i64_extend16_s = unary_i64 (sign_extend 16 64)

abbrev pub i64_extend32_s : M (Unit {0})
i64_extend32_s = unary_i64 (sign_extend 32 64)
