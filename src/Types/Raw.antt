-- ===== src/Types/Raw.antt =====
-- `RawValue` of src/types.rs: a global's 64 bits, written and read at the width of its type. Integers
-- and floats are their bit patterns, below 2 ^ 32 or 2 ^ 64.
use spacewasm.Prelude.{ℕ, ◌+◌, ◌-◌, ◌^◌, ◌<◌, ◌≡◌, refl, arith, ltb, if◌then◌else◌, as_u32}
use spacewasm.Types.{ValType}

-- `Value`: a number beside its type.
pub data Value : Type 0 where
  i32 i64 f32 f64 : ℕ → Value

pub record RawValue : Type 0 where
  pub bits : ℕ

pub from_32 : ℕ → RawValue
from_32 u = record { bits = u }

pub from_64 : ℕ → RawValue
from_64 u = record { bits = u }

pub from_i32 : ℕ → RawValue
from_i32 i = from_32 i

pub from_i64 : ℕ → RawValue
from_i64 i = from_64 i

-- `i as u64` of an `i32` copies the sign bit into the upper half.
abbrev pub i32_as_u64 : ℕ → ℕ
i32_as_u64 i = if ltb i (2 ^ 31) then i else i + (2 ^ 64 - 2 ^ 32)

unfoldable pub write_32 : RawValue → ℕ → RawValue
write_32 v i = record v { bits = i }

unfoldable pub write_64 : RawValue → ℕ → RawValue
write_64 v i = record v { bits = i }

pub write_i32 : RawValue → ℕ → RawValue
write_i32 v i = record v { bits = i32_as_u64 i }

pub write_i64 : RawValue → ℕ → RawValue
write_i64 v i = record v { bits = i }

unfoldable pub read_32 : RawValue → ℕ
read_32 v = as_u32 v.bits

unfoldable pub read_64 : RawValue → ℕ
read_64 v = v.bits

pub read_i32 : RawValue → ℕ
read_i32 v = as_u32 v.bits

pub read_i64 : RawValue → ℕ
read_i64 v = v.bits

pub to_value : RawValue → ValType → Value
to_value v ValType.i32 = Value.i32 (as_u32 v.bits)
to_value v ValType.i64 = Value.i64 v.bits
to_value v ValType.f32 = Value.f32 (as_u32 v.bits)
to_value v ValType.f64 = Value.f64 v.bits

-- `from_i32`, `from_i64`, `from_f32` and `from_f64`, by the type of the value.
pub of_value : Value → RawValue
unfolding from_i32 from_i64
of_value (Value.i32 i) = from_i32 i
of_value (Value.i64 i) = from_i64 i
of_value (Value.f32 f) = from_32 f
of_value (Value.f64 f) = from_64 f

abbrev pub type_of : Value → ValType
type_of (Value.i32 _) = ValType.i32
type_of (Value.i64 _) = ValType.i64
type_of (Value.f32 _) = ValType.f32
type_of (Value.f64 _) = ValType.f64

abbrev pub FitsType : Value → Type 0
FitsType (Value.i32 i) = i < 2 ^ 32
FitsType (Value.i64 i) = i < 2 ^ 64
FitsType (Value.f32 f) = f < 2 ^ 32
FitsType (Value.f64 f) = f < 2 ^ 64

-- A value goes through the 64 bits unchanged when it is read at its own type.
pub to_value-of_value : (v : Value) → FitsType v → to_value (of_value v) (type_of v) ≡ v
unfolding to_value of_value from_i32 from_i64 from_32 from_64
to_value-of_value (Value.i32 i) h = ground arith
to_value-of_value (Value.i64 i) h = refl
to_value-of_value (Value.f32 f) h = ground arith
to_value-of_value (Value.f64 f) h = refl
