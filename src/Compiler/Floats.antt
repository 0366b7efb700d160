-- ===== src/Compiler/Floats.antt =====
-- The handlers of src/compiler.rs that its macro `instruction!` makes for the operators on floats.
use spacewasm.Prelude.{[], ◌∷◌}
use spacewasm.Types.{i32, f32, f64}
use spacewasm.Text.Builder.{M}
use spacewasm.Opcode
use spacewasm.Compiler.{instruction}

abbrev pub f32_eq : M (Unit {0})
f32_eq = instruction Opcode.f32_eq (f32 ∷ f32 ∷ []) (i32 ∷ [])

abbrev pub f32_ne : M (Unit {0})
f32_ne = instruction Opcode.f32_ne (f32 ∷ f32 ∷ []) (i32 ∷ [])

abbrev pub f32_lt : M (Unit {0})
f32_lt = instruction Opcode.f32_lt (f32 ∷ f32 ∷ []) (i32 ∷ [])

abbrev pub f32_gt : M (Unit {0})
f32_gt = instruction Opcode.f32_gt (f32 ∷ f32 ∷ []) (i32 ∷ [])

abbrev pub f32_le : M (Unit {0})
f32_le = instruction Opcode.f32_le (f32 ∷ f32 ∷ []) (i32 ∷ [])

abbrev pub f32_ge : M (Unit {0})
f32_ge = instruction Opcode.f32_ge (f32 ∷ f32 ∷ []) (i32 ∷ [])

abbrev pub f64_eq : M (Unit {0})
f64_eq = instruction Opcode.f64_eq (f64 ∷ f64 ∷ []) (i32 ∷ [])

abbrev pub f64_ne : M (Unit {0})
f64_ne = instruction Opcode.f64_ne (f64 ∷ f64 ∷ []) (i32 ∷ [])

abbrev pub f64_lt : M (Unit {0})
f64_lt = instruction Opcode.f64_lt (f64 ∷ f64 ∷ []) (i32 ∷ [])

abbrev pub f64_gt : M (Unit {0})
f64_gt = instruction Opcode.f64_gt (f64 ∷ f64 ∷ []) (i32 ∷ [])

abbrev pub f64_le : M (Unit {0})
f64_le = instruction Opcode.f64_le (f64 ∷ f64 ∷ []) (i32 ∷ [])

abbrev pub f64_ge : M (Unit {0})
f64_ge = instruction Opcode.f64_ge (f64 ∷ f64 ∷ []) (i32 ∷ [])

abbrev pub f32_abs : M (Unit {0})
f32_abs = instruction Opcode.f32_abs (f32 ∷ []) (f32 ∷ [])

abbrev pub f32_neg : M (Unit {0})
f32_neg = instruction Opcode.f32_neg (f32 ∷ []) (f32 ∷ [])

abbrev pub f32_ceil : M (Unit {0})
f32_ceil = instruction Opcode.f32_ceil (f32 ∷ []) (f32 ∷ [])

abbrev pub f32_floor : M (Unit {0})
f32_floor = instruction Opcode.f32_floor (f32 ∷ []) (f32 ∷ [])

abbrev pub f32_trunc : M (Unit {0})
f32_trunc = instruction Opcode.f32_trunc (f32 ∷ []) (f32 ∷ [])

abbrev pub f32_nearest : M (Unit {0})
f32_nearest = instruction Opcode.f32_nearest (f32 ∷ []) (f32 ∷ [])

abbrev pub f32_sqrt : M (Unit {0})
f32_sqrt = instruction Opcode.f32_sqrt (f32 ∷ []) (f32 ∷ [])

abbrev pub f32_add : M (Unit {0})
f32_add = instruction Opcode.f32_add (f32 ∷ f32 ∷ []) (f32 ∷ [])

abbrev pub f32_sub : M (Unit {0})
f32_sub = instruction Opcode.f32_sub (f32 ∷ f32 ∷ []) (f32 ∷ [])

abbrev pub f32_mul : M (Unit {0})
f32_mul = instruction Opcode.f32_mul (f32 ∷ f32 ∷ []) (f32 ∷ [])

abbrev pub f32_div : M (Unit {0})
f32_div = instruction Opcode.f32_div (f32 ∷ f32 ∷ []) (f32 ∷ [])

abbrev pub f32_min : M (Unit {0})
f32_min = instruction Opcode.f32_min (f32 ∷ f32 ∷ []) (f32 ∷ [])

abbrev pub f32_max : M (Unit {0})
f32_max = instruction Opcode.f32_max (f32 ∷ f32 ∷ []) (f32 ∷ [])

abbrev pub f32_copysign : M (Unit {0})
f32_copysign = instruction Opcode.f32_copysign (f32 ∷ f32 ∷ []) (f32 ∷ [])

abbrev pub f64_abs : M (Unit {0})
f64_abs = instruction Opcode.f64_abs (f64 ∷ []) (f64 ∷ [])

abbrev pub f64_neg : M (Unit {0})
f64_neg = instruction Opcode.f64_neg (f64 ∷ []) (f64 ∷ [])

abbrev pub f64_ceil : M (Unit {0})
f64_ceil = instruction Opcode.f64_ceil (f64 ∷ []) (f64 ∷ [])

abbrev pub f64_floor : M (Unit {0})
f64_floor = instruction Opcode.f64_floor (f64 ∷ []) (f64 ∷ [])

abbrev pub f64_trunc : M (Unit {0})
f64_trunc = instruction Opcode.f64_trunc (f64 ∷ []) (f64 ∷ [])

abbrev pub f64_nearest : M (Unit {0})
f64_nearest = instruction Opcode.f64_nearest (f64 ∷ []) (f64 ∷ [])

abbrev pub f64_sqrt : M (Unit {0})
f64_sqrt = instruction Opcode.f64_sqrt (f64 ∷ []) (f64 ∷ [])

abbrev pub f64_add : M (Unit {0})
f64_add = instruction Opcode.f64_add (f64 ∷ f64 ∷ []) (f64 ∷ [])

abbrev pub f64_sub : M (Unit {0})
f64_sub = instruction Opcode.f64_sub (f64 ∷ f64 ∷ []) (f64 ∷ [])

abbrev pub f64_mul : M (Unit {0})
f64_mul = instruction Opcode.f64_mul (f64 ∷ f64 ∷ []) (f64 ∷ [])

abbrev pub f64_div : M (Unit {0})
f64_div = instruction Opcode.f64_div (f64 ∷ f64 ∷ []) (f64 ∷ [])

abbrev pub f64_min : M (Unit {0})
f64_min = instruction Opcode.f64_min (f64 ∷ f64 ∷ []) (f64 ∷ [])

abbrev pub f64_max : M (Unit {0})
f64_max = instruction Opcode.f64_max (f64 ∷ f64 ∷ []) (f64 ∷ [])

abbrev pub f64_copysign : M (Unit {0})
f64_copysign = instruction Opcode.f64_copysign (f64 ∷ f64 ∷ []) (f64 ∷ [])
