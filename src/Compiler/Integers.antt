-- ===== src/Compiler/Integers.antt =====
-- The handlers of src/compiler.rs that its macro `instruction!` makes for the operators on integers: the
-- types of the operands, the last one first, and of the results.
use spacewasm.Prelude.{[], ◌∷◌}
use spacewasm.Types.{i32, i64}
use spacewasm.Text.Builder.{M}
use spacewasm.Opcode
use spacewasm.Compiler.{instruction}

abbrev pub i32_eqz : M (Unit {0})
i32_eqz = instruction Opcode.i32_eqz (i32 ∷ []) (i32 ∷ [])

abbrev pub i32_eq : M (Unit {0})
i32_eq = instruction Opcode.i32_eq (i32 ∷ i32 ∷ []) (i32 ∷ [])

abbrev pub i32_ne : M (Unit {0})
i32_ne = instruction Opcode.i32_ne (i32 ∷ i32 ∷ []) (i32 ∷ [])

abbrev pub i32_lt_s : M (Unit {0})
i32_lt_s = instruction Opcode.i32_lt_s (i32 ∷ i32 ∷ []) (i32 ∷ [])

abbrev pub i32_lt_u : M (Unit {0})
i32_lt_u = instruction Opcode.i32_lt_u (i32 ∷ i32 ∷ []) (i32 ∷ [])

abbrev pub i32_gt_s : M (Unit {0})
i32_gt_s = instruction Opcode.i32_gt_s (i32 ∷ i32 ∷ []) (i32 ∷ [])

abbrev pub i32_gt_u : M (Unit {0})
i32_gt_u = instruction Opcode.i32_gt_u (i32 ∷ i32 ∷ []) (i32 ∷ [])

abbrev pub i32_le_s : M (Unit {0})
i32_le_s = instruction Opcode.i32_le_s (i32 ∷ i32 ∷ []) (i32 ∷ [])

abbrev pub i32_le_u : M (Unit {0})
i32_le_u = instruction Opcode.i32_le_u (i32 ∷ i32 ∷ []) (i32 ∷ [])

abbrev pub i32_ge_s : M (Unit {0})
i32_ge_s = instruction Opcode.i32_ge_s (i32 ∷ i32 ∷ []) (i32 ∷ [])

abbrev pub i32_ge_u : M (Unit {0})
i32_ge_u = instruction Opcode.i32_ge_u (i32 ∷ i32 ∷ []) (i32 ∷ [])

abbrev pub i64_eqz : M (Unit {0})
i64_eqz = instruction Opcode.i64_eqz (i64 ∷ []) (i32 ∷ [])

abbrev pub i64_eq : M (Unit {0})
i64_eq = instruction Opcode.i64_eq (i64 ∷ i64 ∷ []) (i32 ∷ [])

abbrev pub i64_ne : M (Unit {0})
i64_ne = instruction Opcode.i64_ne (i64 ∷ i64 ∷ []) (i32 ∷ [])

abbrev pub i64_lt_s : M (Unit {0})
i64_lt_s = instruction Opcode.i64_lt_s (i64 ∷ i64 ∷ []) (i32 ∷ [])

abbrev pub i64_lt_u : M (Unit {0})
i64_lt_u = instruction Opcode.i64_lt_u (i64 ∷ i64 ∷ []) (i32 ∷ [])

abbrev pub i64_gt_s : M (Unit {0})
i64_gt_s = instruction Opcode.i64_gt_s (i64 ∷ i64 ∷ []) (i32 ∷ [])

abbrev pub i64_gt_u : M (Unit {0})
i64_gt_u = instruction Opcode.i64_gt_u (i64 ∷ i64 ∷ []) (i32 ∷ [])

abbrev pub i64_le_s : M (Unit {0})
i64_le_s = instruction Opcode.i64_le_s (i64 ∷ i64 ∷ []) (i32 ∷ [])

abbrev pub i64_le_u : M (Unit {0})
i64_le_u = instruction Opcode.i64_le_u (i64 ∷ i64 ∷ []) (i32 ∷ [])

abbrev pub i64_ge_s : M (Unit {0})
i64_ge_s = instruction Opcode.i64_ge_s (i64 ∷ i64 ∷ []) (i32 ∷ [])

abbrev pub i64_ge_u : M (Unit {0})
i64_ge_u = instruction Opcode.i64_ge_u (i64 ∷ i64 ∷ []) (i32 ∷ [])

abbrev pub i32_clz : M (Unit {0})
i32_clz = instruction Opcode.i32_clz (i32 ∷ []) (i32 ∷ [])

abbrev pub i32_ctz : M (Unit {0})
i32_ctz = instruction Opcode.i32_ctz (i32 ∷ []) (i32 ∷ [])

abbrev pub i32_popcnt : M (Unit {0})
i32_popcnt = instruction Opcode.i32_popcnt (i32 ∷ []) (i32 ∷ [])

abbrev pub i32_add : M (Unit {0})
i32_add = instruction Opcode.i32_add (i32 ∷ i32 ∷ []) (i32 ∷ [])

abbrev pub i32_sub : M (Unit {0})
i32_sub = instruction Opcode.i32_sub (i32 ∷ i32 ∷ []) (i32 ∷ [])

abbrev pub i32_mul : M (Unit {0})
i32_mul = instruction Opcode.i32_mul (i32 ∷ i32 ∷ []) (i32 ∷ [])

abbrev pub i32_div_s : M (Unit {0})
i32_div_s = instruction Opcode.i32_div_s (i32 ∷ i32 ∷ []) (i32 ∷ [])

abbrev pub i32_div_u : M (Unit {0})
i32_div_u = instruction Opcode.i32_div_u (i32 ∷ i32 ∷ []) (i32 ∷ [])

abbrev pub i32_rem_s : M (Unit {0})
i32_rem_s = instruction Opcode.i32_rem_s (i32 ∷ i32 ∷ []) (i32 ∷ [])

abbrev pub i32_rem_u : M (Unit {0})
i32_rem_u = instruction Opcode.i32_rem_u (i32 ∷ i32 ∷ []) (i32 ∷ [])

abbrev pub i32_and : M (Unit {0})
i32_and = instruction Opcode.i32_and (i32 ∷ i32 ∷ []) (i32 ∷ [])

abbrev pub i32_or : M (Unit {0})
i32_or = instruction Opcode.i32_or (i32 ∷ i32 ∷ []) (i32 ∷ [])

abbrev pub i32_xor : M (Unit {0})
i32_xor = instruction Opcode.i32_xor (i32 ∷ i32 ∷ []) (i32 ∷ [])

abbrev pub i32_shl : M (Unit {0})
i32_shl = instruction Opcode.i32_shl (i32 ∷ i32 ∷ []) (i32 ∷ [])

abbrev pub i32_shr_s : M (Unit {0})
i32_shr_s = instruction Opcode.i32_shr_s (i32 ∷ i32 ∷ []) (i32 ∷ [])

abbrev pub i32_shr_u : M (Unit {0})
i32_shr_u = instruction Opcode.i32_shr_u (i32 ∷ i32 ∷ []) (i32 ∷ [])

abbrev pub i32_rotl : M (Unit {0})
i32_rotl = instruction Opcode.i32_rotl (i32 ∷ i32 ∷ []) (i32 ∷ [])

abbrev pub i32_rotr : M (Unit {0})
i32_rotr = instruction Opcode.i32_rotr (i32 ∷ i32 ∷ []) (i32 ∷ [])

abbrev pub i64_clz : M (Unit {0})
i64_clz = instruction Opcode.i64_clz (i64 ∷ []) (i64 ∷ [])

abbrev pub i64_ctz : M (Unit {0})
i64_ctz = instruction Opcode.i64_ctz (i64 ∷ []) (i64 ∷ [])

abbrev pub i64_popcnt : M (Unit {0})
i64_popcnt = instruction Opcode.i64_popcnt (i64 ∷ []) (i64 ∷ [])

abbrev pub i64_add : M (Unit {0})
i64_add = instruction Opcode.i64_add (i64 ∷ i64 ∷ []) (i64 ∷ [])

abbrev pub i64_sub : M (Unit {0})
i64_sub = instruction Opcode.i64_sub (i64 ∷ i64 ∷ []) (i64 ∷ [])

abbrev pub i64_mul : M (Unit {0})
i64_mul = instruction Opcode.i64_mul (i64 ∷ i64 ∷ []) (i64 ∷ [])

abbrev pub i64_div_s : M (Unit {0})
i64_div_s = instruction Opcode.i64_div_s (i64 ∷ i64 ∷ []) (i64 ∷ [])

abbrev pub i64_div_u : M (Unit {0})
i64_div_u = instruction Opcode.i64_div_u (i64 ∷ i64 ∷ []) (i64 ∷ [])

abbrev pub i64_rem_s : M (Unit {0})
i64_rem_s = instruction Opcode.i64_rem_s (i64 ∷ i64 ∷ []) (i64 ∷ [])

abbrev pub i64_rem_u : M (Unit {0})
i64_rem_u = instruction Opcode.i64_rem_u (i64 ∷ i64 ∷ []) (i64 ∷ [])

abbrev pub i64_and : M (Unit {0})
i64_and = instruction Opcode.i64_and (i64 ∷ i64 ∷ []) (i64 ∷ [])

abbrev pub i64_or : M (Unit {0})
i64_or = instruction Opcode.i64_or (i64 ∷ i64 ∷ []) (i64 ∷ [])

abbrev pub i64_xor : M (Unit {0})
i64_xor = instruction Opcode.i64_xor (i64 ∷ i64 ∷ []) (i64 ∷ [])

abbrev pub i64_shl : M (Unit {0})
i64_shl = instruction Opcode.i64_shl (i64 ∷ i64 ∷ []) (i64 ∷ [])

abbrev pub i64_shr_s : M (Unit {0})
i64_shr_s = instruction Opcode.i64_shr_s (i64 ∷ i64 ∷ []) (i64 ∷ [])

abbrev pub i64_shr_u : M (Unit {0})
i64_shr_u = instruction Opcode.i64_shr_u (i64 ∷ i64 ∷ []) (i64 ∷ [])

abbrev pub i64_rotl : M (Unit {0})
i64_rotl = instruction Opcode.i64_rotl (i64 ∷ i64 ∷ []) (i64 ∷ [])

abbrev pub i64_rotr : M (Unit {0})
i64_rotr = instruction Opcode.i64_rotr (i64 ∷ i64 ∷ []) (i64 ∷ [])
