-- ===== src/Opcode/Fc.antt =====
-- The module `fc` of src/opcode.rs: the codes behind `extended_fc`.
use spacewasm.Prelude.{ℕ}

abbrev pub i32_trunc_sat_f32_s : ℕ
i32_trunc_sat_f32_s = 0

abbrev pub i32_trunc_sat_f32_u : ℕ
i32_trunc_sat_f32_u = 1

abbrev pub i32_trunc_sat_f64_s : ℕ
i32_trunc_sat_f64_s = 2

abbrev pub i32_trunc_sat_f64_u : ℕ
i32_trunc_sat_f64_u = 3

abbrev pub i64_trunc_sat_f32_s : ℕ
i64_trunc_sat_f32_s = 4

abbrev pub i64_trunc_sat_f32_u : ℕ
i64_trunc_sat_f32_u = 5

abbrev pub i64_trunc_sat_f64_s : ℕ
i64_trunc_sat_f64_s = 6

abbrev pub i64_trunc_sat_f64_u : ℕ
i64_trunc_sat_f64_u = 7
