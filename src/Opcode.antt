-- ===== src/Opcode.antt =====
-- The opcodes of the intermediate representation, src/opcode.rs.
pub mod Fc
use spacewasm.Prelude.{ℕ}

abbrev pub unreachable : ℕ
unreachable = 0x00

abbrev pub nop : ℕ
nop = 0x01

abbrev pub block : ℕ
block = 0x02

abbrev pub loop : ℕ
loop = 0x03

abbrev pub if_ : ℕ
if_ = 0x04

abbrev pub else_ : ℕ
else_ = 0x05

abbrev pub end : ℕ
end = 0x0B

abbrev pub br : ℕ
br = 0x0C

abbrev pub br_if : ℕ
br_if = 0x0D

abbrev pub br_table : ℕ
br_table = 0x0E

abbrev pub return_ : ℕ
return_ = 0x0F

abbrev pub call : ℕ
call = 0x10

abbrev pub call_host : ℕ
call_host = 0x12

abbrev pub call_extern : ℕ
call_extern = 0x13

abbrev pub drop : ℕ
drop = 0x1A

abbrev pub select : ℕ
select = 0x1B

abbrev pub call_indirect : ℕ
call_indirect = 0x11

abbrev pub local_get : ℕ
local_get = 0x20

abbrev pub local_set : ℕ
local_set = 0x21

abbrev pub local_tee : ℕ
local_tee = 0x22

abbrev pub global_get : ℕ
global_get = 0x23

abbrev pub global_set : ℕ
global_set = 0x24

abbrev pub global_get_host : ℕ
global_get_host = 0x25

abbrev pub global_set_host : ℕ
global_set_host = 0x26

abbrev pub global_get_extern : ℕ
global_get_extern = 0x27

abbrev pub global_set_extern : ℕ
global_set_extern = 0x1C

abbrev pub i32_load : ℕ
i32_load = 0x28

abbrev pub i64_load : ℕ
i64_load = 0x29

abbrev pub f32_load : ℕ
f32_load = 0x2A

abbrev pub f64_load : ℕ
f64_load = 0x2B

abbrev pub i32_load8_s : ℕ
i32_load8_s = 0x2C

abbrev pub i32_load8_u : ℕ
i32_load8_u = 0x2D

abbrev pub i32_load16_s : ℕ
i32_load16_s = 0x2E

abbrev pub i32_load16_u : ℕ
i32_load16_u = 0x2F

abbrev pub i64_load8_s : ℕ
i64_load8_s = 0x30

abbrev pub i64_load8_u : ℕ
i64_load8_u = 0x31

abbrev pub i64_load16_s : ℕ
i64_load16_s = 0x32

abbrev pub i64_load16_u : ℕ
i64_load16_u = 0x33

abbrev pub i64_load32_s : ℕ
i64_load32_s = 0x34

abbrev pub i64_load32_u : ℕ
i64_load32_u = 0x35

abbrev pub i32_store : ℕ
i32_store = 0x36

abbrev pub i64_store : ℕ
i64_store = 0x37

abbrev pub f32_store : ℕ
f32_store = 0x38

abbrev pub f64_store : ℕ
f64_store = 0x39

abbrev pub i32_store8 : ℕ
i32_store8 = 0x3A

abbrev pub i32_store16 : ℕ
i32_store16 = 0x3B

abbrev pub i64_store8 : ℕ
i64_store8 = 0x3C

abbrev pub i64_store16 : ℕ
i64_store16 = 0x3D

abbrev pub i64_store32 : ℕ
i64_store32 = 0x3E

abbrev pub memory_size : ℕ
memory_size = 0x3F

abbrev pub memory_grow : ℕ
memory_grow = 0x40

abbrev pub i32_const : ℕ
i32_const = 0x41

abbrev pub i64_const : ℕ
i64_const = 0x42

abbrev pub f32_const : ℕ
f32_const = 0x43

abbrev pub f64_const : ℕ
f64_const = 0x44

abbrev pub i32_eqz : ℕ
i32_eqz = 0x45

abbrev pub i32_eq : ℕ
i32_eq = 0x46

abbrev pub i32_ne : ℕ
i32_ne = 0x47

abbrev pub i32_lt_s : ℕ
i32_lt_s = 0x48

abbrev pub i32_lt_u : ℕ
i32_lt_u = 0x49

abbrev pub i32_gt_s : ℕ
i32_gt_s = 0x4A

abbrev pub i32_gt_u : ℕ
i32_gt_u = 0x4B

abbrev pub i32_le_s : ℕ
i32_le_s = 0x4C

abbrev pub i32_le_u : ℕ
i32_le_u = 0x4D

abbrev pub i32_ge_s : ℕ
i32_ge_s = 0x4E

abbrev pub i32_ge_u : ℕ
i32_ge_u = 0x4F

abbrev pub i64_eqz : ℕ
i64_eqz = 0x50

abbrev pub i64_eq : ℕ
i64_eq = 0x51

abbrev pub i64_ne : ℕ
i64_ne = 0x52

abbrev pub i64_lt_s : ℕ
i64_lt_s = 0x53

abbrev pub i64_lt_u : ℕ
i64_lt_u = 0x54

abbrev pub i64_gt_s : ℕ
i64_gt_s = 0x55

abbrev pub i64_gt_u : ℕ
i64_gt_u = 0x56

abbrev pub i64_le_s : ℕ
i64_le_s = 0x57

abbrev pub i64_le_u : ℕ
i64_le_u = 0x58

abbrev pub i64_ge_s : ℕ
i64_ge_s = 0x59

abbrev pub i64_ge_u : ℕ
i64_ge_u = 0x5A

abbrev pub f32_eq : ℕ
f32_eq = 0x5B

abbrev pub f32_ne : ℕ
f32_ne = 0x5C

abbrev pub f32_lt : ℕ
f32_lt = 0x5D

abbrev pub f32_gt : ℕ
f32_gt = 0x5E

abbrev pub f32_le : ℕ
f32_le = 0x5F

abbrev pub f32_ge : ℕ
f32_ge = 0x60

abbrev pub f64_eq : ℕ
f64_eq = 0x61

abbrev pub f64_ne : ℕ
f64_ne = 0x62

abbrev pub f64_lt : ℕ
f64_lt = 0x63

abbrev pub f64_gt : ℕ
f64_gt = 0x64

abbrev pub f64_le : ℕ
f64_le = 0x65

abbrev pub f64_ge : ℕ
f64_ge = 0x66

abbrev pub i32_add : ℕ
i32_add = 0x6A

abbrev pub i32_sub : ℕ
i32_sub = 0x6B

abbrev pub i32_mul : ℕ
i32_mul = 0x6C

abbrev pub i32_div_s : ℕ
i32_div_s = 0x6D

abbrev pub i32_div_u : ℕ
i32_div_u = 0x6E

abbrev pub i32_rem_s : ℕ
i32_rem_s = 0x6F

abbrev pub i32_clz : ℕ
i32_clz = 0x67

abbrev pub i32_ctz : ℕ
i32_ctz = 0x68

abbrev pub i32_popcnt : ℕ
i32_popcnt = 0x69

abbrev pub i32_rem_u : ℕ
i32_rem_u = 0x70

abbrev pub i32_and : ℕ
i32_and = 0x71

abbrev pub i32_or : ℕ
i32_or = 0x72

abbrev pub i32_xor : ℕ
i32_xor = 0x73

abbrev pub i32_shl : ℕ
i32_shl = 0x74

abbrev pub i32_shr_s : ℕ
i32_shr_s = 0x75

abbrev pub i32_shr_u : ℕ
i32_shr_u = 0x76

abbrev pub i32_rotl : ℕ
i32_rotl = 0x77

abbrev pub i32_rotr : ℕ
i32_rotr = 0x78

abbrev pub i64_clz : ℕ
i64_clz = 0x79

abbrev pub i64_ctz : ℕ
i64_ctz = 0x7A

abbrev pub i64_popcnt : ℕ
i64_popcnt = 0x7B

abbrev pub i64_add : ℕ
i64_add = 0x7C

abbrev pub i64_sub : ℕ
i64_sub = 0x7D

abbrev pub i64_mul : ℕ
i64_mul = 0x7E

abbrev pub i64_div_s : ℕ
i64_div_s = 0x7F

abbrev pub i64_div_u : ℕ
i64_div_u = 0x80

abbrev pub i64_rem_s : ℕ
i64_rem_s = 0x81

abbrev pub i64_rem_u : ℕ
i64_rem_u = 0x82

abbrev pub i64_and : ℕ
i64_and = 0x83

abbrev pub i64_or : ℕ
i64_or = 0x84

abbrev pub i64_xor : ℕ
i64_xor = 0x85

abbrev pub i64_shl : ℕ
i64_shl = 0x86

abbrev pub i64_shr_s : ℕ
i64_shr_s = 0x87

abbrev pub i64_shr_u : ℕ
i64_shr_u = 0x88

abbrev pub i64_rotl : ℕ
i64_rotl = 0x89

abbrev pub i64_rotr : ℕ
i64_rotr = 0x8A

abbrev pub f32_abs : ℕ
f32_abs = 0x8B

abbrev pub f32_neg : ℕ
f32_neg = 0x8C

abbrev pub f32_ceil : ℕ
f32_ceil = 0x8D

abbrev pub f32_floor : ℕ
f32_floor = 0x8E

abbrev pub f32_trunc : ℕ
f32_trunc = 0x8F

abbrev pub f32_nearest : ℕ
f32_nearest = 0x90

abbrev pub f32_sqrt : ℕ
f32_sqrt = 0x91

abbrev pub f32_add : ℕ
f32_add = 0x92

abbrev pub f32_sub : ℕ
f32_sub = 0x93

abbrev pub f32_mul : ℕ
f32_mul = 0x94

abbrev pub f32_div : ℕ
f32_div = 0x95

abbrev pub f32_min : ℕ
f32_min = 0x96

abbrev pub f32_max : ℕ
f32_max = 0x97

abbrev pub f32_copysign : ℕ
f32_copysign = 0x98

abbrev pub f64_abs : ℕ
f64_abs = 0x99

abbrev pub f64_neg : ℕ
f64_neg = 0x9A

abbrev pub f64_ceil : ℕ
f64_ceil = 0x9B

abbrev pub f64_floor : ℕ
f64_floor = 0x9C

abbrev pub f64_trunc : ℕ
f64_trunc = 0x9D

abbrev pub f64_nearest : ℕ
f64_nearest = 0x9E

abbrev pub f64_sqrt : ℕ
f64_sqrt = 0x9F

abbrev pub f64_add : ℕ
f64_add = 0xA0

abbrev pub f64_sub : ℕ
f64_sub = 0xA1

abbrev pub f64_mul : ℕ
f64_mul = 0xA2

abbrev pub f64_div : ℕ
f64_div = 0xA3

abbrev pub f64_min : ℕ
f64_min = 0xA4

abbrev pub f64_max : ℕ
f64_max = 0xA5

abbrev pub f64_copysign : ℕ
f64_copysign = 0xA6

abbrev pub i32_wrap_i64 : ℕ
i32_wrap_i64 = 0xA7

abbrev pub i32_trunc_f32_s : ℕ
i32_trunc_f32_s = 0xA8

abbrev pub i32_trunc_f32_u : ℕ
i32_trunc_f32_u = 0xA9

abbrev pub i32_trunc_f64_s : ℕ
i32_trunc_f64_s = 0xAA

abbrev pub i32_trunc_f64_u : ℕ
i32_trunc_f64_u = 0xAB

abbrev pub i64_extend_i32_s : ℕ
i64_extend_i32_s = 0xAC

abbrev pub i64_extend_i32_u : ℕ
i64_extend_i32_u = 0xAD

abbrev pub i64_trunc_f32_s : ℕ
i64_trunc_f32_s = 0xAE

abbrev pub i64_trunc_f32_u : ℕ
i64_trunc_f32_u = 0xAF

abbrev pub i64_trunc_f64_s : ℕ
i64_trunc_f64_s = 0xB0

abbrev pub i64_trunc_f64_u : ℕ
i64_trunc_f64_u = 0xB1

abbrev pub f32_convert_i32_s : ℕ
f32_convert_i32_s = 0xB2

abbrev pub f32_convert_i32_u : ℕ
f32_convert_i32_u = 0xB3

abbrev pub f32_convert_i64_s : ℕ
f32_convert_i64_s = 0xB4

abbrev pub f32_convert_i64_u : ℕ
f32_convert_i64_u = 0xB5

abbrev pub f32_demote_f64 : ℕ
f32_demote_f64 = 0xB6

abbrev pub f64_convert_i32_s : ℕ
f64_convert_i32_s = 0xB7

abbrev pub f64_convert_i32_u : ℕ
f64_convert_i32_u = 0xB8

abbrev pub f64_convert_i64_s : ℕ
f64_convert_i64_s = 0xB9

abbrev pub f64_convert_i64_u : ℕ
f64_convert_i64_u = 0xBA

abbrev pub f64_promote_f32 : ℕ
f64_promote_f32 = 0xBB

abbrev pub i32_reinterpret_f32 : ℕ
i32_reinterpret_f32 = 0xBC

abbrev pub i64_reinterpret_f64 : ℕ
i64_reinterpret_f64 = 0xBD

abbrev pub f32_reinterpret_i32 : ℕ
f32_reinterpret_i32 = 0xBE

abbrev pub f64_reinterpret_i64 : ℕ
f64_reinterpret_i64 = 0xBF

abbrev pub i32_extend_8_s : ℕ
i32_extend_8_s = 0xC0

abbrev pub i32_extend_16_s : ℕ
i32_extend_16_s = 0xC1

abbrev pub i64_extend_8_s : ℕ
i64_extend_8_s = 0xC2

abbrev pub i64_extend_16_s : ℕ
i64_extend_16_s = 0xC3

abbrev pub i64_extend_32_s : ℕ
i64_extend_32_s = 0xC4

abbrev pub extended_fc : ℕ
extended_fc = 0xFC
