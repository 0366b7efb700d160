-- ===== src/Reader/Leb/Progress.antt =====
-- The LEB128 readers of src/reader.rs never go back.
use spacewasm.Prelude.{ℕ, zero, suc, ◌+◌}
use spacewasm.Reader.{M}
use spacewasm.Reader.Moves.{Moves, Moves-strip_bytes, moves_rules}
use spacewasm.Reader.Leb.{
  u32_group, u32_last, u32_groups, read_u32, signed_group, signed_last, signed_groups, read_i32,
  read_i64, read_f32_bits, read_f64_bits,
}

Moves-u32_group :
    (shift result : ℕ) (next : ℕ → M ℕ)
    → ((n : ℕ) → Moves (next n))
    → Moves (u32_group shift result next)
unfolding u32_group
Moves-u32_group shift result next k = search (moves_rules, k)

Moves-u32_groups : (n shift result : ℕ) → Moves (u32_groups n shift result)
unfolding u32_groups u32_last
Moves-u32_groups zero shift result = search moves_rules
Moves-u32_groups (suc k) shift result =
    Moves-u32_group shift result (u32_groups k (shift + 7)) (Moves-u32_groups k (shift + 7))

pub Moves-read_u32 : Moves read_u32
unfolding read_u32
Moves-read_u32 = Moves-u32_groups 4 0 0

Moves-signed_group :
    (w shift result : ℕ) (next : ℕ → M ℕ)
    → ((n : ℕ) → Moves (next n))
    → Moves (signed_group w shift result next)
unfolding signed_group
Moves-signed_group w shift result next k = search (moves_rules, k)

Moves-signed_groups : (w mask n shift result : ℕ) → Moves (signed_groups w mask n shift result)
unfolding signed_groups signed_last
Moves-signed_groups w mask zero shift result = search moves_rules
Moves-signed_groups w mask (suc k) shift result =
    Moves-signed_group w shift result (signed_groups w mask k (shift + 7))
      (Moves-signed_groups w mask k (shift + 7))

pub Moves-read_i32 : Moves read_i32
unfolding read_i32
Moves-read_i32 = Moves-signed_groups 32 _ 4 0 0

pub Moves-read_i64 : Moves read_i64
unfolding read_i64
Moves-read_i64 = Moves-signed_groups 64 _ 9 0 0

pub Moves-read_f32_bits : Moves read_f32_bits
unfolding read_f32_bits
Moves-read_f32_bits = search (moves_rules, Moves-strip_bytes)

pub Moves-read_f64_bits : Moves read_f64_bits
unfolding read_f64_bits
Moves-read_f64_bits = search (moves_rules, Moves-strip_bytes)
