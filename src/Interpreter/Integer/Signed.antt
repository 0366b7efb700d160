-- ===== src/Interpreter/Integer/Signed.antt =====
-- Signed comparison and division in src/interpreter.rs, on the bit patterns of two's complement.
use spacewasm.Prelude.{ℕ, ◌+◌, ◌%◌, ◌^◌, ◌<◌, ◌≡◌, ltb, arith}
use spacewasm.Interpreter.Integer.{is_negative, signed_lt, sign_extend}

-- A signed comparison is the unsigned one of the patterns with the sign bit flipped, and sign extension
-- keeps it.
pub signed_lt_lem :
    (a b : ℕ)
    → a < 2 ^ 32
    → b < 2 ^ 32
    → (signed_lt 32 a b ≡ ltb ((a + 2 ^ 31) % 2 ^ 32) ((b + 2 ^ 31) % 2 ^ 32))
      × (signed_lt 64 (sign_extend 32 64 a) (sign_extend 32 64 b) ≡ signed_lt 32 a b)
unfolding signed_lt is_negative sign_extend
signed_lt_lem a b h k = (ground arith, ground arith)
