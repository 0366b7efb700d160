-- ===== src/Tests/Decoders.antt =====
-- The decoders on concrete bytes, cut into chunks in the middle of a number.
use spacewasm.Prelude.{ℕ, ◌-◌, ◌^◌, refl, List, [], ◌∷◌, usize_max, arith, inr}
use spacewasm.Errors.{ValidationError, Result, ok, AllocError}
use spacewasm.Reader.{chunk, Reader, new, read_u8}
use spacewasm.Reader.Bytes.{new-At}
use spacewasm.Reader.Reads.{Reads-u8}
use spacewasm.Reader.Leb.{read_u32, read_i32, read_i64}
use spacewasm.Reader.Vectors.{read_vec_in}
use spacewasm.Wire.{Returns, read_u32_lem, read_i32_lem, read_i64_lem, read_vec_in_lem}

-- The first byte alone, and then the others.
abbrev cut : ℕ → List ℕ → Reader
cut b bs = new (record { answers = chunk (b ∷ []) ∷ chunk bs ∷ []; returned = [] })

abbrev granting : ℕ → Result AllocError (Unit {0})
granting n = ok tt

-- 300 is 0xAC 0x02.
read_u32_lem_example :
    Returns read_u32 (cut 0xAC (0x02 ∷ 9 ∷ [])) 300 (9 ∷ []) ValidationError.eof 2 usize_max
read_u32_lem_example =
    read_u32_lem (cut 0xAC (0x02 ∷ 9 ∷ [])) (9 ∷ []) ValidationError.eof 0 usize_max 1 300
      (omega arith) (omega arith) (omega arith) (new-At _) (omega arith)

-- - 129 is 0xFF 0x7E.
read_i32_lem_example :
    Returns read_i32
      (cut 0xFF (0x7E ∷ 9 ∷ []))
      (2 ^ 32 - 129)
      (9 ∷ [])
      ValidationError.eof
      2
      usize_max
read_i32_lem_example =
    read_i32_lem (cut 0xFF (0x7E ∷ 9 ∷ [])) (9 ∷ []) ValidationError.eof 0 usize_max 1
      (2 ^ 32 - 129) (omega arith) (inr (omega arith, omega arith, omega arith)) (new-At _)
      (omega arith)

read_i64_lem_example :
    Returns read_i64
      (cut 0xFF (0x7E ∷ 9 ∷ []))
      (2 ^ 64 - 129)
      (9 ∷ [])
      ValidationError.eof
      2
      usize_max
read_i64_lem_example =
    read_i64_lem (cut 0xFF (0x7E ∷ 9 ∷ [])) (9 ∷ []) ValidationError.eof 0 usize_max 1
      (2 ^ 64 - 129) (omega arith) (inr (omega arith, omega arith, omega arith)) (new-At _)
      (omega arith)

read_vec_in_lem_example :
    Returns
      (read_vec_in granting read_u8)
      (cut 2 (7 ∷ 8 ∷ 9 ∷ []))
      (7 ∷ 8 ∷ [])
      (9 ∷ [])
      ValidationError.eof
      3
      usize_max
read_vec_in_lem_example =
    read_vec_in_lem (cut 2 (7 ∷ 8 ∷ 9 ∷ [])) (9 ∷ []) ValidationError.eof 0 usize_max read_u8
      granting 0 ((7, 7 ∷ []) ∷ (8, 8 ∷ []) ∷ []) (omega arith, omega arith, omega arith) refl
      (Reads-u8 7, omega arith, (Reads-u8 8, omega arith, tt)) (new-At _) (omega arith)
