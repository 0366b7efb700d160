-- ===== src/Tests/TypeRules.antt =====
-- Types and their limits on concrete inputs.
use spacewasm.Prelude.{ℕ, ◌≡◌, ◌↔◌, true, none, some, List, [], ◌∷◌, usize_max, arith}
use spacewasm.Errors.{ValidationError}
use spacewasm.Reader.{chunk, Reader, new}
use spacewasm.Types.{
  Limit, matches, MemType, one_byte, read_mem_type, TableType, func_ref, read_table_type,
}
use spacewasm.Types.Matching.{Allows, matches_iff}
use spacewasm.Types.Valid.{IsMemType, read_mem_type-IsMemType}
use spacewasm.Types.Raw.{RawValue}
use spacewasm.Reader.Bytes.{new-At}
use spacewasm.Wire.{Returns, read_mem_type_lem, read_table_type_lem}

abbrev whole : ℕ → List ℕ → Reader
whole b bs = new (record { answers = chunk (b ∷ bs) ∷ []; returned = [] })

abbrev narrow : Limit
narrow = record { min = 2; max = some 3 }

abbrev wide : Limit
wide = record { min = 1; max = none }

matches_iff_example : (matches narrow wide ≡ true) ↔ ((n : ℕ) → Allows narrow n → Allows wide n)
matches_iff_example = matches_iff narrow wide (omega arith)

abbrev small_memory : MemType
small_memory = record { initial_pages = 1; max_pages = some 2; page_size = one_byte }

mem_type_read :
    Returns read_mem_type
      (whole 0b1001 (1 ∷ 2 ∷ 0 ∷ []))
      small_memory
      []
      ValidationError.eof
      4
      usize_max
mem_type_read =
    read_mem_type_lem (whole 0b1001 (1 ∷ 2 ∷ 0 ∷ [])) [] ValidationError.eof 0 usize_max 0 0 0 1
      (some 2) one_byte true (omega arith, omega arith, omega arith)
      (omega arith, omega arith, omega arith) (omega arith, omega arith, omega arith) tt
      (omega arith) (omega arith) (λ m e. ground arith) (new-At _) (omega arith)

small_memory-IsMemType : IsMemType small_memory
small_memory-IsMemType = record {
  ordered = omega arith;
  min_small = omega arith;
  max_small = omega arith;
}

read_mem_type-IsMemType_example : IsMemType small_memory
read_mem_type-IsMemType_example =
    read_mem_type-IsMemType (whole 0b1001 (1 ∷ 2 ∷ 0 ∷ [])) (mem_type_read.0) small_memory
      (mem_type_read.1)

abbrev small_table : TableType
small_table = record { elem_type = func_ref; limits = record { min = 1; max = some 2 } }

table_type_read :
    Returns read_table_type
      (whole 0x70 (1 ∷ 1 ∷ 2 ∷ []))
      small_table
      []
      ValidationError.eof
      4
      usize_max
table_type_read =
    read_table_type_lem (whole 0x70 (1 ∷ 1 ∷ 2 ∷ [])) [] ValidationError.eof 0 usize_max 0 0 1
      (some 2) (omega arith, omega arith, omega arith) (omega arith, omega arith, omega arith)
      (omega arith) (omega arith) (λ m e. ground arith) (new-At _) (omega arith)

abbrev zero_value : RawValue
zero_value = record { bits = 0 }
