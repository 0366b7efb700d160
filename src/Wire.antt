-- ===== src/Wire.antt =====
-- The decoders of src/reader.rs and src/types.rs on a reader that stands anywhere in its input: a call
-- returns, with the value that the bytes encode, and leaves the reader just behind them. The chunks of
-- the stream may be cut anywhere.
use spacewasm.Prelude.{ℕ, suc, ◌+◌, ◌^◌, ◌≤◌, ◌<◌, ◌≡◌, Bool, Option, some, List, ◌∷◌, ◌++◌, length}
use spacewasm.Errors.{AllocError, ValidationError, Result, ok, err}
use spacewasm.Reader.{Reader, M, skip, strip_bytes}
use spacewasm.Reader.Fill.{At}
use spacewasm.Reader.Leb.{read_u32, read_i32, read_i64}
use spacewasm.Reader.Leb.Groups.{leb128}
use spacewasm.Reader.Leb.Signed.{groups_of, FitsGroups}
use spacewasm.Reader.Leb.Unsigned.{read_u32-leb, read_u32_too_wide}
use spacewasm.Reader.Leb.SignedWords.{read_i32-leb, read_i64-leb}
use spacewasm.Reader.Vectors.{
  read_vec_in, read_vec_stack, Encoded, values, bytes_of_all, read_vec_in-Encoded,
  read_vec_stack-Encoded,
}
use spacewasm.Reader.Limits.{strip_bytes-Reads, skip-Reads}
use spacewasm.Types.{
  ValType, read_func_type, MemPageSize, read_mem_type, max_allowed_pages, func_ref, read_table_type,
  max_table_elements, read_global_type,
}
use spacewasm.Types.Matching.{Below}
use spacewasm.Types.Decode.{
  val_byte, limit_bytes, flag_byte, Fits32, MaxFits32, read_global_type-bytes,
}
use spacewasm.Types.Composite.{
  vec_bytes, mem_flag, max_bytes, page_log, page_field, PageGiven, read_func_type-bytes,
  read_mem_type-bytes, read_table_type-bytes,
}

-- `m` on `r` returns `v`, and the reader then delivers `bs` from offset `off` on.
abbrev pub Returns : {A : Type 0} → M A → Reader → A → List ℕ → ValidationError → ℕ → ℕ → Type 0
Returns m r v bs stop off lim = (r' : Reader) × (m r ≡ (ok v, r')) × At r' bs stop off lim

module _ (r : Reader) (bs : List ℕ) (stop : ValidationError) (off lim : ℕ) where
  -- `read_u32` returns the number below 2 ^ 32 from each of its LEB128 encodings of one to five bytes,
  -- the padded ones too, and takes exactly those bytes.
  pub read_u32_lem :
      (n v : ℕ)
      → n ≤ 4
      → v < 128 ^ suc n
      → v < 2 ^ 32
      → At r (leb128 n v ++ bs) stop off lim
      → off + length (leb128 n v) ≤ lim
      → Returns read_u32 r v bs stop (off + length (leb128 n v)) lim
  read_u32_lem n v hn fits small h room =
      (read_u32-leb n v hn fits small).runs r bs stop off lim h room

  -- After four bytes that go on, a fifth byte from 16 on (one that goes on too, or sets a bit above
  -- bit 31) is refused as a malformed integer.
  pub read_u32_malformed :
      (b0 b1 b2 b3 b4 : ℕ)
      → (128 ≤ b0) × (b0 < 256)
      → (128 ≤ b1) × (b1 < 256)
      → (128 ≤ b2) × (b2 < 256)
      → (128 ≤ b3) × (b3 < 256)
      → (16 ≤ b4) × (b4 < 256)
      → At r (b0 ∷ b1 ∷ b2 ∷ b3 ∷ b4 ∷ bs) stop off lim
      → off + 5 ≤ lim
      → (read_u32 r).0 ≡ err ValidationError.malformed_integer
  read_u32_malformed b0 b1 b2 b3 b4 h0 h1 h2 h3 h4 h room =
      (read_u32_too_wide b0 b1 b2 b3 b4 h0 h1 h2 h3 h4).fails r bs stop off lim h room

  -- `read_i32` returns the two's complement number from each of its signed LEB128 encodings of one to
  -- five bytes, the padded ones too, and takes exactly those bytes.
  pub read_i32_lem :
      (n v : ℕ)
      → n ≤ 4
      → FitsGroups 32 n v
      → At r (leb128 n (groups_of 32 n v) ++ bs) stop off lim
      → off + length (leb128 n (groups_of 32 n v)) ≤ lim
      → Returns read_i32 r v bs stop (off + length (leb128 n (groups_of 32 n v))) lim
  read_i32_lem n v hn fits h room = (read_i32-leb n v hn fits).runs r bs stop off lim h room

  -- `read_i64` returns the two's complement number from each of its signed LEB128 encodings of one to
  -- ten bytes, the padded ones too, and takes exactly those bytes.
  pub read_i64_lem :
      (n v : ℕ)
      → n ≤ 9
      → FitsGroups 64 n v
      → At r (leb128 n (groups_of 64 n v) ++ bs) stop off lim
      → off + length (leb128 n (groups_of 64 n v)) ≤ lim
      → Returns read_i64 r v bs stop (off + length (leb128 n (groups_of 64 n v))) lim
  read_i64_lem n v hn fits h room = (read_i64-leb n v hn fits).runs r bs stop off lim h room

  -- A vector is returned from its count, in any LEB128 encoding, and its elements, if the allocation of
  -- the count succeeds: the guard on the length refuses no such vector.
  pub read_vec_in_lem :
      {A : Type 0} (m : M A) (new_in : ℕ → Result AllocError (Unit {0})) (n : ℕ)
      (es : List (A × List ℕ))
      → Fits32 n (length es)
      → new_in (length es) ≡ ok tt
      → Encoded m es
      → At r ((leb128 n (length es) ++ bytes_of_all es) ++ bs) stop off lim
      → off + length (leb128 n (length es) ++ bytes_of_all es) ≤ lim
      → Returns
          (read_vec_in new_in m)
          r
          (values es)
          bs
          stop
          (off + length (leb128 n (length es) ++ bytes_of_all es))
          lim
  read_vec_in_lem m new_in n es (hn, fits, small) got enc h room =
      (read_vec_in-Encoded m new_in n es hn fits small got enc).runs r bs stop off lim h room

  -- A vector of at most SIZE elements is returned without an allocation.
  pub read_vec_stack_lem :
      {A : Type 0} (m : M A) (size n : ℕ) (es : List (A × List ℕ))
      → Fits32 n (length es)
      → length es ≤ size
      → Encoded m es
      → At r ((leb128 n (length es) ++ bytes_of_all es) ++ bs) stop off lim
      → off + length (leb128 n (length es) ++ bytes_of_all es) ≤ lim
      → Returns
          (read_vec_stack size m)
          r
          (values es)
          bs
          stop
          (off + length (leb128 n (length es) ++ bytes_of_all es))
          lim
  read_vec_stack_lem m size n es (hn, fits, small) le enc h room =
      (read_vec_stack-Encoded m size n es hn fits small le enc).runs r bs stop off lim h room

  -- `skip` passes over the bytes that it is told to, whatever they are.
  pub skip_lem :
      (bytes : List ℕ)
      → At r (bytes ++ bs) stop off lim
      → off + length bytes ≤ lim
      → Returns (skip (length bytes)) r tt bs stop (off + length bytes) lim
  skip_lem bytes h room = (skip-Reads bytes).runs r bs stop off lim h room

  -- `strip_bytes` returns the next bytes, as many as it is asked for.
  pub strip_bytes_lem :
      (bytes : List ℕ)
      → At r (bytes ++ bs) stop off lim
      → off + length bytes ≤ lim
      → Returns (strip_bytes (length bytes)) r bytes bs stop (off + length bytes) lim
  strip_bytes_lem bytes h room = (strip_bytes-Reads bytes).runs r bs stop off lim h room

  -- A function type with at most one result is returned from 0x60, its parameters and its results, if
  -- the two allocations succeed.
  pub read_func_type_lem :
      (new_in : ℕ → Result AllocError (Unit {0})) (n k : ℕ) (params returns : List ValType)
      → Fits32 n (length params)
      → Fits32 k (length returns)
      → length returns ≤ 1
      → new_in (length params) ≡ ok tt
      → new_in (length returns) ≡ ok tt
      → At r ((0x60 ∷ (vec_bytes n params ++ vec_bytes k returns)) ++ bs) stop off lim
      → off + length (0x60 ∷ (vec_bytes n params ++ vec_bytes k returns)) ≤ lim
      → Returns
          (read_func_type new_in)
          r
          (record { params = params; returns = returns })
          bs
          stop
          (off + length (0x60 ∷ (vec_bytes n params ++ vec_bytes k returns)))
          lim
  read_func_type_lem new_in n k params returns fp fr one gp gr h room =
      (read_func_type-bytes new_in n k params returns fp fr one gp gr).runs r bs stop off lim h room

  -- A memory type within the limits of its page size is returned from its flag, its minimum, its
  -- maximum and its page size, which may be left out for pages of 64 KiB.
  pub read_mem_type_lem :
      (n k j min : ℕ) (max : Option ℕ) (p : MemPageSize) (custom : Bool)
      → Fits32 n min
      → MaxFits32 k max
      → Fits32 j (page_log p)
      → PageGiven p custom
      → Below max min
      → min ≤ max_allowed_pages p
      → ((m : ℕ) → max ≡ some m → m ≤ max_allowed_pages p)
      → At r
          ((mem_flag max custom ∷ (leb128 n min ++ (max_bytes k max ++ page_field j p custom)))
            ++ bs)
          stop
          off
          lim
      → off
          + length
              (mem_flag max custom ∷ (leb128 n min ++ (max_bytes k max ++ page_field j p custom)))
        ≤ lim
      → Returns read_mem_type r
          (record { initial_pages = min; max_pages = max; page_size = p })
          bs
          stop
          (off
            + length (
                mem_flag max custom ∷ (leb128 n min ++ (max_bytes k max ++ page_field j p custom))))
          lim
  read_mem_type_lem n k j min max p custom fn fk fj given ordered small smaller h room =
      (read_mem_type-bytes n k j min max p custom fn fk fj given ordered small smaller).runs r bs
        stop off lim h room

  -- A table type of at most MAX_TABLE_ELEMENTS elements is returned from 0x70 and its limit.
  pub read_table_type_lem :
      (n k min : ℕ) (max : Option ℕ)
      → Fits32 n min
      → MaxFits32 k max
      → Below max min
      → min ≤ max_table_elements
      → ((m : ℕ) → max ≡ some m → m ≤ max_table_elements)
      → At r ((0x70 ∷ limit_bytes n k min max) ++ bs) stop off lim
      → off + length (0x70 ∷ limit_bytes n k min max) ≤ lim
      → Returns read_table_type r
          (record { elem_type = func_ref; limits = record { min = min; max = max } })
          bs
          stop
          (off + length (0x70 ∷ limit_bytes n k min max))
          lim
  read_table_type_lem n k min max fn fk ordered small smaller h room =
      (read_table_type-bytes n k min max fn fk ordered small smaller).runs r bs stop off lim h room

  -- A global's type is returned from the byte of its value type and that of its mutability.
  pub read_global_type_lem :
      (t : ValType) (mutable : Bool)
      → At r (val_byte t ∷ flag_byte mutable ∷ bs) stop off lim
      → off + 2 ≤ lim
      → Returns read_global_type r (record { ty = t; mutable = mutable }) bs stop (off + 2) lim
  read_global_type_lem t mutable h room =
      (read_global_type-bytes t mutable).runs r bs stop off lim h room
