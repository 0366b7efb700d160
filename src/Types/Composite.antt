-- ===== src/Types/Composite.antt =====
-- The decoders of function, memory and table types read each back from its binary format.
use spacewasm.Prelude.{
  ℕ, suc, ◌≤◌, ◌≡◌, refl, ap, arith, Bool, true, false, Option, none, some, List, [], ◌∷◌, ◌++◌,
  length, append-nil, ltb, ◌==◌, bit_and,
}
use spacewasm.Errors.{Result, ok, AllocError}
use spacewasm.Reader.{read_u8}
use spacewasm.Reader.Leb.{read_u32}
use spacewasm.Reader.Leb.Groups.{leb128}
use spacewasm.Reader.Vectors.{read_vec_in, Encoded, values, bytes_of_all, read_vec_in-Encoded}
use spacewasm.Reader.Reads.{Reads, Reads-u8, Reads-pure, Reads-bind}
use spacewasm.Types.{
  ValType, read_val_type, read_func_type, Limit, MemPageSize, one_byte, kib_64, read_mem_max,
  read_page_size, max_allowed_pages, exceeds, read_mem_type, func_ref, read_elem_type, read_limit,
  max_table_elements, read_table_type,
}
use spacewasm.Types.Matching.{Below}
use spacewasm.Types.Decode.{
  val_byte, limit_bytes, Fits32, MaxFits32, read_u32-Fits32, read_val_type-val_byte,
  read_limit-limit_bytes,
}

abbrev pub val_bytes : List ValType → List ℕ
val_bytes [] = []
val_bytes (t ∷ ts) = val_byte t ∷ val_bytes ts

abbrev pub vec_bytes : ℕ → List ValType → List ℕ
vec_bytes n ts = leb128 n (length ts) ++ val_bytes ts

paired : List ValType → List (ValType × List ℕ)
paired [] = []
paired (t ∷ ts) = (t, val_byte t ∷ []) ∷ paired ts

paired_lem :
    (ts : List ValType)
    → (values (paired ts) ≡ ts)
      × (bytes_of_all (paired ts) ≡ val_bytes ts)
      × (length (paired ts) ≡ length ts)
      × Encoded read_val_type (paired ts)
unfolding paired
paired_lem [] = (refl, refl, refl, tt)
paired_lem (t ∷ ts) =
    let (vs, bs, n, enc) = paired_lem ts in
    (
      ap (λ r. t ∷ r) vs,
      ap (λ r. val_byte t ∷ r) bs,
      ap suc n,
      (read_val_type-val_byte t, omega arith, enc),
    )

read_val_types :
    (new_in : ℕ → Result AllocError (Unit {0})) (n : ℕ) (ts : List ValType)
    → Fits32 n (length ts)
    → new_in (length ts) ≡ ok tt
    → Reads (read_vec_in new_in read_val_type) ts (vec_bytes n ts)
read_val_types new_in n ts (hn, fits, small) got =
    let (vs, bs, len, enc) = paired_lem ts in
    rw (vs, bs, len) at
      (read_vec_in-Encoded read_val_type new_in n (paired ts) hn (rw len fits) (rw len small)
        (rw len got) enc)

-- A function type with at most one result is read from 0x60, its parameters and its results, if the
-- two allocations succeed.
pub read_func_type-bytes :
    (new_in : ℕ → Result AllocError (Unit {0})) (n k : ℕ) (params returns : List ValType)
    → Fits32 n (length params)
    → Fits32 k (length returns)
    → length returns ≤ 1
    → new_in (length params) ≡ ok tt
    → new_in (length returns) ≡ ok tt
    → Reads
        (read_func_type new_in)
        (record { params = params; returns = returns })
        (0x60 ∷ (vec_bytes n params ++ vec_bytes k returns))
unfolding read_func_type
read_func_type-bytes new_in n k params returns fp fr one gp gr =
    Reads-bind read_u8 _ 0x60 _ (0x60 ∷ []) (vec_bytes n params ++ vec_bytes k returns)
      (Reads-u8 0x60)
      (Reads-bind (read_vec_in new_in read_val_type) _ params _ (vec_bytes n params)
        (vec_bytes k returns) (read_val_types new_in n params fp gp)
        (rw (← append-nil (vec_bytes k returns)) (
          Reads-bind (read_vec_in new_in read_val_type) _ returns _ (vec_bytes k returns) []
            (read_val_types new_in k returns fr gr)
            (rw (at_most_one (length returns) one) (Reads-pure _)))))
  where
    at_most_one : (a : ℕ) → a ≤ 1 → ltb 1 a ≡ false
    at_most_one a h = ground arith

-- The memory type's flag: bit 0 for a maximum, bit 3 for a page size.
abbrev pub mem_flag : Option ℕ → Bool → ℕ
mem_flag none false = 0b0000
mem_flag none true = 0b1000
mem_flag (some max) false = 0b0001
mem_flag (some max) true = 0b1001

abbrev pub max_bytes : ℕ → Option ℕ → List ℕ
max_bytes k none = []
max_bytes k (some max) = leb128 k max

-- The page size as its logarithm; it may be left out for pages of 64 KiB.
abbrev pub page_log : MemPageSize → ℕ
page_log one_byte = 0
page_log kib_64 = 16

abbrev pub page_field : ℕ → MemPageSize → Bool → List ℕ
page_field j p false = []
page_field j p true = leb128 j (page_log p)

abbrev pub PageGiven : MemPageSize → Bool → Type 0
PageGiven p true = Unit {0}
PageGiven p false = p ≡ kib_64

read_mem_max-max_bytes :
    (k min : ℕ) (max : Option ℕ) (custom : Bool)
    → MaxFits32 k max
    → Below max min
    → Reads (read_mem_max (mem_flag max custom) min) max (max_bytes k max)
unfolding read_mem_max
read_mem_max-max_bytes k min none false f h = Reads-pure none
read_mem_max-max_bytes k min none true f h = Reads-pure none
read_mem_max-max_bytes k min (some max) custom f h = with_max custom
  where
    not_below : (a b : ℕ) → b ≤ a → ltb a b ≡ false
    not_below a b h' = ground arith

    with_max :
        (custom' : Bool)
        → Reads (read_mem_max (mem_flag (some max) custom') min) (some max) (leb128 k max)
    with_max false = rw (← append-nil (leb128 k max)) (
        Reads-bind read_u32 _ max _ (leb128 k max) [] (read_u32-Fits32 k max f)
          (rw (not_below max min h) (Reads-pure _)))
    with_max true = rw (← append-nil (leb128 k max)) (
        Reads-bind read_u32 _ max _ (leb128 k max) [] (read_u32-Fits32 k max f)
          (rw (not_below max min h) (Reads-pure _)))

read_page_size-page_field :
    (j : ℕ) (p : MemPageSize) (max : Option ℕ) (custom : Bool)
    → Fits32 j (page_log p)
    → PageGiven p custom
    → Reads (read_page_size (mem_flag max custom)) p (page_field j p custom)
unfolding read_page_size
read_page_size-page_field j p none false f given = rw given (Reads-pure kib_64)
read_page_size-page_field j p (some max) false f given = rw given (Reads-pure kib_64)
read_page_size-page_field j one_byte none true f given =
    rw (← append-nil (leb128 j 0))
      (Reads-bind read_u32 _ 0 _ (leb128 j 0) [] (read_u32-Fits32 j 0 f) (Reads-pure _))
read_page_size-page_field j kib_64 none true f given =
    rw (← append-nil (leb128 j 16))
      (Reads-bind read_u32 _ 16 _ (leb128 j 16) [] (read_u32-Fits32 j 16 f) (Reads-pure _))
read_page_size-page_field j one_byte (some max) true f given =
    rw (← append-nil (leb128 j 0))
      (Reads-bind read_u32 _ 0 _ (leb128 j 0) [] (read_u32-Fits32 j 0 f) (Reads-pure _))
read_page_size-page_field j kib_64 (some max) true f given =
    rw (← append-nil (leb128 j 16))
      (Reads-bind read_u32 _ 16 _ (leb128 j 16) [] (read_u32-Fits32 j 16 f) (Reads-pure _))

flags_clear :
    (max : Option ℕ) (custom : Bool)
    → ((bit_and (mem_flag max custom) 0b0010 == 0) ≡ true)
      × ((bit_and (mem_flag max custom) 0b0100 == 0) ≡ true)
      × ((bit_and (mem_flag max custom) 0xF0 == 0) ≡ true)
flags_clear none false = (refl, refl, refl)
flags_clear none true = (refl, refl, refl)
flags_clear (some max) false = (refl, refl, refl)
flags_clear (some max) true = (refl, refl, refl)

exceeds-eq-false :
    (max : Option ℕ) (bound : ℕ) → ((m : ℕ) → max ≡ some m → m ≤ bound) → exceeds max bound ≡ false
exceeds-eq-false none bound h = refl
exceeds-eq-false (some m) bound h = let small : m ≤ bound = h m refl in ground arith

-- A memory type within the limits of its page size is read from its flag, its minimum, its maximum
-- and its page size, which may be left out for pages of 64 KiB.
pub read_mem_type-bytes :
    (n k j min : ℕ) (max : Option ℕ) (p : MemPageSize) (custom : Bool)
    → Fits32 n min
    → MaxFits32 k max
    → Fits32 j (page_log p)
    → PageGiven p custom
    → Below max min
    → min ≤ max_allowed_pages p
    → ((m : ℕ) → max ≡ some m → m ≤ max_allowed_pages p)
    → Reads read_mem_type
        (record { initial_pages = min; max_pages = max; page_size = p })
        (mem_flag max custom ∷ (leb128 n min ++ (max_bytes k max ++ page_field j p custom)))
unfolding read_mem_type
read_mem_type-bytes n k j min max p custom fn fk fj given ordered small smaller =
    let flag : ℕ = mem_flag max custom in
    let (no_shared, no_64, no_rest) = flags_clear max custom in
    Reads-bind read_u8 _ flag _ (flag ∷ [])
      (leb128 n min ++ (max_bytes k max ++ page_field j p custom)) (Reads-u8 flag)
      (Reads-bind read_u32 _ min _ (leb128 n min) (max_bytes k max ++ page_field j p custom)
        (read_u32-Fits32 n min fn)
        (Reads-bind (read_mem_max flag min) _ max _ (max_bytes k max) (page_field j p custom)
          (read_mem_max-max_bytes k min max custom fk ordered)
          (rw (no_shared, no_64, ← append-nil (page_field j p custom))
            (Reads-bind (read_page_size flag) _ p _ (page_field j p custom) []
              (read_page_size-page_field j p max custom fj given)
              (rw
                (
                  no_rest,
                  not_below (max_allowed_pages p) min small,
                  exceeds-eq-false max (max_allowed_pages p) smaller,
                )
                (Reads-pure _))))))
  where
    not_below : (a b : ℕ) → b ≤ a → ltb a b ≡ false
    not_below a b h = ground arith

read_elem_type-byte : Reads read_elem_type func_ref (0x70 ∷ [])
unfolding read_elem_type
read_elem_type-byte =
    Reads-bind read_u8 _ 0x70 func_ref (0x70 ∷ []) [] (Reads-u8 0x70) (Reads-pure func_ref)

-- A table type of at most MAX_TABLE_ELEMENTS elements is read from 0x70 and its limit.
pub read_table_type-bytes :
    (n k min : ℕ) (max : Option ℕ)
    → Fits32 n min
    → MaxFits32 k max
    → Below max min
    → min ≤ max_table_elements
    → ((m : ℕ) → max ≡ some m → m ≤ max_table_elements)
    → Reads read_table_type
        (record { elem_type = func_ref; limits = record { min = min; max = max } })
        (0x70 ∷ limit_bytes n k min max)
unfolding read_table_type
read_table_type-bytes n k min max fn fk ordered small smaller =
    let limits : Limit = record { min = min; max = max } in
    Reads-bind read_elem_type _ func_ref _ (0x70 ∷ []) (limit_bytes n k min max) read_elem_type-byte
      (rw (← append-nil (limit_bytes n k min max)) (
        Reads-bind read_limit _ limits _ (limit_bytes n k min max) []
          (read_limit-limit_bytes n k min max fn fk ordered)
          (rw
            (
              not_below max_table_elements min small,
              exceeds-eq-false max max_table_elements smaller,
            )
            (Reads-pure _))))
  where
    not_below : (a b : ℕ) → b ≤ a → ltb a b ≡ false
    not_below a b h = ground arith
