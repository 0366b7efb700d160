-- ===== src/Types.antt =====
-- src/types.rs: the WebAssembly types as the decoder reads them from the binary format. Numbers are
-- `u8`, `u32` or `u64` bit patterns; floats are their bit patterns.
pub mod Matching
pub mod Decode
pub mod Composite
pub mod Valid
pub mod Raw
use spacewasm.Prelude.{
  ℕ, zero, suc, ◌+◌, ◌-◌, ◌*◌, ◌^◌, bit_and, Bool, true, false, ◌&&◌, Option, none, some, List, [],
  ◌∷◌, length, ltb, leb, ◌==◌, if◌then◌else◌, as_u8,
}
use spacewasm.Errors.{Result, ok, err, ValidationError, AllocError}
use spacewasm.Reader.{M, pure, fail, after, ◌>>=◌, read_u8}
use spacewasm.Reader.Leb.{read_u32}
use spacewasm.Reader.Vectors.{read_vec_in}

pub data ValType : Type 0 where
  i32 i64 f32 f64 : ValType

abbrev pub val_size : ValType → ℕ
val_size i32 = 4
val_size i64 = 8
val_size f32 = 4
val_size f64 = 8

-- The `#[repr(u8)]` discriminant, `as u8`.
abbrev pub to_repr : ValType → ℕ
to_repr i32 = 0
to_repr i64 = 1
to_repr f32 = 2
to_repr f64 = 3

unfoldable pub from_repr : ℕ → Option ValType
from_repr tag =
    if tag == 0
    then some i32
    else if tag == 1
    then some i64
    else if tag == 2
    then some f32
    else if tag == 3
    then some f64
    else none

unfoldable pub convert : ℕ → Result ValidationError ValType
convert v =
    if v == 0x7F
    then ok i32
    else if v == 0x7E
    then ok i64
    else if v == 0x7D
    then ok f32
    else if v == 0x7C
    then ok f64
    else err (ValidationError.malformed_value_type v)

-- A result as the outcome of a method that reads nothing.
abbrev pub lift {ℓ} : {A : Type ℓ} → Result ValidationError A → M A
lift (ok a) = pure a
lift (err e) = fail e

pub read_val_type : M ValType
read_val_type = read_u8 >>= λ v. lift (convert v)

-- `ResultType(Option<ValType>)`
abbrev pub ResultType : Type 0
ResultType = Option ValType

unfoldable pub read_result_type : M ResultType
read_result_type = do
  c ← read_u8
  if c == 0x40 then pure none else (lift (convert c) >>= λ v. pure (some v))

pub record FuncType : Type 0 where
  pub params : List ValType
  pub returns : List ValType

pub read_func_type : (ℕ → Result AllocError (Unit {0})) → M FuncType
read_func_type new_in = do
  c ← read_u8
  if c == 0x60
      then (do
        params ← read_vec_in new_in read_val_type
        returns ← read_vec_in new_in read_val_type
        if ltb 1 (length returns)
            then fail ValidationError.function_returns_too_large
            else pure (record { params = params; returns = returns }))
      else fail (ValidationError.malformed_function c)

pub record Limit : Type 0 where
  pub min : ℕ
  pub max : Option ℕ

pub read_limit : M Limit
read_limit = do
  c ← read_u8
  if c == 0x00
      then (read_u32 >>= λ min. pure (record { min = min; max = none }))
      else (if c == 0x01
          then (do
            min ← read_u32
            max ← read_u32
            if ltb max min
                then fail ValidationError.invalid_max_limit
                else pure (record { min = min; max = some max }))
          else fail (ValidationError.malformed_limit c))

-- `(_, None) => true, (Some(m1), Some(m2)) => m1 <= m2, _ => false`
pub max_matches : Option ℕ → Option ℕ → Bool
max_matches _ none = true
max_matches none (some m2) = false
max_matches (some m1) (some m2) = leb m1 m2

pub matches : Limit → Limit → Bool
matches a b = if ltb a.min b.min then false else max_matches a.max b.max

pub data MemPageSize : Type 0 where
  one_byte kib_64 : MemPageSize

abbrev pub page_bytes : MemPageSize → ℕ
page_bytes one_byte = 1
page_bytes kib_64 = 65536

abbrev pub page_alignment : MemPageSize → ℕ
page_alignment one_byte = 1
page_alignment kib_64 = 16

-- `self.page_size == other.page_size`
abbrev pub same_page : MemPageSize → MemPageSize → Bool
same_page one_byte one_byte = true
same_page one_byte kib_64 = false
same_page kib_64 one_byte = false
same_page kib_64 kib_64 = true

pub record MemType : Type 0 where
  pub initial_pages : ℕ
  pub max_pages : Option ℕ
  pub page_size : MemPageSize

-- Bit 0 of the flag: a maximum follows, not below the minimum.
pub read_mem_max : ℕ → ℕ → M (Option ℕ)
read_mem_max flag min = if bit_and flag 0b0001 == 0 then pure none else (do
  max ← read_u32
  if ltb max min then fail ValidationError.invalid_max_limit else pure (some max))

-- Bit 3 of the flag: the logarithm of the page size follows.
pub read_page_size : ℕ → M MemPageSize
read_page_size flag = if bit_and flag 0b1000 == 0 then pure kib_64 else (do
  p ← read_u32
  if p == 0
      then pure one_byte
      else (if p == 16
          then pure kib_64
          else (if leb p 64
              then fail (ValidationError.invalid_page_size (as_u8 p))
              else fail (ValidationError.invalid_page_size 0xFF))))

abbrev pub max_allowed_pages : MemPageSize → ℕ
max_allowed_pages one_byte = 2 ^ 32 - 1 + 1
max_allowed_pages kib_64 = 65536

-- `if let Some(max) = max { max > bound }`
abbrev pub exceeds : Option ℕ → ℕ → Bool
exceeds none bound = false
exceeds (some max) bound = ltb bound max

pub read_mem_type : M MemType
read_mem_type = do
  flag ← read_u8
  min ← read_u32
  max ← read_mem_max flag min
  if bit_and flag 0b0010 == 0
      then (if bit_and flag 0b0100 == 0
          then (do
            page_size ← read_page_size flag
            if bit_and flag 0xF0 == 0
                then (if ltb (max_allowed_pages page_size) min
                    then fail ValidationError.memory_too_large
                    else (if exceeds max (max_allowed_pages page_size)
                        then fail ValidationError.memory_too_large
                        else pure (record {
                          initial_pages = min;
                          max_pages = max;
                          page_size = page_size;
                        })))
                else fail (ValidationError.malformed_mem_type flag))
          else fail (ValidationError.malformed_mem_type flag))
      else fail (ValidationError.malformed_mem_type flag)

pub mem_type_zero : MemType
mem_type_zero = record { initial_pages = 0; max_pages = some 0; page_size = kib_64 }

-- The test of `can_hold` on the maximum; with none, a memory has at most 4 GiB.
unfoldable pub within_max : MemType → Option ℕ → ℕ → Bool
within_max t none n_pages = if ltb (2 ^ 32) (n_pages * page_bytes t.page_size) then false else true
within_max t (some max) n_pages = if ltb max n_pages then false else true

unfoldable pub can_hold : MemType → ℕ → Bool
unfolding within_max
can_hold t n_pages = if within_max t t.max_pages n_pages then leb t.initial_pages n_pages else false

pub mem_type_matches : MemType → MemType → Bool
mem_type_matches a b =
    matches (record { min = a.initial_pages; max = a.max_pages })
      (record { min = b.initial_pages; max = b.max_pages })
    && same_page a.page_size b.page_size

pub data ElemType : Type 0 where
  func_ref : ElemType

pub read_elem_type : M ElemType
read_elem_type = do
  c ← read_u8
  if c == 0x70 then pure func_ref else fail (ValidationError.malformed_elem_type c)

pub record TableType : Type 0 where
  pub elem_type : ElemType
  pub limits : Limit

abbrev pub max_table_elements : ℕ
max_table_elements = 10_000_000

pub read_table_type : M TableType
read_table_type = do
  elem_type ← read_elem_type
  limits ← read_limit
  if ltb max_table_elements limits.min
      then fail ValidationError.table_too_large
      else (if exceeds limits.max max_table_elements
          then fail ValidationError.table_too_large
          else pure (record { elem_type = elem_type; limits = limits }))

pub record GlobalType : Type 0 where
  pub ty : ValType
  pub mutable : Bool

pub read_global_type : M GlobalType
read_global_type = do
  ty ← read_val_type
  c ← read_u8
  if c == 0x00
      then pure (record { ty = ty; mutable = false })
      else (if c == 0x01
          then pure (record { ty = ty; mutable = true })
          else fail (ValidationError.expected_const_or_var c))
