-- ===== src/Types/Decode.antt =====
-- The decoders of src/types.rs read every type back from its binary format.
use spacewasm.Prelude.{
  ℕ, suc, ◌^◌, ◌≤◌, ◌<◌, ◌≡◌, refl, arith, Bool, true, false, Option, none, some, List, [], ◌∷◌,
  ◌++◌, append-nil, ltb, ◌==◌,
}
use spacewasm.Errors.{ok}
use spacewasm.Reader.{read_u8}
use spacewasm.Reader.Leb.{read_u32}
use spacewasm.Reader.Leb.Groups.{leb128}
use spacewasm.Reader.Leb.Unsigned.{read_u32-leb}
use spacewasm.Reader.Reads.{Reads, Reads-u8, Reads-pure, Reads-bind, Reads-map}
use spacewasm.Types.{
  ValType, i32, i64, f32, f64, convert, read_val_type, ResultType, read_result_type, read_limit,
  read_global_type,
}
use spacewasm.Types.Matching.{Below}

-- The binary format. A number may take more bytes than it needs: `n` and `k` are the numbers of bytes
-- beyond the first.
abbrev pub val_byte : ValType → ℕ
val_byte i32 = 0x7F
val_byte i64 = 0x7E
val_byte f32 = 0x7D
val_byte f64 = 0x7C

abbrev pub result_byte : ResultType → ℕ
result_byte none = 0x40
result_byte (some t) = val_byte t

abbrev pub limit_bytes : ℕ → ℕ → ℕ → Option ℕ → List ℕ
limit_bytes n k min none = 0x00 ∷ leb128 n min
limit_bytes n k min (some max) = 0x01 ∷ (leb128 n min ++ leb128 k max)

abbrev pub Fits32 : ℕ → ℕ → Type 0
Fits32 n v = (n ≤ 4) × (v < 128 ^ suc n) × (v < 2 ^ 32)

abbrev pub MaxFits32 : ℕ → Option ℕ → Type 0
MaxFits32 k none = Unit {0}
MaxFits32 k (some max) = Fits32 k max

pub read_u32-Fits32 : (n v : ℕ) → Fits32 n v → Reads read_u32 v (leb128 n v)
read_u32-Fits32 n v (a, b, c) = read_u32-leb n v a b c

convert-val_byte : (t : ValType) → convert (val_byte t) ≡ ok t
unfolding convert
convert-val_byte i32 = refl
convert-val_byte i64 = refl
convert-val_byte f32 = refl
convert-val_byte f64 = refl

-- A value type is read from its byte.
pub read_val_type-val_byte : (t : ValType) → Reads read_val_type t (val_byte t ∷ [])
unfolding read_val_type
read_val_type-val_byte t =
    Reads-bind read_u8 _ (val_byte t) t (val_byte t ∷ []) [] (Reads-u8 (val_byte t))
      (rw (convert-val_byte t) (Reads-pure t))

not_empty_type : (t : ValType) → (val_byte t == 0x40) ≡ false
not_empty_type i32 = refl
not_empty_type i64 = refl
not_empty_type f32 = refl
not_empty_type f64 = refl

-- A block type is read from its byte, 0x40 for none.
pub read_result_type-result_byte : (t : ResultType) → Reads read_result_type t (result_byte t ∷ [])
unfolding read_result_type
read_result_type-result_byte none =
    Reads-bind read_u8 _ 0x40 none (0x40 ∷ []) [] (Reads-u8 0x40) (Reads-pure none)
read_result_type-result_byte (some t) =
    Reads-bind read_u8 _ (val_byte t) (some t) (val_byte t ∷ []) [] (Reads-u8 (val_byte t))
      (rw (not_empty_type t, convert-val_byte t) (Reads-pure (some t)))

-- A limit is read from its flag, its minimum and its maximum, unless the maximum is below the minimum.
pub read_limit-limit_bytes :
    (n k min : ℕ) (max : Option ℕ)
    → Fits32 n min
    → MaxFits32 k max
    → Below max min
    → Reads read_limit (record { min = min; max = max }) (limit_bytes n k min max)
unfolding read_limit
read_limit-limit_bytes n k min none fn fk ordered =
    Reads-bind read_u8 _ 0 _ (0 ∷ []) (leb128 n min) (Reads-u8 0)
      (Reads-map read_u32 _ min (leb128 n min) (read_u32-Fits32 n min fn))
read_limit-limit_bytes n k min (some max) fn fk ordered =
    Reads-bind read_u8 _ 1 _ (1 ∷ []) (leb128 n min ++ leb128 k max) (Reads-u8 1) (
      Reads-bind read_u32 _ min _ (leb128 n min) (leb128 k max) (read_u32-Fits32 n min fn) (
        rw (← append-nil (leb128 k max)) (
          Reads-bind read_u32 _ max _ (leb128 k max) [] (read_u32-Fits32 k max fk)
            (rw (not_below max min ordered) (Reads-pure _)))))
  where
    not_below : (a b : ℕ) → b ≤ a → ltb a b ≡ false
    not_below a b h = ground arith

abbrev pub flag_byte : Bool → ℕ
flag_byte false = 0x00
flag_byte true = 0x01

-- A global's type is read from the byte of its value type and that of its mutability.
pub read_global_type-bytes :
    (t : ValType) (mutable : Bool)
    → Reads read_global_type
        (record { ty = t; mutable = mutable })
        (val_byte t ∷ flag_byte mutable ∷ [])
unfolding read_global_type
read_global_type-bytes t false =
    Reads-bind read_val_type _ t _ (val_byte t ∷ []) (0 ∷ []) (read_val_type-val_byte t)
      (Reads-bind read_u8 _ 0 _ (0 ∷ []) [] (Reads-u8 0) (Reads-pure _))
read_global_type-bytes t true =
    Reads-bind read_val_type _ t _ (val_byte t ∷ []) (1 ∷ []) (read_val_type-val_byte t)
      (Reads-bind read_u8 _ 1 _ (1 ∷ []) [] (Reads-u8 1) (Reads-pure _))
