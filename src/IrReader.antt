-- ===== src/IrReader.antt =====
-- src/ir_reader.rs: the instruction at an address of the code. The code is its pages of 256 words, which are
-- 16-bit. An address outside of it is `none`: the code relies on its own compiler there.
pub mod Decode
pub mod RoundTrip
pub mod Constants
use spacewasm.Prelude.{
  ℕ, zero, suc, ◌+◌, ◌-◌, ◌*◌, ◌/◌, ◌%◌, ◌^◌, Option, none, some, List, [], ◌∷◌, get_elem?, bit_or,
  shl,
}
use spacewasm.Text.{JumpTarget, LabelTarget, add_words, page, offset}

abbrev pub Code : Type 0
Code = List (List ℕ)

-- A read at the address, and the address after it.
abbrev pub R {ℓ} : Type ℓ → Type ℓ
R A = Code → JumpTarget → Option (A × JumpTarget)

abbrev pub pure {ℓ} : {A : Type ℓ} → A → R A
pure a code at = some (a, at)

abbrev pub then_read {ℓ κ} :
    {A : Type ℓ} {B : Type κ} → Code → (A → R B) → Option (A × JumpTarget) → Option (B × JumpTarget)
then_read code k none = none
then_read code k (some (a, at)) = k a code at

infixl 5 ◌>>=◌
abbrev pub ◌>>=◌ {ℓ κ} : {A : Type ℓ} {B : Type κ} → R A → (A → R B) → R B
◌>>=◌ m k code at = then_read code k (m code at)

abbrev pub word_at : Option (List ℕ) → ℕ → Option ℕ
word_at none i = none
word_at (some words) i = get_elem? words i

abbrev pub advanced : JumpTarget → Option ℕ → Option (ℕ × JumpTarget)
advanced at none = none
advanced at (some v) = some (v, add_words at 1)

unfoldable pub read : R ℕ
read code at = advanced at (word_at (get_elem? code (page at)) (offset at))

unfoldable pub read_u32 : R ℕ
read_u32 = do w1 ← read; w2 ← read; pure (bit_or w1 (shl 32 w2 16))

unfoldable pub read_u64 : R ℕ
read_u64 = do
  w1 ← read
  w2 ← read
  w3 ← read
  w4 ← read
  pure (bit_or (bit_or (bit_or w1 (shl 64 w2 16)) (shl 64 w3 32)) (shl 64 w4 48))

-- The targets of a `br_table`: `n` cases and the default.
unfoldable pub read_targets : ℕ → R (List LabelTarget)
read_targets zero = pure []
read_targets (suc n) = do w ← read_u32; rest ← read_targets n; pure (record { word = w } ∷ rest)
