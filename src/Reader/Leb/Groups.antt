-- ===== src/Reader/Leb/Groups.antt =====
-- The bytes of LEB128, and one group of seven bits as arithmetic.
use spacewasm.Prelude.{
  ℕ, zero, suc, ◌+◌, ◌*◌, ◌/◌, ◌%◌, ◌^◌, ◌<◌, ◌≡◌, refl, ap, arith, bit_and, Bool, true, false,
  List, [], ◌∷◌, ◌==◌, ==_iff, if◌then◌else◌,
}
use spacewasm.Prelude.Bits.{bit_or_high, bit_and_mask}
use spacewasm.Reader.Leb.{continuation_bit, integer_bit_flag, add_group}
use native.Mathlib.Numerals.{towards_suc}
use native.Mathlib.Nat.{div-add-mod, mod-eq_of_lt, pow-suc}

-- The encoding of `v` in `n + 1` bytes, for `v` below 128 ^ (n + 1): seven bits a byte, lowest first,
-- with bit 7 set on all but the last. An encoding may be longer than it need be.
abbrev pub leb128 : ℕ → ℕ → List ℕ
leb128 zero v = v ∷ []
leb128 (suc n) v = (v % 128 + 128) ∷ leb128 n (v / 128)

-- Every byte, by evaluation.
unfoldable pub passes : (ℕ → Bool) → ℕ → Bool
passes test zero = true
passes test (suc count) = if passes test count then test count else false

pub passes_lem :
    (test : ℕ → Bool) (count b : ℕ) → passes test count ≡ true → b < count → test b ≡ true
unfolding passes
passes_lem test zero b all below = absurd (omega arith)
passes_lem test (suc count) b all below = ground (arith, passes_lem test count b)

top_bit_table : passes (λ b. bit_and b continuation_bit == b / 128 * 128) 256 ≡ true
unfolding passes
top_bit_table = refl

pub top_bit : (b : ℕ) → b < 256 → bit_and b continuation_bit ≡ b / 128 * 128
top_bit b h = (==_iff _ _).0 (passes_lem _ 256 b top_bit_table h)

padding_table : passes (λ b. bit_and b 0b01110000 == b % 128 / 16 * 16) 256 ≡ true
unfolding passes
padding_table = refl

pub padding_bits : (b : ℕ) → b < 256 → bit_and b 0b01110000 ≡ b % 128 / 16 * 16
padding_bits b h = (==_iff _ _).0 (passes_lem _ 256 b padding_table h)

pub low_bits : (b : ℕ) → bit_and b integer_bit_flag ≡ b % 128
low_bits b = bit_and_mask 7 b

-- A group lands above the bits that are there.
pub add_group_lem :
    (w result byte shift : ℕ)
    → result < 2 ^ shift
    → byte % 128 * 2 ^ shift < 2 ^ w
    → add_group w result byte shift ≡ result + byte % 128 * 2 ^ shift
unfolding add_group
add_group_lem w result byte shift fits small =
    rw (low_bits byte, mod-eq_of_lt small) (bit_or_high shift result (byte % 128) fits)

pub pow_shift : (s : ℕ) → 2 ^ (s + 7) ≡ 128 * 2 ^ s
pow_shift s = simp towards_suc (omega arith)

-- The lowest group of `u` and the groups above it.
pub split_groups : (u s : ℕ) → u * 2 ^ s ≡ u % 128 * 2 ^ s + u / 128 * 2 ^ (s + 7)
split_groups u s = omega (
  arith,
  ap (λ (t : ℕ). t * 2 ^ s) (div-add-mod u 128),
  ap (λ (t : ℕ). u / 128 * t) (pow_shift s),
)

-- A group below bit `s + 7` leaves the sum below 2 ^ (s + 7).
pub group_fits : (r g s : ℕ) → r < 2 ^ s → g < 128 → r + g * 2 ^ s < 2 ^ (s + 7)
group_fits r g s hr hg = grind (arith, pow_shift s)

-- A byte below 128 ends the number, and one from 128 on does not.
pub flag_ends : (g : ℕ) → g < 128 → (bit_and g continuation_bit == 0) ≡ true
flag_ends g h = ground (arith, top_bit g)

pub flag_more : (g : ℕ) → g < 128 → (bit_and (g + 128) continuation_bit == 0) ≡ false
flag_more g h = ground (arith, top_bit (g + 128))

-- What the two kinds of byte add to the number.
pub add_group-ends :
    (w r g s : ℕ) → r < 2 ^ s → g < 128 → r + g * 2 ^ s < 2 ^ w → add_group w r g s ≡ r + g * 2 ^ s
add_group-ends w r g s hr hg fits =
    let same : g % 128 ≡ g = omega arith in
    rw same at (add_group_lem w r g s hr (rw same (omega arith)))

pub add_group-more :
    (w r g s : ℕ)
    → r < 2 ^ s
    → g < 128
    → r + g * 2 ^ s < 2 ^ w
    → add_group w r (g + 128) s ≡ r + g * 2 ^ s
add_group-more w r g s hr hg fits =
    let same : (g + 128) % 128 ≡ g = omega arith in
    rw same at (add_group_lem w r (g + 128) s hr (rw same (omega arith)))

pub groups_left : (n u : ℕ) → u < 128 ^ suc (suc n) → u / 128 < 128 ^ suc n
groups_left n u h = omega (arith, pow-suc 128 (suc n))
