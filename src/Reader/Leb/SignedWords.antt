-- ===== src/Reader/Leb/SignedWords.antt =====
-- `read_i32` and `read_i64` read every signed LEB128 encoding of at most five and ten bytes.
use spacewasm.Prelude.{
  ℕ, zero, suc, ◌+◌, ◌*◌, ◌%◌, ◌^◌, ◌≤◌, ◌<◌, ◌≡◌, refl, arith, [], ◌∷◌, bit_and, bit_or,
  if◌then◌else◌, ltb, ◌||◌, ◌==◌, Bool, true, false, ◌⊎◌,
}
use spacewasm.Prelude.Bits.{bit_or_high}
use spacewasm.Reader.{read_u8}
use spacewasm.Reader.Reads.{Reads, Reads-u8, Reads-pure, Reads-bind}
use spacewasm.Reader.Leb.{
  continuation_bit, add_group, count_ones, sign_extended, signed_last, read_i32, read_i64,
}
use spacewasm.Reader.Leb.Groups.{leb128, top_bit, low_bits, passes, passes_lem}
use spacewasm.Reader.Leb.Signed.{
  groups_of, FitsGroups, last_group, signed_groups_short, signed_groups_long,
}
use native.Mathlib.Decide.{dec_lt}

abbrev mask32 : ℕ
mask32 = bit_or 0b01110000 0b00001000

abbrev mask64 : ℕ
mask64 = bit_or 0b01111110 0b00000001

-- The padding and sign bits of a last byte are alike: all clear or all set.
abbrev alike : ℕ → ℕ → Bool
alike mask byte =
    count_ones 8 (bit_and byte mask) == count_ones 8 mask || count_ones 8 (bit_and byte mask) == 0

alike_table32 : passes (λ b. if ltb b 8 || ltb 119 b then alike mask32 b else true) 128 ≡ true
unfolding passes count_ones
alike_table32 = refl

alike32 : (b : ℕ) → b < 128 → (b < 8) ⊎ (120 ≤ b) → alike mask32 b ≡ true
alike32 b hb h = ground (arith, passes_lem _ 128 b alike_table32 hb)

alike_table64 : passes (λ b. if b == 0 || b == 127 then alike mask64 b else true) 128 ≡ true
unfolding passes count_ones
alike_table64 = refl

alike64 : (b : ℕ) → b < 128 → (b ≡ 0) ⊎ (b ≡ 127) → alike mask64 b ≡ true
alike64 b hb h = ground (arith, passes_lem _ 128 b alike_table64 hb)

-- What the last byte adds; the bits that leave the word are dropped.
add_group_last32 :
    (r g : ℕ) → r < 2 ^ 28 → g < 128 → add_group 32 r g 28 ≡ (r + g * 2 ^ 28) % 2 ^ 32
unfolding add_group
add_group_last32 r g hr hg =
    let same : g % 128 ≡ g = omega arith in
    let kept : g * 2 ^ 28 % 2 ^ 32 ≡ g % 16 * 2 ^ 28 = omega arith in
    rw (low_bits g, same, kept) (omega (arith, bit_or_high 28 r (g % 16) hr))

add_group_last64 :
    (r g : ℕ) → r < 2 ^ 63 → g < 128 → add_group 64 r g 63 ≡ (r + g * 2 ^ 63) % 2 ^ 64
unfolding add_group
add_group_last64 r g hr hg =
    let same : g % 128 ≡ g = omega arith in
    let kept : g * 2 ^ 63 % 2 ^ 64 ≡ g % 2 * 2 ^ 63 = omega arith in
    rw (low_bits g, same, kept) (omega (arith, bit_or_high 63 r (g % 2) hr))

signed_last-ends :
    (w mask top r g : ℕ)
    → g < 128
    → alike mask g ≡ true
    → add_group w r g top ≡ (r + g * 2 ^ top) % 2 ^ w
    → Reads (signed_last w mask top r) ((r + g * 2 ^ top) % 2 ^ w) (g ∷ [])
unfolding signed_last
signed_last-ends w mask top r g hg same sum =
    Reads-bind read_u8 _ g ((r + g * 2 ^ top) % 2 ^ w) (g ∷ []) [] (Reads-u8 g)
      (rw (stops g hg, same, sum) (Reads-pure ((r + g * 2 ^ top) % 2 ^ w)))
  where
    stops : (b : ℕ) → b < 128 → ltb 0 (bit_and b continuation_bit) ≡ false
    stops b h = ground (arith, top_bit b)

-- Sign extension gives the number back.
sign_extended32 :
    (n v : ℕ) → n ≤ 3 → FitsGroups 32 n v → sign_extended 32 (groups_of 32 n v) (7 * suc n) ≡ v
unfolding sign_extended
sign_extended32 zero v h f = ground arith
sign_extended32 (suc zero) v h f = ground arith
sign_extended32 (suc (suc zero)) v h f = ground arith
sign_extended32 (suc (suc (suc zero))) v h f = ground arith
sign_extended32 (suc (suc (suc (suc n)))) v h f = absurd (omega arith)

groups_of_fits32 :
    (n v : ℕ)
    → n ≤ 3
    → FitsGroups 32 n v
    → (groups_of 32 n v < 128 ^ suc n) × (groups_of 32 n v < 2 ^ 32)
groups_of_fits32 zero v h f = ground arith
groups_of_fits32 (suc zero) v h f = ground arith
groups_of_fits32 (suc (suc zero)) v h f = ground arith
groups_of_fits32 (suc (suc (suc zero))) v h f = ground arith
groups_of_fits32 (suc (suc (suc (suc n)))) v h f = absurd (omega arith)

read_i32_short :
    (n v : ℕ) → n ≤ 3 → FitsGroups 32 n v → Reads read_i32 v (leb128 n (groups_of 32 n v))
unfolding read_i32
read_i32_short n v hn f =
    let u : ℕ = groups_of 32 n v in
    let (lo, hi) = groups_of_fits32 n v hn f in
    let whole : 0 + u * 2 ^ 0 ≡ u = omega arith in
    let bits : 0 + 7 * suc n ≡ 7 * suc n = omega arith in
    rw (whole, bits, sign_extended32 n v hn f) at
      (signed_groups_short 32 mask32 4 n 0 0 u (omega arith) (omega arith) lo (omega arith))

read_i32_long : (v : ℕ) → FitsGroups 32 4 v → Reads read_i32 v (leb128 4 (groups_of 32 4 v))
unfolding read_i32
read_i32_long v f =
    let u : ℕ = groups_of 32 4 v in
    let value : (0 + u * 2 ^ 0) % 2 ^ 32 ≡ v = ground arith in
    rw value at (
      signed_groups_long 32 mask32 4 0 28 0 u refl (omega arith) (omega arith) (ground arith)
        (λ r hr.
          signed_last-ends 32 mask32 28 r (last_group 4 u) (ground arith)
            (alike32 (last_group 4 u) (ground arith) (ground arith))
            (add_group_last32 r (last_group 4 u) hr (ground arith))))

-- `read_i32` reads a number from each of its signed encodings in one to five bytes, the padded ones
-- too, and takes exactly those bytes.
pub read_i32-leb :
    (n v : ℕ) → n ≤ 4 → FitsGroups 32 n v → Reads read_i32 v (leb128 n (groups_of 32 n v))
read_i32-leb n v hn f = elim (dec_lt n 4) [
  | yes p ↦ read_i32_short n v (omega arith) f
  | no p ↦ let four : n ≡ 4 = omega arith in rw four (read_i32_long v (rw four at f))
]

sign_extended64 :
    (n v : ℕ) → n ≤ 8 → FitsGroups 64 n v → sign_extended 64 (groups_of 64 n v) (7 * suc n) ≡ v
unfolding sign_extended
sign_extended64 zero v h f = ground arith
sign_extended64 (suc zero) v h f = ground arith
sign_extended64 (suc (suc zero)) v h f = ground arith
sign_extended64 (suc (suc (suc zero))) v h f = ground arith
sign_extended64 (suc (suc (suc (suc zero)))) v h f = ground arith
sign_extended64 (suc (suc (suc (suc (suc zero))))) v h f = ground arith
sign_extended64 (suc (suc (suc (suc (suc (suc zero)))))) v h f = ground arith
sign_extended64 (suc (suc (suc (suc (suc (suc (suc zero))))))) v h f = ground arith
sign_extended64 (suc (suc (suc (suc (suc (suc (suc (suc zero)))))))) v h f = ground arith
sign_extended64 (suc (suc (suc (suc (suc (suc (suc (suc (suc n))))))))) v h f = absurd (omega arith)

groups_of_fits64 :
    (n v : ℕ)
    → n ≤ 8
    → FitsGroups 64 n v
    → (groups_of 64 n v < 128 ^ suc n) × (groups_of 64 n v < 2 ^ 64)
groups_of_fits64 zero v h f = ground arith
groups_of_fits64 (suc zero) v h f = ground arith
groups_of_fits64 (suc (suc zero)) v h f = ground arith
groups_of_fits64 (suc (suc (suc zero))) v h f = ground arith
groups_of_fits64 (suc (suc (suc (suc zero)))) v h f = ground arith
groups_of_fits64 (suc (suc (suc (suc (suc zero))))) v h f = ground arith
groups_of_fits64 (suc (suc (suc (suc (suc (suc zero)))))) v h f = ground arith
groups_of_fits64 (suc (suc (suc (suc (suc (suc (suc zero))))))) v h f = ground arith
groups_of_fits64 (suc (suc (suc (suc (suc (suc (suc (suc zero)))))))) v h f = ground arith
groups_of_fits64 (suc (suc (suc (suc (suc (suc (suc (suc (suc n))))))))) v h f =
    absurd (omega arith)

read_i64_short :
    (n v : ℕ) → n ≤ 8 → FitsGroups 64 n v → Reads read_i64 v (leb128 n (groups_of 64 n v))
unfolding read_i64
read_i64_short n v hn f =
    let u : ℕ = groups_of 64 n v in
    let (lo, hi) = groups_of_fits64 n v hn f in
    let whole : 0 + u * 2 ^ 0 ≡ u = omega arith in
    let bits : 0 + 7 * suc n ≡ 7 * suc n = omega arith in
    rw (whole, bits, sign_extended64 n v hn f) at
      (signed_groups_short 64 mask64 9 n 0 0 u (omega arith) (omega arith) lo (omega arith))

read_i64_long : (v : ℕ) → FitsGroups 64 9 v → Reads read_i64 v (leb128 9 (groups_of 64 9 v))
unfolding read_i64
read_i64_long v f =
    let u : ℕ = groups_of 64 9 v in
    let value : (0 + u * 2 ^ 0) % 2 ^ 64 ≡ v = ground arith in
    rw value at (
      signed_groups_long 64 mask64 9 0 63 0 u refl (omega arith) (omega arith) (ground arith)
        (λ r hr.
          signed_last-ends 64 mask64 63 r (last_group 9 u) (ground arith)
            (alike64 (last_group 9 u) (ground arith) (ground arith))
            (add_group_last64 r (last_group 9 u) hr (ground arith))))

-- `read_i64` reads a number from each of its signed encodings in one to ten bytes, the padded ones
-- too, and takes exactly those bytes.
pub read_i64-leb :
    (n v : ℕ) → n ≤ 9 → FitsGroups 64 n v → Reads read_i64 v (leb128 n (groups_of 64 n v))
read_i64-leb n v hn f = elim (dec_lt n 9) [
  | yes p ↦ read_i64_short n v (omega arith) f
  | no p ↦ let nine : n ≡ 9 = omega arith in rw nine (read_i64_long v (rw nine at f))
]
