-- ===== src/Reader/Leb/Unsigned.antt =====
-- `read_u32` reads every LEB128 encoding of at most five bytes of a number below 2 ^ 32, and refuses
-- a fifth byte that goes on or has a bit above bit 31.
use spacewasm.Prelude.{
  ℕ, zero, suc, ◌+◌, ◌*◌, ◌/◌, ◌%◌, ◌^◌, ◌≤◌, ◌<◌, ◌≡◌, refl, arith, List, [], ◌∷◌, bit_and, ltb,
  ◌||◌, ◌==◌, true, false,
}
use spacewasm.Errors.{ValidationError}
use spacewasm.Reader.{M, read_u8}
use spacewasm.Reader.Reads.{
  Reads, Rejects, Reads-u8, Reads-pure, Reads-bind, Rejects-fail, Rejects-bind,
}
use spacewasm.Reader.Leb.{continuation_bit, add_group, u32_group, u32_last, u32_groups, read_u32}
use spacewasm.Reader.Leb.Groups.{
  leb128, top_bit, padding_bits, split_groups, group_fits, groups_left, flag_ends, flag_more,
  add_group-ends, add_group-more,
}

-- A block on a byte that ends the number, and on one that goes on.
u32_group-ends :
    (shift r g : ℕ) (next : ℕ → M ℕ)
    → r < 2 ^ shift
    → g < 128
    → r + g * 2 ^ shift < 2 ^ 32
    → Reads (u32_group shift r next) (r + g * 2 ^ shift) (g ∷ [])
unfolding u32_group
u32_group-ends shift r g next hr hg fits =
    Reads-bind read_u8 _ g (r + g * 2 ^ shift) (g ∷ []) [] (Reads-u8 g)
      (rw (flag_ends g hg, add_group-ends 32 r g shift hr hg fits) (Reads-pure (r + g * 2 ^ shift)))

u32_group-more :
    (shift r g v : ℕ) (next : ℕ → M ℕ) (bs : List ℕ)
    → r < 2 ^ shift
    → g < 128
    → r + g * 2 ^ shift < 2 ^ 32
    → Reads (next (r + g * 2 ^ shift)) v bs
    → Reads (u32_group shift r next) v ((g + 128) ∷ bs)
unfolding u32_group
u32_group-more shift r g v next bs hr hg fits p =
    Reads-bind read_u8 _ (g + 128) v ((g + 128) ∷ []) bs (Reads-u8 (g + 128))
      (rw (flag_more g hg, add_group-more 32 r g shift hr hg fits) p)

u32_last-ends : (r g : ℕ) → r < 2 ^ 28 → g < 16 → Reads (u32_last 28 r) (r + g * 2 ^ 28) (g ∷ [])
unfolding u32_last
u32_last-ends r g hr hg = Reads-bind read_u8 _ g (r + g * 2 ^ 28) (g ∷ []) [] (Reads-u8 g) (
    rw (last_flags g hg, add_group-ends 32 r g 28 hr (omega arith) (omega arith))
      (Reads-pure (r + g * 2 ^ 28)))
  where
    last_flags :
        (b : ℕ)
        → b < 16
        → (ltb 0 (bit_and b continuation_bit) || ltb 0 (bit_and b 0b01110000)) ≡ false
    last_flags b hb = ground (arith, top_bit b, padding_bits b)

-- The blocks from bit `shift` on read the groups of `u` above the sum `r` of the earlier ones.
u32_groups-leb :
    (k n shift r u : ℕ)
    → n ≤ k
    → shift + 7 * k ≡ 28
    → r < 2 ^ shift
    → u < 128 ^ suc n
    → r + u * 2 ^ shift < 2 ^ 32
    → Reads (u32_groups k shift r) (r + u * 2 ^ shift) (leb128 n u)
unfolding u32_groups
u32_groups-leb zero zero shift r u hn hs hr hu fits =
    let e : shift ≡ 28 = omega arith in
    let hr' : r < 2 ^ 28 = rw e at hr in
    let fits' : r + u * 2 ^ 28 < 2 ^ 32 = rw e at fits in rw e (u32_last-ends r u hr' (omega arith))
u32_groups-leb zero (suc n) shift r u hn hs hr hu fits = absurd (omega arith)
u32_groups-leb (suc k) zero shift r u hn hs hr hu fits =
    u32_group-ends shift r u _ hr (omega arith) fits
u32_groups-leb (suc k) (suc n) shift r u hn hs hr hu fits =
    let split : r + u * 2 ^ shift ≡ r + u % 128 * 2 ^ shift + u / 128 * 2 ^ (shift + 7) =
      omega (arith, split_groups u shift) in
    let fits' : r + u % 128 * 2 ^ shift + u / 128 * 2 ^ (shift + 7) < 2 ^ 32 = rw split at fits in
    rw split (
      u32_group-more shift r (u % 128) _ _ (leb128 n (u / 128)) hr (omega arith) (omega arith) (
        u32_groups-leb k n (shift + 7) (r + u % 128 * 2 ^ shift) (u / 128) (omega arith)
          (omega arith) (group_fits r (u % 128) shift hr (omega arith)) (groups_left n u hu) fits'))

-- `read_u32` reads `v` from each of its encodings in one to five bytes, the padded ones too, and
-- takes exactly those bytes, however the stream cuts them.
pub read_u32-leb : (n v : ℕ) → n ≤ 4 → v < 128 ^ suc n → v < 2 ^ 32 → Reads read_u32 v (leb128 n v)
unfolding read_u32
read_u32-leb n v hn hv fits =
    let e : 0 + v * 2 ^ 0 ≡ v = omega arith in
    rw e at (u32_groups-leb 4 n 0 0 v hn refl (omega arith) hv (omega arith))

-- The fifth byte is refused if it goes on or has a bit above bit 31.
u32_last-Rejects :
    (r b : ℕ)
    → 16 ≤ b
    → b < 256
    → Rejects (u32_last 28 r) ValidationError.malformed_integer (b ∷ [])
unfolding u32_last
u32_last-Rejects r b lo hi =
    Rejects-bind read_u8 _ b ValidationError.malformed_integer (b ∷ []) [] (Reads-u8 b)
      (rw (last_flags b lo hi) (Rejects-fail ValidationError.malformed_integer))
  where
    last_flags :
        (b : ℕ)
        → 16 ≤ b
        → b < 256
        → (ltb 0 (bit_and b continuation_bit) || ltb 0 (bit_and b 0b01110000)) ≡ true
    last_flags b hb hc = ground (arith, top_bit b, padding_bits b)

u32_group-Rejects :
    (shift r b : ℕ) (e : ValidationError) (next : ℕ → M ℕ) (bs : List ℕ)
    → 128 ≤ b
    → b < 256
    → ((r' : ℕ) → Rejects (next r') e bs)
    → Rejects (u32_group shift r next) e (b ∷ bs)
unfolding u32_group
u32_group-Rejects shift r b e next bs lo hi p =
    Rejects-bind read_u8 _ b e (b ∷ []) bs (Reads-u8 b)
      (rw (flag_goes_on b lo hi) (p (add_group 32 r b shift)))
  where
    flag_goes_on : (b : ℕ) → 128 ≤ b → b < 256 → (bit_and b continuation_bit == 0) ≡ false
    flag_goes_on b lo hi = ground (arith, top_bit b)

-- After four bytes that go on, a fifth byte from 16 on (one that goes on too, or sets a bit above
-- bit 31) is refused as a malformed integer.
pub read_u32_too_wide :
    (b0 b1 b2 b3 b4 : ℕ)
    → (128 ≤ b0) × (b0 < 256)
    → (128 ≤ b1) × (b1 < 256)
    → (128 ≤ b2) × (b2 < 256)
    → (128 ≤ b3) × (b3 < 256)
    → (16 ≤ b4) × (b4 < 256)
    → Rejects read_u32 ValidationError.malformed_integer (b0 ∷ b1 ∷ b2 ∷ b3 ∷ b4 ∷ [])
unfolding read_u32 u32_groups
read_u32_too_wide b0 b1 b2 b3 b4 h0 h1 h2 h3 h4 = u32_group-Rejects 0 0 b0 _ _ _ h0.0 h0.1 λ r1.
    u32_group-Rejects 7 r1 b1 _ _ _ h1.0 h1.1 λ r2.
      u32_group-Rejects 14 r2 b2 _ _ _ h2.0 h2.1
        λ r3. u32_group-Rejects 21 r3 b3 _ _ _ h3.0 h3.1 λ r4. u32_last-Rejects r4 b4 h4.0 h4.1
