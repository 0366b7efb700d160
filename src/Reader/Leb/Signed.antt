-- ===== src/Reader/Leb/Signed.antt =====
-- The blocks of `read_i32` and `read_i64`, for any width.
use spacewasm.Prelude.{
  ℕ, zero, suc, ◌+◌, ◌-◌, ◌*◌, ◌/◌, ◌%◌, ◌^◌, ◌≤◌, ◌<◌, ◌≡◌, arith, List, [], ◌∷◌, if◌then◌else◌,
  ltb, ◌⊎◌,
}
use spacewasm.Reader.{M, read_u8}
use spacewasm.Reader.Reads.{Reads, Reads-u8, Reads-pure, Reads-bind}
use spacewasm.Reader.Leb.{sign_extended, signed_group, signed_last, signed_groups}
use spacewasm.Reader.Leb.Groups.{
  leb128, split_groups, group_fits, groups_left, flag_ends, flag_more, add_group-ends,
  add_group-more,
}
use native.Mathlib.Nat.{pow-le-pow_right}

-- The bit pattern `v` of a `w`-bit signed number, as the groups of its encoding in `n + 1` bytes:
-- a negative number counts down from 128 ^ (n + 1).
abbrev pub groups_of : ℕ → ℕ → ℕ → ℕ
groups_of w n v = if ltb v (2 ^ (w - 1)) then v else v + 128 ^ suc n - 2 ^ w

-- The number that `v` stands for has an encoding in `n + 1` bytes: it lies from
-- -(128 ^ (n + 1)) / 2 up to, and without, 128 ^ (n + 1) / 2.
abbrev pub FitsGroups : ℕ → ℕ → ℕ → Type 0
FitsGroups w n v =
    (v < 2 ^ (w - 1)) × (2 * v < 128 ^ suc n)
    ⊎ (2 ^ (w - 1) ≤ v) × (v < 2 ^ w) × (2 * (2 ^ w - v) ≤ 128 ^ suc n)

-- A block on a byte that goes on, and on one that ends the number.
signed_group-ends :
    (w shift r g : ℕ) (next : ℕ → M ℕ)
    → r < 2 ^ shift
    → g < 128
    → r + g * 2 ^ shift < 2 ^ w
    → Reads (signed_group w shift r next) (sign_extended w (r + g * 2 ^ shift) (shift + 7)) (g ∷ [])
unfolding signed_group
signed_group-ends w shift r g next hr hg fits =
    Reads-bind read_u8 _ g (sign_extended w (r + g * 2 ^ shift) (shift + 7)) (g ∷ []) []
      (Reads-u8 g)
      (rw (flag_ends g hg, add_group-ends w r g shift hr hg fits)
        (Reads-pure (sign_extended w (r + g * 2 ^ shift) (shift + 7))))

signed_group-more :
    (w shift r g v : ℕ) (next : ℕ → M ℕ) (bs : List ℕ)
    → r < 2 ^ shift
    → g < 128
    → r + g * 2 ^ shift < 2 ^ w
    → Reads (next (r + g * 2 ^ shift)) v bs
    → Reads (signed_group w shift r next) v ((g + 128) ∷ bs)
unfolding signed_group
signed_group-more w shift r g v next bs hr hg fits p =
    Reads-bind read_u8 _ (g + 128) v ((g + 128) ∷ []) bs (Reads-u8 (g + 128))
      (rw (flag_more g hg, add_group-more w r g shift hr hg fits) p)

-- A number that ends before the last block is extended from the bits that it has.
pub signed_groups_short :
    (w mask k n shift r u : ℕ)
    → n < k
    → r < 2 ^ shift
    → u < 128 ^ suc n
    → r + u * 2 ^ shift < 2 ^ w
    → Reads
        (signed_groups w mask k shift r)
        (sign_extended w (r + u * 2 ^ shift) (shift + 7 * suc n))
        (leb128 n u)
unfolding signed_groups
signed_groups_short w mask zero n shift r u hn hr hu fits = absurd (omega arith)
signed_groups_short w mask (suc k) zero shift r u hn hr hu fits =
    signed_group-ends w shift r u _ hr (omega arith) fits
signed_groups_short w mask (suc k) (suc n) shift r u hn hr hu fits =
    let split : r + u * 2 ^ shift ≡ r + u % 128 * 2 ^ shift + u / 128 * 2 ^ (shift + 7) =
      omega (arith, split_groups u shift) in
    let bits : shift + 7 * suc (suc n) ≡ shift + 7 + 7 * suc n = omega arith in
    let fits' : r + u % 128 * 2 ^ shift + u / 128 * 2 ^ (shift + 7) < 2 ^ w = rw split at fits in
    rw (split, bits)
      (signed_group-more w shift r (u % 128) _ _ (leb128 n (u / 128)) hr (omega arith) (omega arith)
        (signed_groups_short w mask k n (shift + 7) (r + u % 128 * 2 ^ shift) (u / 128)
          (omega arith) (group_fits r (u % 128) shift hr (omega arith)) (groups_left n u hu) fits'))

two_pow_mono : (i j : ℕ) → i ≤ j → 2 ^ i ≤ 2 ^ j
two_pow_mono i j h = pow-le-pow_right (omega arith) h

-- The last of the groups that `leb128` writes.
abbrev pub last_group : ℕ → ℕ → ℕ
last_group zero u = u
last_group (suc k) u = last_group k (u / 128)

-- A number that takes every block, for a last block that keeps what fits `w` bits.
pub signed_groups_long :
    (w mask k shift top r u : ℕ)
    → shift + 7 * k ≡ top
    → top ≤ w
    → r < 2 ^ shift
    → u < 128 ^ suc k
    → ((r' : ℕ)
        → r' < 2 ^ top
        → Reads
            (signed_last w mask top r')
            ((r' + last_group k u * 2 ^ top) % 2 ^ w)
            (last_group k u ∷ []))
    → Reads (signed_groups w mask k shift r) ((r + u * 2 ^ shift) % 2 ^ w) (leb128 k u)
unfolding signed_groups
signed_groups_long w mask zero shift top r u hs wide hr hu last =
    let e : shift ≡ top = omega arith in rw e (last r (rw e at hr))
signed_groups_long w mask (suc k) shift top r u hs wide hr hu last =
    let split : r + u * 2 ^ shift ≡ r + u % 128 * 2 ^ shift + u / 128 * 2 ^ (shift + 7) =
      omega (arith, split_groups u shift) in
    let fits = group_fits r (u % 128) shift hr (omega arith) in
    rw split (
      signed_group-more w shift r (u % 128) _ _ (leb128 k (u / 128)) hr (omega arith)
        (omega (arith, fits, two_pow_mono (shift + 7) w (omega arith)))
        (signed_groups_long w mask k (shift + 7) top (r + u % 128 * 2 ^ shift) (u / 128)
          (omega arith) wide fits (groups_left k u hu) last))
