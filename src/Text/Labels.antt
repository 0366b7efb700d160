-- ===== src/Text/Labels.antt =====
-- The fields of a packed label and the offsets of jumps in src/text.rs.
use spacewasm.Prelude.{
  ℕ, ◌+◌, ◌-◌, ◌*◌, ◌/◌, ◌%◌, ◌^◌, ◌≤◌, ◌<◌, ◌≡◌, ◌⊎◌, inl, inr, refl, sym, ap, ◌∙◌, true, false,
  Option, none, some, ◌==◌, bit_and, bit_or, arith, shl, sar, add_w, sub_w,
}
use spacewasm.Prelude.Bits.{bit_or_low, bit_and_mask, bit_and_high}
use spacewasm.Errors.{ValidationError, ok, err}
use spacewasm.Types.{ValType, i32, i64, f32, f64, ResultType}
use spacewasm.Text.{
  JumpTarget, JumpOffset, LabelTarget, LabelArity, fits_22, new_offset, add_offset, arity_bits,
  arity_of, new_label, with_jump, jump, arity, depth,
}

-- Offsets of 22 bits, sign included, as `i32` patterns.
unfoldable pub IsOffset : JumpOffset → Type 0
IsOffset o = (o.bits < 2 ^ 21) ⊎ ((2 ^ 32 - 2 ^ 21 ≤ o.bits) × (o.bits < 2 ^ 32))

-- Sign extension from 22 bits gives the offset back.
extend_22 :
    (x : ℕ)
    → (x < 2 ^ 21) ⊎ ((2 ^ 32 - 2 ^ 21 ≤ x) × (x < 2 ^ 32))
    → sar 32 (shl 32 (x % 2 ^ 22) 10) 10 ≡ x
extend_22 x (inl h) = ground arith
extend_22 x (inr (h, i)) = ground arith

-- How many words the result of a block takes.
pub arity_for : ResultType → LabelArity
arity_for none = LabelArity.no_result
arity_for (some i32) = LabelArity.one_word
arity_for (some f32) = LabelArity.one_word
arity_for (some i64) = LabelArity.two_words
arity_for (some f64) = LabelArity.two_words

arity_bits-small : (t : Option ValType) → arity_bits t < 3
arity_bits-small none = omega arith
arity_bits-small (some i32) = omega arith
arity_bits-small (some i64) = omega arith
arity_bits-small (some f32) = omega arith
arity_bits-small (some f64) = omega arith

-- The word as arithmetic.
label_word :
    (t : ResultType) (d : ℕ) (o : JumpOffset)
    → d < 2 ^ 8
    → (new_label t d o).word ≡ (arity_bits t * 2 ^ 8 + d) * 2 ^ 22 + o.bits % 2 ^ 22
unfolding new_label
label_word t d o h =
    let r : ℕ = arity_bits t in
    let small : arity_bits t < 3 = arity_bits-small t in
    let high : shl 32 (arity_bits t) 30 ≡ arity_bits t * 2 ^ 30 = omega arith in
    let middle : shl 32 d 22 ≡ d * 2 ^ 22 = omega arith in
    let low : bit_and o.bits 4194303 ≡ o.bits % 2 ^ 22 = bit_and_mask 22 o.bits in
    let first : bit_or (arity_bits t * 2 ^ 30) (d * 2 ^ 22) ≡ arity_bits t * 2 ^ 30 + d * 2 ^ 22 =
      bit_or_low 30 (arity_bits t) (d * 2 ^ 22) (omega arith) in
    let sum : arity_bits t * 2 ^ 30 + d * 2 ^ 22 ≡ (arity_bits t * 2 ^ 8 + d) * 2 ^ 22 =
      omega arith in
    let whole : bit_or ((arity_bits t * 2 ^ 8 + d) * 2 ^ 22) (o.bits % 2 ^ 22)
        ≡ (arity_bits t * 2 ^ 8 + d) * 2 ^ 22 + o.bits % 2 ^ 22 =
      bit_or_low 22 (arity_bits t * 2 ^ 8 + d) (o.bits % 2 ^ 22) (omega arith) in
    cc (high, middle, low, first, sum, whole)

arity_of_bits : (t : ResultType) → arity_of (arity_bits t) ≡ some (arity_for t)
unfolding arity_for
arity_of_bits none = refl
arity_of_bits (some i32) = refl
arity_of_bits (some i64) = refl
arity_of_bits (some f32) = refl
arity_of_bits (some f64) = refl

-- The fields of a word `q * 2 ^ 30 + d * 2 ^ 22 + x`.
depth_of_word :
    (q d x : ℕ)
    → d < 2 ^ 8
    → x < 2 ^ 22
    → depth (record { word = (q * 2 ^ 8 + d) * 2 ^ 22 + x }) ≡ d
unfolding depth
depth_of_word q d x h i =
    let m : bit_and (((q * 2 ^ 8 + d) * 2 ^ 22 + x) / 2 ^ 22) 255
        ≡ (((q * 2 ^ 8 + d) * 2 ^ 22 + x) / 2 ^ 22) % 2 ^ 8 =
      bit_and_mask 8 _ in
    omega (arith, m)

arity_of_word :
    (q d x : ℕ)
    → q < 4
    → d < 2 ^ 8
    → x < 2 ^ 22
    → arity (record { word = (q * 2 ^ 8 + d) * 2 ^ 22 + x }) ≡ arity_of q
unfolding arity
arity_of_word q d x g h i =
    let m : bit_and (((q * 2 ^ 8 + d) * 2 ^ 22 + x) / 2 ^ 30) 3
        ≡ (((q * 2 ^ 8 + d) * 2 ^ 22 + x) / 2 ^ 30) % 2 ^ 2 =
      bit_and_mask 2 _ in
    let e : bit_and (((q * 2 ^ 8 + d) * 2 ^ 22 + x) / 2 ^ 30) 3 ≡ q = omega (arith, m) in
    ap arity_of e

jump_of_word :
    (q : ℕ) (o : JumpOffset)
    → IsOffset o
    → jump (record { word = q * 2 ^ 22 + o.bits % 2 ^ 22 }) ≡ o
unfolding jump IsOffset
jump_of_word q o h =
    let m : bit_and (q * 2 ^ 22 + o.bits % 2 ^ 22) 4194303
        ≡ (q * 2 ^ 22 + o.bits % 2 ^ 22) % 2 ^ 22 =
      bit_and_mask 22 _ in
    let e : bit_and (q * 2 ^ 22 + o.bits % 2 ^ 22) 4194303 ≡ o.bits % 2 ^ 22 = omega (arith, m) in
    ap (λ (b : ℕ). record { bits = b }) (ap (λ t. sar 32 (shl 32 t 10) 10) e ∙ extend_22 o.bits h)

-- The label that the code builds gives back the arity of its type, its depth and its offset.
pub new_label-fields :
    (t : ResultType) (d : ℕ) (o : JumpOffset)
    → d < 2 ^ 8
    → IsOffset o
    → (arity (new_label t d o) ≡ some (arity_for t))
      × (depth (new_label t d o) ≡ d)
      × (jump (new_label t d o) ≡ o)
new_label-fields t d o h i =
    let e : new_label t d o
        ≡ record { word = (arity_bits t * 2 ^ 8 + d) * 2 ^ 22 + o.bits % 2 ^ 22 } =
      ap (λ (w : ℕ). record { word = w }) (label_word t d o h) in
    let small : arity_bits t < 3 = arity_bits-small t in
    rw e (
      arity_of_word (arity_bits t) d (o.bits % 2 ^ 22) (omega arith) h (omega arith)
          ∙ arity_of_bits t,
      depth_of_word (arity_bits t) d (o.bits % 2 ^ 22) h (omega arith),
      jump_of_word (arity_bits t * 2 ^ 8 + d) o i,
    )

with_jump_word :
    (q d x : ℕ) (o : JumpOffset)
    → q < 4
    → d < 2 ^ 8
    → x < 2 ^ 22
    → with_jump (record { word = (q * 2 ^ 8 + d) * 2 ^ 22 + x }) o
      ≡ record { word = (q * 2 ^ 8 + d) * 2 ^ 22 + o.bits % 2 ^ 22 }
unfolding with_jump
with_jump_word q d x o g h i =
    let keep : bit_and ((q * 2 ^ 8 + d) * 2 ^ 22 + x) (1023 * 2 ^ 22)
        ≡ bit_and (q * 2 ^ 8 + d) 1023 * 2 ^ 22 =
      bit_and_high 22 (q * 2 ^ 8 + d) x 1023 i in
    let mask : bit_and (q * 2 ^ 8 + d) 1023 ≡ (q * 2 ^ 8 + d) % 2 ^ 10 = bit_and_mask 10 _ in
    let high : bit_and ((q * 2 ^ 8 + d) * 2 ^ 22 + x) 4290772992 ≡ (q * 2 ^ 8 + d) * 2 ^ 22 =
      omega (arith, keep, mask) in
    let low : bit_and o.bits 4194303 ≡ o.bits % 2 ^ 22 = bit_and_mask 22 o.bits in
    let whole : bit_or ((q * 2 ^ 8 + d) * 2 ^ 22) (o.bits % 2 ^ 22)
        ≡ (q * 2 ^ 8 + d) * 2 ^ 22 + o.bits % 2 ^ 22 =
      bit_or_low 22 (q * 2 ^ 8 + d) (o.bits % 2 ^ 22) (omega arith) in
    ap (λ (w : ℕ). record { word = w }) (cc (high, low, whole))

with_jump_parts :
    (l : LabelTarget) (o : JumpOffset)
    → l.word < 2 ^ 32
    → with_jump l o ≡ record {
      word = (l.word / 2 ^ 30 * 2 ^ 8 + l.word / 2 ^ 22 % 2 ^ 8) * 2 ^ 22 + o.bits % 2 ^ 22;
    }
with_jump_parts l o small =
    let split : l.word
        ≡ (l.word / 2 ^ 30 * 2 ^ 8 + l.word / 2 ^ 22 % 2 ^ 8) * 2 ^ 22 + l.word % 2 ^ 22 =
      omega arith in
    ap (λ (w : ℕ). with_jump (record { word = w }) o) split
    ∙ with_jump_word (l.word / 2 ^ 30) (l.word / 2 ^ 22 % 2 ^ 8) (l.word % 2 ^ 22) o (omega arith)
        (omega arith) (omega arith)

-- A patched label is a word of 32 bits.
pub with_jump_small :
    (l : LabelTarget) (o : JumpOffset) → l.word < 2 ^ 32 → (with_jump l o).word < 2 ^ 32
with_jump_small l o small =
    omega (arith, ap (λ (x : LabelTarget). x.word) (with_jump_parts l o small), small)

-- Patching a 32-bit label changes its offset and nothing else.
pub with_jump-fields :
    (l : LabelTarget) (o : JumpOffset)
    → l.word < 2 ^ 32
    → IsOffset o
    → (jump (with_jump l o) ≡ o)
      × (depth (with_jump l o) ≡ depth l)
      × (arity (with_jump l o) ≡ arity l)
with_jump-fields l o small i =
    let q : ℕ = l.word / 2 ^ 30 in
    let split : l.word
        ≡ (l.word / 2 ^ 30 * 2 ^ 8 + l.word / 2 ^ 22 % 2 ^ 8) * 2 ^ 22 + l.word % 2 ^ 22 =
      omega arith in
    let e : l ≡ record {
      word = (l.word / 2 ^ 30 * 2 ^ 8 + l.word / 2 ^ 22 % 2 ^ 8) * 2 ^ 22 + l.word % 2 ^ 22;
    } =
      ap (λ (w : ℕ). record { word = w }) split in
    let w : with_jump l o ≡ record {
      word = (l.word / 2 ^ 30 * 2 ^ 8 + l.word / 2 ^ 22 % 2 ^ 8) * 2 ^ 22 + o.bits % 2 ^ 22;
    } =
      with_jump_parts l o small in
    (
      ap jump w ∙ jump_of_word _ o i,
      ap depth w
          ∙ depth_of_word _ _ _ (omega arith) (omega arith)
          ∙ sym (ap depth e ∙ depth_of_word _ _ _ (omega arith) (omega arith)),
      ap arity w
          ∙ arity_of_word _ _ _ (omega arith) (omega arith) (omega arith)
          ∙ sym (ap arity e ∙ arity_of_word _ _ _ (omega arith) (omega arith) (omega arith)),
    )

not_all_ones : (a : ℕ) → a < 2 ^ 31 → (a == 0xFFFFFFFF) ≡ false
not_all_ones a h = ground arith

near-fits_22 : (x : ℕ) → (x < 2 ^ 21) ⊎ ((2 ^ 32 - 2 ^ 21 ≤ x) × (x < 2 ^ 32)) → fits_22 x ≡ true
near-fits_22 x (inl h) = ground arith
near-fits_22 x (inr (h, i)) = ground arith

far-fits_22 : (x : ℕ) → (2 ^ 21 ≤ x) × (x < 2 ^ 32 - 2 ^ 21) → fits_22 x ≡ false
far-fits_22 x (h, i) = ground arith

in_range :
    (t c : ℕ)
    → c < 2 ^ 31
    → t < 2 ^ 31
    → t < c + 2 ^ 21
    → c ≤ t + 2 ^ 21
    → (sub_w 32 t c < 2 ^ 21) ⊎ ((2 ^ 32 - 2 ^ 21 ≤ sub_w 32 t c) × (sub_w 32 t c < 2 ^ 32))
in_range t c h i p q = ground arith

too_far :
    (t c : ℕ)
    → c < 2 ^ 31
    → t < 2 ^ 31
    → (c + 2 ^ 21 ≤ t) ⊎ (t + 2 ^ 21 < c)
    → (2 ^ 21 ≤ sub_w 32 t c) × (sub_w 32 t c < 2 ^ 32 - 2 ^ 21)
too_far t c h i (inl p) = (omega arith, omega arith)
too_far t c h i (inr p) = (omega arith, omega arith)

not_sentinel : (t : JumpTarget) → t.address < 2 ^ 31 → (t.address == 0xFFFFFFFF) ≡ false
not_sentinel t h = not_all_ones t.address h

-- A jump between two addresses below 2 ^ 31, to one less than 2 ^ 21 words ahead or at most 2 ^ 21 behind, is encoded, and adding its offset to
-- the address it starts from leads to its target.
pub new_offset-add_offset :
    (current to : JumpTarget)
    → current.address < 2 ^ 31
    → to.address < 2 ^ 31
    → to.address < current.address + 2 ^ 21
    → current.address ≤ to.address + 2 ^ 21
    → (o : JumpOffset) × ((new_offset current to ≡ ok o)
        × (IsOffset o)
        × (add_offset current o ≡ to))
unfolding new_offset IsOffset add_offset
new_offset-add_offset current to h i p q =
    let near : (sub_w 32 to.address current.address < 2 ^ 21)
        ⊎ ((2 ^ 32 - 2 ^ 21 ≤ sub_w 32 to.address current.address)
            × (sub_w 32 to.address current.address < 2 ^ 32)) =
      in_range to.address current.address h i p q in
    let fits : fits_22 (sub_w 32 to.address current.address) ≡ true = near-fits_22 _ near in
    let back : add_w 32 current.address (sub_w 32 to.address current.address) ≡ to.address =
      omega arith in
    (
      record { bits = sub_w 32 to.address current.address },
      (rw (not_sentinel to i, fits) refl, near, ap (λ (a : ℕ). record { address = a }) back),
    )

-- A jump between two addresses below 2 ^ 31, to one 2 ^ 21 words or more ahead or more than 2 ^ 21 behind, is
-- refused.
pub new_offset_too_far :
    (current to : JumpTarget)
    → current.address < 2 ^ 31
    → to.address < 2 ^ 31
    → (current.address + 2 ^ 21 ≤ to.address) ⊎ (to.address + 2 ^ 21 < current.address)
    → new_offset current to ≡ err ValidationError.label_jump_too_large
unfolding new_offset
new_offset_too_far current to h i far =
    let out : fits_22 (sub_w 32 to.address current.address) ≡ false =
      far-fits_22 _ (too_far to.address current.address h i far) in
    rw (not_sentinel to i, out) refl
