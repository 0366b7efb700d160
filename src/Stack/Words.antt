-- ===== src/Stack/Words.antt =====
-- Reads after writes on the stack of src/stack.rs.
use spacewasm.Prelude.{
  ℕ, zero, suc, ◌+◌, ◌*◌, ◌/◌, ◌%◌, ◌^◌, ◌≤◌, ◌<◌, ◌≡◌, ◌≢◌, ◌⊎◌, refl, sym, ap, ap₂, ◌∙◌, some,
  List, [], ◌∷◌, length, get_or, set, as_u32, shl, shr, bit_or, arith, length-set,
}
use spacewasm.Prelude.Bits.{bit_or_high}
use spacewasm.Stack.{Stack, check_bounds, read_u32, read_u64, write_u64}

-- A stack owns as many words as its size says.
unfoldable pub IsStack : Stack → Type 0
IsStack s = length s.words ≡ s.size

get_or-set_same : (ws : List ℕ) (i v : ℕ) → i < length ws → get_or (set ws i v) i 0 ≡ v
get_or-set_same [] i v h = absurd (omega arith)
get_or-set_same (w ∷ ws) zero v h = refl
get_or-set_same (w ∷ ws) (suc i) v h = get_or-set_same ws i v (omega arith)

get_or-set_other : (ws : List ℕ) (i j v : ℕ) → i ≢ j → get_or (set ws i v) j 0 ≡ get_or ws j 0
get_or-set_other [] i j v h = refl
get_or-set_other (w ∷ ws) zero zero v h = absurd (h refl)
get_or-set_other (w ∷ ws) zero (suc j) v h = refl
get_or-set_other (w ∷ ws) (suc i) zero v h = refl
get_or-set_other (w ∷ ws) (suc i) (suc j) v h = get_or-set_other ws i j v (λ e. h (ap suc e))

in_bounds :
    {A : Type 0} (s : Stack) (addr n : ℕ) (a : A)
    → addr + n ≤ s.size
    → check_bounds s addr n a ≡ some a
unfolding check_bounds
in_bounds s addr n a h = ground arith

halves : (v : ℕ) → v < 2 ^ 64 → bit_or (as_u32 v) (shl 64 (as_u32 (shr v 32)) 32) ≡ v
halves v h =
    let high : shl 64 (as_u32 (shr v 32)) 32 ≡ v / 2 ^ 32 * 2 ^ 32 = omega arith in
    let joined : bit_or (v % 2 ^ 32) (v / 2 ^ 32 * 2 ^ 32) ≡ v % 2 ^ 32 + v / 2 ^ 32 * 2 ^ 32 =
      bit_or_high 32 (v % 2 ^ 32) (v / 2 ^ 32) (omega arith) in
    ap (bit_or (v % 2 ^ 32)) high ∙ joined ∙ omega arith

-- A 64-bit value written inside the stack is the one read there, its halves are the two words, and no
-- other word changes.
pub write_u64_lem :
    (s : Stack) (addr v other : ℕ)
    → IsStack s
    → addr + 2 ≤ s.size
    → v < 2 ^ 64
    → other < s.size
    → (other < addr) ⊎ (addr + 2 ≤ other)
    → (s' : Stack) × ((write_u64 s addr v ≡ some s')
        × IsStack s'
        × (read_u64 s' addr ≡ some v)
        × (read_u32 s' addr ≡ some (v % 2 ^ 32))
        × (read_u32 s' (addr + 1) ≡ some (v / 2 ^ 32))
        × (read_u32 s' other ≡ read_u32 s other))
unfolding write_u64 read_u64 read_u32 IsStack
write_u64_lem s addr v other owns fits small inside apart =
    let first : List ℕ = set s.words addr (as_u32 v) in
    let ws : List ℕ = set (set s.words addr (as_u32 v)) (addr + 1) (as_u32 (shr v 32)) in
    let len1 : length (set s.words addr (as_u32 v)) ≡ length s.words =
      length-set s.words addr (as_u32 v) in
    let len : length (set (set s.words addr (as_u32 v)) (addr + 1) (as_u32 (shr v 32))) ≡ s.size =
      length-set (set s.words addr (as_u32 v)) (addr + 1) (as_u32 (shr v 32)) ∙ len1 ∙ owns in
    let low : get_or (set (set s.words addr (as_u32 v)) (addr + 1) (as_u32 (shr v 32))) addr 0
        ≡ as_u32 v =
      get_or-set_other (set s.words addr (as_u32 v)) (addr + 1) addr (as_u32 (shr v 32))
        (omega arith)
      ∙ get_or-set_same s.words addr (as_u32 v) (omega arith) in
    let high : get_or (set (set s.words addr (as_u32 v)) (addr + 1) (as_u32 (shr v 32))) (addr + 1)
          0
        ≡ as_u32 (shr v 32) =
      get_or-set_same (set s.words addr (as_u32 v)) (addr + 1) (as_u32 (shr v 32)) (omega arith) in
    let kept : get_or (set (set s.words addr (as_u32 v)) (addr + 1) (as_u32 (shr v 32))) other 0
        ≡ get_or s.words other 0 =
      get_or-set_other (set s.words addr (as_u32 v)) (addr + 1) other (as_u32 (shr v 32))
        (omega arith)
      ∙ get_or-set_other s.words addr other (as_u32 v) (omega arith) in
    let s' : Stack = record s { words = ws } in
    (
      record s { words = set (set s.words addr (as_u32 v)) (addr + 1) (as_u32 (shr v 32)) },
      (
        in_bounds s addr 2 _ fits,
        len,
        in_bounds _ addr 2 _ fits
            ∙ ap some (ap₂ (λ a b. bit_or a (shl 64 b 32)) low high ∙ halves v small),
        in_bounds _ addr 1 _ (omega arith) ∙ ap some low,
        in_bounds _ (addr + 1) 1 _ (omega arith) ∙ ap some (high ∙ omega arith),
        in_bounds _ other 1 _ (omega arith)
            ∙ ap some kept
            ∙ sym (in_bounds s other 1 _ (omega arith)),
      ),
    )
