-- ===== src/CircularBuffer/Refine.antt =====
-- A ring holds a list, oldest element first, and each operation acts on that list.
use spacewasm.Prelude.{
  ℕ, zero, suc, ◌+◌, ◌-◌, ◌%◌, ◌≤◌, ◌<◌, ◌≡◌, ◌≢◌, refl, sym, ◌∙◌, arith, Option, none, some, List,
  [], ◌∷◌, ◌++◌, length, get_elem?, set, length-set, length-append, length-replicate,
  get_elem?-set_self, get_elem?-set_ne, if◌then◌else◌, ltb,
}
use spacewasm.CircularBuffer.{CircularBuffer, slot, new, capacity, push}
use native.Mathlib.Nat.{mod-eq_of_lt, mod-eq-sub-mod}
use native.Mathlib.Decide.{dec_lt}

-- The ring index is the sum, or the sum less N.
abbrev pub wrapped : ℕ → ℕ → ℕ
wrapped i n = if ltb i n then i else i - n

pub mod-eq-wrapped : (i n : ℕ) → i < n + n → i % n ≡ wrapped i n
mod-eq-wrapped i n h = elim (dec_lt i n) [
  | yes p ↦ ground (arith, mod-eq_of_lt p)
  | no p ↦ ground (
    arith,
    mod-eq-sub-mod {n = i} {m = n} (omega arith),
    mod-eq_of_lt {n = i - n} {m = n} (omega arith),
  )
]

module _ {ℓ} {A : Type ℓ} where
  slot-set_self :
      (items : List (Option A)) (i : ℕ) (x : A)
      → i < length items
      → slot (set items i (some x)) i ≡ some x
  slot-set_self items i x h = rw (get_elem?-set_self items i (some x) h, slot)

  slot-set_ne :
      (items : List (Option A)) (i j : ℕ) (x : A)
      → i ≢ j
      → slot (set items i (some x)) j ≡ slot items j
  slot-set_ne items i j x h = rw (get_elem?-set_ne items (some x) h, slot)

  pub get_elem?-snoc_lt :
      (xs : List A) (x : A) (k : ℕ) → k < length xs → get_elem? (xs ++ (x ∷ [])) k ≡ get_elem? xs k
  get_elem?-snoc_lt [] x k h = absurd (omega arith)
  get_elem?-snoc_lt (y ∷ xs) x zero h = refl
  get_elem?-snoc_lt (y ∷ xs) x (suc k) h = get_elem?-snoc_lt xs x k (omega arith)

  pub get_elem?-past : (xs : List A) (k : ℕ) → length xs ≤ k → get_elem? xs k ≡ none
  get_elem?-past [] k h = refl
  get_elem?-past (x ∷ xs) zero h = absurd (omega arith)
  get_elem?-past (x ∷ xs) (suc k) h = get_elem?-past xs k (omega arith)

  pub get_elem?-snoc_last : (xs : List A) (x : A) → get_elem? (xs ++ (x ∷ [])) (length xs) ≡ some x
  get_elem?-snoc_last [] x = refl
  get_elem?-snoc_last (y ∷ xs) x = get_elem?-snoc_last xs x

  -- `b` holds exactly the elements of `xs`, the oldest first.
  pub record Holds (b : CircularBuffer A) (xs : List A) : Type ℓ where
    pub sized : b.size ≡ length xs
    pub starts : b.start < capacity b
    pub fits : b.size ≤ capacity b
    pub cells :
        (k : ℕ) → k < b.size → slot b.items (wrapped (b.start + k) (capacity b)) ≡ get_elem? xs k

-- Distinct elements stand in distinct slots.
wrapped-ne : (s k n c : ℕ) → s < c → k < n → n < c → wrapped (s + n) c ≢ wrapped (s + k) c
wrapped-ne s k n c hs hk hn = ground arith

pub wrapped-lt : (s n c : ℕ) → s < c → n ≤ c → wrapped (s + n) c < c
wrapped-lt s n c hs hn = ground arith

wrapped-ne_start : (s k c : ℕ) → s < c → 0 < k → k < c → s ≢ wrapped (s + k) c
wrapped-ne_start s k c hs h hk = ground arith

pub wrapped-zero : (s c : ℕ) → s < c → wrapped (s + 0) c ≡ s
wrapped-zero s c hs = ground arith

wrapped_around : (s k c : ℕ) → s < c → k ≡ c → wrapped (s + k) c ≡ s
wrapped_around s k c hs e = ground arith

-- Moving the start by one moves every index by one.
pub wrapped-suc :
    (s k c : ℕ) → s < c → k + 1 < c + 1 → wrapped (wrapped (s + 1) c + k) c ≡ wrapped (s + suc k) c
wrapped-suc s k c hs hk = ground arith

module _ {ℓ} {A : Type ℓ} where
  append_cell :
      (items : List (Option A)) (xs : List A) (x : A) (s n k : ℕ)
      → s < length items
      → n < length items
      → n ≡ length xs
      → (k < n → slot items (wrapped (s + k) (length items)) ≡ get_elem? xs k)
      → k < n + 1
      → slot (set items (wrapped (s + n) (length items)) (some x)) (wrapped (s + k) (length items))
        ≡ get_elem? (xs ++ (x ∷ [])) k
  append_cell items xs x s n k hs hn e old hk = elim (dec_lt k n) [
    | yes p ↦
        slot-set_ne items _ _ x (wrapped-ne s k n (length items) hs p hn)
        ∙ old p
        ∙ sym (get_elem?-snoc_lt xs x k (omega arith))
    | no p ↦
        let same : k ≡ n = omega arith in
        rw same (
          slot-set_self items _ x (wrapped-lt s n (length items) hs (omega arith))
          ∙ rw e (sym (get_elem?-snoc_last xs x)))
  ]

  -- After a write over the oldest element, seen from the next start.
  overwrite_cell :
      (items : List (Option A)) (y : A) (xs : List A) (x : A) (s k : ℕ)
      → s < length items
      → length items ≡ suc (length xs)
      → (suc k < length items
          → slot items (wrapped (s + suc k) (length items)) ≡ get_elem? (y ∷ xs) (suc k))
      → k < length items
      → slot (set items s (some x)) (wrapped (wrapped (s + 1) (length items) + k) (length items))
        ≡ get_elem? (xs ++ (x ∷ [])) k
  overwrite_cell items y xs x s k hs e old hk =
      rw (wrapped-suc s k (length items) hs (omega arith)) (elim (dec_lt (suc k) (length items)) [
        | yes p ↦
            slot-set_ne items s _ x (wrapped-ne_start s (suc k) (length items) hs (omega arith) p)
            ∙ old p
            ∙ sym (get_elem?-snoc_lt xs x k (omega arith))
        | no p ↦
            let last : k ≡ length xs = omega arith in
            rw (wrapped_around s (suc k) (length items) hs (omega arith))
              (slot-set_self items s x hs ∙ rw last (sym (get_elem?-snoc_last xs x)))
      ])

  -- A new buffer of N slots, N not 0, holds nothing.
  pub new-Holds : (n : ℕ) → 0 < n → Holds (new {A = A} n) []
  unfolding new
  new-Holds n h = record {
    sized = refl;
    starts = omega (arith, length-replicate n (let c : Option A = none in c));
    fits = omega arith;
    cells = λ k hk. absurd (omega arith);
  }

  push-room :
      (b : CircularBuffer A) (x : A)
      → b.start < capacity b
      → b.size < capacity b
      → push b x ≡ record b {
        items = set b.items (wrapped (b.start + b.size) (capacity b)) (some x);
        size = b.size + 1;
      }
  unfolding push
  push-room b x hs h = ground (arith, mod-eq-wrapped (b.start + b.size) (capacity b))

  -- With a slot left, `push` appends the element.
  pub push-append :
      (b : CircularBuffer A) (xs : List A) (x : A)
      → Holds b xs
      → b.size < capacity b
      → Holds (push b x) (xs ++ (x ∷ []))
  push-append b xs x h room = rw (push-room b x h.starts room) (record {
    sized = omega (arith, h.sized, length-append xs (x ∷ []));
    starts = rw length-set h.starts;
    fits = rw length-set (omega arith);
    cells = λ k hk.
        rw length-set
          (append_cell b.items xs x b.start b.size k h.starts room h.sized (h.cells k) hk);
  })

  push-full :
      (b : CircularBuffer A) (x : A)
      → b.start < capacity b
      → b.size ≡ capacity b
      → push b x ≡ record b {
        items = set b.items b.start (some x);
        start = wrapped (b.start + 1) (capacity b);
      }
  unfolding push
  push-full b x hs h = ground (arith, mod-eq-wrapped (b.start + 1) (capacity b))

  -- On a full buffer `push` drops the oldest element and appends the new one.
  pub push-overwrite :
      (b : CircularBuffer A) (y : A) (xs : List A) (x : A)
      → Holds b (y ∷ xs)
      → b.size ≡ capacity b
      → Holds (push b x) (xs ++ (x ∷ []))
  push-overwrite b y xs x h full = rw (push-full b x h.starts full) (record {
    sized = omega (arith, h.sized, length-append xs (x ∷ []));
    starts = rw length-set (wrapped-lt b.start 1 (capacity b) h.starts (omega (arith, h.starts)));
    fits = rw length-set (omega arith);
    cells = λ k hk. rw length-set (
        overwrite_cell b.items y xs x b.start k h.starts (omega (arith, h.sized))
          (λ p. h.cells (suc k) (omega arith)) (omega arith));
  })
