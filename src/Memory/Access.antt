-- ===== src/Memory/Access.antt =====
-- Loads after stores in src/memory.rs.
use spacewasm.Prelude.{
  ℕ, ◌+◌, ◌^◌, ◌≤◌, ◌<◌, ◌≡◌, ◌↔◌, ◌⊎◌, inl, inr, refl, sym, subst, ◌∙◌, ap, true, false,
  Bool-cases, some, List, ltb, length, take, drop, arith, to_le_bytes, from_le_bytes,
  length-to_le_bytes, from_le_bytes-to_le_bytes,
}
use spacewasm.Errors.{MemoryError, ok, err}
use spacewasm.Memory.{Memory, check_in_bounds, write_at, splice, store_word, load_word}
use spacewasm.Memory.Valid.{Holds, splice_self, splice-before, splice-after, length-splice}

-- An access is in bounds exactly when its last byte is.
pub check_in_bounds_iff :
    (m : Memory) (addr n : ℕ) → (check_in_bounds m addr n ≡ ok tt) ↔ (addr + n ≤ m.size)
unfolding check_in_bounds
check_in_bounds_iff m addr n = ground arith

-- Otherwise it is refused.
pub check_in_bounds_out :
    (m : Memory) (addr n : ℕ)
    → m.size < addr + n
    → check_in_bounds m addr n ≡ err MemoryError.out_of_bounds
unfolding check_in_bounds
check_in_bounds_out m addr n h = ground arith

-- A memory of `k` bytes or more has a block.
pub block_of :
    (m : Memory) (block : List ℕ) (n addr k : ℕ)
    → Holds m block n
    → addr + k ≤ m.size
    → 0 < k
    → m.ptr ≡ some block
block_of m block n addr k h i j = elim h.pointed [
  | inl p ↦ p
  | inr q ↦ absurd (omega (arith, h.filled, ap length q.1, i, j))
]

write_at-Holds :
    (m : Memory) (block : List ℕ) (n addr : ℕ) (bytes : List ℕ)
    → Holds m block n
    → addr + length bytes ≤ m.size
    → m.ptr ≡ some block
    → Holds (write_at m addr bytes) (splice block addr bytes) n
write_at-Holds m block n addr bytes h i p = record {
  type_valid = h.type_valid;
  sized = h.sized;
  pages_small = h.pages_small;
  filled = length-splice block addr bytes (omega (arith, h.filled, i)) ∙ h.filled;
  pointed = inl (rw p refl);
}

-- A word stored in bounds succeeds, keeps the memory valid, and replaces just the bytes of the word by
-- its little-endian bytes; out of bounds it is refused.
pub store_word_lem :
    (k : ℕ) (m : Memory) (block : List ℕ) (n addr v : ℕ)
    → 0 < k
    → Holds m block n
    → (addr + k ≤ m.size
        → (m' : Memory) × ((store_word k m addr v ≡ ok m')
            × Holds m' (splice block addr (to_le_bytes k v)) n))
      × (m.size < addr + k → store_word k m addr v ≡ err MemoryError.out_of_bounds)
unfolding store_word
store_word_lem k m block n addr v pos h = (
  λ i. (
    write_at m addr (to_le_bytes k v),
    (
      rw ((check_in_bounds_iff m addr k).1 i) refl,
      write_at-Holds m block n addr (to_le_bytes k v) h (omega (arith, i, length-to_le_bytes k v))
          (block_of m block n addr k h i pos),
    ),
  ),
  λ i. rw (check_in_bounds_out m addr k i) refl,
)

-- A load of `k` bytes reads the block.
pub load_word_lem :
    (k : ℕ) (m : Memory) (block : List ℕ) (n addr : ℕ)
    → 0 < k
    → Holds m block n
    → addr + k ≤ m.size
    → load_word k m addr ≡ ok (from_le_bytes (take k (drop addr block)))
unfolding load_word
load_word_lem k m block n addr pos h i =
    rw ((check_in_bounds_iff m addr k).1 i, block_of m block n addr k h i pos) refl

stored-fits :
    (k : ℕ) (m m' : Memory) (block : List ℕ) (n addr v : ℕ)
    → 0 < k
    → Holds m block n
    → store_word k m addr v ≡ ok m'
    → addr + k ≤ m.size
stored-fits k m m' block n addr v pos h e = by_test (Bool-cases (ltb m.size (addr + k)))
  where
    by_test : (ltb m.size (addr + k) ≡ true) ⊎ (ltb m.size (addr + k) ≡ false) → addr + k ≤ m.size
    by_test (inl c) =
        let r : store_word k m addr v ≡ err MemoryError.out_of_bounds =
          (store_word_lem k m block n addr v pos h).1 (ground arith) in
        absurd (cc (e, r))
    by_test (inr c) = ground arith

-- A store in bounds succeeds and keeps the memory valid.
pub stored-Holds :
    (k : ℕ) (m m' : Memory) (block : List ℕ) (n addr v : ℕ)
    → 0 < k
    → Holds m block n
    → store_word k m addr v ≡ ok m'
    → Holds m' (splice block addr (to_le_bytes k v)) n
stored-Holds k m m' block n addr v pos h e =
    let (m2, s) =
      (store_word_lem k m block n addr v pos h).0 (stored-fits k m m' block n addr v pos h e) in
    let same : m2 ≡ m' = cc (e, s.0) in
    subst (λ x. Holds x (splice block addr (to_le_bytes k v)) n) same s.1

module _ (k : ℕ) (m m' : Memory) (block : List ℕ) (n addr v : ℕ) where
  splice_fits : Holds m block n → addr + k ≤ m.size → addr + length (to_le_bytes k v) ≤ length block
  splice_fits h i = omega (arith, length-to_le_bytes k v, h.filled, i)

  same_size :
      Holds m block n
      → Holds m' (splice block addr (to_le_bytes k v)) n
      → addr + k ≤ m.size
      → m'.size ≡ m.size
  same_size h h' i =
      omega
        (arith, h.filled, h'.filled, length-splice block addr (to_le_bytes k v) (splice_fits h i))

  load_word-spliced :
      0 < k
      → Holds m block n
      → Holds m' (splice block addr (to_le_bytes k v)) n
      → addr + k ≤ m.size
      → v < 256 ^ k
      → load_word k m' addr ≡ ok v
  load_word-spliced pos h h' i small =
      let self : take k (drop addr (splice block addr (to_le_bytes k v))) ≡ to_le_bytes k v =
        subst (λ t. take t (drop addr (splice block addr (to_le_bytes k v))) ≡ to_le_bytes k v)
          (length-to_le_bytes k v) (splice_self block addr (to_le_bytes k v) (splice_fits h i)) in
      load_word_lem k m' _ n addr pos h' (omega (arith, same_size h h' i, i))
      ∙ ap (λ t. ok (from_le_bytes t)) self
      ∙ ap ok (from_le_bytes-to_le_bytes k v small)

module _ (k l : ℕ) (m m' : Memory) (block : List ℕ) (n addr v i : ℕ) where
  load_word-unspliced :
      0 < l
      → Holds m block n
      → Holds m' (splice block addr (to_le_bytes k v)) n
      → addr + k ≤ m.size
      → i + l ≤ m.size
      → (i + l ≤ addr) ⊎ (addr + k ≤ i)
      → load_word l m' i ≡ load_word l m i
  load_word-unspliced p h h' fits b apart =
      let fit : addr + length (to_le_bytes k v) ≤ length block =
        splice_fits k m m' block n addr v h fits in
      load_word_lem l m' _ n i p h' (omega (arith, same_size k m m' block n addr v h h' fits, b))
      ∙ ap (λ t. ok (from_le_bytes t))
          (elim apart [
            | inl q ↦ splice-before block addr (to_le_bytes k v) i l (omega (arith, fit)) q
            | inr q ↦ ap (take l) (
                splice-after block addr (to_le_bytes k v) i fit
                  (omega (arith, length-to_le_bytes k v, q)))
          ])
      ∙ sym (load_word_lem l m block n i p h b)

-- A word stored is the word loaded at its address.
pub load_word-store_word :
    (k : ℕ) (m m' : Memory) (block : List ℕ) (n addr v : ℕ)
    → 0 < k
    → Holds m block n
    → v < 256 ^ k
    → store_word k m addr v ≡ ok m'
    → load_word k m' addr ≡ ok v
load_word-store_word k m m' block n addr v pos h small e =
    let i : addr + k ≤ m.size = stored-fits k m m' block n addr v pos h e in
    load_word-spliced k m m' block n addr v pos h (stored-Holds k m m' block n addr v pos h e) i
      small

-- A store leaves every word that does not overlap the stored one as it was.
pub load_word-store_word_apart :
    (k l : ℕ) (m m' : Memory) (block : List ℕ) (n addr v i : ℕ)
    → 0 < k
    → 0 < l
    → Holds m block n
    → store_word k m addr v ≡ ok m'
    → i + l ≤ m.size
    → (i + l ≤ addr) ⊎ (addr + k ≤ i)
    → load_word l m' i ≡ load_word l m i
load_word-store_word_apart k l m m' block n addr v i pos p h e b apart =
    let fits : addr + k ≤ m.size = stored-fits k m m' block n addr v pos h e in
    load_word-unspliced k l m m' block n addr v i p h (stored-Holds k m m' block n addr v pos h e)
      fits b apart
