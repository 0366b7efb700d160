-- ===== src/Memory/Growth.antt =====
-- `Memory::new` and `Memory::grow` of src/memory.rs with a lawful allocator.
use spacewasm.Prelude.{
  ℕ, ◌+◌, ◌-◌, ◌*◌, ◌/◌, ◌^◌, ◌≤◌, ◌<◌, ◌≡◌, ◌⊎◌, inl, inr, refl, sym, subst, ◌∙◌, ap, true, false,
  Bool-cases, Option, none, some, List, [], ◌∷◌, ◌++◌, append-nil, ltb, ◌==◌, if◌then◌else◌, length,
  replicate, arith, length-replicate, length-append, usize_max, as_u32,
}
use spacewasm.Errors.{AllocError, MemoryError, ok, err, ◌>>=◌, map_err}
use spacewasm.Types.{MemType, MemPageSize, one_byte, kib_64, page_bytes, page_alignment, can_hold}
use spacewasm.Types.Valid.{IsMemType}
use spacewasm.Memory.{
  Memory, Allocator, from_alloc_error, layout_fits, clear, new_block, new, pages, non_null,
  grow_block, grow_to, grow,
}
use spacewasm.Memory.Valid.{IsAllocator, Holds, bind_ok, map_err_ok, if_ok, if_err, clear_tail}

cleared : (block : List ℕ) (n : ℕ) → length block ≡ n → clear block 0 n ≡ replicate n 0
cleared block n h = clear_tail block 0 n (omega (arith, h))

new_block-zeros :
    (a : Allocator) (size align : ℕ) (p : Option (List ℕ))
    → IsAllocator a
    → new_block a size align ≡ ok p
    → (p ≡ some (replicate size 0)) ⊎ ((p ≡ none) × (size ≡ 0))
unfolding new_block
new_block-zeros a size align p lawful e = elim (Bool-cases (size == 0)) [
  | inl z ↦ let e' : ok none ≡ ok p = rw z at e in inr (cc e', ground arith)
  | inr z ↦
      let e' : (if layout_fits size align
            then (a.allocate size align >>= λ block. ok (some (clear block 0 size)))
            else err AllocError.allocation_failed)
          ≡ ok p =
        rw z at e in
      let (_, i) = if_ok (layout_fits size align) _ _ p e' in
      let (block, (q, r)) =
        bind_ok (a.allocate size align) (λ block. ok (some (clear block 0 size))) p i in
      let c : clear block 0 size ≡ replicate size 0 =
        cleared block size (lawful.allocated size align block q) in
      let r' : ok (some (clear block 0 size)) ≡ ok p = r in inl (cc (r', c))
]

-- `Memory::new` of a valid type gives the initial number of pages, all of their bytes 0.
pub new-Holds :
    (ty : MemType) (a : Allocator) (m : Memory)
    → IsMemType ty
    → ty.initial_pages < 2 ^ 32
    → IsAllocator a
    → new ty a ≡ ok m
    → Holds m (replicate (ty.initial_pages * page_bytes ty.page_size) 0) ty.initial_pages
unfolding new
new-Holds ty a m valid small lawful e =
    let size : ℕ = ty.initial_pages * page_bytes ty.page_size in
    let make : Option (List ℕ) → Memory = λ p. record {
      ptr = p;
      size = ty.initial_pages * page_bytes ty.page_size;
      ty = ty;
      allocator = some a;
    } in
    let (_, i) = if_err (ltb usize_max (ty.initial_pages * page_bytes ty.page_size)) _ _ m e in
    let (p, (q, r)) =
      bind_ok
        (new_block a (ty.initial_pages * page_bytes ty.page_size) (page_alignment ty.page_size)) _ m
        i in
    let r' : make p ≡ m = cc r in
    subst (λ x. Holds x (replicate (ty.initial_pages * page_bytes ty.page_size) 0) ty.initial_pages)
      r'
      record {
        type_valid = valid;
        sized = refl;
        pages_small = small;
        filled = length-replicate (ty.initial_pages * page_bytes ty.page_size) 0;
        pointed = elim (new_block-zeros a _ _ p lawful q) [
          | inl s ↦ inl s
          | inr s ↦ inr (s.0, ap (λ n. replicate n 0) s.1)
        ];
      }

-- The size in pages is the number of pages held.
pub pages-Holds : (m : Memory) (block : List ℕ) (n : ℕ) → Holds m block n → pages m ≡ n
unfolding pages
pages-Holds m block n h = rw (h.sized) (by_page m.ty.page_size)
  where
    by_page : (p : MemPageSize) → as_u32 ((n * page_bytes p) / page_bytes p) ≡ n
    by_page one_byte = let s : n < 2 ^ 32 = h.pages_small in ground arith
    by_page kib_64 = let s : n < 2 ^ 32 = h.pages_small in ground arith

pointed_block :
    (m : Memory) (block : List ℕ) (n : ℕ)
    → Holds m block n
    → 0 < m.size
    → (old : List ℕ) → non_null m.ptr ≡ ok old
    → old ≡ block
pointed_block m block n h pos old e = elim h.pointed [
  | inl p ↦ let e' : ok block ≡ ok old = rw p at e in cc e'
  | inr q ↦ absurd (omega (arith, h.filled, ap length q.1, pos))
]

grow_block-extends :
    (m : Memory) (a : Allocator) (block b : List ℕ) (n new_size : ℕ)
    → IsAllocator a
    → Holds m block n
    → m.size ≤ new_size
    → grow_block m a new_size ≡ ok b
    → clear b m.size (new_size - m.size) ≡ block ++ replicate (new_size - m.size) 0
unfolding grow_block
grow_block-extends m a block b n new_size lawful h le e =
    let (fits, i) = if_ok (layout_fits new_size (page_alignment m.ty.page_size)) _ _ b e in
    elim (Bool-cases (m.size == 0)) [
      | inl z ↦
          let i' : map_err from_alloc_error (a.allocate new_size (page_alignment m.ty.page_size))
              ≡ ok b =
            rw z at i in
          let len : length b ≡ new_size =
            lawful.allocated new_size _ b (map_err_ok from_alloc_error _ b i') in
          let empty : m.size ≡ 0 = ground arith in
          let nil : block ≡ [] = length-zero block (omega (arith, h.filled, empty)) in
          rw (empty, nil) (cleared b (new_size - 0) (omega (arith, len)))
      | inr z ↦
          let i' : (non_null m.ptr >>= λ old.
          if layout_fits m.size (page_alignment m.ty.page_size)
          then map_err from_alloc_error
              (a.reallocate old m.size new_size (page_alignment m.ty.page_size))
          else err MemoryError.allocation_failed)
              ≡ ok b =
            rw z at i in
          let (old, (p, j)) = bind_ok (non_null m.ptr) _ b i' in
          let (_, k) = if_ok (layout_fits m.size (page_alignment m.ty.page_size)) _ _ b j in
          let same : old ≡ block = pointed_block m block n h (positive m.size z) old p in
          let (len, prefix) =
            lawful.reallocated old m.size new_size _ b le (ap length same ∙ h.filled)
              (map_err_ok from_alloc_error _ b k) in
          clear_tail b m.size (new_size - m.size) (omega (arith, len, le))
          ∙ ap (λ t. t ++ replicate (new_size - m.size) 0) (prefix ∙ same)
    ]
  where
    positive : (x : ℕ) → (x == 0) ≡ false → 0 < x
    positive x q = ground arith

    length-zero : (xs : List ℕ) → length xs ≡ 0 → xs ≡ []
    length-zero [] q = refl
    length-zero (x ∷ xs) q = absurd (omega (arith, q))

grown_size :
    (p : MemPageSize) (n k : ℕ)
    → ((n + k) * page_bytes p - n * page_bytes p ≡ k * page_bytes p)
      × (n * page_bytes p ≤ (n + k) * page_bytes p)
grown_size one_byte n k = (omega arith, omega arith)
grown_size kib_64 n k = (omega arith, omega arith)

grow_to-Holds :
    (m m' : Memory) (block : List ℕ) (n k : ℕ) (o : Option Allocator)
    → Holds m block n
    → ((a : Allocator) → o ≡ some a → IsAllocator a)
    → n + k < 2 ^ 32
    → grow_to m k o (n + k) ≡ ok m'
    → Holds m' (block ++ replicate (k * page_bytes m.ty.page_size) 0) (n + k) × (m'.ty ≡ m.ty)
unfolding grow_to
grow_to-Holds m m' block n k none h lawful small e = absurd (cc e)
grow_to-Holds m m' block n k (some a) h lawful small e = elim (Bool-cases (k == 0)) [
  | inl z ↦
      let e' : ok m ≡ ok m' = rw z at e in
      let same : m ≡ m' = cc e' in
      let none_added : k ≡ 0 = ground arith in
      let stays : block ≡ block ++ replicate (k * page_bytes m.ty.page_size) 0 =
        let z0 : k * page_bytes m.ty.page_size ≡ 0 =
          omega (arith, ap (λ t. t * page_bytes m.ty.page_size) none_added) in
        rw z0 (sym (append-nil block)) in
      let count : n ≡ n + k = omega (arith, none_added) in
      (
        subst (λ x. Holds x (block ++ replicate (k * page_bytes m.ty.page_size) 0) (n + k)) same
            (subst (λ j. Holds m (block ++ replicate (k * page_bytes m.ty.page_size) 0) j) count
              (subst (λ b. Holds m b n) stays h)),
        ap (λ (x : Memory). x.ty) (sym same),
      )
  | inr z ↦
      let new_size : ℕ = (n + k) * page_bytes m.ty.page_size in
      let make : List ℕ → Memory = λ b. record m {
        ptr = some (clear b m.size ((n + k) * page_bytes m.ty.page_size - m.size));
        size = (n + k) * page_bytes m.ty.page_size;
      } in
      let e' : (if ltb usize_max ((n + k) * page_bytes m.ty.page_size)
            then err MemoryError.out_of_memory
            else (grow_block m a ((n + k) * page_bytes m.ty.page_size) >>= λ b. ok (make b)))
          ≡ ok m' =
        rw z at e in
      let (_, i) = if_err (ltb usize_max ((n + k) * page_bytes m.ty.page_size)) _ _ m' e' in
      let (b, (q, r)) =
        bind_ok (grow_block m a ((n + k) * page_bytes m.ty.page_size)) (λ b. ok (make b)) m' i in
      let r' : make b ≡ m' = cc r in
      let (gap, le) = grown_size m.ty.page_size n k in
      let extended : clear b m.size ((n + k) * page_bytes m.ty.page_size - m.size)
          ≡ block ++ replicate (k * page_bytes m.ty.page_size) 0 =
        grow_block-extends m a block b n ((n + k) * page_bytes m.ty.page_size) (lawful a refl) h
          (omega (arith, h.sized, le)) q
        ∙ ap (λ t. block ++ replicate t 0) (omega (arith, h.sized, gap)) in
      (
        subst (λ x. Holds x (block ++ replicate (k * page_bytes m.ty.page_size) 0) (n + k)) r'
            record {
              type_valid = h.type_valid;
              sized = refl;
              pages_small = small;
              filled = omega (
                arith,
                length-append block (replicate (k * page_bytes m.ty.page_size) 0),
                length-replicate {A = ℕ} (k * page_bytes m.ty.page_size) 0,
                h.filled,
                h.sized,
                gap,
                le,
              );
              pointed = inl (ap some extended);
            },
        ap (λ (x : Memory). x.ty) (sym r'),
      )
]

-- A `grow` that succeeds answers the old number of pages, keeps the old bytes where they were, and
-- appends `k` pages of zeros; the new size is one that the memory's type can hold.
pub grow-Holds :
    (m m' : Memory) (block : List ℕ) (n k answer : ℕ)
    → Holds m block n
    → ((a : Allocator) → m.allocator ≡ some a → IsAllocator a)
    → grow m k ≡ ok (answer, m')
    → (answer ≡ n)
      × Holds m' (block ++ replicate (k * page_bytes m.ty.page_size) 0) (n + k)
      × (m'.ty ≡ m.ty)
      × (can_hold m.ty (n + k) ≡ true)
unfolding grow
grow-Holds m m' block n k answer h lawful e =
    let count : pages m ≡ n = pages-Holds m block n h in
    let e' : (if ltb (n + k) (2 ^ 32)
          then (if can_hold m.ty (n + k)
              then (grow_to m k m.allocator (n + k) >>= λ x. ok (n, x))
              else err MemoryError.out_of_memory)
          else err MemoryError.out_of_memory)
        ≡ ok (answer, m') =
      rw count at e in
    let (small, i) = if_ok (ltb (n + k) (2 ^ 32)) _ _ (answer, m') e' in
    let (held, j) = if_ok (can_hold m.ty (n + k)) _ _ (answer, m') i in
    let (x, (q, r)) = bind_ok (grow_to m k m.allocator (n + k)) (λ x. ok (n, x)) (answer, m') j in
    let r' : (n, x) ≡ (answer, m') = cc r in
    let same : x ≡ m' = ap (λ (y : ℕ × Memory). y.1) r' in
    let (holds, ty) = grow_to-Holds m x block n k m.allocator h lawful (ground arith) q in
    (
      ap (λ (y : ℕ × Memory). y.0) (sym r'),
      subst (λ y. Holds y (block ++ replicate (k * page_bytes m.ty.page_size) 0) (n + k)) same
          holds,
      ap (λ (y : Memory). y.ty) (sym same) ∙ ty,
      held,
    )
