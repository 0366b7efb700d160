-- ===== src/Tests/Memories.antt =====
-- A memory of eight one-byte pages that may grow to sixteen, and an allocator.
use spacewasm.Prelude.{
  ℕ, ◌+◌, ◌-◌, ◌*◌, ◌≡◌, ◌∙◌, sym, ap, subst, inl, inr, refl, true, some, [], ◌∷◌, ◌++◌, length,
  take, replicate, length-append, length-replicate, arith,
}
use spacewasm.Errors.{ok}
use spacewasm.Types.{MemType, one_byte, page_bytes, can_hold, within_max}
use spacewasm.Types.Valid.{IsMemType}
use spacewasm.Memory.{
  Memory, Allocator, grow, pages, store_word, load_word, check_in_bounds, grow_to, grow_block,
}
use spacewasm.Memory.Valid.{IsAllocator, Holds, take-append}
use spacewasm.Memory.Access.{load_word-store_word, load_word-store_word_apart}
use spacewasm.Memory.Growth.{grow-Holds}

abbrev ty : MemType
ty = record { initial_pages = 8; max_pages = some 16; page_size = one_byte }

ty-IsMemType : IsMemType ty
ty-IsMemType = record { ordered = omega arith; min_small = omega arith; max_small = omega arith }

-- What it hands out is not clear.
abbrev heap : Allocator
heap = record {
  allocate = λ size align. ok (replicate size 7);
  reallocate = λ old old_size size align. ok (old ++ replicate (size - old_size) 7);
}

heap-IsAllocator : IsAllocator heap
heap-IsAllocator = record {
  allocated = λ size align b e.
      let b' : replicate size 7 ≡ b = cc e in
      omega (arith, ap length b', length-replicate {A = ℕ} size 7);
  reallocated = λ old old_size size align b le len e.
      let b' : old ++ replicate (size - old_size) 7 ≡ b = cc e in
      (
        omega (
          arith,
          ap length b',
          length-append old (replicate (size - old_size) 7),
          length-replicate {A = ℕ} (size - old_size) 7,
        ),
        ap (take old_size) (sym b') ∙ take-append old_size old (replicate (size - old_size) 7) len,
      );
}

abbrev eight : Memory
eight = record { ptr = some (replicate 8 0); size = 8; ty = ty; allocator = some heap }

eight-Holds : Holds eight (replicate 8 0) 8
eight-Holds = record {
  type_valid = ty-IsMemType;
  sized = refl;
  pages_small = omega arith;
  filled = refl;
  pointed = inl refl;
}

abbrev stored : Memory
stored = record eight { ptr = some (0 ∷ 0 ∷ 0x2C ∷ 1 ∷ 0 ∷ 0 ∷ 0 ∷ 0 ∷ []) }

-- 300 at address 2.
load_word-store_word_example : load_word 4 stored 2 ≡ ok 300
unfolding store_word check_in_bounds
load_word-store_word_example =
    load_word-store_word 4 eight stored (replicate 8 0) 8 2 300 (omega arith) eight-Holds
      (omega arith) refl

load_word-store_word_apart_example : load_word 2 stored 6 ≡ load_word 2 eight 6
unfolding store_word check_in_bounds
load_word-store_word_apart_example =
    load_word-store_word_apart 4 2 eight stored (replicate 8 0) 8 2 300 6 (omega arith)
      (omega arith) eight-Holds refl (omega arith) (inr (omega arith))

abbrev ten : Memory
ten = record eight { ptr = some (replicate 10 0); size = 10 }

abbrev pages_before : ℕ
pages_before = 8

grow-Holds_example :
    (pages_before ≡ 8)
    × Holds ten (replicate 8 0 ++ replicate (2 * page_bytes one_byte) 0) (8 + 2)
    × (ten.ty ≡ ty)
    × (can_hold ty (8 + 2) ≡ true)
unfolding grow grow_to grow_block pages can_hold within_max
grow-Holds_example =
    grow-Holds eight ten (replicate 8 0) 8 2 8 eight-Holds
      (λ a e. let same : heap ≡ a = cc e in subst IsAllocator same heap-IsAllocator) refl
