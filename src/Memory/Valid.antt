-- ===== src/Memory/Valid.antt =====
-- The invariant of src/memory.rs, what an allocator must promise, and lemmas on blocks of bytes.
use spacewasm.Prelude.{
  ℕ, zero, suc, ◌+◌, ◌-◌, ◌*◌, ◌≤◌, ◌<◌, ◌≡◌, refl, ap, ◌∙◌, Bool, true, false, none, some, List,
  [], ◌∷◌, ◌++◌, append-nil, length, take, drop, replicate, arith, length-append, length-take,
  length-drop, length-replicate, ◌⊎◌, ◌^◌, if◌then◌else◌,
}
use native.Mathlib.Numerals.{unary_clauses}
use spacewasm.Errors.{Result, ok, err, ◌>>=◌, map_err}
use spacewasm.Types.{page_bytes}
use spacewasm.Types.Valid.{IsMemType}
use spacewasm.Memory.{Memory, Allocator, clear, splice}

-- The documented behaviour of a `WasmMemoryAllocator`: a block has the size asked for, and a
-- reallocated one starts with the bytes of the old one.
pub record IsAllocator (a : Allocator) : Type 0 where
  pub allocated : (size align : ℕ) (b : List ℕ) → a.allocate size align ≡ ok b → length b ≡ size
  pub reallocated :
      (old : List ℕ) (old_size size align : ℕ) (b : List ℕ)
      → old_size ≤ size
      → length old ≡ old_size
      → a.reallocate old old_size size align ≡ ok b
      → (length b ≡ size) × (take old_size b ≡ old)

-- A memory of a valid type that owns exactly `n_pages` pages of bytes.
pub record Holds (m : Memory) (block : List ℕ) (n_pages : ℕ) : Type 0 where
  pub type_valid : IsMemType m.ty
  pub sized : m.size ≡ n_pages * page_bytes m.ty.page_size
  pub pages_small : n_pages < 2 ^ 32
  pub filled : length block ≡ m.size
  pub pointed : (m.ptr ≡ some block) ⊎ ((m.ptr ≡ none) × (block ≡ []))

-- Inversions of the error monad.
pub bind_ok {ℓ κ} :
    {E : Type 0} {A : Type ℓ} {B : Type κ} (m : Result E A) (f : A → Result E B) (b : B)
    → (m >>= f) ≡ ok b
    → (a : A) × ((m ≡ ok a) × (f a ≡ ok b))
bind_ok (ok a) f b h = (a, (refl, h))
bind_ok (err e) f b h = absurd (cc h)

pub map_err_ok {ℓ} :
    {D E : Type 0} {A : Type ℓ} (f : D → E) (m : Result D A) (a : A) → map_err f m ≡ ok a → m ≡ ok a
map_err_ok f (ok b) a h = cc h
map_err_ok f (err e) a h = absurd (cc h)

pub if_ok {ℓ} :
    {E : Type 0} {A : Type ℓ} (b : Bool) (m : Result E A) (e : E) (a : A)
    → (if b then m else err e) ≡ ok a
    → (b ≡ true) × (m ≡ ok a)
if_ok true m e a h = (refl, h)
if_ok false m e a h = absurd (cc h)

pub if_err {ℓ} :
    {E : Type 0} {A : Type ℓ} (b : Bool) (m : Result E A) (e : E) (a : A)
    → (if b then err e else m) ≡ ok a
    → (b ≡ false) × (m ≡ ok a)
if_err true m e a h = absurd (cc h)
if_err false m e a h = (refl, h)

module _ {ℓ} {A : Type ℓ} where
  pub take-append : (n : ℕ) (xs ys : List A) → length xs ≡ n → take n (xs ++ ys) ≡ xs
  take-append zero [] ys h = refl
  take-append (suc n) [] ys h = absurd (omega (arith, h))
  take-append zero (x ∷ xs) ys h = absurd (omega (arith, h))
  take-append (suc n) (x ∷ xs) ys h = ap (λ t. x ∷ t) (take-append n xs ys (omega (arith, h)))

  pub drop-append : (n : ℕ) (xs ys : List A) → length xs ≡ n → drop n (xs ++ ys) ≡ ys
  drop-append zero [] ys h = refl
  drop-append (suc n) [] ys h = absurd (omega (arith, h))
  drop-append zero (x ∷ xs) ys h = absurd (omega (arith, h))
  drop-append (suc n) (x ∷ xs) ys h = drop-append n xs ys (omega (arith, h))

  pub drop-all : (n : ℕ) (xs : List A) → length xs ≤ n → drop n xs ≡ []
  drop-all zero [] h = refl
  drop-all (suc n) [] h = refl
  drop-all zero (x ∷ xs) h = absurd (omega (arith, h))
  drop-all (suc n) (x ∷ xs) h = drop-all n xs (omega (arith, h))

-- `splice` by position: the bytes written, and the others.
pub splice_self :
    (block : List ℕ) (addr : ℕ) (bytes : List ℕ)
    → addr + length bytes ≤ length block
    → take (length bytes) (drop addr (splice block addr bytes)) ≡ bytes
splice_self block zero bytes h = take-append (length bytes) bytes _ refl
splice_self [] (suc addr) bytes h = absurd (omega (arith, h))
splice_self (b ∷ block) (suc addr) bytes h = splice_self block addr bytes (omega (arith, h))

pub splice-before :
    (block : List ℕ) (addr : ℕ) (bytes : List ℕ) (i n : ℕ)
    → addr ≤ length block
    → i + n ≤ addr
    → take n (drop i (splice block addr bytes)) ≡ take n (drop i block)
splice-before block addr bytes i zero a h = refl
splice-before [] zero bytes i (suc n) a h = absurd (omega (arith, h))
splice-before [] (suc addr) bytes i (suc n) a h = absurd (omega (arith, a))
splice-before (b ∷ block) zero bytes i (suc n) a h = absurd (omega (arith, h))
splice-before (b ∷ block) (suc addr) bytes zero (suc n) a h =
    ap (λ t. b ∷ t) (splice-before block addr bytes zero n (omega (arith, a)) (omega (arith, h)))
splice-before (b ∷ block) (suc addr) bytes (suc i) (suc n) a h =
    splice-before block addr bytes i (suc n) (omega (arith, a)) (omega (arith, h))

drop-append-drop :
    (bytes block : List ℕ) (k : ℕ) → drop (length bytes + k) (bytes ++ block) ≡ drop k block
drop-append-drop [] block k = let z : zero + k ≡ k = omega arith in ap (λ t. drop t block) z
drop-append-drop (b ∷ bytes) block k =
    let e : suc (length bytes) + k ≡ suc (length bytes + k) = omega arith in
    ap (λ t. drop t (b ∷ (bytes ++ block))) e ∙ drop-append-drop bytes block k

pub drop-drop : (block : List ℕ) (k l : ℕ) → drop k (drop l block) ≡ drop (l + k) block
drop-drop block k zero = let z : k ≡ zero + k = omega arith in ap (λ t. drop t block) z
drop-drop [] zero (suc l) = simp unary_clauses refl
drop-drop [] (suc k) (suc l) = simp unary_clauses refl
drop-drop (b ∷ block) k (suc l) =
    let e : suc (l + k) ≡ suc l + k = omega arith in
    drop-drop block k l ∙ ap (λ t. drop t (b ∷ block)) e

pub splice-after :
    (block : List ℕ) (addr : ℕ) (bytes : List ℕ) (i : ℕ)
    → addr + length bytes ≤ length block
    → addr + length bytes ≤ i
    → drop i (splice block addr bytes) ≡ drop i block
splice-after block zero bytes i a h =
    let k : length bytes + (i - length bytes) ≡ i = omega (arith, h) in
    rw (
      ← k,
      drop-append-drop bytes (drop (length bytes) block) (i - length bytes),
      drop-drop block (i - length bytes) (length bytes),
    )
splice-after [] (suc addr) bytes i a h = absurd (omega (arith, a))
splice-after (b ∷ block) (suc addr) bytes zero a h = absurd (omega (arith, h))
splice-after (b ∷ block) (suc addr) bytes (suc i) a h =
    splice-after block addr bytes i (omega (arith, a)) (omega (arith, h))

pub length-splice :
    (block : List ℕ) (addr : ℕ) (bytes : List ℕ)
    → addr + length bytes ≤ length block
    → length (splice block addr bytes) ≡ length block
length-splice block addr bytes h = omega (
  arith,
  length-append (take addr block) (bytes ++ drop (length bytes) (drop addr block)),
  length-append bytes (drop (length bytes) (drop addr block)),
  length-take addr block,
  length-drop (length bytes) (drop addr block),
  length-drop addr block,
)

-- A block cleared up to its end.
pub clear_tail :
    (block : List ℕ) (from n : ℕ)
    → length block ≡ from + n
    → clear block from n ≡ take from block ++ replicate n 0
clear_tail block from n h = rw (
  drop-drop block n from,
  drop-all (from + n) block (omega (arith, h)),
  append-nil (replicate n zero),
)

pub length-clear :
    (block : List ℕ) (from n : ℕ) → length block ≡ from + n → length (clear block from n) ≡ from + n
length-clear block from n h = omega (
  arith,
  ap length (clear_tail block from n h),
  length-append (take from block) (replicate n zero),
  length-take from block,
  length-replicate n zero,
)
