-- ===== src/Reader/Vectors.antt =====
-- src/reader.rs: vectors, a count and then the elements one by one. `new_in` stands for the allocation
-- of the count (`Vec::new_in`), which depends on the embedder's allocator.
use spacewasm.Prelude.{
  ℕ, zero, suc, ◌+◌, ◌-◌, ◌^◌, ◌≤◌, ◌<◌, ◌≡◌, arith, ap, List, [], ◌∷◌, ◌++◌, length, length-append,
  ltb, if◌then◌else◌, false,
}
use spacewasm.Errors.{Result, ok, err, ValidationError, AllocError}
use spacewasm.Reader.{Reader, M, pure, fail, ◌>>=◌, bytes_remaining}
use spacewasm.Reader.Fill.{At}
use spacewasm.Reader.Leb.{read_u32}
use spacewasm.Reader.Reads.{Reads, Reads-pure, Reads-bind, Reads-map}
use spacewasm.Reader.Leb.Groups.{leb128}
use spacewasm.Reader.Leb.Unsigned.{read_u32-leb}

-- `for _ in 0..len { out.push(read_element(self)?) }`
pub read_times : {A : Type 0} → ℕ → M A → M (List A)
read_times zero read_element = pure []
read_times (suc len) read_element =
    read_element >>= λ x. read_times len read_element >>= λ xs. pure (x ∷ xs)

-- `if len as usize > self.bytes_remaining() { return Err(VecTooLong) }`, then the rest.
pub unless_too_long : {A : Type 0} → ℕ → M A → M A
unless_too_long len m r =
    if ltb (bytes_remaining r) len then (err ValidationError.vec_too_long, r) else m r

-- The result of an allocation, with its error as a validation error.
pub allocate : {A : Type 0} → Result AllocError (Unit {0}) → M A → M A
allocate (ok _) m = m
allocate (err e) m = fail (ValidationError.alloc_error e)

pub read_vec_in : {A : Type 0} → (ℕ → Result AllocError (Unit {0})) → M A → M (List A)
read_vec_in new_in read_element =
    read_u32 >>= λ len. unless_too_long len (allocate (new_in len) (read_times len read_element))

-- `read_vec_stack::<SIZE>`: no allocation, and at most SIZE elements.
pub read_vec_stack : {A : Type 0} → ℕ → M A → M (List A)
read_vec_stack size read_element = read_u32 >>= λ len.
    if ltb size len
    then fail ValidationError.vec_too_long
    else unless_too_long len (read_times len read_element)

module _ {A : Type 0} (m : M A) where
  -- Elements with the bytes from which `m` reads them, at least one byte each.
  abbrev pub Encoded : List (A × List ℕ) → Type 0
  Encoded [] = Unit {0}
  Encoded ((v, bytes) ∷ rest) = Reads m v bytes × (0 < length bytes) × Encoded rest

abbrev pub values {ℓ} : {A : Type ℓ} → List (A × List ℕ) → List A
values [] = []
values ((v, bytes) ∷ rest) = v ∷ values rest

abbrev pub bytes_of_all {ℓ} : {A : Type ℓ} → List (A × List ℕ) → List ℕ
bytes_of_all [] = []
bytes_of_all ((v, bytes) ∷ rest) = bytes ++ bytes_of_all rest

module _ {A : Type 0} (m : M A) where
  read_times-Encoded :
      (es : List (A × List ℕ))
      → Encoded m es
      → Reads (read_times (length es) m) (values es) (bytes_of_all es)
  unfolding read_times
  read_times-Encoded [] h = Reads-pure []
  read_times-Encoded ((v, bytes) ∷ es) (p, long, rest) =
      Reads-bind m _ v (v ∷ values es) bytes (bytes_of_all es) p (
        Reads-map (read_times (length es) m) (λ xs. v ∷ xs) (values es) (bytes_of_all es)
          (read_times-Encoded es rest))

  length-bytes_of_all :
      (es : List (A × List ℕ)) → Encoded m es → length es ≤ length (bytes_of_all es)
  length-bytes_of_all [] h = omega arith
  length-bytes_of_all ((v, bytes) ∷ es) (p, long, rest) =
      omega (arith, length-append bytes (bytes_of_all es), length-bytes_of_all es rest)

  -- The length guard lets through whatever fits under the limit.
  unless_too_long-Reads :
      {B : Type 0} (len : ℕ) (n : M B) (v : B) (bytes : List ℕ)
      → len ≤ length bytes
      → Reads n v bytes
      → Reads (unless_too_long len n) v bytes
  unfolding unless_too_long bytes_remaining
  unless_too_long-Reads len n v bytes enough p = record {
    runs = λ r bs stop off lim h fits.
        let pass : ltb (r.limit - r.full_offset) len ≡ false =
          guard_passes r.limit r.full_offset len (omega (arith, h.limit, h.offset)) in
        let (r', run, at) = p.runs r bs stop off lim h fits in (r', rw pass run, at);
  }
    where
      guard_passes : (a b c : ℕ) → b + c ≤ a → ltb (a - b) c ≡ false
      guard_passes a b c h = ground arith

  -- A vector is read back from its count, in any LEB128 encoding, and its elements, if the
  -- allocation of the count succeeds: the length guard refuses no such vector.
  pub read_vec_in-Encoded :
      (new_in : ℕ → Result AllocError (Unit {0})) (n : ℕ) (es : List (A × List ℕ))
      → n ≤ 4
      → length es < 128 ^ suc n
      → length es < 2 ^ 32
      → new_in (length es) ≡ ok tt
      → Encoded m es
      → Reads (read_vec_in new_in m) (values es) (leb128 n (length es) ++ bytes_of_all es)
  unfolding read_vec_in allocate
  read_vec_in-Encoded new_in n es hn fits small got h =
      Reads-bind read_u32 _ (length es) (values es) (leb128 n (length es)) (bytes_of_all es)
        (read_u32-leb n (length es) hn fits small)
        (unless_too_long-Reads (length es) _ (values es) (bytes_of_all es)
          (length-bytes_of_all es h) (rw (got, allocate) (read_times-Encoded es h)))

  -- A vector of at most SIZE elements is read back without an allocation.
  pub read_vec_stack-Encoded :
      (size n : ℕ) (es : List (A × List ℕ))
      → n ≤ 4
      → length es < 128 ^ suc n
      → length es < 2 ^ 32
      → length es ≤ size
      → Encoded m es
      → Reads (read_vec_stack size m) (values es) (leb128 n (length es) ++ bytes_of_all es)
  unfolding read_vec_stack
  read_vec_stack-Encoded size n es hn fits small room h =
      Reads-bind read_u32 _ (length es) (values es) (leb128 n (length es)) (bytes_of_all es)
        (read_u32-leb n (length es) hn fits small)
        (rw (not_above size (length es) room) (
          unless_too_long-Reads (length es) _ (values es) (bytes_of_all es)
            (length-bytes_of_all es h) (read_times-Encoded es h)))
    where
      not_above : (a b : ℕ) → b ≤ a → ltb a b ≡ false
      not_above a b h = ground arith

  -- A count beyond the bytes that are left under the limit is refused before any allocation.
  pub read_vec_in_too_long :
      (new_in : ℕ → Result AllocError (Unit {0})) (n len : ℕ) (r : Reader) (bs : List ℕ)
      (stop : ValidationError) (off lim : ℕ)
      → n ≤ 4
      → len < 128 ^ suc n
      → len < 2 ^ 32
      → At r (leb128 n len ++ bs) stop off lim
      → off + length (leb128 n len) ≤ lim
      → lim < off + length (leb128 n len) + len
      → (read_vec_in new_in m r).0 ≡ err ValidationError.vec_too_long
  unfolding read_vec_in unless_too_long bytes_remaining
  read_vec_in_too_long new_in n len r bs stop off lim hn fits small h room over =
      let (r', run, at) = (read_u32-leb n len hn fits small).runs r bs stop off lim h room in
      rw run (
        ap (λ (p : Result ValidationError (List A) × Reader). p.0)
          (refused r'.limit r'.full_offset len _ _ (omega (arith, at.limit, at.offset))
            (omega (arith, at.limit, at.offset))))
    where
      refused :
          {B : Type 0} (a b c : ℕ) (x y : B)
          → b ≤ a
          → a < b + c
          → (if ltb (a - b) c then x else y) ≡ x
      refused a b c x y k h = ground arith
