-- ===== src/Reader/Moves.antt =====
-- The reader of src/reader.rs never goes back: no method lowers its offset or changes its limit, and `read_u8`
-- takes a byte below the limit.
use spacewasm.Prelude.{
  ℕ, zero, suc, ◌+◌, ◌-◌, ◌≤◌, ◌<◌, ◌≡◌, refl, ◌∙◌, inl, inr, Bool, true, false, Bool-cases, Option,
  none, some, List, [], ◌∷◌, length, ltb, leb, if◌then◌else◌, arith,
}
use spacewasm.Errors.{ValidationError, Result, ok, err}
use spacewasm.CircularBuffer
use spacewasm.Reader.{
  Answer, chunk, finished, failed, Reader, M, pure, fail, after, ◌>>=◌, ◌>>◌, give_back, copy_chunk,
  accept_answer, fetch_chunk, fill_from, fill_buffer, byte_or, front_or_eof, peek_u8, take_front,
  read_u8, expect_u8, strip_bytes, stream_read,
}

abbrev pub Later : Reader → Reader → Type 0
Later r r' = (r.full_offset ≤ r'.full_offset) × (r'.limit ≡ r.limit)

pub Later_trans : (r r' r'' : Reader) → Later r r' → Later r' r'' → Later r r''
Later_trans r r' r'' h k = (omega (arith, h.0, k.0), k.1 ∙ h.1)

Later_refl : (r : Reader) → Later r r
Later_refl r = (omega arith, refl)

-- The method leaves the reader at its offset or behind it, under the same limit.
pub record Moves {ℓ} {A : Type ℓ} (m : M A) : Type ℓ where
  pub at : (r : Reader) → Later r (m r).1

module _ {ℓ} {A : Type ℓ} where
  pub Moves-pure : (a : A) → Moves (pure a)
  Moves-pure a = record { at = λ r. Later_refl r }

  pub Moves-fail : (e : ValidationError) → Moves (fail {A = A} e)
  Moves-fail e = record { at = λ r. Later_refl r }

  pub Moves-if : (b : Bool) (m n : M A) → Moves m → Moves n → Moves (if b then m else n)
  Moves-if true m n h k = h
  Moves-if false m n h k = k

module _ {ℓ κ} {A : Type ℓ} {B : Type κ} where
  Later-after :
      (f : A → M B) (x : Result ValidationError A) (r : Reader)
      → ((a : A) → Moves (f a))
      → Later r (after f x r).1
  Later-after f (ok a) r k = (k a).at r
  Later-after f (err e) r k = Later_refl r

  pub Moves-bind : (m : M A) (f : A → M B) → Moves m → ((a : A) → Moves (f a)) → Moves (m >>= f)
  Moves-bind m f h k = record {
    at = λ r.
        Later_trans r (m r).1 (after f (m r).0 (m r).1).1 (h.at r)
          (Later-after f (m r).0 (m r).1 k);
  }

  pub Moves-then : (m : M A) (n : M B) → Moves m → Moves n → Moves (m >> n)
  Moves-then m n h k = Moves-bind m (λ _. n) h (λ _. k)

-- What stays while bytes come into the buffer.
abbrev Same : Reader → Reader → Type 0
Same r r' = (r'.full_offset ≡ r.full_offset) × (r'.limit ≡ r.limit)

accept_answer-Same : (a : Answer) (r : Reader) → Same r (accept_answer a r).1
unfolding accept_answer copy_chunk
accept_answer-Same (failed code) r = (refl, refl)
accept_answer-Same finished r = (refl, refl)
accept_answer-Same (chunk []) r = (refl, refl)
accept_answer-Same (chunk (x ∷ xs)) r = (refl, refl)

fetch_chunk-Same : (r : Reader) → Same r (fetch_chunk r).1
unfolding fetch_chunk give_back
fetch_chunk-Same r =
    accept_answer-Same (stream_read (give_back r).stream).0
      (record (give_back r) { stream = (stream_read (give_back r).stream).1 })

fill_from-Same : (next : Option (List ℕ)) (r : Reader) → Same r (fill_from next r).1
unfolding fill_from copy_chunk
fill_from-Same none r = fetch_chunk-Same r
fill_from-Same (some c) r = elim (Bool-cases (ltb 0 (length c - r.chunk_used))) [
  | inl t ↦ rw t (refl, refl)
  | inr t ↦ rw t (fetch_chunk-Same r)
]

fill_buffer-Same : (r : Reader) → Same r (fill_buffer r).1
unfolding fill_buffer
fill_buffer-Same r = elim (Bool-cases (CircularBuffer.is_empty r.buffer)) [
  | inl t ↦ rw t (fill_from-Same r.next r)
  | inr t ↦ rw t (refl, refl)
]

byte_or-Same : (o : Option ℕ) (m : M ℕ) (r : Reader) → Same r (m r).1 → Same r (byte_or o m r).1
unfolding byte_or
byte_or-Same none m r h = h
byte_or-Same (some b) m r h = (refl, refl)

front-Same :
    (x : Result ValidationError (Unit {0})) (r : Reader) → Same r (after (λ _. front_or_eof) x r).1
unfolding front_or_eof
front-Same (ok u) r =
    byte_or-Same (CircularBuffer.front r.buffer) (fail ValidationError.eof) r (refl, refl)
front-Same (err e) r = (refl, refl)

peek_u8-Same : (r : Reader) → Same r (peek_u8 r).1
unfolding peek_u8
peek_u8-Same r = byte_or-Same (CircularBuffer.front r.buffer) (fill_buffer >> front_or_eof) r (
    let f : Same r (fill_buffer r).1 = fill_buffer-Same r in
    let g : Same (fill_buffer r).1 ((fill_buffer >> front_or_eof) r).1 =
      front-Same (fill_buffer r).0 (fill_buffer r).1 in
    (g.0 ∙ f.0, g.1 ∙ f.1))

-- What `read_u8` leaves: an error at the old offset, or a byte and the next offset, below the limit.
abbrev pub TookByte : Reader → Result ValidationError ℕ × Reader → Type 0
TookByte r (err e, r') = Later r r'
TookByte r (ok b, r') =
    (r'.full_offset ≡ r.full_offset + 1) × (r.full_offset < r.limit) × (r'.limit ≡ r.limit)

taken :
    (x : Result ValidationError ℕ) (r r' : Reader)
    → r.full_offset < r.limit
    → Same r r'
    → TookByte r (after (λ byte r''. (ok byte, take_front r'')) x r')
unfolding take_front
taken (ok b) r r' lt h = (omega (arith, h.0), lt, h.1)
taken (err e) r r' lt h = (omega (arith, h.0), h.1)

pub read_u8-TookByte : (r : Reader) → TookByte r (read_u8 r)
unfolding read_u8
read_u8-TookByte r = elim (Bool-cases (leb r.limit r.full_offset)) [
  | inl t ↦ rw t (omega arith, refl)
  | inr t ↦ rw t (taken (peek_u8 r).0 r (peek_u8 r).1 (ground arith) (peek_u8-Same r))
]

pub Moves-read_u8 : Moves read_u8
Moves-read_u8 = record { at = λ r. later r (read_u8 r) (read_u8-TookByte r) }
  where
    later : (r : Reader) (x : Result ValidationError ℕ × Reader) → TookByte r x → Later r x.1
    later r (ok b, r') h = (omega (arith, h.0), h.2)
    later r (err e, r') h = h

Moves-peek_u8 : Moves peek_u8
Moves-peek_u8 = record { at = λ r. (omega (arith, (peek_u8-Same r).0), (peek_u8-Same r).1) }

pub ruleset moves_rules = (Moves-bind, Moves-then, Moves-pure, Moves-fail, Moves-if, Moves-read_u8)

pub Moves-expect_u8 : (expected : ℕ) → Moves (expect_u8 expected)
unfolding expect_u8
Moves-expect_u8 expected = search (moves_rules, Moves-peek_u8)

pub Moves-strip_bytes : (n : ℕ) → Moves (strip_bytes n)
unfolding strip_bytes
Moves-strip_bytes zero = search moves_rules
Moves-strip_bytes (suc n) =
    Moves-bind read_u8 (λ byte. strip_bytes n >>= λ bytes. pure (byte ∷ bytes)) Moves-read_u8
      λ byte.
        Moves-bind (strip_bytes n) (λ bytes. pure (byte ∷ bytes)) (Moves-strip_bytes n)
          λ bytes. Moves-pure (byte ∷ bytes)
