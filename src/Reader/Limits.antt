-- ===== src/Reader/Limits.antt =====
-- `with_limit`, and the readers of a fixed number of bytes.
use spacewasm.Prelude.{
  ℕ, ◌+◌, ◌<◌, ◌≡◌, arith, List, [], ◌∷◌, length, from_le_bytes, ◌==◌, ◌≢◌, true, false,
}
use spacewasm.Errors.{ok, err, ValidationError}
use spacewasm.Reader.{Reader, M, pure, ◌>>=◌, read_u8, strip_bytes, skip, with_limit, expect_u8}
use spacewasm.Reader.Fill.{At}
use spacewasm.Reader.Bytes.{peek_u8-Ready, read_u8-cons}
use spacewasm.Reader.Leb.{read_f32_bits, read_f64_bits}
use spacewasm.Reader.Reads.{Reads, Reads-u8, Reads-pure, Reads-bind, Reads-map}

pub strip_bytes-Reads : (bs : List ℕ) → Reads (strip_bytes (length bs)) bs bs
unfolding strip_bytes
strip_bytes-Reads [] = Reads-pure []
strip_bytes-Reads (b ∷ bs) =
    Reads-bind read_u8 (λ x. strip_bytes (length bs) >>= λ xs. pure (x ∷ xs)) b (b ∷ bs) (b ∷ []) bs
      (Reads-u8 b) (Reads-map (strip_bytes (length bs)) (λ xs. b ∷ xs) bs bs (strip_bytes-Reads bs))

pub skip-Reads : (bs : List ℕ) → Reads (skip (length bs)) tt bs
unfolding skip
skip-Reads [] = Reads-pure tt
skip-Reads (b ∷ bs) =
    Reads-bind read_u8 (λ _. skip (length bs)) b tt (b ∷ []) bs (Reads-u8 b) (skip-Reads bs)

-- Four bytes are read as a little-endian word, and so are eight.
pub read_float_bits :
    (bs : List ℕ)
    → (length bs ≡ 4 → Reads read_f32_bits (from_le_bytes bs) bs)
      × (length bs ≡ 8 → Reads read_f64_bits (from_le_bytes bs) bs)
unfolding read_f32_bits read_f64_bits
read_float_bits bs = (
  λ e. rw (← e) (Reads-map (strip_bytes (length bs)) from_le_bytes bs bs (strip_bytes-Reads bs)),
  λ e. rw (← e) (Reads-map (strip_bytes (length bs)) from_le_bytes bs bs (strip_bytes-Reads bs)),
)

-- A section that reaches beyond the limit in force is refused, with nothing read.
pub with_limit_beyond :
    {A : Type 0} (len : ℕ) (f : M A) (r : Reader)
    → r.limit < r.full_offset + len
    → with_limit len f r ≡ (err ValidationError.malformed_section_size, r)
unfolding with_limit
with_limit_beyond len f r over = ground arith

-- Whatever `f` does and answers, `with_limit` leaves the limit as it was.
pub with_limit-limit :
    {A : Type 0} (len : ℕ) (f : M A) (r : Reader) → (with_limit len f r).1.limit ≡ r.limit
unfolding with_limit
with_limit-limit len f r = ground arith

-- `expect_u8` takes the byte that it expects.
pub expect_u8-cons :
    (expected : ℕ) (r : Reader) (bs : List ℕ) (stop : ValidationError) (off lim : ℕ)
    → At r (expected ∷ bs) stop off lim
    → off < lim
    → (r' : Reader) × (expect_u8 expected r ≡ (ok tt, r')) × At r' bs stop (off + 1) lim
unfolding expect_u8
expect_u8-cons expected r bs stop off lim h below =
    let (r1, run, ready) = peek_u8-Ready r expected bs stop off lim h in
    let (r2, run2, at2) = read_u8-cons r1 expected bs stop off lim ready.0 below in
    (r2, rw run (rw (same expected) (rw run2)), at2)
  where
    same : (a : ℕ) → (a == a) ≡ true
    same a = ground arith

-- `expect_u8` refuses any other byte, names the one that it expects, and leaves the byte there.
pub expect_u8_other :
    (expected b : ℕ) (r : Reader) (bs : List ℕ) (stop : ValidationError) (off lim : ℕ)
    → At r (b ∷ bs) stop off lim
    → b ≢ expected
    → (r' : Reader) × (expect_u8 expected r
        ≡ (err (ValidationError.expected_terminal expected), r'))
      × At r' (b ∷ bs) stop off lim
unfolding expect_u8
expect_u8_other expected b r bs stop off lim h e =
    let (r1, run, ready) = peek_u8-Ready r b bs stop off lim h in
    (r1, rw run (rw (differ b expected e)), ready.0)
  where
    differ : (a c : ℕ) → a ≢ c → (a == c) ≡ false
    differ a c e = ground arith
