-- ===== src/Reader.antt =====
-- src/reader.rs and src/stream.rs: the byte reader over a stream of chunks.
-- The embedder implements the trait `WasmStream`. Here it is the list of the answers that its
-- `read` gives, one after the other (`Ok(None)` once they are used up), with the chunks that
-- `return_` got back. A method of `Reader` takes the reader and returns its result beside the
-- reader as the method leaves it, on errors too. `usize` has 64 bits.
pub mod Fill
pub mod Bytes
pub mod Reads
pub mod Leb
pub mod Vectors
pub mod Limits
pub mod Moves
use spacewasm.Prelude.{
  ℕ, zero, suc, ◌+◌, ◌-◌, ◌*◌, ◌^◌, min, Bool, true, false, ◌&&◌, Option, none, some, List, [], ◌∷◌,
  ◌++◌, length, take, drop, ltb, leb, ◌==◌, if◌then◌else◌, usize_max,
}
use spacewasm.Errors.{Result, ok, err, ValidationError}
use spacewasm.CircularBuffer
use spacewasm.CircularBuffer.{CircularBuffer}

-- What one call of `WasmStream::read` answers: `Ok(Some(chunk))`, `Ok(None)` or `Err(code)`.
pub data Answer : Type 0 where
  chunk : List ℕ → Answer
  finished : Answer
  failed : ℕ → Answer

pub record Stream : Type 0 where
  pub answers : List Answer
  pub returned : List (List ℕ)

unfoldable pub next_answer : List Answer → Stream → Answer × Stream
next_answer [] s = (finished, s)
next_answer (answer ∷ rest) s = (answer, record s { answers = rest })

-- `WasmStream::read` and `WasmStream::return_`.
unfoldable pub stream_read : Stream → Answer × Stream
stream_read s = next_answer s.answers s

unfoldable pub stream_return : Stream → List ℕ → Stream
stream_return s c = record s { returned = s.returned ++ (c ∷ []) }

pub record Reader : Type 0 where
  pub stream : Stream
  pub chunk_used : ℕ
  pub next : Option (List ℕ)
  pub buffer : CircularBuffer ℕ
  pub full_offset : ℕ
  pub limit : ℕ

unfoldable pub new : Stream → Reader
new s = record {
  stream = s;
  chunk_used = 0;
  next = none;
  buffer = CircularBuffer.new 64;
  full_offset = 0;
  limit = usize_max;
}

-- A method of the reader, and `?` between two of them.
abbrev pub M {ℓ} : Type ℓ → Type ℓ
M A = Reader → Result ValidationError A × Reader

abbrev pub pure {ℓ} : {A : Type ℓ} → A → M A
pure a r = (ok a, r)

abbrev pub fail {ℓ} : {A : Type ℓ} → ValidationError → M A
fail e r = (err e, r)

-- What comes after a method, by its result.
abbrev pub after {ℓ κ} : {A : Type ℓ} {B : Type κ} → (A → M B) → Result ValidationError A → M B
after f (ok a) = f a
after f (err e) = fail e

infixl 5 ◌>>=◌ ◌>>◌
abbrev pub ◌>>=◌ {ℓ κ} : {A : Type ℓ} {B : Type κ} → M A → (A → M B) → M B
◌>>=◌ m f r = after f (m r).0 (m r).1

abbrev pub ◌>>◌ {ℓ κ} : {A : Type ℓ} {B : Type κ} → M A → M B → M B
◌>>◌ m k r = after (λ _. k) (m r).0 (m r).1

-- `for b in bytes { buffer.push(b) }`
unfoldable pub push_all : List ℕ → CircularBuffer ℕ → CircularBuffer ℕ
push_all [] b = b
push_all (x ∷ xs) b = push_all xs (CircularBuffer.push b x)

-- Copies from `from` on as much of the chunk as the buffer holds.
unfoldable pub copy_chunk : Reader → List ℕ → ℕ → Reader
copy_chunk r c from =
    let to_copy = min (length c - from) (CircularBuffer.capacity r.buffer) in
    record r {
      buffer = push_all (take to_copy (drop from c)) r.buffer;
      chunk_used = from + to_copy;
    }

-- `chunk.return_(self.stream)`, if there is a chunk.
unfoldable pub return_chunk : Option (List ℕ) → Stream → Stream
return_chunk none s = s
return_chunk (some c) s = stream_return s c

-- The reader after `next.take()` and the return of the chunk that it held.
unfoldable pub give_back : Reader → Reader
give_back r = record r { stream = return_chunk r.next r.stream; next = none }

-- What `fill_buffer` does with the answer of the stream.
unfoldable pub accept_answer : Answer → M (Unit {0})
accept_answer (failed code) r = (err (ValidationError.reader_error code), r)
accept_answer finished r = (err ValidationError.eof, record r { next = none; chunk_used = 0 })
accept_answer (chunk []) r = (err ValidationError.eof, record r { next = some []; chunk_used = 0 })
accept_answer (chunk (x ∷ xs)) r =
    (ok tt, copy_chunk (record r { next = some (x ∷ xs); chunk_used = 0 }) (x ∷ xs) 0)

-- The rest of `fill_buffer`, once the chunk at hand is used up.
unfoldable pub fetch_chunk : M (Unit {0})
fetch_chunk r =
    let (answer, s) = stream_read (give_back r).stream in
    accept_answer answer (record (give_back r) { stream = s })

-- `fill_buffer` with an empty buffer: the rest of the chunk at hand, or the next chunk.
unfoldable pub fill_from : Option (List ℕ) → M (Unit {0})
fill_from none r = fetch_chunk r
fill_from (some c) r =
    if ltb 0 (length c - r.chunk_used) then (ok tt, copy_chunk r c r.chunk_used) else fetch_chunk r

unfoldable pub fill_buffer : M (Unit {0})
fill_buffer r = if CircularBuffer.is_empty r.buffer then fill_from r.next r else (ok tt, r)

unfoldable pub byte_or : Option ℕ → M ℕ → M ℕ
byte_or none m = m
byte_or (some byte) m = pure byte

-- `self.buffer.front().copied().ok_or(ValidationError::Eof)`
unfoldable pub front_or_eof : M ℕ
front_or_eof r = byte_or (CircularBuffer.front r.buffer) (fail ValidationError.eof) r

unfoldable pub peek_u8 : M ℕ
peek_u8 r = byte_or (CircularBuffer.front r.buffer) (fill_buffer >> front_or_eof) r

-- `self.buffer.pop_front(); self.full_offset += 1;`
unfoldable pub take_front : Reader → Reader
take_front r = record r {
  buffer = (CircularBuffer.pop_front r.buffer).1;
  full_offset = r.full_offset + 1;
}

unfoldable pub read_u8 : M ℕ
read_u8 r =
    if leb r.limit r.full_offset
    then (err ValidationError.eof, r)
    else (peek_u8 >>= λ byte r'. (ok byte, take_front r')) r

unfoldable pub expect_u8 : ℕ → M (Unit {0})
expect_u8 expected = do
  byte ← peek_u8
  if byte == expected
      then (read_u8 >> pure tt)
      else fail (ValidationError.expected_terminal expected)

-- `with_limit`: `f` runs under the new limit, and the old one comes back on success and on error.
pub with_limit {ℓ} : {A : Type ℓ} → ℕ → M A → M A
with_limit len f r =
    let new_limit = r.full_offset + len in
    if leb new_limit usize_max && leb new_limit r.limit
    then (let (result, r') = f (record r { limit = new_limit }) in
        (result, record r' { limit = r.limit }))
    else (err ValidationError.malformed_section_size, r)

-- `saturating_sub`
unfoldable pub bytes_remaining : Reader → ℕ
bytes_remaining r = r.limit - r.full_offset

-- `strip_bytes::<N>`: N bytes into an array.
pub strip_bytes : ℕ → M (List ℕ)
strip_bytes zero = pure []
strip_bytes (suc n) = read_u8 >>= λ byte. strip_bytes n >>= λ bytes. pure (byte ∷ bytes)

-- `skip(len)`
pub skip : ℕ → M (Unit {0})
skip zero = pure tt
skip (suc len) = read_u8 >> skip len

-- `Drop for Reader`: the chunk at hand goes back to the stream.
pub drop_reader : Reader → Reader
drop_reader r = give_back r
