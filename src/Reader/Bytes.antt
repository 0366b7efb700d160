-- ===== src/Reader/Bytes.antt =====
-- `peek_u8` and `read_u8`: how the stream cuts the bytes into chunks makes no difference.
use spacewasm.Prelude.{
  ℕ, ◌+◌, ◌≤◌, ◌<◌, ◌≡◌, refl, sym, ap, ◌∙◌, arith, List, [], ◌∷◌, ◌++◌, length, usize_max,
}
use spacewasm.Errors.{ok, err, ValidationError}
use spacewasm.CircularBuffer
use spacewasm.CircularBuffer.{CircularBuffer, capacity}
use spacewasm.CircularBuffer.Refine.{Holds, new-Holds}
use spacewasm.CircularBuffer.Ends.{pop_front-cons, front-eq-get_elem?, is_empty-Holds}
use spacewasm.CircularBuffer.Deque.{capacity-pop_front}
use spacewasm.Reader.{
  Stream, Reader, new, fill_from, byte_or, fill_buffer, front_or_eof, peek_u8, take_front, read_u8,
  after, M,
}
use spacewasm.Reader.Fill.{
  At, Ready, rest_of, bytes_of, stop_of, fill_from-Filled, fill_from-stop, leb-eq-false,
}

-- A ready reader shows its next byte.
peek-Ready :
    (r : Reader) (x : ℕ) (bs : List ℕ) (stop : ValidationError) (off lim : ℕ) (m : M ℕ)
    → Ready r (x ∷ bs) stop off lim
    → byte_or (CircularBuffer.front r.buffer) m r ≡ (ok x, r)
unfolding byte_or
peek-Ready r x bs stop off lim m (h, more) = shown h.held h.holds more h.all
  where
    shown :
        (held : List ℕ)
        → Holds r.buffer held
        → 0 < length held
        → x ∷ bs ≡ held ++ (rest_of r.next r.chunk_used ++ bytes_of r.stream.answers)
        → byte_or (CircularBuffer.front r.buffer) m r ≡ (ok x, r)
    shown [] holds more' all = absurd (omega arith)
    shown (y ∷ ys) holds more' all =
        let same : y ≡ x = cc all in
        rw (front-eq-get_elem? r.buffer (y ∷ ys) holds, byte_or) (ap (λ z. (ok z, r)) same)

-- The same reader, described by equal values.
retag :
    {r : Reader} {bs : List ℕ} {stop stop' : ValidationError} {off off' lim lim' : ℕ}
    → stop ≡ stop'
    → off ≡ off'
    → lim ≡ lim'
    → Ready r bs stop off lim
    → Ready r bs stop' off' lim'
retag p q e (h, more) = (
  record {
    held = h.held;
    holds = h.holds;
    room = h.room;
    all = h.all;
    stops = sym p ∙ h.stops;
    offset = h.offset ∙ q;
    limit = h.limit ∙ e;
  },
  more,
)

fill_buffer-nil : (r : Reader) → Holds r.buffer [] → fill_buffer r ≡ fill_from r.next r
unfolding fill_buffer
fill_buffer-nil r h = rw (is_empty-Holds r.buffer [] h)

peek_u8-nil :
    (r : Reader)
    → Holds r.buffer []
    → peek_u8 r ≡ after (λ _. front_or_eof) (fill_from r.next r).0 (fill_from r.next r).1
unfolding peek_u8 byte_or
peek_u8-nil r h = rw (front-eq-get_elem? r.buffer [] h, byte_or) (rw (fill_buffer-nil r h))

-- `peek_u8` shows the next byte, wherever the chunks are cut.
pub peek_u8-Ready :
    (r : Reader) (x : ℕ) (bs : List ℕ) (stop : ValidationError) (off lim : ℕ)
    → At r (x ∷ bs) stop off lim
    → (r' : Reader) × (peek_u8 r ≡ (ok x, r')) × Ready r' (x ∷ bs) stop off lim
peek_u8-Ready r x bs stop off lim h = from h.held h.holds h.all
  where
    from :
        (held : List ℕ)
        → Holds r.buffer held
        → x ∷ bs ≡ held ++ (rest_of r.next r.chunk_used ++ bytes_of r.stream.answers)
        → (r' : Reader) × (peek_u8 r ≡ (ok x, r')) × Ready r' (x ∷ bs) stop off lim
    from [] holds all =
        let (r', run, ready) = fill_from-Filled r.next r x bs refl holds h.room all in
        (
          r',
          peek_u8-nil r holds ∙ rw run (unfold front_or_eof in peek-Ready r' x bs _ _ _ _ ready),
          retag (sym h.stops) h.offset h.limit ready,
        )
    from (y ∷ ys) holds all =
        let ready : Ready r (x ∷ bs) stop off lim =
          (record h { held = y ∷ ys; holds = holds; all = all }, omega arith) in
        (r, unfold peek_u8 in peek-Ready r x bs stop off lim _ ready, ready)

take_front-At :
    (r : Reader) (x : ℕ) (bs : List ℕ) (stop : ValidationError) (off lim : ℕ)
    → Ready r (x ∷ bs) stop off lim
    → At (take_front r) bs stop (off + 1) lim
unfolding take_front
take_front-At r x bs stop off lim (h, more) = from h.held h.holds more h.all
  where
    from :
        (held : List ℕ)
        → Holds r.buffer held
        → 0 < length held
        → x ∷ bs ≡ held ++ (rest_of r.next r.chunk_used ++ bytes_of r.stream.answers)
        → At (take_front r) bs stop (off + 1) lim
    from [] holds more' all = absurd (omega arith)
    from (y ∷ ys) holds more' all = record {
      held = ys;
      holds = (pop_front-cons r.buffer y ys holds).1;
      room = rw (capacity-pop_front r.buffer) h.room;
      all = cc all;
      stops = h.stops;
      offset = ap (λ k. k + 1) h.offset;
      limit = h.limit;
    }

read_u8-below :
    (r : Reader)
    → r.full_offset < r.limit
    → read_u8 r ≡ after (λ byte r'. (ok byte, take_front r')) (peek_u8 r).0 (peek_u8 r).1
unfolding read_u8
read_u8-below r h = rw (leb-eq-false r.limit r.full_offset h)

-- Below the limit `read_u8` returns the next byte and moves on by one.
pub read_u8-cons :
    (r : Reader) (x : ℕ) (bs : List ℕ) (stop : ValidationError) (off lim : ℕ)
    → At r (x ∷ bs) stop off lim
    → off < lim
    → (r' : Reader) × (read_u8 r ≡ (ok x, r')) × At r' bs stop (off + 1) lim
read_u8-cons r x bs stop off lim h below =
    let (r', run, ready) = peek_u8-Ready r x bs stop off lim h in
    (
      take_front r',
      read_u8-below r (omega (arith, h.limit, h.offset)) ∙ rw run,
      take_front-At r' x bs stop off lim ready,
    )

-- At the limit `read_u8` answers `Eof` and leaves the reader as it is.
pub read_u8-limit :
    (r : Reader) (bs : List ℕ) (stop : ValidationError) (off lim : ℕ)
    → At r bs stop off lim
    → lim ≤ off
    → read_u8 r ≡ (err ValidationError.eof, r)
unfolding read_u8
read_u8-limit r bs stop off lim h past = ground (arith, h.limit, h.offset)

-- Below the limit and with no byte to come, `read_u8` fails with the error at which the stream stops.
pub read_u8-nil :
    (r : Reader) (stop : ValidationError) (off lim : ℕ)
    → At r [] stop off lim
    → off < lim
    → (read_u8 r).0 ≡ err stop
read_u8-nil r stop off lim h below = from h.held h.holds h.all
  where
    from :
        (held : List ℕ)
        → Holds r.buffer held
        → [] ≡ held ++ (rest_of r.next r.chunk_used ++ bytes_of r.stream.answers)
        → (read_u8 r).0 ≡ err stop
    from [] holds all =
        let fails : (fill_from r.next r).0 ≡ err (stop_of r.stream.answers) =
          fill_from-stop r.next r all in
        ap (λ p. p.0) (read_u8-below r (omega (arith, h.limit, h.offset)))
        ∙ rw (peek_u8-nil r holds) (rw fails (ap err (sym h.stops)))
    from (y ∷ ys) holds all = absurd (cc all)

-- A new reader stands before all the bytes that its stream delivers.
pub new-At : (s : Stream) → At (new s) (bytes_of s.answers) (stop_of s.answers) 0 usize_max
unfolding new
new-At s =
    let empty : Holds (CircularBuffer.new {A = ℕ} 64) [] = new-Holds 64 (omega arith) in
    record {
      held = [];
      holds = empty;
      room = omega (arith, empty.starts);
      all = refl;
      stops = refl;
      offset = refl;
      limit = refl;
    }
