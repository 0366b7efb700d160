-- ===== src/Tests/Readers.antt =====
-- A reader over a stream of chunks, byte by byte.
use spacewasm.Prelude.{ℕ, ◌+◌, ◌≡◌, refl, [], ◌∷◌, usize_max, arith}
use spacewasm.Errors.{ValidationError, Result, ok, AllocError}
use spacewasm.Reader.{chunk, failed, Stream, Reader, new, read_u8}
use spacewasm.Reader.Fill.{At}
use spacewasm.Reader.Bytes.{new-At, read_u8-cons}

-- Two chunks, and then the error 7.
abbrev stream : Stream
stream = record { answers = chunk (5 ∷ []) ∷ chunk (6 ∷ 8 ∷ []) ∷ failed 7 ∷ []; returned = [] }

abbrev broken : Stream
broken = record { answers = failed 7 ∷ []; returned = [] }

-- A reader whose limit is where it stands.
abbrev at_limit : Reader
at_limit = record (new stream) { limit = 0 }

at_limit-At : At at_limit (5 ∷ 6 ∷ 8 ∷ []) (ValidationError.reader_error 7) 0 0
unfolding new
at_limit-At =
    let h : At (new stream) (5 ∷ 6 ∷ 8 ∷ []) (ValidationError.reader_error 7) 0 usize_max =
      new-At stream in
    record {
      held = h.held;
      holds = h.holds;
      room = h.room;
      all = h.all;
      stops = h.stops;
      offset = h.offset;
      limit = refl;
    }

read_u8-cons_example :
    (r' : Reader) × (read_u8 (new stream) ≡ (ok 5, r'))
    × At r' (6 ∷ 8 ∷ []) (ValidationError.reader_error 7) (0 + 1) usize_max
read_u8-cons_example =
    read_u8-cons (new stream) 5 (6 ∷ 8 ∷ []) (ValidationError.reader_error 7) 0 usize_max
      (new-At stream) (omega arith)

-- An allocator that has memory.
abbrev granting : ℕ → Result AllocError (Unit {0})
granting n = ok tt

-- A vector of 100 elements cannot be in two bytes.
abbrev short_vector : Stream
short_vector = record { answers = chunk (100 ∷ 1 ∷ 2 ∷ []) ∷ []; returned = [] }

abbrev under_limit : Reader
under_limit = record (new short_vector) { limit = 3 }

under_limit-At : At under_limit (100 ∷ 1 ∷ 2 ∷ []) ValidationError.eof 0 3
unfolding new
under_limit-At =
    let h : At (new short_vector) (100 ∷ 1 ∷ 2 ∷ []) ValidationError.eof 0 usize_max =
      new-At short_vector in
    record {
      held = h.held;
      holds = h.holds;
      room = h.room;
      all = h.all;
      stops = h.stops;
      offset = h.offset;
      limit = refl;
    }
