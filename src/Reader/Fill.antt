-- ===== src/Reader/Fill.antt =====
-- The bytes that a reader still has to deliver, and `fill_buffer` on them.
use spacewasm.Prelude.{
  ℕ, zero, suc, ◌+◌, ◌-◌, ◌≤◌, ◌<◌, min, ◌≡◌, refl, sym, ap, subst, ◌∙◌, arith, false, Option, none,
  some, List, [], ◌∷◌, ◌++◌, length, take, drop, append-nil, append_assoc, length-append,
  length-take, length-drop, take-append-drop, ltb, leb, Bool-cases, inl, inr, ltb→lt,
}
use spacewasm.Errors.{Result, ok, err, ValidationError}
use spacewasm.CircularBuffer
use spacewasm.CircularBuffer.{CircularBuffer, capacity}
use spacewasm.CircularBuffer.Refine.{Holds, push-append}
use spacewasm.CircularBuffer.Deque.{capacity-push}
use spacewasm.Reader.{
  Answer, chunk, finished, failed, Stream, stream_read, Reader, push_all, copy_chunk, give_back,
  stream_return, return_chunk, accept_answer, fill_from, next_answer, fetch_chunk,
}

-- The bytes of the answers up to the first that ends the input, and the error at that point.
abbrev pub bytes_of : List Answer → List ℕ
bytes_of [] = []
bytes_of (finished ∷ rest) = []
bytes_of (failed code ∷ rest) = []
bytes_of (chunk [] ∷ rest) = []
bytes_of (chunk (x ∷ xs) ∷ rest) = (x ∷ xs) ++ bytes_of rest

abbrev pub stop_of : List Answer → ValidationError
stop_of [] = ValidationError.eof
stop_of (finished ∷ rest) = ValidationError.eof
stop_of (failed code ∷ rest) = ValidationError.reader_error code
stop_of (chunk [] ∷ rest) = ValidationError.eof
stop_of (chunk (x ∷ xs) ∷ rest) = stop_of rest

-- What is left of the chunk at hand.
abbrev pub rest_of : Option (List ℕ) → ℕ → List ℕ
rest_of none used = []
rest_of (some c) used = drop used c

-- `r` delivers the bytes `bs` and then stops with `stop`; it stands at offset `off` under limit `lim`.
pub record At (r : Reader) (bs : List ℕ) (stop : ValidationError) (off lim : ℕ) : Type 0 where
  pub held : List ℕ
  pub holds : Holds r.buffer held
  pub room : 0 < capacity r.buffer
  pub all : bs ≡ held ++ (rest_of r.next r.chunk_used ++ bytes_of r.stream.answers)
  pub stops : stop ≡ stop_of r.stream.answers
  pub offset : r.full_offset ≡ off
  pub limit : r.limit ≡ lim

-- The copy loop never overwrites: what it copies fits.
push_all-Holds :
    (ys : List ℕ) (b : CircularBuffer ℕ) (xs : List ℕ)
    → Holds b xs
    → length xs + length ys ≤ capacity b
    → Holds (push_all ys b) (xs ++ ys)
unfolding push_all
push_all-Holds [] b xs h fits = rw append-nil h
push_all-Holds (y ∷ ys) b xs h fits = rw (append_assoc xs (y ∷ []) ys) at (
    push_all-Holds ys (CircularBuffer.push b y) (xs ++ (y ∷ []))
      (push-append b xs y h (omega (arith, h.sized)))
      (omega (arith, capacity-push b y, length-append xs (y ∷ []))))

capacity-push_all : (ys : List ℕ) (b : CircularBuffer ℕ) → capacity (push_all ys b) ≡ capacity b
unfolding push_all
capacity-push_all [] b = refl
capacity-push_all (y ∷ ys) b = capacity-push_all ys (CircularBuffer.push b y) ∙ capacity-push b y

drop-nil : (n : ℕ) → drop {A = ℕ} n [] ≡ []
drop-nil zero = refl
drop-nil (suc n) = refl

drop_past : (n : ℕ) (xs : List ℕ) → length xs ≤ n → drop n xs ≡ []
drop_past zero [] h = refl
drop_past zero (x ∷ xs) h = absurd (omega arith)
drop_past (suc n) [] h = refl
drop_past (suc n) (x ∷ xs) h = drop_past n xs (omega arith)

drop-add : (m n : ℕ) (xs : List ℕ) → drop (m + n) xs ≡ drop n (drop m xs)
drop-add zero n xs = ap (λ k. drop k xs) (omega arith)
drop-add (suc m) n [] = drop-nil (suc m + n) ∙ sym (drop-nil n)
drop-add (suc m) n (x ∷ xs) =
    let e : suc m + n ≡ suc (m + n) = omega arith in rw e (drop-add m n xs)

split_at : (k : ℕ) (xs rest : List ℕ) → xs ++ rest ≡ take k xs ++ (drop k xs ++ rest)
split_at k xs rest =
    ap (λ ys. ys ++ rest) (sym (take-append-drop k xs)) ∙ append_assoc (take k xs) (drop k xs) rest

-- A reader with bytes in its buffer.
abbrev pub Ready : Reader → List ℕ → ValidationError → ℕ → ℕ → Type 0
Ready r bs stop off lim = (h : At r bs stop off lim) × (0 < length h.held)

-- Copying from a chunk with bytes left makes the reader ready for the same bytes.
copy_chunk-Ready :
    (r : Reader) (c : List ℕ) (from : ℕ) (bs : List ℕ)
    → r.next ≡ some c
    → Holds r.buffer []
    → 0 < capacity r.buffer
    → from < length c
    → bs ≡ drop from c ++ bytes_of r.stream.answers
    → Ready (copy_chunk r c from) bs (stop_of r.stream.answers) r.full_offset r.limit
unfolding copy_chunk
copy_chunk-Ready r c from bs e h room more all =
    let n : ℕ = min (length c - from) (capacity r.buffer) in
    let taken : List ℕ = take n (drop from c) in
    let count : length taken ≡ n = omega (arith, length-take n (drop from c), length-drop from c) in
    (
      record {
        held = taken;
        holds = push_all-Holds taken r.buffer [] h (omega arith);
        room = rw (capacity-push_all taken r.buffer) room;
        all =
            all ∙ rw (e, drop-add from n c) (split_at n (drop from c) (bytes_of r.stream.answers));
        stops = refl;
        offset = refl;
        limit = refl;
      },
      omega arith,
    )

-- An answer with bytes makes the reader ready for them.
accept_answer-Ready :
    (a : Answer) (r : Reader) (x : ℕ) (bs : List ℕ)
    → Holds r.buffer []
    → 0 < capacity r.buffer
    → x ∷ bs ≡ bytes_of (a ∷ r.stream.answers)
    → (r' : Reader) × (accept_answer a r ≡ (ok tt, r'))
      × Ready r' (x ∷ bs) (stop_of (a ∷ r.stream.answers)) r.full_offset r.limit
unfolding accept_answer
accept_answer-Ready (failed code) r x bs h room e = absurd (cc e)
accept_answer-Ready finished r x bs h room e = absurd (cc e)
accept_answer-Ready (chunk []) r x bs h room e = absurd (cc e)
accept_answer-Ready (chunk (y ∷ ys)) r x bs h room e = (
  copy_chunk (record r { next = some (y ∷ ys); chunk_used = 0 }) (y ∷ ys) 0,
  refl,
  copy_chunk-Ready (record r { next = some (y ∷ ys); chunk_used = 0 }) (y ∷ ys) 0 (x ∷ bs) refl h
      room (omega arith) e,
)

answers-return_chunk : (c : Option (List ℕ)) (s : Stream) → (return_chunk c s).answers ≡ s.answers
unfolding return_chunk stream_return
answers-return_chunk none s = refl
answers-return_chunk (some c) s = refl

-- What it means that a method returned and left the reader ready.
abbrev pub Filled :
    Result ValidationError (Unit {0}) × Reader → List ℕ → List Answer → ℕ → ℕ → Type 0
Filled out bs answers off lim =
    (r' : Reader) × (out ≡ (ok tt, r')) × Ready r' bs (stop_of answers) off lim

next_answer-Filled :
    (answers : List Answer) (s : Stream) (r : Reader) (x : ℕ) (bs : List ℕ)
    → Holds r.buffer []
    → 0 < capacity r.buffer
    → x ∷ bs ≡ bytes_of answers
    → let (answer, s') = next_answer answers s in
      Filled
        (accept_answer answer (record r { stream = s' }))
        (x ∷ bs)
        answers
        r.full_offset
        r.limit
unfolding next_answer
next_answer-Filled [] s r x bs h room e = absurd (cc e)
next_answer-Filled (a ∷ rest) s r x bs h room e =
    accept_answer-Ready a (record r { stream = record s { answers = rest } }) x bs h room e

-- With nothing left of the chunk at hand, the next answer of the stream decides.
fetch_chunk-Filled :
    (r : Reader) (x : ℕ) (bs : List ℕ)
    → Holds r.buffer []
    → 0 < capacity r.buffer
    → x ∷ bs ≡ bytes_of r.stream.answers
    → Filled (fetch_chunk r) (x ∷ bs) r.stream.answers r.full_offset r.limit
unfolding fetch_chunk give_back stream_read
fetch_chunk-Filled r x bs h room e =
    let s : Stream = return_chunk r.next r.stream in
    let same : s.answers ≡ r.stream.answers = answers-return_chunk r.next r.stream in
    subst (λ a. Filled (fetch_chunk r) (x ∷ bs) a r.full_offset r.limit) same
      (next_answer-Filled s.answers s (give_back r) x bs h room (e ∙ ap bytes_of (sym same)))

pub leb-eq-false : (a b : ℕ) → b < a → leb a b ≡ false
leb-eq-false a b h = ground arith

-- With an empty buffer and bytes to come, `fill_buffer` makes the reader ready for them.
pub fill_from-Filled :
    (c : Option (List ℕ)) (r : Reader) (x : ℕ) (bs : List ℕ)
    → r.next ≡ c
    → Holds r.buffer []
    → 0 < capacity r.buffer
    → x ∷ bs ≡ rest_of c r.chunk_used ++ bytes_of r.stream.answers
    → Filled (fill_from c r) (x ∷ bs) r.stream.answers r.full_offset r.limit
unfolding fill_from
fill_from-Filled none r x bs i h room e = fetch_chunk-Filled r x bs h room e
fill_from-Filled (some c) r x bs i h room e = elim (Bool-cases (ltb 0 (length c - r.chunk_used))) [
  | inl more ↦ rw more (
    copy_chunk r c r.chunk_used,
    refl,
    copy_chunk-Ready r c r.chunk_used (x ∷ bs) i h room
        (omega (arith, ltb→lt 0 (length c - r.chunk_used) more)) e,
  )
  | inr none_left ↦ rw none_left (
      fetch_chunk-Filled r x bs h room
        (e ∙ rw (drop_past r.chunk_used c (ground (arith, none_left)))))
]

-- With no byte to come, `fill_from` fails with the error at which the stream stops.
accept_answer-stop :
    (a : Answer) (r : Reader)
    → [] ≡ bytes_of (a ∷ r.stream.answers)
    → (accept_answer a r).0 ≡ err (stop_of (a ∷ r.stream.answers))
unfolding accept_answer
accept_answer-stop (failed code) r e = refl
accept_answer-stop finished r e = refl
accept_answer-stop (chunk []) r e = refl
accept_answer-stop (chunk (y ∷ ys)) r e = absurd (cc e)

next_answer-stop :
    (answers : List Answer) (s : Stream) (r : Reader)
    → [] ≡ bytes_of answers
    → let (answer, s') = next_answer answers s in
      (accept_answer answer (record r { stream = s' })).0 ≡ err (stop_of answers)
unfolding next_answer
next_answer-stop [] s r e = unfold accept_answer in refl
next_answer-stop (a ∷ rest) s r e =
    accept_answer-stop a (record r { stream = record s { answers = rest } }) e

fetch_chunk-stop :
    (r : Reader)
    → [] ≡ bytes_of r.stream.answers
    → (fetch_chunk r).0 ≡ err (stop_of r.stream.answers)
unfolding fetch_chunk give_back stream_read
fetch_chunk-stop r e =
    let s : Stream = return_chunk r.next r.stream in
    let same : s.answers ≡ r.stream.answers = answers-return_chunk r.next r.stream in
    next_answer-stop s.answers s (give_back r) (e ∙ ap bytes_of (sym same))
    ∙ ap (λ a. err (stop_of a)) same

nil-append : (xs ys : List ℕ) → [] ≡ xs ++ ys → (xs ≡ []) × ([] ≡ ys)
nil-append [] ys e = (refl, e)
nil-append (x ∷ xs) ys e = absurd (cc e)

drop-nonempty : (n : ℕ) (c : List ℕ) → drop n c ≡ [] → length c ≤ n
drop-nonempty zero [] e = omega arith
drop-nonempty zero (x ∷ c) e = absurd (cc e)
drop-nonempty (suc n) [] e = omega arith
drop-nonempty (suc n) (x ∷ c) e = omega (arith, drop-nonempty n c e)

pub fill_from-stop :
    (c : Option (List ℕ)) (r : Reader)
    → [] ≡ rest_of c r.chunk_used ++ bytes_of r.stream.answers
    → (fill_from c r).0 ≡ err (stop_of r.stream.answers)
unfolding fill_from
fill_from-stop none r e = fetch_chunk-stop r e
fill_from-stop (some c) r e =
    let parts = nil-append (drop r.chunk_used c) (bytes_of r.stream.answers) e in
    ground (arith, drop-nonempty r.chunk_used c parts.0, fetch_chunk-stop r parts.1)
