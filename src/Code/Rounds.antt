-- ===== src/Code/Rounds.antt =====
-- The decoder loop of src/code.rs, round by round and without fuel.
use spacewasm.Prelude.{ℕ, zero, suc, ◌<◌, ◌≡◌, refl, Option, none, some, arith}
use spacewasm.Errors.{ValidationError, Result, ok, err}
use spacewasm.Reader.{Reader, bytes_remaining, read_u8}
use spacewasm.Reader.Moves.{TookByte, read_u8-TookByte}
use spacewasm.Text.Builder.{TextBuilder, Scope}
use spacewasm.Code.{M, ◌>>=◌, after, read, read_result}
use spacewasm.Code.Read.{read_instruction, go_on, read_code_loop}
use spacewasm.Code.Progress.{LaterRead, Advances-read_instruction}

-- The outcome of the loop or of a round: `none`, or a result with the reader.
abbrev pub Outcome : Type 0 → Type 0
Outcome A = Option (Result ValidationError (A × TextBuilder) × Reader)

-- One round: an opcode and its instruction. The depth of blocks after it, or `none` after the last `END`.
abbrev pub round : ℕ → M (Option ℕ)
round block_depth = read read_u8 >>= λ op. read_instruction op block_depth

-- Finitely many rounds, each from where the one before it ended, and the outcome of the last of them.
pub data Rounds (c : Scope) : ℕ → Reader → TextBuilder → Outcome (Unit {0}) → Type 0 where
  panicked : {d : ℕ} {r : Reader} {s : TextBuilder} → round d c r s ≡ none → Rounds c d r s none
  refused :
      {d : ℕ} {r r' : Reader} {s : TextBuilder} {e : ValidationError}
      → round d c r s ≡ some (err e, r')
      → Rounds c d r s (some (err e, r'))
  ended :
      {d : ℕ} {r r' : Reader} {s s' : TextBuilder}
      → round d c r s ≡ some (ok (none, s'), r')
      → Rounds c d r s (some (ok (tt, s'), r'))
  again :
      {d d' : ℕ} {r r' : Reader} {s s' : TextBuilder} {x : Outcome (Unit {0})}
      → round d c r s ≡ some (ok (some d', s'), r')
      → Rounds c d' r' s' x
      → Rounds c d r s x

-- The rounds from any reader with less left than `r`, with the outcome that the loop gives.
abbrev Onwards : Scope → Reader → (ℕ → M (Unit {0})) → Type 0
Onwards c r loop =
    (d : ℕ) (r' : Reader) (s : TextBuilder)
    → bytes_remaining r' < bytes_remaining r
    → Rounds c d r' s (loop d c r' s)

go_on-Rounds :
    (c : Scope) (d : ℕ) (r r' : Reader) (s : TextBuilder) (loop : ℕ → M (Unit {0}))
    (x : Outcome (Option ℕ))
    → round d c r s ≡ x
    → bytes_remaining r' < bytes_remaining r
    → LaterRead r' x
    → Onwards c r loop
    → Rounds c d r s (after (go_on loop) c x)
unfolding go_on bytes_remaining
go_on-Rounds c d r r' s loop none q lt h k = panicked q
go_on-Rounds c d r r' s loop (some (err e, r'')) q lt h k = refused q
go_on-Rounds c d r r' s loop (some (ok (none, s''), r'')) q lt h k = ended q
go_on-Rounds c d r r' s loop (some (ok (some d', s''), r'')) q lt h k =
    again q (k d' r'' s'' (omega (arith, lt, h.0, h.1)))

round-Rounds :
    (c : Scope) (d : ℕ) (r : Reader) (s : TextBuilder) (loop : ℕ → M (Unit {0}))
    (x : Result ValidationError ℕ × Reader)
    → round d c r s ≡ after (λ op. read_instruction op d) c (read_result s x)
    → TookByte r x
    → Onwards c r loop
    → Rounds c d r s (after (λ op. read_instruction op d >>= go_on loop) c (read_result s x))
unfolding bytes_remaining
round-Rounds c d r s loop (err e, r') q h k = refused q
round-Rounds c d r s loop (ok op, r') q h k =
    go_on-Rounds c d r r' s loop (read_instruction op d c r' s) q (omega (arith, h.0, h.1, h.2))
      ((Advances-read_instruction op d).at c r' s) k

-- From any input the decoder loop comes to its end: with fuel for more rounds than there are bytes below the
-- limit, its answer is the outcome of the last of finitely many rounds. A round is an opcode with its
-- instruction; an instruction that panics, or whose patch has no fuel, is an outcome of its round.
pub read_code_loop-Rounds :
    (fuel block_depth : ℕ) (c : Scope) (r : Reader) (s : TextBuilder)
    → bytes_remaining r < fuel
    → Rounds c block_depth r s (read_code_loop fuel block_depth c r s)
unfolding read_code_loop
read_code_loop-Rounds zero block_depth c r s h = absurd (omega (arith, h))
read_code_loop-Rounds (suc fuel) block_depth c r s h =
    round-Rounds c block_depth r s (read_code_loop fuel) (read_u8 r) refl (read_u8-TookByte r)
      λ d r' s' lt. read_code_loop-Rounds fuel d c r' s' (omega (arith, lt, h))
