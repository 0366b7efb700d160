-- ===== src/Interpreter/Unwind.antt =====
-- Returns in src/interpreter.rs: what `return_` leaves of a call frame.
use spacewasm.Prelude.{
  ℕ, zero, suc, ◌+◌, ◌-◌, ◌^◌, ◌≤◌, ◌<◌, ◌≡◌, ◌⊎◌, inl, inr, refl, ◌∙◌, ap, some, List, get_or, set,
  length, length-set, arith,
}
use spacewasm.Errors.{ok}
use spacewasm.Engine.{Engine, after}
use spacewasm.Engine.View.{
  word, with_words, put_word, get_or-set_same, get_or-set_other, read_u32-in, write_u32-in,
  below_top-in,
}
use spacewasm.Interpreter.{
  CallFrame, into_bits, copy_words, checked_sub, leave_context, return_to, return_,
}
use spacewasm.Interpreter.Frames.{from_bits-into_bits}

-- `n` words copied up from `from` to `to`, lowest first.
abbrev pub copied : List ℕ → ℕ → ℕ → ℕ → List ℕ
copied ws zero from to = ws
copied ws (suc n) from to = copied (set ws to (get_or ws from 0)) n (from + 1) (to + 1)

pub copied_other :
    (ws : List ℕ) (n from to j : ℕ)
    → (j < to) ⊎ (to + n ≤ j)
    → get_or (copied ws n from to) j 0 ≡ get_or ws j 0
copied_other ws zero from to j h = refl
copied_other ws (suc n) from to j h =
    copied_other (set ws to (get_or ws from 0)) n (from + 1) (to + 1) j
      (elim h [ inl l ↦ inl (omega (arith, l)) | inr r ↦ inr (omega (arith, r)) ])
    ∙ get_or-set_other ws to j (get_or ws from 0) (λ q. elim h [
      | inl l ↦ absurd (omega (arith, l, q))
      | inr r ↦ absurd (omega (arith, r, q))
    ])

-- The ranges may overlap: a word is read before it is overwritten, since the copy goes down.
pub copied_lem :
    (ws : List ℕ) (n from to i : ℕ)
    → i < n
    → to ≤ from
    → to + n ≤ length ws
    → get_or (copied ws n from to) (to + i) 0 ≡ get_or ws (from + i) 0
copied_lem ws zero from to i h le fits = absurd (omega (arith, h))
copied_lem ws (suc n) from to zero h le fits =
    let z : to + 0 ≡ to = omega arith in
    let y : from ≡ from + 0 = omega arith in
    ap (λ k. get_or (copied (set ws to (get_or ws from 0)) n (from + 1) (to + 1)) k 0) z
    ∙ copied_other (set ws to (get_or ws from 0)) n (from + 1) (to + 1) to (inl (omega arith))
    ∙ get_or-set_same ws to (get_or ws from 0) (omega (arith, fits))
    ∙ ap (λ k. get_or ws k 0) y
copied_lem ws (suc n) from to (suc i) h le fits =
    let z : to + suc i ≡ (to + 1) + i = omega arith in
    let y : (from + 1) + i ≡ from + suc i = omega arith in
    ap (λ k. get_or (copied (set ws to (get_or ws from 0)) n (from + 1) (to + 1)) k 0) z
    ∙ copied_lem (set ws to (get_or ws from 0)) n (from + 1) (to + 1) i (omega (arith, h))
        (omega (arith, le)) (omega (arith, fits, length-set ws to (get_or ws from 0)))
    ∙ get_or-set_other ws to ((from + 1) + i) (get_or ws from 0)
        (λ q. absurd (omega (arith, le, q)))
    ∙ ap (λ k. get_or ws k 0) y

pub length-copied : (ws : List ℕ) (n from to : ℕ) → length (copied ws n from to) ≡ length ws
length-copied ws zero from to = refl
length-copied ws (suc n) from to =
    length-copied (set ws to (get_or ws from 0)) n (from + 1) (to + 1)
    ∙ length-set ws to (get_or ws from 0)

pub copy_words-in :
    (n from to : ℕ) (e : Engine)
    → from + n ≤ e.stack.size
    → to + n ≤ e.stack.size
    → copy_words n from to e ≡ some (ok tt, with_words e (copied e.stack.words n from to))
unfolding copy_words
copy_words-in zero from to e h k = refl
copy_words-in (suc n) from to e h k =
    rw (read_u32-in from e (omega (arith, h)), write_u32-in to (word e from) e (omega (arith, k)))
      (copy_words-in n (from + 1) (to + 1) (put_word e to (word e from)) (omega (arith, h))
        (omega (arith, k)))

pub checked_sub-in : (a b : ℕ) (e : Engine) → b ≤ a → checked_sub a b e ≡ some (ok (a - b), e)
unfolding checked_sub
checked_sub-in a b e h = ground arith

-- A frame on the stack: its word is at `fp`, the program counter to return to behind it.
pub record Framed (e : Engine) (frame : CallFrame) (return_pc : ℕ) : Type 0 where
  pub length_fits : frame.frame_length < 2 ^ 16
  pub delta_fits : frame.module_delta < 2 ^ 8
  pub parameter_fits : frame.parameter_size < 2 ^ 8
  pub frame_word : word e e.fp ≡ into_bits frame
  pub return_word : word e (e.fp + 1) ≡ return_pc
  pub above_caller : frame.frame_length ≤ e.fp
  pub above_params : frame.parameter_size ≤ e.fp
  pub on_stack : e.fp + 2 ≤ e.sp
  pub in_stack : e.sp ≤ e.stack.size

-- The engine after the results have been moved to where the parameters were.
abbrev pub moved : ℕ → CallFrame → Engine → Engine
moved return_size frame e =
    record (with_words e
      (copied e.stack.words return_size (e.sp - return_size) (e.fp - frame.parameter_size))) {
        fp = e.fp - frame.frame_length;
      }

-- `return_` reads the frame, moves the results and leaves the context of the callee.
pub return_lem :
    (return_size : ℕ) (frame : CallFrame) (return_pc : ℕ) (e : Engine)
    → Framed e frame return_pc
    → return_size + (e.fp + 2) ≤ e.sp
    → return_ return_size e
      ≡ after
          (λ u. return_to return_size (e.fp - frame.parameter_size) return_pc)
          (leave_context frame.module_delta (moved return_size frame e))
unfolding return_
return_lem return_size frame return_pc e f fits =
    rw
      (
        read_u32-in (e.fp + 1) e (omega (arith, f.on_stack, f.in_stack)),
        read_u32-in e.fp e (omega (arith, f.on_stack, f.in_stack)),
        f.frame_word,
        f.return_word,
        (from_bits-into_bits frame f.length_fits f.delta_fits f.parameter_fits).0,
        checked_sub-in e.fp frame.frame_length e f.above_caller,
        checked_sub-in e.fp frame.parameter_size e f.above_params,
        below_top-in return_size e (omega (arith, fits)),
        copy_words-in return_size (e.sp - return_size) (e.fp - frame.parameter_size) e
            (omega (arith, fits, f.in_stack)) (omega (arith, fits, f.in_stack)),
      )
      refl
