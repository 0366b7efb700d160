-- ===== src/Interpreter/Frames.antt =====
-- Call frames in src/interpreter.rs: what a call puts on the stack.
pub mod Words
use spacewasm.Prelude.{
  ℕ, zero, suc, ◌+◌, ◌-◌, ◌*◌, ◌/◌, ◌%◌, ◌^◌, ◌≤◌, ◌<◌, ◌≡◌, ◌≢◌, ◌⊎◌, inl, inr, refl, sym, ◌∙◌, ap,
  true, Option, some, List, [], ◌∷◌, get_or, set, length, length-set, arith, as_u16, as_u32,
}
use spacewasm.Errors.{Result, ok, err}
use spacewasm.Text.{JumpTarget}
use spacewasm.Engine.{
  Engine, Func, M, below_top, grow_words, write_u32, read_u32, required_stack_words,
}
use spacewasm.Engine.View.{
  word, with_words, put_word, get_or-set_same, get_or-set_other, read_u32-in, write_u32-in,
  below_top-in,
}
use spacewasm.Interpreter.{CallFrame, into_bits, from_bits, zero_locals, push_frame, copy_words}

-- The frame that a word of the stack stands for is the frame that it was made from, when the fields have
-- the widths of the struct: 16, 8 and 8 bits.
pub from_bits-into_bits :
    (f : CallFrame)
    → f.frame_length < 2 ^ 16
    → f.module_delta < 2 ^ 8
    → f.parameter_size < 2 ^ 8
    → (from_bits (into_bits f) ≡ f) × (into_bits f < 2 ^ 32)
unfolding into_bits from_bits
from_bits-into_bits f a b c =
    let x : (f.frame_length + f.module_delta * 2 ^ 16 + f.parameter_size * 2 ^ 24) % 2 ^ 16
        ≡ f.frame_length =
      omega arith in
    let y : (f.frame_length + f.module_delta * 2 ^ 16 + f.parameter_size * 2 ^ 24) / 2 ^ 16 % 2 ^ 8
        ≡ f.module_delta =
      omega arith in
    let z : (f.frame_length + f.module_delta * 2 ^ 16 + f.parameter_size * 2 ^ 24) / 2 ^ 24
        ≡ f.parameter_size =
      omega arith in
    (rw (x, y, z) refl, omega arith)

-- `n` words from `a` on, cleared.
abbrev pub cleared : List ℕ → ℕ → ℕ → List ℕ
cleared ws zero a = ws
cleared ws (suc n) a = cleared (set ws a 0) n (a + 1)

pub cleared_other :
    (ws : List ℕ) (n a j : ℕ) → (j < a) ⊎ (a + n ≤ j) → get_or (cleared ws n a) j 0 ≡ get_or ws j 0
cleared_other ws zero a j h = refl
cleared_other ws (suc n) a j h =
    cleared_other (set ws a 0) n (a + 1) j
      (elim h [ inl l ↦ inl (omega (arith, l)) | inr r ↦ inr (omega (arith, r)) ])
    ∙ get_or-set_other ws a j 0 (λ q. elim h [
      | inl l ↦ absurd (omega (arith, l, q))
      | inr r ↦ absurd (omega (arith, r, q))
    ])

pub length-cleared : (ws : List ℕ) (n a : ℕ) → length (cleared ws n a) ≡ length ws
length-cleared ws zero a = refl
length-cleared ws (suc n) a = length-cleared (set ws a 0) n (a + 1) ∙ length-set ws a 0

pub cleared_zero :
    (ws : List ℕ) (n a i : ℕ) → i < n → a + n ≤ length ws → get_or (cleared ws n a) (a + i) 0 ≡ 0
cleared_zero ws zero a i h fits = absurd (omega (arith, h))
cleared_zero ws (suc n) a zero h fits =
    let z : a + 0 ≡ a = omega arith in
    ap (λ k. get_or (cleared (set ws a 0) n (a + 1)) k 0) z
    ∙ cleared_other (set ws a 0) n (a + 1) a (inl (omega arith))
    ∙ get_or-set_same ws a 0 (omega (arith, fits))
cleared_zero ws (suc n) a (suc i) h fits =
    let z : a + suc i ≡ (a + 1) + i = omega arith in
    ap (λ k. get_or (cleared (set ws a 0) n (a + 1)) k 0) z
    ∙ cleared_zero (set ws a 0) n (a + 1) i (omega (arith, h))
        (omega (arith, fits, length-set ws a 0))

pub zero_locals-in :
    (n a : ℕ) (e : Engine)
    → a + n ≤ e.stack.size
    → zero_locals n a e ≡ some (ok tt, with_words e (cleared e.stack.words n a))
unfolding zero_locals
zero_locals-in zero a e h = refl
zero_locals-in (suc n) a e h =
    rw (write_u32-in a 0 e (omega (arith, h)))
      (zero_locals-in n (a + 1) (put_word e a 0) (omega (arith, h)))

-- The frame of a call, and the engine after it.
abbrev pub frame_of : ℕ → Func → Engine → CallFrame
frame_of delta f e = record {
  frame_length = as_u16 (as_u32 (e.sp - e.fp));
  module_delta = delta;
  parameter_size = f.parameter_size;
}

abbrev pub framed : ℕ → Func → Engine → List ℕ
framed delta f e =
    cleared (set (set e.stack.words e.sp (into_bits (frame_of delta f e))) (e.sp + 1) e.pc.address)
      f.local_size (e.sp + 2)

abbrev pub entered : ℕ → Func → Engine → Engine
entered delta f e = record (with_words e (framed delta f e)) {
  fp = as_u32 e.sp;
  sp = e.sp + (2 + f.local_size);
  pc = f.expr;
  jumped = true;
}

pub push_frame-in :
    (delta : ℕ) (f : Func) (e : Engine)
    → e.fp ≤ e.sp
    → e.sp + 2 + f.local_size ≤ e.stack.size
    → push_frame delta f e ≡ some (ok tt, entered delta f e)
unfolding push_frame grow_words
push_frame-in delta f e low fits =
    let bits : ℕ = into_bits (frame_of delta f e) in
    rw
      (
        below_top-in e.fp e low,
        write_u32-in e.sp (into_bits (frame_of delta f e)) e (omega (arith, fits)),
        write_u32-in (e.sp + 1) e.pc.address (put_word e e.sp (into_bits (frame_of delta f e)))
            (omega (arith, fits)),
        zero_locals-in f.local_size (e.sp + 2)
            (record (put_word (put_word e e.sp (into_bits (frame_of delta f e))) (e.sp + 1)
              e.pc.address) { fp = as_u32 e.sp })
            (omega (arith, fits)),
      )
      refl
