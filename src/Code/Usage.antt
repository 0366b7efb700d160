-- ===== src/Code/Usage.antt =====
-- The invariant of the builder at the end of a function body, and the stack usage that `Expr::read` of
-- src/code.rs takes from it.
use spacewasm.Prelude.{
  ℕ, ◌*◌, ◌^◌, ◌≤◌, ◌<◌, ◌≡◌, refl, subst, false, Option, none, some, [], ltb, as_u16, arith,
}
use spacewasm.Errors.{ValidationError, Result, ok, err}
use spacewasm.Reader.{Reader}
use spacewasm.Text
use spacewasm.Text.{CodeBuilder, JumpTarget}
use spacewasm.Text.Builder.{TextBuilder, Scope, BlockKind}
use spacewasm.Text.Builder.Keeps.{Kept}
use spacewasm.Text.Operands.{new, started, push_control, stack_height, bottom_up, count_words}
use spacewasm.Text.Operands.Valid.{IsValid, Keeps-push_control}
use spacewasm.Code.Preserves.{KeptRead}
use spacewasm.Code.Valid.{read_code-Preserves}
use spacewasm.Code.Read.{read_code}
use spacewasm.Code.Functions.{read_expr, expr_of}

-- Whatever the bytes are, a body that the decoder accepts leaves a builder that satisfies the invariant of
-- its two stacks, when it starts from one.
pub read_code-IsValid :
    (fuel : ℕ) (c : Scope) (r r' : Reader) (s s' : TextBuilder)
    → IsValid c s
    → read_code fuel c r s ≡ some (ok (tt, s'), r')
    → IsValid c s'
read_code-IsValid fuel c r r' s s' h e =
    subst (KeptRead IsValid c) e ((read_code-Preserves fuel).at c r s h)

started-IsValid :
    (c : Scope) (s : TextBuilder) (x : Option (Result ValidationError ((Unit {0}) × TextBuilder)))
    → IsValid c s
    → Kept IsValid c x
    → IsValid c (started s x)
unfolding started
started-IsValid c s none h k = h
started-IsValid c s (some (err e)) h k = h
started-IsValid c s (some (ok (u, s'))) h k = k

-- The builder that a function starts with satisfies the invariant.
pub new-IsValid :
    (c : Scope) (code : CodeBuilder) → 2 * c.max_stack_depth < 2 ^ 16 → IsValid c (new c code)
unfolding new stack_height bottom_up count_words
new-IsValid c code small =
    let s : TextBuilder = record {
      code = code;
      control_frames = [];
      value_stack = [];
      stack_highwater = 0;
      br_table_result = none;
    } in
    let h : IsValid c s = record {
      capacity = small;
      depth = omega arith;
      heights = tt;
      highwater = omega arith;
      bounded = omega arith;
    } in
    started-IsValid c s (push_control BlockKind.block c.func.return_ty c.func.return_ty c s) h
      ((Keeps-push_control BlockKind.block c.func.return_ty c.func.return_ty).at c s h)

-- Where the capacity of the operand stack is below 2 ^ 15, as the code asserts, the stack usage of a body that
-- the decoder accepts is at most two words for each operand of the capacity, and `Expr::read` returns it
-- as it is: it never refuses the body for its usage, nor cuts it off at 16 bits.
pub read_expr_usage :
    (c : Scope) (code : CodeBuilder) (r r' : Reader) (at : JumpTarget) (tb : TextBuilder)
    → 2 * c.max_stack_depth < 2 ^ 16
    → Text.pc code ≡ some at
    → read_code c.fuel c r (new c code) ≡ some (ok (tt, tb), r')
    → (tb.stack_highwater ≤ 2 * c.max_stack_depth)
      × (stack_height tb ≤ tb.stack_highwater)
      × (read_expr c code r ≡ some (ok (at, tb.stack_highwater, tb.code), r'))
unfolding read_expr expr_of
read_expr_usage c code r r' at tb small start accepted =
    let h : IsValid c tb =
      read_code-IsValid c.fuel c r r' (new c code) tb (new-IsValid c code small) accepted in
    let fits : ltb 0xFFFF tb.stack_highwater ≡ false =
      below tb.stack_highwater (omega (arith, h.bounded, small)) in
    let whole : as_u16 tb.stack_highwater ≡ tb.stack_highwater = omega (arith, h.bounded, small) in
    (h.bounded, h.highwater, rw (start, accepted, fits, whole, read_expr) refl)
  where
    below : (n : ℕ) → n < 2 ^ 16 → ltb 0xFFFF n ≡ false
    below n h = ground arith
