-- ===== src/Interpreter/Calls/Return.antt =====
-- A call and the return that ends it, in src/interpreter.rs.
use spacewasm.Prelude.{
  ℕ, ◌+◌, ◌-◌, ◌^◌, ◌≤◌, ◌≡◌, ◌≢◌, refl, sym, ◌∙◌, ap, true, false, some, List, ◌==◌, arith, as_u8,
}
use spacewasm.Errors.{ok}
use spacewasm.Text.{add_words}
use spacewasm.Stack.Words.{IsStack}
use spacewasm.Engine.{Engine, Func, TableElement, after, required_stack_words}
use spacewasm.Engine.View.{word}
use spacewasm.Interpreter.{
  CallFrame, into_bits, call_impl_enter_module, leave_context, return_to, return_,
}
use spacewasm.Interpreter.Frames.Words.{copied_word}
use spacewasm.Interpreter.Unwind.{Framed, moved, return_lem}
use spacewasm.Interpreter.Context.{in_context, leave_context-in}
use spacewasm.Interpreter.Calls.{
  Caller, Callee, Finished, delta, called_word, returned_word, call_impl_enter_module_lem,
}

-- The frame of a call.
abbrev pub call_frame : Engine → ℕ → Func → CallFrame
call_frame e r f = record {
  frame_length = e.sp - e.fp;
  module_delta = delta e r;
  parameter_size = f.parameter_size;
}

at_frame : (e : Engine) (r : ℕ) (f : Func) → called_word e r f e.sp ≡ into_bits (call_frame e r f)
at_frame e r f = ground arith

at_return : (e : Engine) (r : ℕ) (f : Func) → called_word e r f (e.sp + 1) ≡ e.pc.address
at_return e r f = ground arith

not_sentinel : (pc : ℕ) → pc ≢ 0xFFFFFFFF → (pc == 0xFFFFFFFF) ≡ false
not_sentinel pc h = ground arith

module _ (e e1 e2 : Engine) (r index : ℕ) (f : Func) (memory : ℕ) (table : List TableElement)
    (return_size memory' : ℕ) (table' : List TableElement) where
  Finished-Framed :
      Caller e
      → Callee e r index f memory table
      → e.sp + required_stack_words f ≤ e.stack.size
      → call_impl_enter_module r index e ≡ some (ok tt, e1)
      → Finished e e1 e2 return_size memory' table'
      → (e1.fp ≡ e.sp) × (e1.module_ref ≡ r) × Framed e2 (call_frame e r f) e.pc.address
  Finished-Framed w c room q d =
      let (e', (q', pc, fp, sp, in_r, mem, tab, words)) =
        call_impl_enter_module_lem e r index f memory table w c room in
      let same : e' ≡ e1 = cc (q', q) in
      let fp1 : e1.fp ≡ e.sp = ap (λ x. x.fp) (sym same) ∙ fp in
      let at : word e1 e.sp ≡ into_bits (call_frame e r f) =
        ap (λ x. word x e.sp) (sym same) ∙ words e.sp ∙ at_frame e r f in
      let ret : word e1 (e.sp + 1) ≡ e.pc.address =
        ap (λ x. word x (e.sp + 1)) (sym same) ∙ words (e.sp + 1) ∙ at_return e r f in
      (
        fp1,
        ap (λ x. x.module_ref) (sym same) ∙ in_r,
        record {
          length_fits = w.frame_small;
          delta_fits = omega arith;
          parameter_fits = c.parameter_small;
          frame_word = ap (word e2) d.same_frame ∙ d.frame_kept ∙ ap (word e1) fp1 ∙ at;
          return_word =
              ap (λ k. word e2 (k + 1)) d.same_frame
              ∙ d.return_kept
              ∙ ap (λ k. word e1 (k + 1)) fp1
              ∙ ret;
          above_caller = omega (arith, d.same_frame, fp1);
          above_params = omega (arith, d.same_frame, fp1, c.params_there);
          on_stack = omega (arith, d.same_frame, d.results_there);
          in_stack = d.in_stack;
        },
      )

-- The return of a callee, whatever it did above its frame: the caller goes on behind its call, with its own
-- frame, module, memory and table; the results stand where the parameters were, and all words below them
-- are as the callee left them.
pub return_call :
    (e e1 e2 : Engine) (r index : ℕ) (f : Func) (memory : ℕ) (table : List TableElement)
    (return_size memory' : ℕ) (table' : List TableElement)
    → Caller e
    → Callee e r index f memory table
    → e.sp + required_stack_words f ≤ e.stack.size
    → call_impl_enter_module r index e ≡ some (ok tt, e1)
    → Finished e e1 e2 return_size memory' table'
    → (e3 : Engine) × ((return_ return_size e2 ≡ some (ok tt, e3))
        × (e3.pc ≡ add_words e.pc 2)
        × (e3.fp ≡ e.fp)
        × (e3.sp ≡ e.sp - f.parameter_size + return_size)
        × (e3.module_ref ≡ e.module_ref)
        × (e3.memory ≡ memory')
        × (e3.table ≡ table')
        × ((k : ℕ) → word e3 k ≡ returned_word e2 return_size (e.sp - f.parameter_size) k))
unfolding return_to IsStack
return_call e e1 e2 r index f memory table return_size memory' table' w c room q d =
    let (fp1, in_r, framed) =
      Finished-Framed e e1 e2 r index f memory table return_size memory' table' w c room q d in
    let fp2 : e2.fp ≡ e.sp = d.same_frame ∙ fp1 in
    let mod2 : e2.module_ref ≡ r = d.same_module ∙ in_r in
    let left : return_ return_size e2
        ≡ after (λ u. return_to return_size (e2.fp - f.parameter_size) e.pc.address)
            (leave_context (delta e r) (moved return_size (call_frame e r f) e2)) =
      return_lem return_size (call_frame e r f) e.pc.address e2 framed
        (omega (arith, d.same_frame, d.results_there)) in
    let back : leave_context (delta e r) (moved return_size (call_frame e r f) e2)
        ≡ some (
          ok tt,
          in_context (moved return_size (call_frame e r f) e2) e.module_ref memory' table',
        ) =
      ap
        (λ m.
          leave_context (as_u8 (m + 2 ^ 8 - e.module_ref))
            (moved return_size (call_frame e r f) e2))
        (sym mod2)
      ∙ leave_context-in e.module_ref memory' table' (moved return_size (call_frame e r f) e2)
          (omega (arith, mod2, c.module_small)) w.module_small
          (record {
            memory_found = d.own_context.memory_found;
            table_found = d.own_context.table_found;
          })
          (record {
            memory_found = d.caller_context.memory_found;
            table_found = d.caller_context.table_found;
          }) in
    (
      record (in_context (moved return_size (call_frame e r f) e2) e.module_ref memory' table') {
        sp = e2.fp - f.parameter_size + return_size;
        pc = add_words e.pc 2;
        jumped = true;
      },
      (
        left ∙ rw (back, not_sentinel e.pc.address w.running) refl,
        refl,
        omega (arith, fp2, w.frame_open),
        ap (λ k. k - f.parameter_size + return_size) fp2,
        refl,
        refl,
        refl,
        λ k.
            copied_word e2.stack.words return_size (e2.sp - return_size) (e2.fp - f.parameter_size)
              k (omega (arith, fp1, d.same_frame, d.results_there))
              (omega (arith, fp1, d.same_frame, d.results_there, d.in_stack, d.stack_sized))
            ∙ ap (λ p. returned_word e2 return_size (p - f.parameter_size) k) fp2,
      ),
    )
