-- ===== src/Interpreter/Calls.antt =====
-- Calls and returns in src/interpreter.rs, within a module and between two modules.
pub mod Return
use spacewasm.Prelude.{
  ℕ, zero, suc, ◌+◌, ◌-◌, ◌*◌, ◌%◌, ◌^◌, ◌≤◌, ◌<◌, ◌≡◌, ◌≢◌, ◌⊎◌, inl, inr, refl, sym, ◌∙◌, ap,
  subst, Bool, true, false, Bool-cases, Option, some, List, get_elem?, get_or, set, length,
  length-set, ltb, ◌==◌, ==_iff, if◌then◌else◌, arith, as_u8, as_u16, as_u32,
}
use spacewasm.Errors.{Result, ok, err}
use spacewasm.Text.{JumpTarget, add_words}
use spacewasm.Stack.{len}
use spacewasm.Stack.Words.{IsStack}
use spacewasm.Engine.{
  Engine, Func, Module, TableElement, TrapReason, trap, M, after, get_func, required_stack_words,
}
use spacewasm.Engine.View.{word, with_words, get_or-set_same, get_or-set_other}
use spacewasm.Interpreter.{
  CallFrame, into_bits, call_impl, call_impl_enter_module, leave_context, return_to, return_,
}
use spacewasm.Interpreter.Frames.{
  frame_of, framed, entered, push_frame-in, cleared, cleared_other, cleared_zero, length-cleared,
}
use spacewasm.Interpreter.Frames.Words.{framed_word, copied_word}
use spacewasm.Interpreter.Unwind.{Framed, copied, copied_other, copied_lem, moved, return_lem}
use spacewasm.Interpreter.Context.{Context, in_context, call_impl_enter_module-in, leave_context-in}

-- A caller: its stack and its context are in order, and its frame, program counter and numbers have the
-- widths that the code gives them.
pub record Caller (e : Engine) : Type 0 where
  pub stack_sized : IsStack e.stack
  pub frame_open : e.fp ≤ e.sp
  pub frame_small : e.sp - e.fp < 2 ^ 16
  pub address_small : e.sp < 2 ^ 32
  pub running : e.pc.address ≢ 0xFFFFFFFF
  pub module_small : e.module_ref < 2 ^ 8
  pub own_context : Context e e.module_ref e.memory e.table

-- A callee: the function `f`, number `index` of the module `r`, whose parameters are on the stack.
pub record Callee (e : Engine) (r index : ℕ) (f : Func) (memory : ℕ) (table : List TableElement)
    : Type 0 where
  pub module_small : r < 2 ^ 8
  pub context : Context e r memory table
  pub m : Module
  pub module_found : get_elem? e.store.modules r ≡ some m
  pub func_found : get_elem? m.functions index ≡ some f
  pub parameter_small : f.parameter_size < 2 ^ 8
  pub params_there : f.parameter_size ≤ e.sp

abbrev pub delta : Engine → ℕ → ℕ
delta e r = as_u8 (r + 2 ^ 8 - e.module_ref)

module _ (e : Engine) (r index : ℕ) (f : Func) (memory : ℕ) (table : List TableElement) where
  abbrev pub callee_engine : Engine
  callee_engine = in_context e r memory table

  get_func-in :
      Callee e r index f memory table → get_func r index callee_engine ≡ some (ok f, callee_engine)
  unfolding get_func
  get_func-in c = rw (c.module_found, c.func_found, get_func) refl

  call_impl-overflow :
      Callee e r index f memory table
      → e.stack.size < e.sp + required_stack_words f
      → call_impl (delta e r) index callee_engine
        ≡ some (err (trap TrapReason.stack_overflow), callee_engine)
  unfolding call_impl len
  call_impl-overflow c full =
      let t : ltb e.stack.size (e.sp + required_stack_words f) ≡ true = ground arith in
      rw (get_func-in c, t) refl

  call_impl-in :
      Caller e
      → Callee e r index f memory table
      → e.sp + required_stack_words f ≤ e.stack.size
      → call_impl (delta e r) index callee_engine
        ≡ some (ok tt, entered (delta e r) f callee_engine)
  unfolding call_impl len
  call_impl-in w c room =
      let t : ltb e.stack.size (e.sp + required_stack_words f) ≡ false = ground arith in
      rw (get_func-in c, t)
        (push_frame-in (delta e r) f callee_engine w.frame_open (omega (arith, room)))

  call-in :
      Caller e
      → Callee e r index f memory table
      → e.sp + required_stack_words f ≤ e.stack.size
      → call_impl_enter_module r index e ≡ some (ok tt, entered (delta e r) f callee_engine)
  call-in w c room =
      call_impl_enter_module-in r index memory table e w.own_context c.context
      ∙ call_impl-in w c room

-- A call that the stack has no room for traps, and only the context has changed.
pub call_overflows :
    (e : Engine) (r index : ℕ) (f : Func) (memory : ℕ) (table : List TableElement)
    → Caller e
    → Callee e r index f memory table
    → e.stack.size < e.sp + required_stack_words f
    → call_impl_enter_module r index e
      ≡ some (err (trap TrapReason.stack_overflow), in_context e r memory table)
call_overflows e r index f memory table w c full =
    call_impl_enter_module-in r index memory table e w.own_context c.context
    ∙ call_impl-overflow e r index f memory table c full

-- The words of the stack after a call: the frame, the program counter and the zeroed locals above the
-- caller's words.
abbrev pub called_word : Engine → ℕ → Func → ℕ → ℕ
called_word e r f k =
    if ltb k e.sp
    then word e k
    else (if k == e.sp
        then into_bits (record {
          frame_length = e.sp - e.fp;
          module_delta = delta e r;
          parameter_size = f.parameter_size;
        })
        else (if k == e.sp + 1
            then e.pc.address
            else (if ltb k (e.sp + 2 + f.local_size) then 0 else word e k)))

-- A call that the stack has room for succeeds: it enters the function in the context of its module, opens a
-- frame at the top of the stack and puts its words there; the caller's words stay.
pub call_impl_enter_module_lem :
    (e : Engine) (r index : ℕ) (f : Func) (memory : ℕ) (table : List TableElement)
    → Caller e
    → Callee e r index f memory table
    → e.sp + required_stack_words f ≤ e.stack.size
    → (e1 : Engine) × ((call_impl_enter_module r index e ≡ some (ok tt, e1))
        × (e1.pc ≡ f.expr)
        × (e1.fp ≡ e.sp)
        × (e1.sp ≡ e.sp + 2 + f.local_size)
        × (e1.module_ref ≡ r)
        × (e1.memory ≡ memory)
        × (e1.table ≡ table)
        × ((k : ℕ) → word e1 k ≡ called_word e r f k))
unfolding IsStack
call_impl_enter_module_lem e r index f memory table w c room =
    let small : as_u16 (as_u32 (e.sp - e.fp)) ≡ e.sp - e.fp = omega (arith, w.frame_small) in
    (
      entered (delta e r) f (in_context e r memory table),
      (
        call-in e r index f memory table w c room,
        refl,
        omega (arith, w.address_small),
        omega arith,
        refl,
        refl,
        refl,
        λ k.
            framed_word e.stack.words e.sp (into_bits (frame_of (delta e r) f e)) e.pc.address
              f.local_size k (omega (arith, room, w.stack_sized))
            ∙ ap
                (λ d.
                  if ltb k e.sp
                  then word e k
                  else (if k == e.sp
                      then into_bits (record {
                        frame_length = d;
                        module_delta = delta e r;
                        parameter_size = f.parameter_size;
                      })
                      else (if k == e.sp + 1
                          then e.pc.address
                          else (if ltb k (e.sp + 2 + f.local_size) then 0 else word e k))))
                small,
      ),
    )

-- A callee's engine `e2` at its return, after the call has left `e1`: its frame is as the call made it, and
-- the results are on the stack above it.
pub record Finished (e e1 e2 : Engine) (return_size memory : ℕ) (table : List TableElement)
    : Type 0 where
  pub stack_sized : IsStack e2.stack
  pub same_frame : e2.fp ≡ e1.fp
  pub frame_kept : word e2 e1.fp ≡ word e1 e1.fp
  pub return_kept : word e2 (e1.fp + 1) ≡ word e1 (e1.fp + 1)
  pub same_module : e2.module_ref ≡ e1.module_ref
  pub own_context : Context e2 e2.module_ref e2.memory e2.table
  pub caller_context : Context e2 e.module_ref memory table
  pub results_there : return_size + (e1.fp + 2) ≤ e2.sp
  pub in_stack : e2.sp ≤ e2.stack.size

-- The words of the stack after the return: the results stand where the parameters were.
abbrev pub returned_word : Engine → ℕ → ℕ → ℕ → ℕ
returned_word e2 return_size to k =
    if ltb k to
    then word e2 k
    else (if ltb k (to + return_size) then word e2 (e2.sp - return_size + (k - to)) else word e2 k)

pub call_impl_enter_module-entered :
    (e e1 : Engine) (r index : ℕ) (f : Func) (memory : ℕ) (table : List TableElement)
    → Caller e
    → Callee e r index f memory table
    → e.sp + required_stack_words f ≤ e.stack.size
    → call_impl_enter_module r index e ≡ some (ok tt, e1)
    → e1 ≡ entered (delta e r) f (in_context e r memory table)
call_impl_enter_module-entered e e1 r index f memory table w c room q =
    let p : call_impl_enter_module r index e
        ≡ some (ok tt, entered (delta e r) f (in_context e r memory table)) =
      call-in e r index f memory table w c room in
    cc (p, q)
