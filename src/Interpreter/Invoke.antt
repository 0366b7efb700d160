-- ===== src/Interpreter/Invoke.antt =====
-- `Engine::invoke` and `Engine::resume` of src/interpreter.rs: the start of a call from outside, and the
-- return of a host function's result after a pause.
pub mod Rejections
use spacewasm.Prelude.{
  ℕ, zero, suc, ◌+◌, Bool, true, false, ◌||◌, Option, none, some, List, [], ◌∷◌, length, get_elem?,
  ltb, ◌==◌, not, if◌then◌else◌,
}
use spacewasm.Errors.{Result, ok, err}
use spacewasm.Types.{ValType, ResultType}
use spacewasm.Types.Raw.{Value, type_of}
use spacewasm.Stack.{len}
use spacewasm.Engine.{
  Engine, Func, Module, InterpreterBreak, M, pure, break, fault, ◌>>=◌, ◌>>◌, gets, modify,
  or_fault, required_stack_words, enter_context, get_func,
}
use spacewasm.Interpreter.{words_of, call_impl}
use spacewasm.Interpreter.Variables.{current_module}
use spacewasm.Interpreter.Host.{push_value, same_type, param_size}

pub data InvokeError : Type 0 where
  param_len_mismatch param_type_mismatch stack_overflow busy : InvokeError

pub data ResumeError : Type 0 where
  not_paused result_type_mismatch : ResumeError

-- The answer of an entry point, and the engine as it leaves it.
abbrev pub Entry {ℓ} : Type ℓ → Type ℓ
Entry E = Option (Result E (Unit {0}) × Engine)

-- The loop over the parameters: false at the first one of another type.
unfoldable pub push_params : List Value → List ValType → M Bool
push_params [] tys = pure true
push_params (v ∷ vs) [] = pure true
push_params (v ∷ vs) (ty ∷ tys) =
    if same_type (type_of v) ty then (push_value v >>= λ _. push_params vs tys) else pure false

-- The call itself, which has the stack that it needs; an overflow would be a panic.
unfoldable pub start : ℕ → ℕ → M (Unit {0})
start r index = do
  enter_context r
  call_impl 0 index
  modify (λ e. record e { jumped = false; result = none })

unfoldable pub expected : Option (Result InterpreterBreak (Unit {0}) × Engine) → Entry InvokeError
expected none = none
expected (some (ok u, e)) = some (ok tt, e)
expected (some (err b, e)) = none

unfoldable pub after_params :
    ℕ → ℕ → Option (Result InterpreterBreak Bool × Engine) → Entry InvokeError
after_params r index none = none
after_params r index (some (err b, e)) = none
after_params r index (some (ok false, e)) =
    some (err InvokeError.param_type_mismatch, record e { sp = 0 })
after_params r index (some (ok true, e)) = expected (start r index e)

-- `invoke` of a function and its parameter types.
unfoldable pub invoke_func : ℕ → ℕ → List Value → Func → List ValType → Engine → Entry InvokeError
invoke_func r index params f tys e =
    if length tys == length params
    then (if ltb (len e.stack) (param_size tys + required_stack_words f)
        then some (err InvokeError.stack_overflow, e)
        else after_params r index (push_params params tys e))
    else some (err InvokeError.param_len_mismatch, e)

unfoldable pub invoke_in : ℕ → ℕ → List Value → Option Module → Engine → Entry InvokeError
invoke_in r index params none e = none
invoke_in r index params (some m) e = elim (get_elem? m.functions index) [
  | none ↦ none
  | some f ↦ elim (get_elem? m.types f.ty) [
    | none ↦ none
    | some ty ↦ invoke_func r index params f ty.params e
  ]
]

-- Only an idle engine takes a call.
unfoldable pub invoke : ℕ → ℕ → List Value → Engine → Entry InvokeError
invoke r index params e =
    if not (e.pc.address == 0xFFFFFFFF) || (not (e.sp == 0) || not (e.fp == 0))
    then some (err InvokeError.busy, e)
    else invoke_in r index params (get_elem? e.store.modules r) e

unfoldable pub resumed : Option (Result InterpreterBreak (Unit {0}) × Engine) → Entry ResumeError
resumed none = none
resumed (some (ok u, e)) = some (ok tt, e)
resumed (some (err b, e)) = none

-- `resume` past the `take` of the pending result, which a mismatch puts back.
unfoldable pub resume_with : ResultType → Option Value → Engine → Entry ResumeError
resume_with none none e = some (ok tt, e)
resume_with none (some v) e =
    some (err ResumeError.result_type_mismatch, record e { host_pause_result = some none })
resume_with (some ty) none e =
    some (err ResumeError.result_type_mismatch, record e { host_pause_result = some (some ty) })
resume_with (some ty) (some v) e =
    if same_type ty (type_of v)
    then resumed (push_value v e)
    else some
        (err ResumeError.result_type_mismatch, record e { host_pause_result = some (some ty) })

unfoldable pub resume : Option Value → Engine → Entry ResumeError
resume resume_value e = elim e.host_pause_result [
  | none ↦ some (err ResumeError.not_paused, e)
  | some ty ↦ resume_with ty resume_value (record e { host_pause_result = none })
]
