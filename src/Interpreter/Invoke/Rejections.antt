-- ===== src/Interpreter/Invoke/Rejections.antt =====
-- The errors of `Engine::invoke` and `Engine::resume` in src/interpreter.rs.
use spacewasm.Prelude.{
  ℕ, ◌+◌, ◌≡◌, inl, inr, refl, sym, ◌∙◌, ap, subst, Bool, true, false, Bool-cases, ◌||◌, not,
  Option, none, some, Option-cases, List, [], ◌∷◌, length, get_elem?, ltb, ◌==◌, arith,
}
use spacewasm.Errors.{Result, ok, err}
use spacewasm.Types.{ValType, ResultType}
use spacewasm.Types.Raw.{Value, type_of}
use spacewasm.Stack
use spacewasm.Stack.{Stack, len}
use spacewasm.Engine.{
  Engine, Func, Module, InterpreterBreak, M, after, grow_words, write_u32, write_u64, push_u32,
  push_u64, required_stack_words,
}
use spacewasm.Interpreter.Host.{push_value, same_type, param_size}
use spacewasm.Interpreter.Invoke.{
  InvokeError, ResumeError, Entry, push_params, start, expected, after_params, invoke_func,
  invoke_in, invoke, resumed, resume_with, resume,
}

-- `resume`, by its answer: an error is no change of the engine.
Kept : Engine → Entry ResumeError → Type 0
Kept e none = Unit
Kept e (some (ok u, e')) = Unit
Kept e (some (err x, e')) = e' ≡ e

resumed-Kept :
    (e : Engine) (r : Option (Result InterpreterBreak (Unit {0}) × Engine)) → Kept e (resumed r)
unfolding resumed Kept
resumed-Kept e none = tt
resumed-Kept e (some (ok u, e')) = tt
resumed-Kept e (some (err b, e')) = tt

put_back :
    (e : Engine) (ty : ResultType)
    → e.host_pause_result ≡ some ty
    → record e { host_pause_result = some ty } ≡ e
put_back e ty h = rw (sym h) refl

resume_with-Kept :
    (e : Engine) (ty : ResultType) (v : Option Value)
    → e.host_pause_result ≡ some ty
    → Kept e (resume_with ty v (record e { host_pause_result = none }))
unfolding resume_with Kept
resume_with-Kept e none none h = tt
resume_with-Kept e none (some v) h = put_back e none h
resume_with-Kept e (some ty) none h = put_back e (some ty) h
resume_with-Kept e (some ty) (some v) h = elim (Bool-cases (same_type ty (type_of v))) [
  | inl t ↦ rw t (resumed-Kept e (push_value v (record e { host_pause_result = none })))
  | inr f ↦ rw f (put_back e (some ty) h)
]

resume-paused :
    (v : Option Value) (e : Engine) (ty : ResultType)
    → e.host_pause_result ≡ some ty
    → resume v e ≡ resume_with ty v (record e { host_pause_result = none })
unfolding resume
resume-paused v e ty s = rw s refl

resume-running :
    (v : Option Value) (e : Engine)
    → e.host_pause_result ≡ none
    → resume v e ≡ some (err ResumeError.not_paused, e)
unfolding resume
resume-running v e n =
    ap
      (λ p. elim p [
        | none ↦ some (err ResumeError.not_paused, e)
        | some ty ↦ resume_with ty v (record e { host_pause_result = none })
      ])
      n

resume-Kept : (v : Option Value) (e : Engine) → Kept e (resume v e)
unfolding Kept
resume-Kept v e = elim (Option-cases e.host_pause_result) [
  | inl n ↦ subst (Kept e) (sym (resume-running v e n)) refl
  | inr (ty, s) ↦ subst (Kept e) (sym (resume-paused v e ty s)) (resume_with-Kept e ty v s)
]

-- A `resume` that answers an error leaves the engine as it was: a pending pause stays pending.
pub resume_err :
    (v : Option Value) (e e' : Engine) (x : ResumeError) → resume v e ≡ some (err x, e') → e' ≡ e
unfolding Kept
resume_err v e e' x q = subst (Kept e) q (resume-Kept v e)

-- What pushing a value leaves alone.
record Beside (e e' : Engine) : Type 0 where
  same_pc : e'.pc ≡ e.pc
  same_fp : e'.fp ≡ e.fp
  same_store : e'.store ≡ e.store
  same_module : e'.module_ref ≡ e.module_ref
  same_pause : e'.host_pause_result ≡ e.host_pause_result

abbrev Pushes {ℓ} : {A : Type ℓ} → Engine → Option (Result InterpreterBreak A × Engine) → Type 0
Pushes e none = Unit
Pushes e (some (ok u, e')) = Beside e e'
Pushes e (some (err b, e')) = ⊥

push_u32-Pushes : (v : ℕ) (e : Engine) → Pushes e (push_u32 v e)
unfolding push_u32 write_u32 grow_words
push_u32-Pushes v e = elim (Option-cases (Stack.write_u32 e.stack e.sp v)) [
  | inl n ↦ rw n tt
  | inr (s, q) ↦ rw q (record {
    same_pc = refl;
    same_fp = refl;
    same_store = refl;
    same_module = refl;
    same_pause = refl;
  })
]

push_u64-Pushes : (v : ℕ) (e : Engine) → Pushes e (push_u64 v e)
unfolding push_u64 write_u64 grow_words
push_u64-Pushes v e = elim (Option-cases (Stack.write_u64 e.stack e.sp v)) [
  | inl n ↦ rw n tt
  | inr (s, q) ↦ rw q (record {
    same_pc = refl;
    same_fp = refl;
    same_store = refl;
    same_module = refl;
    same_pause = refl;
  })
]

push_value-Pushes : (v : Value) (e : Engine) → Pushes e (push_value v e)
unfolding push_value
push_value-Pushes (Value.i32 v) e = push_u32-Pushes v e
push_value-Pushes (Value.i64 v) e = push_u64-Pushes v e
push_value-Pushes (Value.f32 v) e = push_u32-Pushes v e
push_value-Pushes (Value.f64 v) e = push_u64-Pushes v e

Beside-trans : (a b c : Engine) → Beside a b → Beside b c → Beside a c
Beside-trans a b c p q = record {
  same_pc = q.same_pc ∙ p.same_pc;
  same_fp = q.same_fp ∙ p.same_fp;
  same_store = q.same_store ∙ p.same_store;
  same_module = q.same_module ∙ p.same_module;
  same_pause = q.same_pause ∙ p.same_pause;
}

Beside-refl : (e : Engine) → Beside e e
Beside-refl e = record {
  same_pc = refl;
  same_fp = refl;
  same_store = refl;
  same_module = refl;
  same_pause = refl;
}

Pushes-trans :
    {A : Type 0} (a b : Engine) (r : Option (Result InterpreterBreak A × Engine))
    → Beside a b
    → Pushes b r
    → Pushes a r
Pushes-trans a b none p q = tt
Pushes-trans a b (some (ok u, c)) p q = Beside-trans a b c p q
Pushes-trans a b (some (err x, c)) p q = q

after-Pushes :
    (e : Engine) (r : Option (Result InterpreterBreak (Unit {0}) × Engine)) (k : M Bool)
    → Pushes e r
    → ((e' : Engine) → Pushes e' (k e'))
    → Pushes e (after (λ u. k) r)
after-Pushes e none k p h = tt
after-Pushes e (some (ok u, e')) k p h = Pushes-trans e e' (k e') p (h e')
after-Pushes e (some (err b, e')) k p h = p

push_params-Pushes :
    (vs : List Value) (tys : List ValType) (e : Engine) → Pushes e (push_params vs tys e)
unfolding push_params
push_params-Pushes [] tys e = Beside-refl e
push_params-Pushes (v ∷ vs) [] e = Beside-refl e
push_params-Pushes (v ∷ vs) (ty ∷ tys) e = elim (Bool-cases (same_type (type_of v) ty)) [
  | inl t ↦ rw t (
      after-Pushes e (push_value v e) (push_params vs tys) (push_value-Pushes v e)
        (push_params-Pushes vs tys))
  | inr f ↦ rw f (Beside-refl e)
]

-- `invoke`, by its answer: after an error the engine runs what it ran before.
abbrev Refused : Engine → Entry InvokeError → Type 0
Refused e none = Unit
Refused e (some (ok u, e')) = Unit
Refused e (some (err x, e')) = Beside e e' × (e'.sp ≡ e.sp)

expected-Refused :
    (e : Engine) (r : Option (Result InterpreterBreak (Unit {0}) × Engine)) → Refused e (expected r)
unfolding expected
expected-Refused e none = tt
expected-Refused e (some (ok u, e')) = tt
expected-Refused e (some (err b, e')) = tt

after_params-Refused :
    (e : Engine) (r index : ℕ) (p : Option (Result InterpreterBreak Bool × Engine))
    → e.sp ≡ 0
    → Pushes e p
    → Refused e (after_params r index p)
unfolding after_params
after_params-Refused e r index none z h = tt
after_params-Refused e r index (some (err b, e')) z h = tt
after_params-Refused e r index (some (ok true, e')) z h = expected-Refused e (start r index e')
after_params-Refused e r index (some (ok false, e')) z h = (
  record {
    same_pc = h.same_pc;
    same_fp = h.same_fp;
    same_store = h.same_store;
    same_module = h.same_module;
    same_pause = h.same_pause;
  },
  sym z,
)

invoke_func-Refused :
    (r index : ℕ) (vs : List Value) (f : Func) (tys : List ValType) (e : Engine)
    → e.sp ≡ 0
    → Refused e (invoke_func r index vs f tys e)
unfolding invoke_func
invoke_func-Refused r index vs f tys e z = elim (Bool-cases (length tys == length vs)) [
  | inl t ↦ elim (Bool-cases (ltb (len e.stack) (param_size tys + required_stack_words f))) [
    | inl o ↦ rw (t, o) (Beside-refl e, refl)
    | inr n ↦
        rw (t, n)
          (after_params-Refused e r index (push_params vs tys e) z (push_params-Pushes vs tys e))
  ]
  | inr n ↦ rw n (Beside-refl e, refl)
]

invoke_in-Refused :
    (r index : ℕ) (vs : List Value) (m : Option Module) (e : Engine)
    → e.sp ≡ 0
    → Refused e (invoke_in r index vs m e)
unfolding invoke_in
invoke_in-Refused r index vs none e z = tt
invoke_in-Refused r index vs (some m) e z = elim (Option-cases (get_elem? m.functions index)) [
  | inl n ↦ rw (n, invoke_in) tt
  | inr (f, s) ↦ elim (Option-cases (get_elem? m.types f.ty)) [
    | inl n ↦ rw (s, n, invoke_in) tt
    | inr (ty, t) ↦ rw (s, t, invoke_in) (invoke_func-Refused r index vs f ty.params e z)
  ]
]

invoke-Refused : (r index : ℕ) (vs : List Value) (e : Engine) → Refused e (invoke r index vs e)
unfolding invoke
invoke-Refused r index vs e =
    elim (Bool-cases (not (e.pc.address == 0xFFFFFFFF) || (not (e.sp == 0) || not (e.fp == 0)))) [
      | inl t ↦ rw t (Beside-refl e, refl)
      | inr n ↦ rw n (invoke_in-Refused r index vs (get_elem? e.store.modules r) e (ground arith))
    ]

-- An `invoke` that answers an error leaves the engine as ready as before: the program counter, the stack
-- pointer, the frame pointer, the module, the store and a pending pause are as they were. The words of the stack may
-- be others: parameters before one of the wrong type were pushed.
pub invoke_err :
    (r index : ℕ) (vs : List Value) (e e' : Engine) (x : InvokeError)
    → invoke r index vs e ≡ some (err x, e')
    → (e'.pc ≡ e.pc)
      × (e'.sp ≡ e.sp)
      × (e'.fp ≡ e.fp)
      × (e'.module_ref ≡ e.module_ref)
      × (e'.store ≡ e.store)
      × (e'.host_pause_result ≡ e.host_pause_result)
invoke_err r index vs e e' x q =
    let (b, s) = subst (Refused e) q (invoke-Refused r index vs e) in
    (b.same_pc, s, b.same_fp, b.same_module, b.same_store, b.same_pause)
