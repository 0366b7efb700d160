-- ===== src/Code/Functions.antt =====
-- `Expr::read` and `Module::read_function_code` of src/code.rs: the body of one function. `new_in` is the
-- allocator's answer for a vector.
use spacewasm.Prelude.{
  ℕ, ◌+◌, ◌-◌, ◌*◌, ◌/◌, ◌||◌, not, Option, none, some, List, [], ◌∷◌, get_elem?, set, ltb, leb,
  ◌==◌, ◌&&◌, if◌then◌else◌, as_u16, as_u32, usize_max,
}
use spacewasm.Errors.{AllocError, ValidationError, Result, ok, err}
use spacewasm.Types.{ValType, val_size, read_val_type}
use spacewasm.Engine.{Module, Func}
use spacewasm.Reader
use spacewasm.Reader.{Reader, ◌>>=◌}
use spacewasm.Reader.Leb.{read_u32}
use spacewasm.Reader.Vectors.{read_vec_in}
use spacewasm.Text
use spacewasm.Text.{CodeBuilder, JumpTarget}
use spacewasm.Text.Builder.{TextBuilder, Scope}
use spacewasm.Text.Operands.{new}
use spacewasm.Code.Read.{read_code}

-- A method that reads; `none` is a panic, or fuel that does not suffice.
abbrev pub F {ℓ} : Type ℓ → Type ℓ
F A = Reader → Option (Result ValidationError A × Reader)

abbrev pub after {ℓ κ} :
    {A : Type ℓ} {B : Type κ}
    → (A → F B)
    → Option (Result ValidationError A × Reader)
    → Option (Result ValidationError B × Reader)
after f none = none
after f (some (ok a, r)) = f a r
after f (some (err e, r)) = some (err e, r)

-- `Reader::with_limit` of a method that may panic.
abbrev pub old_limit {ℓ} :
    {A : Type ℓ}
    → ℕ
    → Option (Result ValidationError A × Reader)
    → Option (Result ValidationError A × Reader)
old_limit limit none = none
old_limit limit (some (x, r)) = some (x, record r { limit = limit })

unfoldable pub with_limit {ℓ} : {A : Type ℓ} → ℕ → F A → F A
with_limit len f r =
    let new_limit = r.full_offset + len in
    if leb new_limit usize_max && leb new_limit r.limit
    then old_limit r.limit (f (record r { limit = new_limit }))
    else some (err ValidationError.malformed_section_size, r)

-- A run of locals of one type.
unfoldable pub read_local_run : Reader.M (ℕ × ValType)
read_local_run = read_u32 >>= λ n. read_val_type >>= λ t.
    if ltb 0xFFFF n then Reader.fail ValidationError.too_many_locals else Reader.pure (n, t)

-- The bytes of the locals, with the checked operations of `usize`.
unfoldable pub total_size : List (ℕ × ValType) → ℕ → Result ValidationError ℕ
total_size [] total = ok total
total_size ((n, ty) ∷ rest) total =
    let v = n * val_size ty in
    if ltb usize_max v || ltb usize_max (total + v)
    then err ValidationError.too_many_locals
    else total_size rest (total + v)

unfoldable pub sized :
    Func → List (ℕ × ValType) → Result ValidationError ℕ → Result ValidationError Func
sized f locals (err e) = err e
sized f locals (ok total) =
    if ltb 0xFFFF (total / 4)
    then err ValidationError.too_many_locals
    else ok (record f { locals = locals; local_size = as_u16 (total / 4) })

unfoldable pub with_locals : Func → List (ℕ × ValType) → Result ValidationError Func
with_locals f locals = sized f locals (total_size locals 0)

-- The entry point, the stack usage and the code after a body.
unfoldable pub expr_of :
    JumpTarget
    → Option (Result ValidationError ((Unit {0}) × TextBuilder) × Reader)
    → Option (Result ValidationError (JumpTarget × ℕ × CodeBuilder) × Reader)
expr_of e none = none
expr_of e (some (err x, r)) = some (err x, r)
expr_of e (some (ok (u, tb), r)) =
    if ltb 0xFFFF tb.stack_highwater
    then some (err ValidationError.stack_too_large, r)
    else some (ok (e, as_u16 tb.stack_highwater, tb.code), r)

-- `Expr::read`
unfoldable pub read_expr : Scope → CodeBuilder → F (JumpTarget × ℕ × CodeBuilder)
read_expr c code r = elim (Text.pc code) [
  | none ↦ none
  | some e ↦ expr_of e (read_code c.fuel c r (new c code))
]

unfoldable pub placeholder : Func → Func
placeholder f = record f { locals = []; expr = record { address = 0 } }

unfoldable pub finish_func : Func → JumpTarget × ℕ × CodeBuilder → F (Func × CodeBuilder)
finish_func f (e, usage, code) r = some (ok (record f { expr = e; stack_usage = usage }, code), r)

unfoldable pub read_expr_of :
    Scope → CodeBuilder → Result ValidationError Func → F (Func × CodeBuilder)
read_expr_of c code (err e) r = some (err e, r)
read_expr_of c code (ok f) r = after (finish_func f) (read_expr (record c { func = f }) code r)

-- The closure of `with_limit`: the locals, then the expression.
unfoldable pub body_after :
    Scope
    → CodeBuilder
    → Func
    → Result ValidationError (List (ℕ × ValType)) × Reader
    → Option (Result ValidationError (Func × CodeBuilder) × Reader)
body_after c code f (err e, r) = some (err e, r)
body_after c code f (ok locals, r) = read_expr_of c code (with_locals f locals) r

unfoldable pub read_body :
    (ℕ → Result AllocError (Unit {0})) → Scope → CodeBuilder → Func → F (Func × CodeBuilder)
read_body new_in c code f r = body_after c code f (read_vec_in new_in read_local_run r)

-- The check on the frame, and the size that the section declares.
unfoldable pub check_frame : ℕ → ℕ → ℕ → Module → Func × CodeBuilder → F (Module × CodeBuilder)
check_frame size start i m (f, code) r =
    if ltb 0xFFFF (2 + f.local_size + f.stack_usage)
    then some (err ValidationError.stack_too_large, r)
    else (if not (as_u32 (r.full_offset - start) == size)
        then some (err ValidationError.malformed_code_size, r)
        else some (ok (record m { functions = set m.functions i f }, code), r))

-- The function number `i` while its body is read: a placeholder stands for it in the module.
unfoldable pub read_sized :
    (ℕ → Result AllocError (Unit {0}))
    → Scope
    → CodeBuilder
    → Module
    → ℕ
    → Func
    → ℕ
    → F (Module × CodeBuilder)
read_sized new_in c code m i f size r =
    let this : Module = record m { functions = set m.functions i (placeholder f) } in
    after (check_frame size r.full_offset i this)
      (with_limit size (read_body new_in (record c { this = this }) code f) r)

unfoldable pub read_after_size :
    (ℕ → Result AllocError (Unit {0}))
    → Scope
    → CodeBuilder
    → Module
    → ℕ
    → Result ValidationError ℕ × Reader
    → Option (Result ValidationError (Module × CodeBuilder) × Reader)
read_after_size new_in c code m i (err e, r) = some (err e, r)
read_after_size new_in c code m i (ok size, r) = elim (get_elem? m.functions i) [
  | none ↦ none
  | some f ↦ read_sized new_in c code m i f size r
]

-- `Module::read_function_code`; the scope brings the store and the capacities.
unfoldable pub read_function_code :
    (ℕ → Result AllocError (Unit {0})) → Scope → CodeBuilder → Module → ℕ → F (Module × CodeBuilder)
read_function_code new_in c code m i r = read_after_size new_in c code m i (read_u32 r)
