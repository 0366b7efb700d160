-- ===== src/Text/Locals.antt =====
-- `TextBuilder::get_local` of src/text.rs: where the frame keeps a parameter or a local. Indexes are `u16`
-- and wrap, as they do in a build without overflow checks.
use spacewasm.Prelude.{
  ℕ, ◌+◌, ◌-◌, ◌*◌, ◌/◌, ◌^◌, ◌≤◌, ◌<◌, ◌≡◌, refl, ◌∙◌, ap, false, Option, none, some, List, [],
  ◌∷◌, length, ◌++◌, get_elem?, ltb, ◌==◌, if◌then◌else◌, as_u16, arith,
}
use spacewasm.Errors.{ValidationError, Result, ok, err}
use spacewasm.Types.{ValType, val_size, FuncType}
use spacewasm.Engine.{Func}
use spacewasm.Interpreter.Variables.{LocalVariable}

-- The loop over the parameters: `i` is the index and `offset` counts bytes.
unfoldable pub find_param : List ValType → ℕ → ℕ → ℕ → ℕ → Option LocalVariable
find_param [] x i offset parameter_size = none
find_param (ty ∷ tys) x i offset parameter_size =
    if x == as_u16 i
    then some (record { frame_offset = as_u16 (offset / 4 + 2 ^ 16 - parameter_size); ty = ty })
    else find_param tys x (i + 1) (offset + val_size ty) parameter_size

-- The loop over the runs of locals of one type.
unfoldable pub find_local : List (ℕ × ValType) → ℕ → ℕ → ℕ → Result ValidationError LocalVariable
find_local [] x index offset = err ValidationError.local_idx_out_of_range
find_local ((n, ty) ∷ rest) x index offset =
    if ltb x (as_u16 (index + n))
    then (let word_offset = (offset + val_size ty * as_u16 (x + 2 ^ 16 - index)) / 4 in
        if ltb (2 ^ 15 - 1 - 2) word_offset
        then err ValidationError.local_idx_out_of_range
        else ok (record { frame_offset = word_offset + 2; ty = ty }))
    else find_local rest x (as_u16 (index + n)) (offset + n * val_size ty)

unfoldable pub find_variable :
    Option LocalVariable → Func → ℕ → ℕ → Result ValidationError LocalVariable
find_variable (some l) f x index = ok l
find_variable none f x index = find_local f.locals x index 0

unfoldable pub get_local : List FuncType → Func → ℕ → Result ValidationError LocalVariable
get_local types f x =
    if ltb 0xFFFF x
    then err ValidationError.local_idx_out_of_range
    else elim (get_elem? types f.ty) [
      | none ↦ err ValidationError.type_idx_out_of_range
      | some signature ↦
          find_variable (find_param signature.params x 0 0 f.parameter_size) f x
            (as_u16 (length signature.params))
    ]

find_param-beyond :
    (tys : List ValType) (x i offset size : ℕ)
    → i + length tys ≤ x
    → x < 2 ^ 16
    → find_param tys x i offset size ≡ none
unfolding find_param
find_param-beyond [] x i offset size h small = refl
find_param-beyond (ty ∷ tys) x i offset size h small =
    let t : (x == as_u16 i) ≡ false = differs x i (omega (arith, h)) small in
    rw t (find_param-beyond tys x (i + 1) (offset + val_size ty) size (omega (arith, h)) small)
  where
    differs : (x i : ℕ) → i < x → x < 2 ^ 16 → (x == as_u16 i) ≡ false
    differs x i below bound = ground arith

-- The number of locals in runs.
abbrev pub count_locals : List (ℕ × ValType) → ℕ
count_locals [] = 0
count_locals ((n, ty) ∷ rest) = n + count_locals rest

find_local-past :
    (n : ℕ) (ty : ValType) (rest : List (ℕ × ValType)) (x index offset : ℕ)
    → index + n ≤ x
    → x < 2 ^ 16
    → find_local ((n, ty) ∷ rest) x index offset
      ≡ find_local rest x (index + n) (offset + n * val_size ty)
unfolding find_local
find_local-past n ty rest x index offset h small =
    let next : as_u16 (index + n) ≡ index + n = omega (arith, h, small) in
    let t : ltb x (index + n) ≡ false = ground arith in rw (next, t) refl

-- Runs that end before the index are passed over.
find_local-beyond :
    (runs last : List (ℕ × ValType)) (x index offset : ℕ)
    → index + count_locals runs ≤ x
    → x < 2 ^ 16
    → (offset' : ℕ) × (find_local (runs ++ last) x index offset
        ≡ find_local last x (index + count_locals runs) offset')
unfolding find_local
find_local-beyond [] last x index offset h small =
    (offset, ap (λ i. find_local last x i offset) (omega arith))
find_local-beyond ((n, ty) ∷ runs) last x index offset h small =
    let (offset', e) =
      find_local-beyond runs last x (index + n) (offset + n * val_size ty) (omega (arith, h))
        small in
    let same : (index + n) + count_locals runs ≡ index + (n + count_locals runs) = omega arith in
    (
      offset',
      find_local-past n ty (runs ++ last) x index offset (omega (arith, h)) small
          ∙ e
          ∙ ap (λ i. find_local last x i offset') same,
    )

found :
    (types : List FuncType) (f : Func) (x : ℕ) (signature : FuncType)
    → get_elem? types f.ty ≡ some signature
    → x < 2 ^ 16
    → get_local types f x
      ≡ find_variable
          (find_param signature.params x 0 0 f.parameter_size)
          f
          x
          (as_u16 (length signature.params))
unfolding get_local
found types f x signature g small =
    let t : ltb 0xFFFF x ≡ false = ground arith in rw (t, g, get_local) refl

-- A function whose last run of locals, of `n`, starts at or before the index `x` and ends beyond index 65535: where
-- `x` is at or behind the wrapped end of that run, the local `x`, which is declared, is refused as out of range.
pub get_local_wraps :
    (types : List FuncType) (f : Func) (x : ℕ) (signature : FuncType) (runs : List (ℕ × ValType))
    (n : ℕ) (ty : ValType)
    → get_elem? types f.ty ≡ some signature
    → f.locals ≡ runs ++ ((n, ty) ∷ [])
    → n < 2 ^ 16
    → x < 2 ^ 16
    → length signature.params + count_locals runs ≤ x
    → 2 ^ 16 ≤ length signature.params + count_locals runs + n
    → length signature.params + count_locals runs + n ≤ x + 2 ^ 16
    → (x < length signature.params + count_locals f.locals)
      × (get_local types f x ≡ err ValidationError.local_idx_out_of_range)
unfolding find_variable find_local
get_local_wraps types f x signature runs n ty g split small bound start over wrapped =
    let none_of : find_param signature.params x 0 0 f.parameter_size ≡ none =
      find_param-beyond signature.params x 0 0 f.parameter_size (omega (arith, start)) bound in
    let index : as_u16 (length signature.params) ≡ length signature.params =
      omega (arith, start, bound) in
    let (offset, passed) =
      find_local-beyond runs ((n, ty) ∷ []) x (length signature.params) 0 start bound in
    let ended : ltb x (as_u16 (length signature.params + count_locals runs + n)) ≡ false =
      past (length signature.params + count_locals runs) n x small bound start over wrapped in
    (
      rw split (omega (arith, over, bound, count_locals-snoc runs n ty)),
      found types f x signature g bound ∙ rw (none_of, split, index, passed, ended) refl,
    )
  where
    count_locals-snoc :
        (runs : List (ℕ × ValType)) (n : ℕ) (ty : ValType)
        → count_locals (runs ++ ((n, ty) ∷ [])) ≡ count_locals runs + n
    count_locals-snoc [] n ty = omega arith
    count_locals-snoc ((k, t) ∷ runs) n ty = omega (arith, count_locals-snoc runs n ty)

    past :
        (p n x : ℕ)
        → n < 2 ^ 16
        → x < 2 ^ 16
        → p ≤ x
        → 2 ^ 16 ≤ p + n
        → p + n ≤ x + 2 ^ 16
        → ltb x (as_u16 (p + n)) ≡ false
    past p n x small bound params over wrapped = ground arith
