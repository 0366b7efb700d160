-- ===== src/StaticVec.antt =====
-- The fixed-capacity vector of src/util/static_vec.rs: N slots, of which the first `len` are
-- initialized. A slot that is not is `none`.
pub mod Ends
use spacewasm.Prelude.{
  ℕ, zero, suc, ◌+◌, ◌-◌, Bool, Option, none, some, List, [], ◌∷◌, ltb, leb, ◌==◌, if◌then◌else◌,
  length, get_or, set, replicate,
}
use spacewasm.Errors.{AllocError, Result, ok, err}

pub record StaticVec {ℓ} (A : Type ℓ) : Type ℓ where
  pub slots : List (Option A)
  pub len : ℕ

module _ {ℓ} {A : Type ℓ} where
  -- `default` and `new`
  pub new : ℕ → StaticVec A
  new n = record { slots = replicate n none; len = 0 }

  pub push : StaticVec A → A → Result AllocError (StaticVec A)
  push v value =
      if leb (length v.slots) v.len
      then err AllocError.out_of_memory
      else ok (record { slots = set v.slots v.len (some value); len = v.len + 1 })

  pub pop : StaticVec A → Option A × StaticVec A
  pop v = if v.len == 0 then (none, v) else (
    get_or v.slots (v.len - 1) none,
    record { slots = set v.slots (v.len - 1) none; len = v.len - 1 },
  )

  -- The discarded suffix is dropped, from `i` on.
  pub drop_from : ℕ → ℕ → List (Option A) → List (Option A)
  drop_from zero i slots = slots
  drop_from (suc count) i slots = drop_from count (i + 1) (set slots i none)

  -- `none` is the failed `assert!`.
  pub truncate : StaticVec A → ℕ → Option (StaticVec A)
  truncate v new_len =
      if leb new_len v.len
      then some (record { slots = drop_from (v.len - new_len) new_len v.slots; len = new_len })
      else none

  -- An element of the slice that the vector derefs to.
  pub get : StaticVec A → ℕ → Option A
  get v i = if ltb i v.len then get_or v.slots i none else none
