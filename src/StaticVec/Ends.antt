-- ===== src/StaticVec/Ends.antt =====
-- What `push`, `pop` and `truncate` of src/util/static_vec.rs do to the elements.
use spacewasm.Prelude.{
  ℕ, zero, suc, ◌+◌, ◌-◌, ◌≤◌, ◌<◌, ◌≡◌, ◌≢◌, refl, ap, ◌∙◌, true, false, Option, none, some, List,
  [], ◌∷◌, ltb, leb, ◌==◌, length, get_or, set, arith,
}
use spacewasm.Errors.{ok}
use spacewasm.StaticVec.{StaticVec, push, pop, drop_from, truncate, get}

room : (len size : ℕ) → len < size → leb size len ≡ false
room len size h = ground arith

not_empty : (len : ℕ) → (len + 1 == 0) ≡ false
not_empty len = ground arith

at_most : (a b : ℕ) → a ≤ b → leb a b ≡ true
at_most a b h = ground arith

below : (a b : ℕ) → a < b → ltb a b ≡ true
below a b h = ground arith

not_below : (a b : ℕ) → b ≤ a → ltb a b ≡ false
not_below a b h = ground arith

module _ {ℓ} {A : Type ℓ} where
  slot_set :
      (xs : List (Option A)) (i : ℕ) (a : Option A) → i < length xs → get_or (set xs i a) i none ≡ a
  slot_set [] i a h = absurd (omega arith)
  slot_set (x ∷ xs) zero a h = refl
  slot_set (x ∷ xs) (suc i) a h = slot_set xs i a (omega arith)

  slot_kept :
      (xs : List (Option A)) (i j : ℕ) (a : Option A)
      → i ≢ j
      → get_or (set xs i a) j none ≡ get_or xs j none
  slot_kept [] i j a h = refl
  slot_kept (x ∷ xs) zero zero a h = absurd (h refl)
  slot_kept (x ∷ xs) zero (suc j) a h = refl
  slot_kept (x ∷ xs) (suc i) zero a h = refl
  slot_kept (x ∷ xs) (suc i) (suc j) a h = slot_kept xs i j a (λ e. h (ap suc e))

  drop_from-below :
      (count from j : ℕ) (xs : List (Option A))
      → j < from
      → get_or (drop_from count from xs) j none ≡ get_or xs j none
  unfolding drop_from
  drop_from-below zero from j xs h = refl
  drop_from-below (suc count) from j xs h =
      drop_from-below count (from + 1) j (set xs from none) (omega arith)
      ∙ slot_kept xs from j none (omega arith)

  -- With room left, `push` succeeds and keeps the other elements, and `pop` then returns the element
  -- pushed and leaves the old length.
  pub push-pop :
      (v : StaticVec A) (x : A) (i : ℕ)
      → v.len < length v.slots
      → i < v.len
      → (v' : StaticVec A) × ((push v x ≡ ok v')
          × (get v' i ≡ get v i)
          × (get v' v.len ≡ some x)
          × ((pop v').0 ≡ some x)
          × ((pop v').1.len ≡ v.len))
  unfolding push pop get
  push-pop v x i fits inside =
      let back : v.len + 1 - 1 ≡ v.len = omega arith in
      (
        record { slots = set v.slots v.len (some x); len = v.len + 1 },
        (
          rw (room v.len (length v.slots) fits) refl,
          rw (below i (v.len + 1) (omega arith), below i v.len inside)
              (slot_kept v.slots v.len i (some x) (omega arith)),
          rw (below v.len (v.len + 1) (omega arith)) (slot_set v.slots v.len (some x) fits),
          rw (not_empty v.len, back) (slot_set v.slots v.len (some x) fits),
          rw (not_empty v.len) back,
        ),
      )

  -- `truncate` keeps the elements below the new length, and no other.
  pub truncate_lem :
      (v : StaticVec A) (n i j : ℕ)
      → n ≤ v.len
      → i < n
      → n ≤ j
      → (v' : StaticVec A) × ((truncate v n ≡ some v')
          × (v'.len ≡ n)
          × (get v' i ≡ get v i)
          × (get v' j ≡ none))
  unfolding truncate get
  truncate_lem v n i j fits inside beyond = (
    record { slots = drop_from (v.len - n) n v.slots; len = n },
    (
      rw (at_most n v.len fits) refl,
      refl,
      rw (below i n inside, below i v.len (omega arith))
          (drop_from-below (v.len - n) n i v.slots inside),
      rw (not_below j n beyond) refl,
    ),
  )
