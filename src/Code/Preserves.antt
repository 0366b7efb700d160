-- ===== src/Code/Preserves.antt =====
-- Conditions on the builder that operations of src/code.rs keep, with one rule for each way to compose
-- operations, and the properties of all handlers of a table.
use spacewasm.Prelude.{
  ℕ, inl, inr, Bool, true, false, Bool-cases, Option, none, some, List, [], ◌∷◌, ◌++◌, ◌==◌,
  if◌then◌else◌,
}
use spacewasm.Errors.{ValidationError, Result, ok, err}
use spacewasm.Reader
use spacewasm.Reader.{Reader}
use spacewasm.Text.Builder
use spacewasm.Text.Builder.{TextBuilder, Scope}
use spacewasm.Text.Builder.Keeps.{Condition, Kept, Keeps}
use spacewasm.Code.{
  M, pure, fail, ◌>>=◌, ◌>>◌, after, read, read_result, visit, visit_result, lookup,
}

-- An outcome that, where it is a builder, satisfies the condition.
abbrev pub KeptRead {ℓ} :
    {A : Type ℓ}
    → Condition
    → Scope
    → Option (Result ValidationError (A × TextBuilder) × Reader)
    → Type 0
KeptRead P c none = Unit
KeptRead P c (some (err e, r)) = Unit
KeptRead P c (some (ok (a, s), r)) = P c s

-- From builders with `P`, the operation returns none but builders with `P`, whatever it reads.
pub record Preserves {ℓ} {A : Type ℓ} (P : Condition) (m : M A) : Type ℓ where
  pub at : (c : Scope) (r : Reader) (s : TextBuilder) → P c s → KeptRead P c (m c r s)

module _ {ℓ κ} {A : Type ℓ} {B : Type κ} {P : Condition} where
  Kept-after :
      (f : A → M B)
      → ((a : A) → Preserves P (f a))
      → (c : Scope) (x : Option (Result ValidationError (A × TextBuilder) × Reader))
      → KeptRead P c x
      → KeptRead P c (after f c x)
  Kept-after f k c none h = tt
  Kept-after f k c (some (err e, r)) h = tt
  Kept-after f k c (some (ok (a, s), r)) h = (k a).at c r s h

  pub Preserves-bind :
      (m : M A) (f : A → M B)
      → Preserves P m
      → ((a : A) → Preserves P (f a))
      → Preserves P (m >>= f)
  Preserves-bind m f h k = record { at = λ c r s p. Kept-after f k c (m c r s) (h.at c r s p) }

  pub Preserves-then : (m : M A) (n : M B) → Preserves P m → Preserves P n → Preserves P (m >> n)
  Preserves-then m n h k = Preserves-bind m (λ _. n) h (λ _. k)

module _ {ℓ} {A : Type ℓ} where
  Kept-read_result :
      (P : Condition) (c : Scope) (s : TextBuilder) (x : Result ValidationError A × Reader)
      → P c s
      → KeptRead P c (read_result s x)
  Kept-read_result P c s (ok a, r) p = p
  Kept-read_result P c s (err e, r) p = tt

  Kept-visit_result :
      (P : Condition) (c : Scope) (r : Reader)
      (x : Option (Result ValidationError (A × TextBuilder)))
      → Kept P c x
      → KeptRead P c (visit_result r x)
  Kept-visit_result P c r none h = tt
  Kept-visit_result P c r (some (ok (a, s))) h = h
  Kept-visit_result P c r (some (err e)) h = tt

module _ {ℓ} {A : Type ℓ} {P : Condition} where
  pub Preserves-pure : (a : A) → Preserves P (pure a)
  Preserves-pure a = record { at = λ c r s p. p }

  pub Preserves-fail : (e : ValidationError) → Preserves P (fail {A = A} e)
  Preserves-fail e = record { at = λ c r s p. tt }

  pub Preserves-read : (m : Reader.M A) → Preserves P (read m)
  Preserves-read m = record { at = λ c r s p. Kept-read_result P c s (m r) p }

  pub Preserves-visit : (m : Builder.M A) → Keeps P m → Preserves P (visit m)
  Preserves-visit m k = record { at = λ c r s p. Kept-visit_result P c r (m c s) (k.at c s p) }

  pub Preserves-if :
      (b : Bool) (m n : M A) → Preserves P m → Preserves P n → Preserves P (if b then m else n)
  Preserves-if true m n h k = h
  Preserves-if false m n h k = k

pub ruleset reading_rules = (
  Preserves-bind, Preserves-then, Preserves-pure, Preserves-fail, Preserves-read, Preserves-visit,
  Preserves-if,
)

-- All handlers of a table have a property.
abbrev pub Each {ℓ} : {A : Type ℓ} → (A → Type 0) → List (ℕ × A) → Type 0
Each P [] = Unit
Each P ((o, h) ∷ rest) = P h × Each P rest

pub Each-append :
    {A : Type 0} (P : A → Type 0) (xs ys : List (ℕ × A)) → Each P xs → Each P ys → Each P (xs ++ ys)
Each-append P [] ys h k = k
Each-append P ((o, a) ∷ xs) ys h k = (h.0, Each-append P xs ys h.1 k)

-- What is looked up in the table has the property.
abbrev pub Found {ℓ} : {A : Type ℓ} → (A → Type 0) → Option A → Type 0
Found P none = Unit
Found P (some a) = P a

pub lookup-Each :
    {A : Type 0} (P : A → Type 0) (op : ℕ) (table : List (ℕ × A))
    → Each P table
    → Found P (lookup op table)
unfolding lookup
lookup-Each P op [] h = tt
lookup-Each P op ((o, a) ∷ rest) h = elim (Bool-cases (o == op)) [
  | inl t ↦ rw t h.0
  | inr t ↦ rw t (lookup-Each P op rest h.1)
]
