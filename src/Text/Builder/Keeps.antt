-- ===== src/Text/Builder/Keeps.antt =====
-- Conditions on the builder that operations of src/text.rs and src/compiler.rs keep, with one rule for each
-- way to compose operations.
use spacewasm.Prelude.{Bool, true, false, Option, none, some, if◌then◌else◌}
use spacewasm.Errors.{ValidationError, Result, ok, err}
use spacewasm.Text.{CodeBuilder}
use spacewasm.Text.Emit.{Boxes}
use spacewasm.Text.Builder.{
  TextBuilder, Scope, M, pure, fail, ◌>>=◌, ◌>>◌, after, gets, asks, modify, or_panic, or_fail,
  lift, with_code, emit,
}

abbrev pub Condition : Type 1
Condition = Scope → TextBuilder → Type 0

-- An outcome that, where it is a builder, satisfies the condition.
abbrev pub Kept {ℓ} :
    {A : Type ℓ} → Condition → Scope → Option (Result ValidationError (A × TextBuilder)) → Type 0
Kept P c none = Unit
Kept P c (some (err e)) = Unit
Kept P c (some (ok (a, s))) = P c s

-- From builders with `P`, the operation returns none but builders with `Q`.
pub record Leads {ℓ} {A : Type ℓ} (P : Condition) (m : M A) (Q : Condition) : Type ℓ where
  pub at : (c : Scope) (s : TextBuilder) → P c s → Kept Q c (m c s)

abbrev pub Keeps {ℓ} : {A : Type ℓ} → Condition → M A → Type ℓ
Keeps P m = Leads P m P

-- The condition does not look at the code nor at the result of a branch table.
abbrev pub IgnoresCode : Condition → Type 0
IgnoresCode P =
    (c : Scope) (s : TextBuilder) (code : CodeBuilder) → P c s → P c (record s { code = code })

module _ {ℓ κ} {A : Type ℓ} {B : Type κ} {Q R : Condition} where
  pub Kept-after :
      (f : A → M B)
      → ((a : A) → Leads Q (f a) R)
      → (c : Scope) (r : Option (Result ValidationError (A × TextBuilder))) → Kept Q c r
      → Kept R c (after f c r)
  Kept-after f k c none h = tt
  Kept-after f k c (some (err e)) h = tt
  Kept-after f k c (some (ok (a, s))) h = (k a).at c s h

module _ {ℓ κ} {A : Type ℓ} {B : Type κ} {P Q R : Condition} where
  pub Leads-bind :
      (m : M A) (f : A → M B) → Leads P m Q → ((a : A) → Leads Q (f a) R) → Leads P (m >>= f) R
  Leads-bind m f h k = record { at = λ c s p. Kept-after f k c (m c s) (h.at c s p) }

  pub Leads-then : (m : M A) (n : M B) → Leads P m Q → Leads Q n R → Leads P (m >> n) R
  Leads-then m n h k = record { at = λ c s p. Kept-after (λ _. n) (λ _. k) c (m c s) (h.at c s p) }

module _ {ℓ κ} {A : Type ℓ} {B : Type κ} {P : Condition} where
  pub Keeps-bind :
      (m : M A) (f : A → M B) → Keeps P m → ((a : A) → Keeps P (f a)) → Keeps P (m >>= f)
  Keeps-bind m f h k = Leads-bind m f h k

  pub Keeps-then : (m : M A) (n : M B) → Keeps P m → Keeps P n → Keeps P (m >> n)
  Keeps-then m n h k = Leads-then m n h k

module _ {ℓ} {A : Type ℓ} {P : Condition} where
  pub Leads-pure : (a : A) → Leads P (pure a) P
  Leads-pure a = record { at = λ c s p. p }

  pub Leads-fail : (e : ValidationError) → Leads P (fail {A = A} e) P
  Leads-fail e = record { at = λ c s p. tt }

  pub Leads-gets : (f : TextBuilder → A) → Leads P (gets f) P
  Leads-gets f = record { at = λ c s p. p }

  pub Leads-asks : (f : Scope → A) → Leads P (asks f) P
  Leads-asks f = record { at = λ c s p. p }

  pub Leads-or_panic : (a : Option A) → Leads P (or_panic a) P
  Leads-or_panic none = record { at = λ c s p. tt }
  Leads-or_panic (some a) = record { at = λ c s p. p }

  pub Leads-or_fail : (e : ValidationError) (a : Option A) → Leads P (or_fail e a) P
  Leads-or_fail e none = record { at = λ c s p. tt }
  Leads-or_fail e (some a) = record { at = λ c s p. p }

  pub Leads-lift : (r : Result ValidationError A) → Leads P (lift r) P
  Leads-lift (ok a) = record { at = λ c s p. p }
  Leads-lift (err e) = record { at = λ c s p. tt }

  pub Leads-if : (b : Bool) (m n : M A) → Leads P m P → Leads P n P → Leads P (if b then m else n) P
  Leads-if true m n h k = h
  Leads-if false m n h k = k

pub Leads-modify :
    {P Q : Condition} (f : TextBuilder → TextBuilder)
    → ((c : Scope) (s : TextBuilder) → P c s → Q c (f s))
    → Leads P (modify f) Q
Leads-modify f h = record { at = h }

Kept-with_code :
    {P : Condition} (c : Scope) (s : TextBuilder) (r : Result ValidationError CodeBuilder)
    → IgnoresCode P
    → P c s
    → Kept P c (with_code (λ _ _. some r) c s)
unfolding with_code
Kept-with_code c s (ok code) free p = free c s code p
Kept-with_code c s (err e) free p = tt

pub Keeps-emit :
    {P : Condition} (f : Boxes → CodeBuilder → Result ValidationError CodeBuilder)
    → IgnoresCode P
    → Keeps P (emit f)
unfolding emit with_code
Keeps-emit f free = record { at = λ c s p. Kept-with_code c s (f c.boxes s.code) free p }

pub ruleset keeps_rules = (
  Keeps-bind, Keeps-then, Leads-pure, Leads-fail, Leads-gets, Leads-asks, Leads-or_panic,
  Leads-or_fail, Leads-lift, Leads-if,
)
