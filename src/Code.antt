-- ===== src/Code.antt =====
-- The decoder of function bodies, src/code.rs: it reads an instruction and passes it to a handler of the
-- compiler. An operation works on the reader and on the builder.
pub mod Tables
pub mod Read
pub mod Functions
pub mod Preserves
pub mod Valid
pub mod Usage
pub mod Progress
pub mod Rounds
use spacewasm.Prelude.{ℕ, List, [], ◌∷◌, Option, none, some, ◌==◌, if◌then◌else◌}
use spacewasm.Errors.{ValidationError, Result, ok, err}
use spacewasm.Reader.{Reader}
use spacewasm.Reader
use spacewasm.Text.Builder.{TextBuilder, Scope}
use spacewasm.Text.Builder

-- An operation on both: its result with the builder, and the reader as it leaves it, on an error too.
abbrev pub M {ℓ} : Type ℓ → Type ℓ
M A = Scope → Reader → TextBuilder → Option (Result ValidationError (A × TextBuilder) × Reader)

abbrev pub pure {ℓ} : {A : Type ℓ} → A → M A
pure a c r s = some (ok (a, s), r)

abbrev pub fail {ℓ} : {A : Type ℓ} → ValidationError → M A
fail e c r s = some (err e, r)

abbrev pub panic {ℓ} : {A : Type ℓ} → M A
panic c r s = none

abbrev pub after {ℓ κ} :
    {A : Type ℓ} {B : Type κ}
    → (A → M B)
    → Scope
    → Option (Result ValidationError (A × TextBuilder) × Reader)
    → Option (Result ValidationError (B × TextBuilder) × Reader)
after f c none = none
after f c (some (ok (a, s), r)) = f a c r s
after f c (some (err e, r)) = some (err e, r)

infixl 5 ◌>>=◌ ◌>>◌
abbrev pub ◌>>=◌ {ℓ κ} : {A : Type ℓ} {B : Type κ} → M A → (A → M B) → M B
◌>>=◌ m f c r s = after f c (m c r s)

abbrev pub ◌>>◌ {ℓ κ} : {A : Type ℓ} {B : Type κ} → M A → M B → M B
m >> k = m >>= λ _. k

abbrev pub read_result {ℓ} :
    {A : Type ℓ}
    → TextBuilder
    → Result ValidationError A × Reader
    → Option (Result ValidationError (A × TextBuilder) × Reader)
read_result s (ok a, r) = some (ok (a, s), r)
read_result s (err e, r) = some (err e, r)

-- A method of the reader.
abbrev pub read {ℓ} : {A : Type ℓ} → Reader.M A → M A
read m c r s = read_result s (m r)

abbrev pub visit_result {ℓ} :
    {A : Type ℓ}
    → Reader
    → Option (Result ValidationError (A × TextBuilder))
    → Option (Result ValidationError (A × TextBuilder) × Reader)
visit_result r none = none
visit_result r (some x) = some (x, r)

-- A handler of the compiler.
abbrev pub visit {ℓ} : {A : Type ℓ} → Builder.M A → M A
visit m c r s = visit_result r (m c s)

-- The case of a `match` on an opcode.
unfoldable pub lookup {ℓ} : {A : Type ℓ} → ℕ → List (ℕ × A) → Option A
lookup op [] = none
lookup op ((o, h) ∷ rest) = let other = lookup op rest in if o == op then some h else other
