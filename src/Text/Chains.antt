-- ===== src/Text/Chains.antt =====
-- The list of jumps that `CodeBuilder::backpatch` of src/text.rs goes through, and what is there when a block
-- has ended: every jump leads to the end.
pub mod Patched
use spacewasm.Prelude.{
  ℕ, zero, suc, ◌+◌, ◌-◌, ◌*◌, ◌^◌, ◌≤◌, ◌<◌, ◌≡◌, ◌≢◌, ◌⊎◌, inl, inr, refl, sym, subst, ◌∙◌, ap,
  true, false, Option, none, some, List, [], ◌∷◌, length, ltb, ◌==◌, if◌then◌else◌, as_u32, arith,
}
use spacewasm.Errors.{ValidationError, Result, ok, err}
use spacewasm.Text.{
  CodeBuilder, JumpTarget, LabelTarget, JumpOffset, new_offset, add_offset, with_jump, jump, depth,
  arity, is_sentinel, past_limit, backpatch_loop, backpatch, read_32, write_32,
}
use spacewasm.Text.Pages.{word_of}
use spacewasm.Text.Labels.{with_jump-fields, with_jump_small, new_offset-add_offset, IsOffset}
use spacewasm.Text.Patches.{patch_to}
use spacewasm.Text.Writes.{Label, Relabelled, write_32-Relabelled, read_32-Label}

abbrev pub target_of : ℕ → LabelTarget
target_of w = record { word = w }

-- A jump: its address and its label.
abbrev pub Jumps : Type 0
Jumps = List (JumpTarget × ℕ)

-- The labels stand in the code, each with the way to the next, the last one with the sentinel.
abbrev pub Linked : CodeBuilder → Jumps → Type 0
Linked c [] = Unit
Linked c ((a, w) ∷ []) = Label c a.address w × (is_sentinel (target_of w) ≡ true)
Linked c ((a, w) ∷ ((b, v) ∷ rest)) =
    (Label c a.address w
      × (is_sentinel (target_of w) ≡ false)
      × (add_offset a (jump (target_of w)) ≡ b))
    × Linked c ((b, v) ∷ rest)

-- The labels, two words each, do not overlap.
abbrev pub Separate : JumpTarget → Jumps → Type 0
Separate a [] = Unit
Separate a ((b, v) ∷ rest) =
    ((a.address + 2 ≤ b.address) ⊎ (b.address + 2 ≤ a.address)) × Separate a rest

abbrev pub AllSeparate : Jumps → Type 0
AllSeparate [] = Unit
AllSeparate ((a, w) ∷ rest) = Separate a rest × AllSeparate rest

-- The jumps are less than 2 ^ 21 words from their end.
abbrev pub InReach : JumpTarget → Jumps → Type 0
InReach to [] = Unit
InReach to ((a, w) ∷ rest) =
    ((a.address < 2 ^ 31)
      × (w < 2 ^ 32)
      × (to.address < a.address + 2 ^ 21)
      × (a.address ≤ to.address + 2 ^ 21))
    × InReach to rest

-- A label at the address that leads to `to`, with the depth and the arity of the old one.
abbrev pub LeadsTo : CodeBuilder → JumpTarget → JumpTarget → ℕ → Type 0
LeadsTo c to a w =
    (v : ℕ) × (Label c a.address v
      × (add_offset a (jump (target_of v)) ≡ to)
      × (depth (target_of v) ≡ depth (target_of w))
      × (arity (target_of v) ≡ arity (target_of w)))

abbrev pub AllLead : CodeBuilder → JumpTarget → Jumps → Type 0
AllLead c to [] = Unit
AllLead c to ((a, w) ∷ rest) = LeadsTo c to a w × AllLead c to rest

-- An address outside the labels.
abbrev pub Outside : ℕ → Jumps → Type 0
Outside k [] = Unit
Outside k ((a, w) ∷ rest) = ((k ≢ a.address) × (k ≢ a.address + 1)) × Outside k rest

-- Whether the limit on the iterations allows `n`.
abbrev pub Allows : Option ℕ → ℕ → Type 0
Allows none n = Unit
Allows (some most) n = n ≤ most

-- One label patched.
pub patched :
    (c : CodeBuilder) (to a : JumpTarget) (w : ℕ)
    → to.address < 2 ^ 31
    → Label c a.address w
    → a.address < 2 ^ 31
    → w < 2 ^ 32
    → to.address < a.address + 2 ^ 21
    → a.address ≤ to.address + 2 ^ 21
    → (c' : CodeBuilder) × ((patch_to to tt c a (target_of w) ≡ ok (c', tt))
        × LeadsTo c' to a w
        × ((k : ℕ) → k ≢ a.address → k ≢ a.address + 1 → word_of c'.pages k ≡ word_of c.pages k)
        × (c'.options ≡ c.options))
unfolding patch_to
patched c to a w end l low small ahead behind =
    let (o, (e, i, there)) = new_offset-add_offset a to low end ahead behind in
    let fields : (jump (with_jump (target_of w) o) ≡ o)
        × (depth (with_jump (target_of w) o) ≡ depth (target_of w))
        × (arity (with_jump (target_of w) o) ≡ arity (target_of w)) =
      with_jump-fields (target_of w) o small i in
    let (c', (e', r)) =
      write_32-Relabelled c a w (with_jump (target_of w) o).word l
        (with_jump_small (target_of w) o small) (omega (arith, low)) in
    (
      c',
      (
        rw (e, e') refl,
        (
          (with_jump (target_of w) o).word,
          (r.label, ap (add_offset a) fields.0 ∙ there, fields.1, fields.2),
        ),
        r.elsewhere,
        r.options_kept,
      ),
    )

-- Labels that do not overlap have different addresses.
apart_addresses :
    (n m : ℕ) → (n + 2 ≤ m) ⊎ (m + 2 ≤ n) → (m ≢ n) × (m ≢ n + 1) × (m + 1 ≢ n) × (m + 1 ≢ n + 1)
apart_addresses n m (inl h) = (
  λ x. omega (arith, h, x),
  λ x. omega (arith, h, x),
  λ x. omega (arith, h, x),
  λ x. omega (arith, h, x),
)
apart_addresses n m (inr h) = (
  λ x. omega (arith, h, x),
  λ x. omega (arith, h, x),
  λ x. omega (arith, h, x),
  λ x. omega (arith, h, x),
)

-- What a write of a label at `n` leaves.
abbrev pub KeepsOthers : CodeBuilder → ℕ → CodeBuilder → Type 0
KeepsOthers c n c' = (k : ℕ) → k ≢ n → k ≢ n + 1 → word_of c'.pages k ≡ word_of c.pages k

pub Label-apart :
    (c c' : CodeBuilder) (n m w : ℕ)
    → (n + 2 ≤ m) ⊎ (m + 2 ≤ n)
    → KeepsOthers c n c'
    → Label c m w
    → Label c' m w
Label-apart c c' n m w apart keeps l =
    let d : (m ≢ n) × (m ≢ n + 1) × (m + 1 ≢ n) × (m + 1 ≢ n + 1) = apart_addresses n m apart in
    (keeps m d.0 d.1 ∙ l.0, keeps (m + 1) d.2 d.3 ∙ l.1)

pub Linked-apart :
    (c c' : CodeBuilder) (a : JumpTarget) (jumps : Jumps)
    → Separate a jumps
    → KeepsOthers c a.address c'
    → Linked c jumps
    → Linked c' jumps
Linked-apart c c' a [] s keeps l = tt
Linked-apart c c' a ((b, v) ∷ []) s keeps l =
    (Label-apart c c' a.address b.address v s.0 keeps l.0, l.1)
Linked-apart c c' a ((b, v) ∷ (d, u) ∷ rest) s keeps l = (
  (Label-apart c c' a.address b.address v s.0 keeps l.0.0, l.0.1, l.0.2),
  Linked-apart c c' a ((d, u) ∷ rest) s.1 keeps l.1,
)

pub Outside-Separate :
    (a : JumpTarget) (jumps : Jumps)
    → Separate a jumps
    → Outside a.address jumps × Outside (a.address + 1) jumps
Outside-Separate a [] s = (tt, tt)
Outside-Separate a ((b, v) ∷ rest) s =
    let d : (a.address ≢ b.address)
        × (a.address ≢ b.address + 1)
        × (a.address + 1 ≢ b.address)
        × (a.address + 1 ≢ b.address + 1) =
      apart_addresses b.address a.address (swap s.0) in
    let r : Outside a.address rest × Outside (a.address + 1) rest = Outside-Separate a rest s.1 in
    (((d.0, d.1), r.0), ((d.2, d.3), r.1))
  where
    swap : {A B : Type 0} → A ⊎ B → B ⊎ A
    swap (inl x) = inr x
    swap (inr y) = inl y

-- The code when all jumps are patched: all lead to the end, and the rest is as it was.
pub record Ended (c : CodeBuilder) (to : JumpTarget) (jumps : Jumps) (c' : CodeBuilder)
    : Type 0 where
  pub lead : AllLead c' to jumps
  pub elsewhere : (k : ℕ) → Outside k jumps → word_of c'.pages k ≡ word_of c.pages k

-- The counter wraps, and then it is only further from the limit.
pub allowed :
    (limit : Option ℕ) (n k : ℕ)
    → Allows limit (n + suc k)
    → (past_limit limit (as_u32 (suc n)) ≡ false) × Allows limit (as_u32 (suc n) + k)
allowed none n k h = (refl, tt)
allowed (some most) n k h = (ground arith, omega (arith, h))

pub LeadsTo-kept :
    (c c' : CodeBuilder) (to a : JumpTarget) (w : ℕ) (jumps : Jumps)
    → ((k : ℕ) → Outside k jumps → word_of c'.pages k ≡ word_of c.pages k)
    → Outside a.address jumps × Outside (a.address + 1) jumps
    → LeadsTo c to a w
    → LeadsTo c' to a w
LeadsTo-kept c c' to a w jumps keeps o (v, (l, there, d, r)) =
    (v, ((keeps a.address o.0 ∙ l.0, keeps (a.address + 1) o.1 ∙ l.1), there, d, r))
