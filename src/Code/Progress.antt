-- ===== src/Code/Progress.antt =====
-- The operations of the decoder in src/code.rs move the reader forwards only, under the same limit.
use spacewasm.Prelude.{
  ℕ, zero, suc, refl, subst, inl, inr, Bool, true, false, Option, none, some, Option-cases,
  if◌then◌else◌, arith,
}
use spacewasm.Errors.{ValidationError, Result, ok, err}
use spacewasm.Types.{read_result_type, lift}
use spacewasm.Reader
use spacewasm.Reader.{Reader, read_u8}
use spacewasm.Reader.Moves.{
  Moves, Later, Later_trans, Moves-read_u8, Moves-expect_u8, moves_rules, Moves-pure, Moves-fail,
}
use spacewasm.Reader.Leb.{read_u32}
use spacewasm.Reader.Leb.Progress.{
  Moves-read_u32, Moves-read_i32, Moves-read_i64, Moves-read_f32_bits, Moves-read_f64_bits,
}
use spacewasm.Text.Builder
use spacewasm.Text.Builder.{TextBuilder, Scope}
use spacewasm.Compiler.Control.{br_table_branch}
use spacewasm.Code.{
  M, pure, fail, ◌>>=◌, ◌>>◌, after, read, read_result, visit, visit_result, lookup,
}
use spacewasm.Code.Tables.{fc_handlers, index_handlers, memory_handlers}
use spacewasm.Code.Read.{
  read_mem_arg, read_targets, read_br_table, read_call_indirect, operand_handlers, plain_handlers,
  read_extended, read_other, read_operand, read_memory, read_index, read_simple, read_end,
  read_instruction,
}
use spacewasm.Code.Preserves.{Each, Found, lookup-Each}

-- An outcome whose reader is not before the first one.
abbrev pub LaterRead {ℓ} :
    {A : Type ℓ} → Reader → Option (Result ValidationError (A × TextBuilder) × Reader) → Type 0
LaterRead r none = Unit
LaterRead r (some (x, r')) = Later r r'

pub record Advances {ℓ} {A : Type ℓ} (m : M A) : Type ℓ where
  pub at : (c : Scope) (r : Reader) (s : TextBuilder) → LaterRead r (m c r s)

Later_refl : (r : Reader) → Later r r
Later_refl r = (omega arith, refl)

module _ {ℓ} {A : Type ℓ} where
  LaterRead_trans :
      (r r' : Reader) (x : Option (Result ValidationError (A × TextBuilder) × Reader))
      → Later r r'
      → LaterRead r' x
      → LaterRead r x
  LaterRead_trans r r' none h k = tt
  LaterRead_trans r r' (some (x, r'')) h k = Later_trans r r' r'' h k

  Advances-pure : (a : A) → Advances (pure a)
  Advances-pure a = record { at = λ c r s. Later_refl r }

  Advances-fail : (e : ValidationError) → Advances (fail {A = A} e)
  Advances-fail e = record { at = λ c r s. Later_refl r }

  Advances-if : (b : Bool) (m n : M A) → Advances m → Advances n → Advances (if b then m else n)
  Advances-if true m n h k = h
  Advances-if false m n h k = k

  read_result-Later :
      (r : Reader) (s : TextBuilder) (x : Result ValidationError A × Reader)
      → Later r x.1
      → LaterRead r (read_result s x)
  read_result-Later r s (ok a, r') h = h
  read_result-Later r s (err e, r') h = h

  Advances-read : (m : Reader.M A) → Moves m → Advances (read m)
  Advances-read m h = record { at = λ c r s. read_result-Later r s (m r) (h.at r) }

  visit_result-Later :
      (r : Reader) (x : Option (Result ValidationError (A × TextBuilder)))
      → LaterRead r (visit_result r x)
  visit_result-Later r none = tt
  visit_result-Later r (some x) = Later_refl r

  Advances-visit : (m : Builder.M A) → Advances (visit m)
  Advances-visit m = record { at = λ c r s. visit_result-Later r (m c s) }

module _ {ℓ κ} {A : Type ℓ} {B : Type κ} where
  after-Later :
      (f : A → M B) (c : Scope) (r : Reader)
      (x : Option (Result ValidationError (A × TextBuilder) × Reader))
      → ((a : A) → Advances (f a))
      → LaterRead r x
      → LaterRead r (after f c x)
  after-Later f c r none k h = tt
  after-Later f c r (some (err e, r')) k h = h
  after-Later f c r (some (ok (a, s), r')) k h =
      LaterRead_trans r r' (f a c r' s) h ((k a).at c r' s)

  Advances-bind :
      (m : M A) (f : A → M B) → Advances m → ((a : A) → Advances (f a)) → Advances (m >>= f)
  Advances-bind m f h k = record { at = λ c r s. after-Later f c r (m c r s) k (h.at c r s) }

  Advances-then : (m : M A) (n : M B) → Advances m → Advances n → Advances (m >> n)
  Advances-then m n h k = Advances-bind m (λ _. n) h (λ _. k)

Moves-lift : {A : Type 0} (x : Result ValidationError A) → Moves (lift x)
Moves-lift (ok a) = Moves-pure a
Moves-lift (err e) = Moves-fail e

Moves-read_result_type : Moves read_result_type
unfolding read_result_type
Moves-read_result_type = search (moves_rules, Moves-lift)

ruleset advances_rules = (
  Advances-bind, Advances-then, Advances-pure, Advances-fail, Advances-if, Advances-read,
  Advances-visit, Moves-read_u8, Moves-expect_u8, Moves-read_u32, Moves-read_i32, Moves-read_i64,
  Moves-read_f32_bits, Moves-read_f64_bits, Moves-read_result_type,
)

Advances-read_mem_arg : Advances read_mem_arg
unfolding read_mem_arg
Advances-read_mem_arg = search advances_rules

Advances-read_targets : (n : ℕ) → Advances (read_targets n)
unfolding read_targets
Advances-read_targets zero = Advances-pure tt
Advances-read_targets (suc n) =
    Advances-bind (read read_u32) (λ l. visit (br_table_branch l) >> read_targets n)
      (Advances-read read_u32 Moves-read_u32)
      λ l.
        Advances-then (visit (br_table_branch l)) (read_targets n)
          (Advances-visit (br_table_branch l)) (Advances-read_targets n)

Advances-read_br_table : Advances read_br_table
unfolding read_br_table
Advances-read_br_table = search (advances_rules, Advances-read_targets) depth 12

Advances-read_call_indirect : Advances read_call_indirect
unfolding read_call_indirect
Advances-read_call_indirect = search advances_rules

Each-operand : Each Advances operand_handlers
Each-operand = search (advances_rules, Advances-read_br_table, Advances-read_call_indirect) depth 20

Advances-read_extended : (ext : ℕ) → Advances (read_extended ext)
unfolding read_extended
Advances-read_extended ext = elim (Option-cases (lookup ext fc_handlers)) [
  | inl e ↦ rw (e, read_extended) (search advances_rules)
  | inr (h, e) ↦ rw (e, read_extended) (search advances_rules)
]

Advances-read_other : (op : ℕ) → Advances (read_other op)
unfolding read_other
Advances-read_other op = search (advances_rules, Advances-read_extended)

Advances-read_operand : (op : ℕ) → Advances (read_operand op)
unfolding read_operand
Advances-read_operand op = elim (Option-cases (lookup op operand_handlers)) [
  | inl e ↦ rw (e, read_operand) (Advances-read_other op)
  | inr (h, e) ↦
      let k : Advances h =
        subst (Found Advances) e (lookup-Each Advances op operand_handlers Each-operand) in
      rw (e, read_operand) k
]

Advances-read_memory : (op : ℕ) → Advances (read_memory op)
unfolding read_memory
Advances-read_memory op = elim (Option-cases (lookup op memory_handlers)) [
  | inl e ↦ rw (e, read_memory) (Advances-read_operand op)
  | inr (h, e) ↦ rw (e, read_memory) (search (advances_rules, Advances-read_mem_arg))
]

Advances-read_index : (op : ℕ) → Advances (read_index op)
unfolding read_index
Advances-read_index op = elim (Option-cases (lookup op index_handlers)) [
  | inl e ↦ rw (e, read_index) (Advances-read_memory op)
  | inr (h, e) ↦ rw (e, read_index) (search advances_rules)
]

Advances-read_simple : (op : ℕ) → Advances (read_simple op)
unfolding read_simple
Advances-read_simple op = elim (Option-cases (lookup op plain_handlers)) [
  | inl e ↦ rw (e, read_simple) (Advances-read_index op)
  | inr (h, e) ↦ rw (e, read_simple) (search advances_rules)
]

Advances-read_end : (block_depth : ℕ) → Advances (read_end block_depth)
unfolding read_end
Advances-read_end zero = search advances_rules
Advances-read_end (suc block_depth) = search advances_rules

pub Advances-read_instruction : (op block_depth : ℕ) → Advances (read_instruction op block_depth)
unfolding read_instruction
Advances-read_instruction op block_depth =
    search (advances_rules, Advances-read_end, Advances-read_simple) depth 16
