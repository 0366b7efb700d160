-- ===== src/Interpreter/Context.antt =====
-- The context of a module in src/interpreter.rs: the engine's module, memory and table, which a call to
-- another module changes and the return restores.
use spacewasm.Prelude.{
  ℕ, ◌+◌, ◌-◌, ◌^◌, ◌<◌, ◌≡◌, inl, inr, refl, sym, Bool-cases, some, List, ◌==◌, ==_iff, arith,
  as_u8,
}
use spacewasm.Errors.{ok}
use spacewasm.Engine.{Engine, TableElement, enter_context, get_memory, get_table}
use spacewasm.Interpreter.{call_impl, call_impl_enter_module, leave_context}

abbrev pub in_context : Engine → ℕ → ℕ → List TableElement → Engine
in_context e r memory table = record e { module_ref = r; memory = memory; table = table }

-- The memory and the table of a module.
pub record Context (e : Engine) (r memory : ℕ) (table : List TableElement) : Type 0 where
  pub memory_found : get_memory e.store r ≡ some memory
  pub table_found : get_table e.store r ≡ some table

pub enter_context-in :
    (r memory : ℕ) (table : List TableElement) (e : Engine)
    → Context e r memory table
    → enter_context r e ≡ some (ok tt, in_context e r memory table)
unfolding enter_context
enter_context-in r memory table e c = rw (c.memory_found, c.table_found) refl

pub in_context_self :
    (e : Engine) (r memory : ℕ) (table : List TableElement)
    → e.module_ref ≡ r
    → Context e r e.memory e.table
    → Context e r memory table
    → in_context e r memory table ≡ e
in_context_self e r memory table p own c =
    let m : memory ≡ e.memory = cc (own.memory_found, c.memory_found) in
    let t : table ≡ e.table = cc (own.table_found, c.table_found) in rw (sym p, m, t) refl

-- The delta of two module numbers leads back from one to the other.
pub delta_back :
    (r current : ℕ)
    → r < 2 ^ 8
    → current < 2 ^ 8
    → as_u8 (r + 2 ^ 8 - as_u8 (r + 2 ^ 8 - current)) ≡ current
delta_back r current a b = omega arith

pub zero_delta :
    (r current : ℕ) → r < 2 ^ 8 → current < 2 ^ 8 → as_u8 (r + 2 ^ 8 - current) ≡ 0 → r ≡ current
zero_delta r current a b h = omega (arith, h)

-- A call enters the context of its module, also when it is the engine's own.
pub call_impl_enter_module-in :
    (r index memory : ℕ) (table : List TableElement) (e : Engine)
    → Context e e.module_ref e.memory e.table
    → Context e r memory table
    → call_impl_enter_module r index e
      ≡ call_impl (as_u8 (r + 2 ^ 8 - e.module_ref)) index (in_context e r memory table)
unfolding call_impl_enter_module
call_impl_enter_module-in r index memory table e own c = elim (Bool-cases (r == e.module_ref)) [
  | inl same ↦
      let p : r ≡ e.module_ref = (==_iff r e.module_ref).0 same in
      let z : as_u8 (r + 2 ^ 8 - e.module_ref) ≡ 0 = omega (arith, p) in
      let own' : Context e r e.memory e.table = record {
        memory_found = rw p own.memory_found;
        table_found = rw p own.table_found;
      } in
      rw (same, z, in_context_self e r memory table (sym p) own' c) refl
  | inr other ↦ rw (other, enter_context-in r memory table e c) refl
]

-- `leave_context` of the delta that the call recorded restores the caller's context.
pub leave_context-in :
    (current memory : ℕ) (table : List TableElement) (e : Engine)
    → e.module_ref < 2 ^ 8
    → current < 2 ^ 8
    → Context e e.module_ref e.memory e.table
    → Context e current memory table
    → leave_context (as_u8 (e.module_ref + 2 ^ 8 - current)) e
      ≡ some (ok tt, in_context e current memory table)
unfolding leave_context
leave_context-in current memory table e a b own c =
    elim (Bool-cases (as_u8 (e.module_ref + 2 ^ 8 - current) == 0)) [
      | inl zero ↦
          let z : as_u8 (e.module_ref + 2 ^ 8 - current) ≡ 0 = (==_iff _ _).0 zero in
          let p : e.module_ref ≡ current = zero_delta e.module_ref current a b z in
          let own' : Context e current e.memory e.table = record {
            memory_found = rw (sym p) own.memory_found;
            table_found = rw (sym p) own.table_found;
          } in
          rw (zero, in_context_self e current memory table p own' c) refl
      | inr other ↦
          rw (other, delta_back e.module_ref current a b)
            (enter_context-in current memory table e c)
    ]
