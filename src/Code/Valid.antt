-- ===== src/Code/Valid.antt =====
-- The decoder of src/code.rs, whatever it reads, keeps the invariant of the two stacks of the builder.
use spacewasm.Prelude.{ℕ, zero, suc, subst, inl, inr, Option, Option-cases, none, some, ◌++◌}
use spacewasm.Reader.Leb.{read_u32}
use spacewasm.Text.Builder
use spacewasm.Text.Builder.Keeps.{Keeps}
use spacewasm.Text.Operands.Valid.{IsValid, Keeps-validate}
use spacewasm.Compiler.Control.{br_table_branch}
use spacewasm.Compiler.Valid.{
  Keeps-instruction, Keeps-instruction_ext, Keeps-instruction_mem, Keeps-drop, Keeps-select,
  Keeps-nop, Keeps-i32_const, Keeps-i64_const, Keeps-f32_const, Keeps-f64_const, Keeps-memory_size,
  Keeps-memory_grow, Keeps-unreachable, Keeps-enter_block, Keeps-exit_block, Keeps-finish,
  Keeps-loop_, Keeps-if_, Keeps-else_, Keeps-br, Keeps-br_if, Keeps-br_table_start,
}
use spacewasm.Compiler.Valid.Handlers.{
  Keeps-br_table_branch, Keeps-br_table_finish, Keeps-return_, Keeps-call, Keeps-call_indirect,
  Keeps-local_get, Keeps-local_set, Keeps-local_tee, Keeps-global_get, Keeps-global_set,
}
use spacewasm.Code.{M, ◌>>◌, read, visit, lookup}
use spacewasm.Code.Tables.{
  control_handlers, integer_handlers, float_handlers, conversion_handlers, fc_handlers,
  index_handlers, memory_handlers,
}
use spacewasm.Code.Read.{
  read_mem_arg, read_targets, read_br_table, read_call_indirect, operand_handlers, plain_handlers,
  read_extended, read_other, read_operand, read_memory, read_index, read_simple, read_end,
  read_instruction, go_on, read_code_loop, read_code,
}
use spacewasm.Code.Preserves.{
  Preserves, Each, Each-append, Found, lookup-Each, reading_rules, Preserves-bind, Preserves-then,
  Preserves-read, Preserves-visit,
}

Each-control : Each (Keeps IsValid) control_handlers
Each-control =
    search (Keeps-unreachable, Keeps-nop, Keeps-else_, Keeps-return_, Keeps-drop, Keeps-select)

Each-integer : Each (Keeps IsValid) integer_handlers
Each-integer = search Keeps-instruction depth 100

Each-float : Each (Keeps IsValid) float_handlers
Each-float = search Keeps-instruction depth 100

Each-conversion : Each (Keeps IsValid) conversion_handlers
Each-conversion = search (Keeps-instruction, Keeps-validate) depth 100

Each-fc : Each (Keeps IsValid) fc_handlers
Each-fc = search Keeps-instruction_ext depth 100

abbrev KeepsFrom {ℓ} : {A : Type ℓ} → (A → Builder.M (Unit {0})) → Type ℓ
KeepsFrom {A} h = (a : A) → Keeps IsValid (h a)

Each-index : Each KeepsFrom index_handlers
Each-index =
    search
      (
        Keeps-br, Keeps-br_if, Keeps-call, Keeps-local_get, Keeps-local_set, Keeps-local_tee,
        Keeps-global_get, Keeps-global_set,
      )
      depth 20

Each-memory : Each KeepsFrom memory_handlers
Each-memory = search Keeps-instruction_mem depth 100

Each-plain : Each (Keeps IsValid) plain_handlers
Each-plain =
    Each-append (Keeps IsValid) control_handlers
      (integer_handlers ++ (float_handlers ++ conversion_handlers)) Each-control
      (Each-append (Keeps IsValid) integer_handlers (float_handlers ++ conversion_handlers)
        Each-integer
        (Each-append (Keeps IsValid) float_handlers conversion_handlers Each-float Each-conversion))

Preserves-read_mem_arg : Preserves IsValid read_mem_arg
unfolding read_mem_arg
Preserves-read_mem_arg = search reading_rules

Preserves-read_targets : (n : ℕ) → Preserves IsValid (read_targets n)
unfolding read_targets
Preserves-read_targets zero = search reading_rules
Preserves-read_targets (suc n) =
    Preserves-bind (read read_u32) (λ l. visit (br_table_branch l) >> read_targets n)
      (Preserves-read read_u32)
      λ l.
        Preserves-then (visit (br_table_branch l)) (read_targets n)
          (Preserves-visit (br_table_branch l) (Keeps-br_table_branch l)) (Preserves-read_targets n)

Preserves-read_br_table : Preserves IsValid read_br_table
unfolding read_br_table
Preserves-read_br_table =
    search (reading_rules, Keeps-br_table_start, Keeps-br_table_finish, Preserves-read_targets)
      depth 12

Preserves-read_call_indirect : Preserves IsValid read_call_indirect
unfolding read_call_indirect
Preserves-read_call_indirect = search (reading_rules, Keeps-call_indirect)

Each-operand : Each (Preserves IsValid) operand_handlers
Each-operand =
    search
      (
        reading_rules, Preserves-read_br_table, Preserves-read_call_indirect, Keeps-memory_size,
        Keeps-memory_grow, Keeps-i32_const, Keeps-i64_const, Keeps-f32_const, Keeps-f64_const,
      )
      depth 20

Preserves-read_extended : (ext : ℕ) → Preserves IsValid (read_extended ext)
unfolding read_extended
Preserves-read_extended ext = elim (Option-cases (lookup ext fc_handlers)) [
  | inl e ↦ rw (e, read_extended) (search reading_rules)
  | inr (h, e) ↦
      let k : Keeps IsValid h =
        subst (Found (Keeps IsValid)) e (lookup-Each (Keeps IsValid) ext fc_handlers Each-fc) in
      rw (e, read_extended) (search reading_rules)
]

Preserves-read_other : (op : ℕ) → Preserves IsValid (read_other op)
unfolding read_other
Preserves-read_other op = search (reading_rules, Preserves-read_extended)

Preserves-read_operand : (op : ℕ) → Preserves IsValid (read_operand op)
unfolding read_operand
Preserves-read_operand op = elim (Option-cases (lookup op operand_handlers)) [
  | inl e ↦ rw (e, read_operand) (Preserves-read_other op)
  | inr (h, e) ↦
      let k : Preserves IsValid h =
        subst (Found (Preserves IsValid)) e
          (lookup-Each (Preserves IsValid) op operand_handlers Each-operand) in
      rw (e, read_operand) k
]

Preserves-read_memory : (op : ℕ) → Preserves IsValid (read_memory op)
unfolding read_memory
Preserves-read_memory op = elim (Option-cases (lookup op memory_handlers)) [
  | inl e ↦ rw (e, read_memory) (Preserves-read_operand op)
  | inr (h, e) ↦
      let k : KeepsFrom h =
        subst (Found KeepsFrom) e (lookup-Each KeepsFrom op memory_handlers Each-memory) in
      rw (e, read_memory) (search (reading_rules, Preserves-read_mem_arg, k))
]

Preserves-read_index : (op : ℕ) → Preserves IsValid (read_index op)
unfolding read_index
Preserves-read_index op = elim (Option-cases (lookup op index_handlers)) [
  | inl e ↦ rw (e, read_index) (Preserves-read_memory op)
  | inr (h, e) ↦
      let k : KeepsFrom h =
        subst (Found KeepsFrom) e (lookup-Each KeepsFrom op index_handlers Each-index) in
      rw (e, read_index) (search (reading_rules, k))
]

Preserves-read_simple : (op : ℕ) → Preserves IsValid (read_simple op)
unfolding read_simple
Preserves-read_simple op = elim (Option-cases (lookup op plain_handlers)) [
  | inl e ↦ rw (e, read_simple) (Preserves-read_index op)
  | inr (h, e) ↦
      let k : Keeps IsValid h =
        subst (Found (Keeps IsValid)) e
          (lookup-Each (Keeps IsValid) op plain_handlers Each-plain) in
      rw (e, read_simple) (search reading_rules)
]

Preserves-read_end : (block_depth : ℕ) → Preserves IsValid (read_end block_depth)
unfolding read_end
Preserves-read_end zero = search (reading_rules, Keeps-finish)
Preserves-read_end (suc block_depth) = search (reading_rules, Keeps-exit_block)

Preserves-read_instruction :
    (op block_depth : ℕ) → Preserves IsValid (read_instruction op block_depth)
unfolding read_instruction
Preserves-read_instruction op block_depth =
    search
      (
        reading_rules, Preserves-read_end, Preserves-read_simple, Keeps-enter_block, Keeps-loop_,
        Keeps-if_,
      )
      depth 16

Preserves-go_on :
    (loop : ℕ → M (Unit {0})) (next : Option ℕ)
    → ((d : ℕ) → Preserves IsValid (loop d))
    → Preserves IsValid (go_on loop next)
unfolding go_on
Preserves-go_on loop none k = search reading_rules
Preserves-go_on loop (some d) k = k d

Preserves-read_code_loop :
    (fuel block_depth : ℕ) → Preserves IsValid (read_code_loop fuel block_depth)
unfolding read_code_loop
Preserves-read_code_loop zero block_depth = record { at = λ c r s p. tt }
Preserves-read_code_loop (suc fuel) block_depth =
    search
      (reading_rules, Preserves-read_instruction, Preserves-go_on, Preserves-read_code_loop fuel)
      depth 12

pub read_code-Preserves : (fuel : ℕ) → Preserves IsValid (read_code fuel)
unfolding read_code
read_code-Preserves fuel = Preserves-read_code_loop fuel 0
