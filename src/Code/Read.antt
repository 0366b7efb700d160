-- ===== src/Code/Read.antt =====
-- `read_code` of src/code.rs, with the compiler as its visitor.
use spacewasm.Prelude.{
  ℕ, zero, suc, Option, none, some, List, [], ◌∷◌, ◌++◌, ◌==◌, if◌then◌else◌, as_u8,
}
use spacewasm.Errors.{ValidationError}
use spacewasm.Types.{read_result_type}
use spacewasm.Reader.{read_u8, expect_u8}
use spacewasm.Reader.Leb.{read_u32, read_i32, read_i64, read_f32_bits, read_f64_bits}
use spacewasm.Text.Builder
use spacewasm.Opcode
use spacewasm.Compiler.{i32_const, i64_const, f32_const, f64_const}
use spacewasm.Compiler.Control.{
  enter_block, exit_block, finish, loop_, if_, br_table_start, br_table_branch, br_table_finish,
}
use spacewasm.Compiler.Calls.{call_indirect}
use spacewasm.Compiler.Memory.{MemArg, memory_size, memory_grow}
use spacewasm.Code.{M, pure, fail, panic, ◌>>=◌, ◌>>◌, read, visit, lookup}
use spacewasm.Code.Tables.{
  control_handlers, integer_handlers, float_handlers, conversion_handlers, fc_handlers,
  index_handlers, memory_handlers,
}

-- `MemArg::read`
unfoldable pub read_mem_arg : M MemArg
read_mem_arg = do
  align ← read read_u32
  offset ← read read_u32
  pure (record { align = align; offset = offset })

-- The loop over the targets of a branch table.
unfoldable pub read_targets : ℕ → M (Unit {0})
read_targets zero = pure tt
read_targets (suc n) = do l ← read read_u32; visit (br_table_branch l); read_targets n

unfoldable pub read_br_table : M (Unit {0})
read_br_table = do
  len ← read read_u32
  visit (br_table_start len)
  read_targets len
  default_ ← read read_u32
  visit (br_table_finish default_)

unfoldable pub read_call_indirect : M (Unit {0})
read_call_indirect = do x ← read read_u32; read (expect_u8 0); visit (call_indirect x)

-- The instructions with operands of their own.
abbrev pub operand_handlers : List (ℕ × M (Unit {0}))
operand_handlers =
    (Opcode.br_table, read_br_table)
    ∷ (Opcode.call_indirect, read_call_indirect)
    ∷ (Opcode.memory_size, (read (expect_u8 0) >> visit memory_size))
    ∷ (Opcode.memory_grow, (read (expect_u8 0) >> visit memory_grow))
    ∷ (Opcode.i32_const, (read read_i32 >>= λ n. visit (i32_const n)))
    ∷ (Opcode.i64_const, (read read_i64 >>= λ n. visit (i64_const n)))
    ∷ (Opcode.f32_const, (read read_f32_bits >>= λ z. visit (f32_const z)))
    ∷ (Opcode.f64_const, (read read_f64_bits >>= λ z. visit (f64_const z)))
    ∷ []

abbrev pub plain_handlers : List (ℕ × Builder.M (Unit {0}))
plain_handlers = control_handlers ++ (integer_handlers ++ (float_handlers ++ conversion_handlers))

-- The last cases, of the opcodes that no table has.
unfoldable pub read_extended : ℕ → M (Unit {0})
read_extended ext = elim (lookup ext fc_handlers) [
  | some h ↦ visit h
  | none ↦ fail (ValidationError.invalid_fc_opcode (as_u8 ext))
]

unfoldable pub read_other : ℕ → M (Unit {0})
read_other op =
    if op == Opcode.extended_fc
    then (read read_u32 >>= read_extended)
    else fail (ValidationError.invalid_opcode op)

unfoldable pub read_operand : ℕ → M (Unit {0})
read_operand op = elim (lookup op operand_handlers) [ some m ↦ m | none ↦ read_other op ]

unfoldable pub read_memory : ℕ → M (Unit {0})
read_memory op = elim (lookup op memory_handlers) [
  | some h ↦ (read_mem_arg >>= λ m. visit (h m))
  | none ↦ read_operand op
]

unfoldable pub read_index : ℕ → M (Unit {0})
read_index op = elim (lookup op index_handlers) [
  | some h ↦ (read read_u32 >>= λ x. visit (h x))
  | none ↦ read_memory op
]

-- An instruction that opens or ends no block.
unfoldable pub read_simple : ℕ → M (Unit {0})
read_simple op = elim (lookup op plain_handlers) [ some h ↦ visit h | none ↦ read_index op ]

-- `END`: the last one ends the function, and `none` stands for the `return`.
unfoldable pub read_end : ℕ → M (Option ℕ)
read_end zero = visit finish >> pure none
read_end (suc block_depth) = visit exit_block >> pure (some block_depth)

-- One round of the loop: the depth of blocks after it.
unfoldable pub read_instruction : ℕ → ℕ → M (Option ℕ)
read_instruction op block_depth =
    if op == Opcode.block
    then (read read_result_type >>= λ t. visit (enter_block t) >> pure (some (suc block_depth)))
    else (if op == Opcode.loop
        then (read read_result_type >>= λ t. visit (loop_ t) >> pure (some (suc block_depth)))
        else (if op == Opcode.if_
            then (read read_result_type >>= λ t. visit (if_ t) >> pure (some (suc block_depth)))
            else (if op == Opcode.end
                then read_end block_depth
                else (read_simple op >> pure (some block_depth)))))

unfoldable pub go_on : (ℕ → M (Unit {0})) → Option ℕ → M (Unit {0})
go_on loop none = pure tt
go_on loop (some block_depth) = loop block_depth

-- The loop; `none` where the fuel does not suffice.
unfoldable pub read_code_loop : ℕ → ℕ → M (Unit {0})
read_code_loop zero block_depth = panic
read_code_loop (suc fuel) block_depth = do
  op ← read read_u8
  next ← read_instruction op block_depth
  go_on (read_code_loop fuel) next

unfoldable pub read_code : ℕ → M (Unit {0})
read_code fuel = read_code_loop fuel 0
