-- ===== src/Errors.antt =====
-- The error values of src/error.rs, src/util/alloc.rs, src/memory.rs and src/constant.rs, the
-- section kinds that two of them carry (src/module.rs), and Rust's `Result` with its `?`.
use spacewasm.Prelude.{ℕ, ◌==◌, if◌then◌else◌, ◌≡◌, refl, ◌⊎◌, inl, inr}

pub data AllocError : Type 0 where
  allocation_failed out_of_memory page_too_small heap_poisoned : AllocError

-- `AllocError::from` of a code that the allocator wrote, and the code of an error.
pub from_code : ℕ → AllocError
from_code value =
    if value == 1
    then out_of_memory
    else (if value == 2
        then page_too_small
        else (if value == 3 then heap_poisoned else allocation_failed))

pub to_code : AllocError → ℕ
to_code allocation_failed = 0
to_code out_of_memory = 1
to_code page_too_small = 2
to_code heap_poisoned = 3

from_code-to_code : (e : AllocError) → from_code (to_code e) ≡ e
unfolding from_code to_code
from_code-to_code allocation_failed = refl
from_code-to_code out_of_memory = refl
from_code-to_code page_too_small = refl
from_code-to_code heap_poisoned = refl

pub data MemoryError : Type 0 where
  out_of_bounds out_of_memory allocation_failed page_too_small heap_poisoned : MemoryError

pub data ConstantExprError : Type 0 where
  invalid_constant_instruction already_has_value no_value invalid_global : ConstantExprError

pub data SectionKind : Type 0 where
  custom type import function table memory global export start element code section_data n :
      SectionKind

pub data ValidationError : Type 0 where
  eof malformed_integer i33_is_negative malformed_magic malformed_version : ValidationError
  malformed_utf8 duplicate_module_name duplicate_export_name : ValidationError
  malformed_section_id malformed_value_type malformed_function : ℕ → ValidationError
  malformed_limit malformed_elem_type : ℕ → ValidationError
  malformed_section_size : ValidationError
  expected_const_or_var malformed_import_export_desc malformed_mem_type : ℕ → ValidationError
  invalid_page_size : ℕ → ValidationError
  invalid_section_ordering : SectionKind → SectionKind → ValidationError
  duplicate_section : SectionKind → ValidationError
  invalid_max_limit : ValidationError
  expected_terminal invalid_opcode invalid_fc_opcode : ℕ → ValidationError
  malformed_code_size invalid_code_section_function_count vec_too_long : ValidationError
  idx_too_large module_idx_too_large memory_too_large table_too_large : ValidationError
  memory_import_too_large mem_align_too_large control_flow_too_deep : ValidationError
  stack_underflow stack_too_large label_stack_jump_too_deep label_jump_too_large : ValidationError
  type_mismatch block_result_type_mismatch br_table_result_type_mismatch : ValidationError
  function_result_type_mismatch illegal_memory_grow invalid_element_offset : ValidationError
  invalid_element_out_of_bounds invalid_table_index table_not_defined : ValidationError
  invalid_element_count invalid_mem_index memory_not_defined : ValidationError
  invalid_mem_offset_type invalid_mem_offset invalid_label_index : ValidationError
  invalid_else_block invalid_end_block multiple_memories multiple_tables : ValidationError
  possible_backpatch_cycle page_fault instruction_outside_of_function : ValidationError
  local_idx_out_of_range function_idx_out_of_range type_idx_out_of_range : ValidationError
  function_text_out_of_range global_idx_out_of_range function_import_not_found : ValidationError
  global_import_not_found memory_import_not_found table_import_not_found : ValidationError
  function_import_out_of_range function_import_type_mismatch global_not_mutable : ValidationError
  global_import_type_mismatch memory_import_type_mismatch : ValidationError
  table_import_type_mismatch table_import_incompatible_size table_ref_not_unique : ValidationError
  function_parameters_too_large function_returns_too_large too_many_locals : ValidationError
  invalid_const_instruction global_type_mismatch alignment_larger_than_type : ValidationError
  invalid_start_function_signature invalid_host_start_function : ValidationError
  invalid_constant_expr : ConstantExprError → ValidationError
  guest_memory_allocation_failure : ValidationError
  alloc_error : AllocError → ValidationError
  memory_error : MemoryError → ValidationError
  reader_error : ℕ → ValidationError

-- Rust's `Result<A, E>`.
pub data Result {ℓ κ} (E : Type κ) (A : Type ℓ) : Type (ℓ ⊔ κ) where
  ok : A → Result E A
  err : E → Result E A

-- `?` on a value of type `Result`.
infixl 5 ◌>>=◌ ◌>>◌
abbrev pub ◌>>=◌ {ℓ κ} :
    {E : Type 0} {A : Type ℓ} {B : Type κ} → Result E A → (A → Result E B) → Result E B
ok a >>= f = f a
err e >>= f = err e

abbrev pub ◌>>◌ {ℓ κ} :
    {E : Type 0} {A : Type ℓ} {B : Type κ} → Result E A → Result E B → Result E B
ok a >> k = k
err e >> k = err e

-- `.map_err(f)`, and the `From` conversion of a `?` into another error type.
abbrev pub map_err {ℓ} : {D E : Type 0} {A : Type ℓ} → (D → E) → Result D A → Result E A
map_err f (ok a) = ok a
map_err f (err e) = err (f e)

pub Result-cases {ℓ κ} :
    {E : Type κ} {A : Type ℓ} (r : Result E A) → ((a : A) × (r ≡ ok a)) ⊎ ((e : E) × (r ≡ err e))
Result-cases (ok a) = inl (a, refl)
Result-cases (err e) = inr (e, refl)
