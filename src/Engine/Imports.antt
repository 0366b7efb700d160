-- ===== src/Engine/Imports.antt =====
-- `Import` of src/imports.rs.
use spacewasm.Prelude.{ℕ}

-- What an import was resolved to: the numbers of the module and of the item in it.
pub data Import : Type 0 where
  func host_func table host_table memory host_memory global host_global : ℕ → ℕ → Import
