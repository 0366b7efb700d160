-- ===== src/Modules.antt =====
-- The look-up of functions and globals by index in src/module.rs, and `Ref` of src/visitor.rs. The
-- index space of a module has its imports first. Numbers are `u32` and `u16` bit patterns.
pub mod Index
use spacewasm.Prelude.{
  ℕ, ◌+◌, ◌-◌, Option, none, some, List, [], ◌∷◌, length, leb, ◌==◌, if◌then◌else◌, as_u16,
}
use spacewasm.Errors.{ValidationError, Result, ok, err}
use spacewasm.Types.{ValType, ResultType, GlobalType}
use spacewasm.Engine.Imports.{Import}
use spacewasm.Engine.{Module}

-- `Ref`: an item of the module itself, of a host module or of another module.
pub data Ref : Type 0 where
  own : ℕ → Ref
  host extern : ℕ → ℕ → Ref

-- What is known of a host module before it runs: the signatures of its functions, the types of its globals.
pub record HostSignature : Type 0 where
  pub params : List ValType
  pub returns : ResultType

pub record HostModule : Type 0 where
  pub functions : List HostSignature
  pub globals : List GlobalType

-- The loop over the imports, from `n` on: what `x` refers to, and the number of function imports.
unfoldable pub find_func : List Import → ℕ → ℕ → Option Ref × ℕ
find_func [] x n = (none, n)
find_func (Import.func r index ∷ is) x n =
    let rest = find_func is x (n + 1) in if x == n then (some (Ref.extern r index), n) else rest
find_func (Import.host_func r index ∷ is) x n =
    let rest = find_func is x (n + 1) in if x == n then (some (Ref.host r index), n) else rest
find_func (Import.table r index ∷ is) x n = find_func is x n
find_func (Import.host_table r index ∷ is) x n = find_func is x n
find_func (Import.memory r index ∷ is) x n = find_func is x n
find_func (Import.host_memory r index ∷ is) x n = find_func is x n
find_func (Import.global r index ∷ is) x n = find_func is x n
find_func (Import.host_global r index ∷ is) x n = find_func is x n

unfoldable pub find_global : List Import → ℕ → ℕ → Option Ref × ℕ
find_global [] x n = (none, n)
find_global (Import.global r index ∷ is) x n =
    let rest = find_global is x (n + 1) in if x == n then (some (Ref.extern r index), n) else rest
find_global (Import.host_global r index ∷ is) x n =
    let rest = find_global is x (n + 1) in if x == n then (some (Ref.host r index), n) else rest
find_global (Import.func r index ∷ is) x n = find_global is x n
find_global (Import.host_func r index ∷ is) x n = find_global is x n
find_global (Import.table r index ∷ is) x n = find_global is x n
find_global (Import.host_table r index ∷ is) x n = find_global is x n
find_global (Import.memory r index ∷ is) x n = find_global is x n
find_global (Import.host_memory r index ∷ is) x n = find_global is x n

-- An item of the module itself, behind the imports; `size` of them are defined.
unfoldable pub own_ref : Option Ref × ℕ → ℕ → ℕ → Option Ref
own_ref (some r, n) x size = some r
own_ref (none, n) x size = if leb size (x - n) then none else some (Ref.own (as_u16 (x - n)))

unfoldable pub get_func_ref : Module → ℕ → Option Ref
get_func_ref m x = own_ref (find_func m.imports x 0) x (length m.functions)

unfoldable pub get_global_ref : Module → ℕ → Option Ref
get_global_ref m x = own_ref (find_global m.imports x 0) x (length m.globals)

unfoldable pub check_memory_defined : Module → Result ValidationError (Unit {0})
check_memory_defined m = elim m.memory [
  | none ↦ err ValidationError.memory_not_defined
  | some k ↦ ok tt
]
