-- ===== src/Modules/Index.antt =====
-- The index space of functions that src/module.rs resolves: the imported functions in their order, then the
-- functions of the module itself.
use spacewasm.Prelude.{
  ℕ, zero, suc, ◌+◌, ◌-◌, ◌^◌, ◌≤◌, ◌<◌, ◌≡◌, refl, sym, ◌∙◌, ap, inl, inr, true, false, Bool-cases,
  Option, none, some, List, [], ◌∷◌, ◌++◌, length, get_elem?, leb, ◌==◌, as_u16, arith,
}
use spacewasm.Engine.Imports.{Import}
use spacewasm.Engine.{Module}
use spacewasm.Modules.{Ref, find_func, own_ref, get_func_ref}

-- What the function imports refer to.
unfoldable pub func_refs : List Import → List Ref
func_refs [] = []
func_refs (Import.func r index ∷ is) = Ref.extern r index ∷ func_refs is
func_refs (Import.host_func r index ∷ is) = Ref.host r index ∷ func_refs is
func_refs (Import.table r index ∷ is) = func_refs is
func_refs (Import.host_table r index ∷ is) = func_refs is
func_refs (Import.memory r index ∷ is) = func_refs is
func_refs (Import.host_memory r index ∷ is) = func_refs is
func_refs (Import.global r index ∷ is) = func_refs is
func_refs (Import.host_global r index ∷ is) = func_refs is

unfoldable pub own_refs : ℕ → ℕ → List Ref
own_refs i zero = []
own_refs i (suc n) = Ref.own i ∷ own_refs (i + 1) n

unfoldable pub func_space : Module → List Ref
func_space m = func_refs m.imports ++ own_refs 0 (length m.functions)

-- What the loop over the imports finds for the index `k` behind `n`.
abbrev Finds : List Ref → ℕ → ℕ → Option Ref × ℕ → Type 0
Finds [] n k found = found ≡ (none, n)
Finds (r ∷ rs) n zero found = found.0 ≡ some r
Finds (r ∷ rs) n (suc k) found = Finds rs (n + 1) k found

func-Finds :
    (is : List Import) (x n k : ℕ) → x ≡ n + k → Finds (func_refs is) n k (find_func is x n)
unfolding find_func func_refs
func-Finds [] x n k e = refl
func-Finds (Import.func r index ∷ is) x n zero e =
    let t : (x == n) ≡ true = ground arith in rw t refl
func-Finds (Import.func r index ∷ is) x n (suc k) e =
    let t : (x == n) ≡ false = ground arith in rw t (func-Finds is x (n + 1) k (omega (arith, e)))
func-Finds (Import.host_func r index ∷ is) x n zero e =
    let t : (x == n) ≡ true = ground arith in rw t refl
func-Finds (Import.host_func r index ∷ is) x n (suc k) e =
    let t : (x == n) ≡ false = ground arith in rw t (func-Finds is x (n + 1) k (omega (arith, e)))
func-Finds (Import.table r index ∷ is) x n k e = func-Finds is x n k e
func-Finds (Import.host_table r index ∷ is) x n k e = func-Finds is x n k e
func-Finds (Import.memory r index ∷ is) x n k e = func-Finds is x n k e
func-Finds (Import.host_memory r index ∷ is) x n k e = func-Finds is x n k e
func-Finds (Import.global r index ∷ is) x n k e = func-Finds is x n k e
func-Finds (Import.host_global r index ∷ is) x n k e = func-Finds is x n k e

own_refs-within : (i n k : ℕ) → k < n → get_elem? (own_refs i n) k ≡ some (Ref.own (i + k))
unfolding own_refs
own_refs-within i zero k h = absurd (omega (arith, h))
own_refs-within i (suc n) zero h = ap (λ j. some (Ref.own j)) (omega arith)
own_refs-within i (suc n) (suc k) h =
    own_refs-within (i + 1) n k (omega (arith, h)) ∙ ap (λ j. some (Ref.own j)) (omega arith)

own_refs-beyond : (i n k : ℕ) → n ≤ k → get_elem? (own_refs i n) k ≡ none
unfolding own_refs
own_refs-beyond i zero k h = refl
own_refs-beyond i (suc n) zero h = absurd (omega (arith, h))
own_refs-beyond i (suc n) (suc k) h = own_refs-beyond (i + 1) n k (omega (arith, h))

own_found :
    (x n k size : ℕ)
    → x ≡ n + k
    → size ≤ 2 ^ 16
    → own_ref (none, n) x size ≡ get_elem? (own_refs 0 size) k
unfolding own_ref
own_found x n k size e fits =
    let at : x - n ≡ k = omega (arith, e) in
    elim (Bool-cases (leb size k)) [
      | inl t ↦ rw (at, t) (sym (own_refs-beyond 0 size k (ground arith)))
      | inr t ↦
          let small : as_u16 k ≡ k = below size k fits t in
          rw (at, t, small)
            (sym
              (own_refs-within 0 size k (ground arith) ∙ ap (λ j. some (Ref.own j)) (omega arith)))
    ]
  where
    below : (size k : ℕ) → size ≤ 2 ^ 16 → leb size k ≡ false → as_u16 k ≡ k
    below size k fits t = ground arith

-- The imports have `n` functions before the index `k`, and the module `size`.
resolved :
    (rs : List Ref) (x n k size : ℕ) (found : Option Ref × ℕ)
    → x ≡ n + k
    → size ≤ 2 ^ 16
    → Finds rs n k found
    → own_ref found x size ≡ get_elem? (rs ++ own_refs 0 size) k
unfolding own_ref
resolved [] x n k size found e fits h = ap (λ f. own_ref f x size) h ∙ own_found x n k size e fits
resolved (r ∷ rs) x n zero size (f, m) e fits h = rw (h, own_ref) refl
resolved (r ∷ rs) x n (suc k) size found e fits h =
    resolved rs x (n + 1) k size found (omega (arith, e)) fits h

-- A function index of a module with at most 65536 functions of its own is resolved as in the list of its
-- imported functions, in their order, and then its own: an index behind them all is none.
pub get_func_ref_lem :
    (m : Module) (x : ℕ)
    → length m.functions ≤ 2 ^ 16
    → get_func_ref m x ≡ get_elem? (func_space m) x
unfolding get_func_ref func_space
get_func_ref_lem m x fits =
    resolved (func_refs m.imports) x 0 x (length m.functions) (find_func m.imports x 0)
      (omega arith) fits (func-Finds m.imports x 0 x (omega arith))
