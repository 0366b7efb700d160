-- ===== src/Engine/View.antt =====
-- The operations of the engine on its stack inside the bounds, each as the engine that it leaves.
use spacewasm.Prelude.{
  ℕ, zero, suc, ◌+◌, ◌-◌, ◌≤◌, ◌<◌, ◌≡◌, ◌≢◌, refl, ap, shl, shr, bit_or, as_u32, some, List, [],
  ◌∷◌, get_or, set, length, arith,
}
use spacewasm.Errors.{ok}
use spacewasm.Stack
use spacewasm.Stack.{Stack, check_bounds}
use spacewasm.Engine.{Engine, below_top, drop_words, read_u32, write_u32, read_u64, write_u64}

abbrev pub word : Engine → ℕ → ℕ
word e i = get_or e.stack.words i 0

abbrev pub with_words : Engine → List ℕ → Engine
with_words e ws = record e { stack = record (e.stack) { words = ws } }

abbrev pub put_word : Engine → ℕ → ℕ → Engine
put_word e i v = with_words e (set e.stack.words i v)

pub get_or-set_same : (ws : List ℕ) (i v : ℕ) → i < length ws → get_or (set ws i v) i 0 ≡ v
get_or-set_same [] i v h = absurd (omega arith)
get_or-set_same (w ∷ ws) zero v h = refl
get_or-set_same (w ∷ ws) (suc i) v h = get_or-set_same ws i v (omega arith)

pub get_or-set_other : (ws : List ℕ) (i j v : ℕ) → i ≢ j → get_or (set ws i v) j 0 ≡ get_or ws j 0
get_or-set_other [] i j v h = refl
get_or-set_other (w ∷ ws) zero zero v h = absurd (h refl)
get_or-set_other (w ∷ ws) zero (suc j) v h = refl
get_or-set_other (w ∷ ws) (suc i) zero v h = refl
get_or-set_other (w ∷ ws) (suc i) (suc j) v h = get_or-set_other ws i j v (λ e. h (ap suc e))

check_bounds-in :
    {A : Type 0} (s : Stack) (addr n : ℕ) (a : A)
    → addr + n ≤ s.size
    → check_bounds s addr n a ≡ some a
unfolding check_bounds
check_bounds-in s addr n a h = ground arith

pub read_u32-in :
    (addr : ℕ) (e : Engine) → addr + 1 ≤ e.stack.size → read_u32 addr e ≡ some (ok (word e addr), e)
unfolding read_u32 Stack.read_u32
read_u32-in addr e h = rw (check_bounds-in e.stack addr 1 (get_or e.stack.words addr 0) h) refl

pub write_u32-in :
    (addr v : ℕ) (e : Engine)
    → addr + 1 ≤ e.stack.size
    → write_u32 addr v e ≡ some (ok tt, put_word e addr v)
unfolding write_u32 Stack.write_u32
write_u32-in addr v e h =
    rw (check_bounds-in e.stack addr 1 (record (e.stack) { words = set e.stack.words addr v }) h)
      refl

pub below_top-in : (n : ℕ) (e : Engine) → n ≤ e.sp → below_top n e ≡ some (ok (e.sp - n), e)
unfolding below_top
below_top-in n e h = ground arith

pub drop_words-in :
    (n : ℕ) (e : Engine) → n ≤ e.sp → drop_words n e ≡ some (ok tt, record e { sp = e.sp - n })
unfolding drop_words
drop_words-in n e h = ground arith

-- The 64-bit value of two words.
abbrev pub dword : Engine → ℕ → ℕ
dword e i = bit_or (word e i) (shl 64 (word e (i + 1)) 32)

pub read_u64-in :
    (addr : ℕ) (e : Engine)
    → addr + 2 ≤ e.stack.size
    → read_u64 addr e ≡ some (ok (dword e addr), e)
unfolding read_u64 Stack.read_u64
read_u64-in addr e h = rw (check_bounds-in e.stack addr 2 (dword e addr) h) refl

abbrev pub put_dword : Engine → ℕ → ℕ → Engine
put_dword e i v = put_word (put_word e i (as_u32 v)) (i + 1) (as_u32 (shr v 32))

pub write_u64-in :
    (addr v : ℕ) (e : Engine)
    → addr + 2 ≤ e.stack.size
    → write_u64 addr v e ≡ some (ok tt, put_dword e addr v)
unfolding write_u64 Stack.write_u64
write_u64-in addr v e h =
    rw
      (check_bounds-in e.stack addr 2
        (record (e.stack) {
          words = set (set e.stack.words addr (as_u32 v)) (addr + 1) (as_u32 (shr v 32));
        })
        h)
      refl
