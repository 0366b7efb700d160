-- ===== src/Stack.antt =====
-- The interpreter's stack of 32-bit words of src/stack.rs. A 64-bit value takes two words, the low one
-- first, as on the little-endian targets. An access outside the stack is `none`: the code asserts the
-- bounds under `strict-assertions` and relies on them otherwise.
pub mod Words
use spacewasm.Prelude.{
  ℕ, ◌+◌, ◌-◌, ◌*◌, ◌/◌, ◌%◌, ◌^◌, Option, none, some, List, ltb, leb, if◌then◌else◌, length,
  get_or, set, as_u32, shl, shr, bit_or, usize_max,
}
use spacewasm.Errors.{AllocError, Result, ok, err, ◌>>=◌}

pub record Stack : Type 0 where
  pub words : List ℕ
  pub size : ℕ

-- `alloc` answers the words of the block, which nothing clears. `none` is the panic of the `unwrap` on
-- a layout that is too large.
pub new : (ℕ → Result AllocError (List ℕ)) → ℕ → Option (Result AllocError Stack)
new alloc size =
    if ltb usize_max (size * 4)
    then some (err AllocError.allocation_failed)
    else (if leb (size * 4) (2 ^ 63 - 4)
        then some (alloc (size * 4) >>= λ words. ok (record { words = words; size = size }))
        else none)

unfoldable pub len : Stack → ℕ
len s = s.size

unfoldable pub check_bounds {ℓ} : {A : Type ℓ} → Stack → ℕ → ℕ → A → Option A
check_bounds s addr word_n a = if leb (addr + word_n) s.size then some a else none

unfoldable pub read_u32 : Stack → ℕ → Option ℕ
read_u32 s addr = check_bounds s addr 1 (get_or s.words addr 0)

unfoldable pub read_u64 : Stack → ℕ → Option ℕ
read_u64 s addr =
    check_bounds s addr 2 (bit_or (get_or s.words addr 0) (shl 64 (get_or s.words (addr + 1) 0) 32))

unfoldable pub write_u32 : Stack → ℕ → ℕ → Option Stack
write_u32 s addr value = check_bounds s addr 1 (record s { words = set s.words addr value })

unfoldable pub write_u64 : Stack → ℕ → ℕ → Option Stack
write_u64 s addr value =
    check_bounds s addr 2 (record s {
      words = set (set s.words addr (as_u32 value)) (addr + 1) (as_u32 (shr value 32));
    })

-- Floats go through their bits.
pub read_f32 : Stack → ℕ → Option ℕ
read_f32 = read_u32

pub read_f64 : Stack → ℕ → Option ℕ
read_f64 = read_u64

pub write_f32 : Stack → ℕ → ℕ → Option Stack
write_f32 = write_u32

pub write_f64 : Stack → ℕ → ℕ → Option Stack
write_f64 = write_u64
