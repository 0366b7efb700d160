-- ===== src/Memory.antt =====
-- The linear memory of src/memory.rs: bounds-checked loads and stores of little-endian words, and
-- growth through a page allocator. The allocator is not under src/, so it is a parameter: a record of
-- its two calls, as they answer at the time they are made.
pub mod Valid
pub mod Access
pub mod Growth
use spacewasm.Prelude.{
  ℕ, ◌+◌, ◌-◌, ◌*◌, ◌/◌, ◌^◌, Bool, true, false, Option, none, some, List, [], ◌++◌, ltb, leb, ◌==◌,
  ◌||◌, if◌then◌else◌, length, take, drop, replicate, as_u32, usize_max, to_le_bytes, from_le_bytes,
}
use spacewasm.Errors.{AllocError, MemoryError, Result, ok, err, ◌>>=◌, ◌>>◌, map_err}
use spacewasm.Types.{MemType, page_bytes, page_alignment, can_hold, mem_type_zero}

-- `WasmMemoryAllocator`: a block is its bytes; the numbers are the size and the alignment of a layout.
pub record Allocator : Type 0 where
  pub allocate : ℕ → ℕ → Result AllocError (List ℕ)
  pub reallocate : List ℕ → ℕ → ℕ → ℕ → Result AllocError (List ℕ)

-- `ptr` is `none` when it is null.
pub record Memory : Type 0 where
  pub ptr : Option (List ℕ)
  pub size : ℕ
  pub ty : MemType
  pub allocator : Option Allocator

-- `MemoryError::from`
abbrev pub from_alloc_error : AllocError → MemoryError
from_alloc_error AllocError.allocation_failed = MemoryError.allocation_failed
from_alloc_error AllocError.out_of_memory = MemoryError.out_of_memory
from_alloc_error AllocError.page_too_small = MemoryError.page_too_small
from_alloc_error AllocError.heap_poisoned = MemoryError.heap_poisoned

-- Whether `Layout::from_size_align` accepts a size, for an alignment that is a power of two.
abbrev pub layout_fits : ℕ → ℕ → Bool
layout_fits size align = leb size (2 ^ 63 - align)

-- `write_bytes(0, n)` at `from` of a block.
abbrev pub clear : List ℕ → ℕ → ℕ → List ℕ
clear block from n = take from block ++ (replicate n 0 ++ drop n (drop from block))

unfoldable pub zero_memory : Memory
zero_memory = record { ptr = none; size = 0; ty = mem_type_zero; allocator = none }

-- The block of `Memory::new`: null for an empty memory.
unfoldable pub new_block : Allocator → ℕ → ℕ → Result AllocError (Option (List ℕ))
new_block a size align =
    if size == 0
    then ok none
    else (if layout_fits size align
        then (a.allocate size align >>= λ block. ok (some (clear block 0 size)))
        else err AllocError.allocation_failed)

unfoldable pub new : MemType → Allocator → Result AllocError Memory
new ty a =
    let size = ty.initial_pages * page_bytes ty.page_size in
    if ltb usize_max size
    then err AllocError.allocation_failed
    else (new_block a size (page_alignment ty.page_size) >>= λ p.
        ok (record { ptr = p; size = size; ty = ty; allocator = some a }))

-- What `get_slice` and `as_shared_cells` show.
unfoldable pub get_slice : Memory → List ℕ
get_slice m = elim m.ptr [ none ↦ [] | some block ↦ block ]

-- The size in pages.
unfoldable pub pages : Memory → ℕ
pages m = as_u32 (m.size / page_bytes m.ty.page_size)

pub is_zero : Memory → Bool
is_zero m = elim m.ptr [ none ↦ elim m.allocator [ none ↦ true | some _ ↦ false ] | some _ ↦ false ]

unfoldable pub check_in_bounds : Memory → ℕ → ℕ → Result {0, 0} MemoryError Unit
check_in_bounds m addr size =
    if ltb m.size size || ltb (m.size - size) addr then err MemoryError.out_of_bounds else ok tt

unfoldable pub effective_address : ℕ → ℕ → Result MemoryError ℕ
effective_address base offset =
    if ltb usize_max (base + offset) then err MemoryError.out_of_bounds else ok (base + offset)

-- A write and a read through the pointer.
abbrev pub splice : List ℕ → ℕ → List ℕ → List ℕ
splice block addr bytes = take addr block ++ (bytes ++ drop (length bytes) (drop addr block))

abbrev pub write_block : Option (List ℕ) → ℕ → List ℕ → Option (List ℕ)
write_block none addr bytes = none
write_block (some block) addr bytes = some (splice block addr bytes)

abbrev pub read_block : Option (List ℕ) → ℕ → ℕ → List ℕ
read_block none addr n = []
read_block (some block) addr n = take n (drop addr block)

abbrev pub write_at : Memory → ℕ → List ℕ → Memory
write_at m addr bytes = record m { ptr = write_block m.ptr addr bytes }

unfoldable pub store_word : ℕ → Memory → ℕ → ℕ → Result MemoryError Memory
store_word k m addr i = check_in_bounds m addr k >> ok (write_at m addr (to_le_bytes k i))

pub store_u8 : Memory → ℕ → ℕ → Result MemoryError Memory
store_u8 = store_word 1

pub store_u16 : Memory → ℕ → ℕ → Result MemoryError Memory
store_u16 = store_word 2

pub store_u32 : Memory → ℕ → ℕ → Result MemoryError Memory
store_u32 = store_word 4

pub store_u64 : Memory → ℕ → ℕ → Result MemoryError Memory
store_u64 = store_word 8

pub store : Memory → ℕ → List ℕ → Result MemoryError Memory
store m addr bytes =
    check_in_bounds m addr (length bytes)
    >> ok (if length bytes == 0 then m else write_at m addr bytes)

unfoldable pub load_word : ℕ → Memory → ℕ → Result MemoryError ℕ
load_word k m addr = check_in_bounds m addr k >> ok (from_le_bytes (read_block m.ptr addr k))

pub load_u8 : Memory → ℕ → Result MemoryError ℕ
load_u8 = load_word 1

pub load_u16 : Memory → ℕ → Result MemoryError ℕ
load_u16 = load_word 2

pub load_u32 : Memory → ℕ → Result MemoryError ℕ
load_u32 = load_word 4

pub load_u64 : Memory → ℕ → Result MemoryError ℕ
load_u64 = load_word 8

pub load : Memory → ℕ → ℕ → Result MemoryError (List ℕ)
load m addr len =
    check_in_bounds m addr len >> ok (if len == 0 then [] else read_block m.ptr addr len)

-- `NonNull::new(self.ptr).ok_or(OutOfMemory)`
abbrev pub non_null : Option (List ℕ) → Result MemoryError (List ℕ)
non_null none = err MemoryError.out_of_memory
non_null (some block) = ok block

-- The block of the larger memory, from `allocate` or `reallocate`.
unfoldable pub grow_block : Memory → Allocator → ℕ → Result MemoryError (List ℕ)
grow_block m a new_size =
    let align = page_alignment m.ty.page_size in
    if layout_fits new_size align
    then (if m.size == 0
        then map_err from_alloc_error (a.allocate new_size align)
        else (non_null m.ptr >>= λ block.
            if layout_fits m.size align
            then map_err from_alloc_error (a.reallocate block m.size new_size align)
            else err MemoryError.allocation_failed))
    else err MemoryError.allocation_failed

-- `grow` past its two tests of the new number of pages.
unfoldable pub grow_to : Memory → ℕ → Option Allocator → ℕ → Result MemoryError Memory
grow_to m n none total_pages = err MemoryError.out_of_memory
grow_to m n (some a) total_pages =
    if n == 0
    then ok m
    else (let new_size = total_pages * page_bytes m.ty.page_size in
        if ltb usize_max new_size
        then err MemoryError.out_of_memory
        else (grow_block m a new_size >>= λ block.
            ok (record m { ptr = some (clear block m.size (new_size - m.size)); size = new_size })))

-- The answer is the old number of pages. On an error the memory stays as it is.
unfoldable pub grow : Memory → ℕ → Result MemoryError (ℕ × Memory)
grow m n =
    let total_pages = pages m + n in
    if ltb total_pages (2 ^ 32)
    then (if can_hold m.ty total_pages
        then (grow_to m n m.allocator total_pages >>= λ m'. ok (pages m, m'))
        else err MemoryError.out_of_memory)
    else err MemoryError.out_of_memory
