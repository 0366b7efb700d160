-- ===== src/Text.antt =====
-- The labels and the paged code store of src/text.rs: jump offsets and targets, the packed label word
-- `[arity:2][depth:8][offset:22]`, and `CodeBuilder`. An `i32` is its bit pattern.
pub mod Labels
pub mod Pages
pub mod Emit
pub mod Locals
pub mod Builder
pub mod Operands
pub mod Branches
pub mod Patches
pub mod Writes
pub mod Chains
pub mod Limits
use spacewasm.Prelude.{
  ℕ, zero, suc, ◌+◌, ◌-◌, ◌*◌, ◌/◌, ◌%◌, ◌^◌, Bool, true, false, ◌||◌, ◌&&◌, Option, none, some,
  List, [], ◌∷◌, ◌++◌, ltb, ◌==◌, if◌then◌else◌, length, get_elem?, set, replicate, bit_and, bit_or,
  as_u8, as_u16, as_u32, shl, shr, sar, add_w, sub_w,
}
use spacewasm.Errors.{AllocError, ValidationError, Result, ok, err, ◌>>=◌, ◌>>◌, map_err}
use spacewasm.Types.{ValType, i32, i64, f32, f64, ResultType}

-- `JumpTarget`: a page and a word of it. `SENTINEL` ends a list of jumps.
pub record JumpTarget : Type 0 where
  pub address : ℕ

abbrev pub sentinel_target : JumpTarget
sentinel_target = record { address = 0xFFFFFFFF }

unfoldable pub page : JumpTarget → ℕ
page t = shr t.address 8

unfoldable pub offset : JumpTarget → ℕ
offset t = bit_and t.address 0xFF

-- `JumpOffset`: an `i32` relative to the address of a jump; 0 is the sentinel.
pub record JumpOffset : Type 0 where
  pub bits : ℕ

abbrev pub sentinel_offset : JumpOffset
sentinel_offset = record { bits = 0 }

-- Whether 22 bits hold the offset: `offset == ((offset << (32 - 22)) >> (32 - 22))`.
abbrev pub fits_22 : ℕ → Bool
fits_22 o = o == sar 32 (shl 32 o (32 - 22)) (32 - 22)

unfoldable pub new_offset : JumpTarget → JumpTarget → Result ValidationError JumpOffset
new_offset current to =
    if to.address == 0xFFFFFFFF
    then ok sentinel_offset
    else (let o = sub_w 32 to.address current.address in
        if fits_22 o then ok (record { bits = o }) else err ValidationError.label_jump_too_large)

-- `JumpTarget + JumpOffset`, and `JumpTarget += JumpOffset`.
unfoldable pub add_offset : JumpTarget → JumpOffset → JumpTarget
add_offset t o = record { address = add_w 32 t.address o.bits }

-- `JumpTarget + u32`
unfoldable pub add_words : JumpTarget → ℕ → JumpTarget
add_words t n = record { address = as_u32 (t.address + n) }

-- `LabelArity`; its `None` is `no_result`.
pub data LabelArity : Type 0 where
  no_result one_word two_words : LabelArity

-- `LabelTarget`: the packed word.
pub record LabelTarget : Type 0 where
  pub word : ℕ

abbrev pub arity_bits : Option ValType → ℕ
arity_bits none = 0
arity_bits (some i32) = 1
arity_bits (some f32) = 1
arity_bits (some i64) = 2
arity_bits (some f64) = 2

-- `LabelTarget::new`
unfoldable pub new_label : ResultType → ℕ → JumpOffset → LabelTarget
new_label result_type depth o =
    let rt = arity_bits result_type in
    record { word = bit_or (bit_or (shl 32 rt 30) (shl 32 depth 22)) (bit_and o.bits 0x3FFFFF) }

pub early_return : ResultType → LabelTarget
early_return result_type = new_label result_type 0 sentinel_offset

unfoldable pub with_jump : LabelTarget → JumpOffset → LabelTarget
with_jump l o = record { word = bit_or (bit_and l.word 0xFFC00000) (bit_and o.bits 0x3FFFFF) }

unfoldable pub jump : LabelTarget → JumpOffset
jump l = record { bits = sar 32 (shl 32 (bit_and l.word 0x3FFFFF) 10) 10 }

unfoldable pub is_sentinel : LabelTarget → Bool
is_sentinel l = (jump l).bits == 0

-- `none` is the code's `unreachable!()`.
abbrev pub arity_of : ℕ → Option LabelArity
arity_of n =
    if n == 0
    then some no_result
    else (if n == 1 then some one_word else (if n == 2 then some two_words else none))

unfoldable pub arity : LabelTarget → Option LabelArity
arity l = arity_of (bit_and (shr l.word 30) 0b11)

unfoldable pub depth : LabelTarget → ℕ
depth l = as_u8 (bit_and (shr l.word 22) 0xFF)

-- `CompilerOptions`
pub record CompilerOptions : Type 0 where
  pub allow_memory_grow : Bool
  pub max_backpatch_iterations : Option ℕ
  pub max_code_pages : ℕ

-- The pages of a `CodeBuilder`: 256 words each.
pub record CodeBuilder : Type 0 where
  pub pages : List (List ℕ)
  pub offset : ℕ
  pub options : CompilerOptions

abbrev pub max_addressable_code_pages : ℕ
max_addressable_code_pages = 2 ^ 24

-- `Vec::new` is given the memory of its page table; `granted` says what the allocator answers.
unfoldable pub new :
    (ℕ → Result {0, 0} AllocError Unit) → CompilerOptions → Result AllocError CodeBuilder
new granted options =
    if ltb options.max_code_pages max_addressable_code_pages
    then (granted options.max_code_pages
        >> ok (record { pages = []; offset = 0; options = options }))
    else err AllocError.allocation_failed

-- `pc`: the address of the next word; `none` is a failed `assert!`.
unfoldable pub page_and_offset : CodeBuilder → ℕ × ℕ
page_and_offset c =
    if c.offset == 256
    then (length c.pages, 0)
    else (if length c.pages == 0 then (0, 0) else (length c.pages - 1, c.offset))

unfoldable pub pc : CodeBuilder → Option JumpTarget
pc c =
    let (page_index, o) = page_and_offset c in
    if ltb page_index max_addressable_code_pages && ltb o 256
    then some (record { address = bit_or (shl 32 (as_u32 page_index) 8) (as_u32 o) })
    else none

-- `add_page`: `boxed` is the allocator's answer for the body of the page, and the table has room for
-- `max_code_pages`.
unfoldable pub add_page :
    Result {0, 0} AllocError Unit → CodeBuilder → Result AllocError CodeBuilder
add_page boxed c =
    boxed
    >> (if ltb (length c.pages) c.options.max_code_pages
        then ok (record c { pages = c.pages ++ (replicate 256 0 ∷ []); offset = 0 })
        else err AllocError.out_of_memory)

-- `self.pages[page_index].0[offset] = value`; a page past the end is none.
abbrev pub set_word : List (List ℕ) → ℕ → ℕ → ℕ → List (List ℕ)
set_word pages page_index o value = elim (get_elem? pages page_index) [
  | none ↦ pages
  | some words ↦ set pages page_index (set words o value)
]

-- The write of `push` to the last page.
unfoldable pub put : CodeBuilder → ℕ → CodeBuilder
put c w = record c {
  pages = set_word c.pages (length c.pages - 1) c.offset w;
  offset = c.offset + 1;
}

-- `push`: `boxed` is what the allocator answers when a page is wanted.
unfoldable pub push :
    Result {0, 0} AllocError Unit → CodeBuilder → ℕ → Result AllocError CodeBuilder
push boxed c w =
    if c.offset == 0 && length c.pages == 0 || ltb 255 c.offset
    then (add_page boxed c >>= λ c'. ok (put c' w))
    else ok (put c w)

unfoldable pub write : CodeBuilder → JumpTarget → ℕ → Result ValidationError CodeBuilder
write c a value = elim (get_elem? c.pages (page a)) [
  | none ↦ err ValidationError.page_fault
  | some words ↦
      (if ltb 255 (offset a)
        then err ValidationError.page_fault
        else ok (record c { pages = set_word c.pages (page a) (offset a) value }))
]

unfoldable pub write_32 : CodeBuilder → JumpTarget → ℕ → Result ValidationError CodeBuilder
write_32 c a value =
    write c a (as_u16 value) >>= λ c'. write c' (add_words a 1) (as_u16 (shr value 16))

-- A page has 256 words, so the word at an offset below 256 is there.
unfoldable pub read : CodeBuilder → JumpTarget → Result ValidationError ℕ
read c a = elim (get_elem? c.pages (page a)) [
  | none ↦ err ValidationError.page_fault
  | some words ↦
      (if ltb 255 (offset a)
        then err ValidationError.page_fault
        else elim (get_elem? words (offset a)) [
          | none ↦ err ValidationError.page_fault
          | some w ↦ ok w
        ])
]

unfoldable pub read_32 : CodeBuilder → JumpTarget → Result ValidationError ℕ
read_32 c a = read c a >>= λ w1. read c (add_words a 1) >>= λ w2. ok (bit_or w1 (shl 32 w2 16))

-- The function that `backpatch` is given, for each label of the list. What a closure keeps from one call
-- to the next is the `S` it is passed.
abbrev pub Patch : Type 0 → Type 0
Patch S = S → CodeBuilder → JumpTarget → LabelTarget → Result ValidationError (CodeBuilder × S)

-- `n > max`
abbrev pub past_limit : Option ℕ → ℕ → Bool
past_limit none n = false
past_limit (some max) n = ltb max n

-- The loop of `backpatch`, with its `u32` counter `n`, which wraps in a build without overflow checks; `none`
-- when the fuel does not suffice.
unfoldable pub backpatch_loop :
    {S : Type 0}
    → Patch S
    → ℕ
    → S
    → CodeBuilder
    → JumpTarget
    → ℕ
    → Option (Result ValidationError (CodeBuilder × S))
backpatch_loop f zero s c a n = none
backpatch_loop f (suc fuel) s c a n = elim (read_32 c a) [
  | err e ↦ some (err e)
  | ok word ↦
      let lt : LabelTarget = record { word = word } in
      elim (f s c a lt) [
        | err e ↦ some (err e)
        | ok (c', s') ↦ elim (is_sentinel lt) [
          | true ↦ some (ok (c', s'))
          | false ↦ elim (past_limit c'.options.max_backpatch_iterations (as_u32 (suc n))) [
            | true ↦ some (err ValidationError.possible_backpatch_cycle)
            | false ↦ backpatch_loop f fuel s' c' (add_offset a (jump lt)) (as_u32 (suc n))
          ]
        ]
      ]
]

unfoldable pub backpatch :
    {S : Type 0}
    → ℕ
    → S
    → CodeBuilder
    → JumpTarget
    → Patch S
    → Option (Result ValidationError (CodeBuilder × S))
backpatch fuel s c start f =
    if start.address == 0xFFFFFFFF then some (ok (c, s)) else backpatch_loop f fuel s c start 0
