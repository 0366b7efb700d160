-- ===== src/Text/Emit.antt =====
-- The emission of instructions in src/text.rs: the methods of `TextBuilder` that push the words of an
-- instruction to its code. `boxes` is the allocator's answer when a page of a number is wanted.
use spacewasm.Prelude.{ℕ, ltb, leb, if◌then◌else◌, length, as_u8, as_u16, shr, shl, bit_or, bit_and}
use spacewasm.Errors.{AllocError, ValidationError, Result, err, ◌>>=◌, map_err}
use spacewasm.Text.{CodeBuilder, push}

abbrev pub Boxes : Type 0
Boxes = ℕ → Result {0, 0} AllocError Unit

unfoldable pub push_word : Boxes → ℕ → CodeBuilder → Result AllocError CodeBuilder
push_word boxes w c = push (boxes (length c.pages)) c w

unfoldable pub instr : Boxes → ℕ → CodeBuilder → Result AllocError CodeBuilder
instr boxes op = push_word boxes (shl 16 op 8)

unfoldable pub instr_imm_8 : Boxes → ℕ → ℕ → CodeBuilder → Result AllocError CodeBuilder
instr_imm_8 boxes op imm = push_word boxes (bit_or (shl 16 op 8) imm)

-- An `AllocError` as the `ValidationError` that `?` makes of it.
abbrev pub allocated : Result AllocError CodeBuilder → Result ValidationError CodeBuilder
allocated = map_err ValidationError.alloc_error

unfoldable pub instr_imm_8_or_16 : Boxes → ℕ → ℕ → CodeBuilder → Result ValidationError CodeBuilder
instr_imm_8_or_16 boxes op idx c =
    if ltb 0xFFFF idx
    then err ValidationError.idx_too_large
    else (if ltb idx 0xFF
        then allocated (instr_imm_8 boxes op (as_u8 idx) c)
        else allocated (instr_imm_8 boxes op 0xFF c >>= push_word boxes (as_u16 idx)))

unfoldable pub instr_mem : Boxes → ℕ → ℕ → ℕ → CodeBuilder → Result ValidationError CodeBuilder
instr_mem boxes op align offset c =
    if leb 0xFF align
    then err ValidationError.mem_align_too_large
    else allocated (
        instr_imm_8 boxes op (as_u8 align) c
        >>= push_word boxes (as_u16 (bit_and offset 0xFFFF))
        >>= push_word boxes (as_u16 (bit_and (shr offset 16) 0xFFFF)))

pub write_16 : Boxes → ℕ → CodeBuilder → Result AllocError CodeBuilder
write_16 boxes word = push_word boxes word

unfoldable pub write_32 : Boxes → ℕ → CodeBuilder → Result AllocError CodeBuilder
write_32 boxes i c = push_word boxes (as_u16 i) c >>= push_word boxes (as_u16 (shr i 16))

unfoldable pub write_64 : Boxes → ℕ → CodeBuilder → Result AllocError CodeBuilder
write_64 boxes i c =
    push_word boxes (as_u16 i) c
    >>= push_word boxes (as_u16 (shr i 16))
    >>= push_word boxes (as_u16 (shr i 32))
    >>= push_word boxes (as_u16 (shr i 48))

unfoldable pub instr_imm_8_or_32 : Boxes → ℕ → ℕ → CodeBuilder → Result AllocError CodeBuilder
instr_imm_8_or_32 boxes op i c =
    if ltb i 0xFF
    then instr_imm_8 boxes op (as_u8 i) c
    else (instr_imm_8 boxes op 0xFF c >>= write_32 boxes i)

unfoldable pub instr_imm_8_or_64 : Boxes → ℕ → ℕ → CodeBuilder → Result AllocError CodeBuilder
instr_imm_8_or_64 boxes op i c =
    if ltb i 0xFF
    then instr_imm_8 boxes op (as_u8 i) c
    else (instr_imm_8 boxes op 0xFF c >>= write_64 boxes i)
