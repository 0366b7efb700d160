-- ===== src/IrReader/Constants.antt =====
-- Constants and memory accesses that src/text.rs emits, decoded by src/ir_reader.rs.
use spacewasm.Prelude.{
  ℕ, ◌+◌, ◌^◌, ◌<◌, ◌≡◌, inl, inr, refl, sym, ◌∙◌, ap, ap₂, false, Bool-cases, some, [], ◌∷◌, ltb,
  ltb→lt, ◌==◌, arith, as_u8, as_u16, shl, shr, bit_or,
}
use spacewasm.Errors.{ok, ◌>>=◌}
use spacewasm.Memory.Valid.{bind_ok}
use spacewasm.Text.{CodeBuilder, JumpTarget}
use spacewasm.Text.Pages.{IsValid, position}
use spacewasm.Text.Emit.{Boxes, instr_imm_8, instr_imm_8_or_32, write_32}
use spacewasm.Opcode
use spacewasm.IrReader.{Code, R, pure, then_read, read, read_u32}
use spacewasm.IrReader.Decode.{
  Instruction, imm_or, is_access, decode, decode_control, decode_variable, decode_numeric,
}
use spacewasm.IrReader.RoundTrip.{
  at, Emitted, start, push_word-Emitted, write_32-Emitted, read-word_of, read_u32-words,
  decode-header,
}

imm_or-narrow :
    (imm : ℕ) (wide : R ℕ) (code : Code) (next : JumpTarget)
    → imm < 255
    → imm_or imm wide code next ≡ some (imm, next)
unfolding imm_or
imm_or-narrow imm wide code next h = let t : (imm == 0xFF) ≡ false = ground arith in rw t refl

visit_i32_const :
    (code : Code) (imm : ℕ) (next : JumpTarget)
    → decode_control 0x41 imm (decode_variable 0x41 imm (decode_numeric 0x41 imm)) code next
      ≡ then_read code (λ n. pure (Instruction.i32_const n)) (imm_or imm read_u32 code next)
unfolding decode_control decode_variable decode_numeric is_access
visit_i32_const code imm next = refl

decode_as_constant :
    (code : Code) (a imm n : ℕ) (next end : JumpTarget)
    → imm < 256
    → read code (at a) ≡ some (bit_or (shl 16 0x41 8) imm, next)
    → imm_or imm read_u32 code next ≡ some (n, end)
    → decode code (at a) ≡ some (Instruction.i32_const n, end)
decode_as_constant code a imm n next end small h k =
    decode-header code a 0x41 imm next (omega arith) small h
    ∙ visit_i32_const code imm next
    ∙ ap (then_read code (λ n. pure (Instruction.i32_const n))) k

module _ (boxes : Boxes) (c c' : CodeBuilder) (i : ℕ) where
  narrow_i32_const :
      IsValid c
      → i < 255
      → position c' < 2 ^ 32
      → instr_imm_8 boxes 0x41 (as_u8 i) c ≡ ok c'
      → decode c'.pages (at (position c)) ≡ some (Instruction.i32_const i, at (position c'))
  unfolding instr_imm_8
  narrow_i32_const v small room e =
      let m : Emitted c (bit_or (shl 16 0x41 8) (as_u8 i) ∷ []) c' =
        push_word-Emitted boxes c c c' [] (bit_or (shl 16 0x41 8) (as_u8 i)) (start c v) e in
      let byte : as_u8 i ≡ i = omega (arith, small) in
      let end : position c + 1 ≡ position c' = omega (arith, m.next) in
      decode_as_constant c'.pages (position c) (as_u8 i) (as_u8 i) (at (position c + 1))
        (at (position c + 1)) (omega arith)
        (read-word_of c'.pages (position c) (bit_or (shl 16 0x41 8) (as_u8 i))
          (omega (arith, room, m.next)) m.words.0)
        (imm_or-narrow (as_u8 i) read_u32 c'.pages (at (position c + 1)) (omega (arith, small)))
      ∙ ap₂ (λ n p. some (Instruction.i32_const n, at p)) byte end

  wide_i32_const :
      IsValid c
      → i < 2 ^ 32
      → position c' < 2 ^ 32
      → (instr_imm_8 boxes 0x41 0xFF c >>= write_32 boxes i) ≡ ok c'
      → decode c'.pages (at (position c)) ≡ some (Instruction.i32_const i, at (position c'))
  unfolding instr_imm_8 imm_or
  wide_i32_const v small room e =
      let (c1, (p, q)) = bind_ok (instr_imm_8 boxes 0x41 0xFF c) (write_32 boxes i) c' e in
      let m1 : Emitted c (bit_or (shl 16 0x41 8) 0xFF ∷ []) c1 =
        push_word-Emitted boxes c c c1 [] (bit_or (shl 16 0x41 8) 0xFF) (start c v) p in
      let m : Emitted c (bit_or (shl 16 0x41 8) 0xFF ∷ as_u16 i ∷ as_u16 (shr i 16) ∷ []) c' =
        write_32-Emitted boxes c c1 c' (bit_or (shl 16 0x41 8) 0xFF ∷ []) i m1 q in
      let end : (position c + 1) + 2 ≡ position c' = omega (arith, m.next) in
      decode_as_constant c'.pages (position c) 0xFF i (at (position c + 1))
        (at ((position c + 1) + 2)) (omega arith)
        (read-word_of c'.pages (position c) (bit_or (shl 16 0x41 8) 0xFF)
          (omega (arith, room, m.next)) m.words.0)
        (read_u32-words c'.pages (position c + 1) i small (omega (arith, room, m.next)) m.words.1)
      ∙ ap (λ p. some (Instruction.i32_const i, at p)) end

-- A constant that `instr_imm_8_or_32` emits, in one word or in three, is the constant that the interpreter
-- reads at its address, and the next instruction is read behind it.
pub decode-i32_const :
    (boxes : Boxes) (c c' : CodeBuilder) (i : ℕ)
    → IsValid c
    → i < 2 ^ 32
    → position c' < 2 ^ 32
    → instr_imm_8_or_32 boxes Opcode.i32_const i c ≡ ok c'
    → decode c'.pages (at (position c)) ≡ some (Instruction.i32_const i, at (position c'))
unfolding instr_imm_8_or_32 instr_imm_8
decode-i32_const boxes c c' i v small room e = elim (Bool-cases (ltb i 0xFF)) [
  | inl t ↦
      let step : instr_imm_8_or_32 boxes Opcode.i32_const i c ≡ instr_imm_8 boxes 0x41 (as_u8 i) c =
        rw (t, instr_imm_8_or_32) refl in
      narrow_i32_const boxes c c' i v (ltb→lt i 0xFF t) room (sym step ∙ e)
  | inr f ↦
      let step : instr_imm_8_or_32 boxes Opcode.i32_const i c
          ≡ (instr_imm_8 boxes 0x41 0xFF c >>= write_32 boxes i) =
        rw (f, instr_imm_8_or_32) refl in
      wide_i32_const boxes c c' i v small room (sym step ∙ e)
]
