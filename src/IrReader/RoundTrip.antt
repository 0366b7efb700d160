-- ===== src/IrReader/RoundTrip.antt =====
-- Instructions that src/text.rs emits, read back by src/ir_reader.rs.
use spacewasm.Prelude.{
  ℕ, ◌+◌, ◌*◌, ◌/◌, ◌%◌, ◌^◌, ◌<◌, ◌≡◌, refl, ◌∙◌, ap, Option, none, some, List, [], ◌∷◌, ◌++◌,
  length, length-append, get_elem?, arith, as_u16, as_u32, shl, shr, bit_or, bit_and,
}
use spacewasm.Prelude.Bits.{bit_or_low, bit_or_high, bit_and_mask}
use spacewasm.Errors.{ok}
use spacewasm.Memory.Valid.{bind_ok}
use spacewasm.Text.{CodeBuilder, JumpTarget, page, offset, add_words}
use spacewasm.Text.Pages.{IsValid, Grown, position, word_of, word_in, push-Grown}
use spacewasm.Text.Emit.{Boxes, push_word, write_32}
use spacewasm.IrReader.{Code, read, read_u32, word_at}
use spacewasm.IrReader.Decode.{decode, decode_control, decode_variable, decode_numeric}

abbrev pub at : ℕ → JumpTarget
at a = record { address = a }

low_byte : (a : ℕ) → bit_and a 0xFF ≡ a % 256
low_byte a = bit_and_mask 8 a

-- A word of the pages is the one that the reader finds at its address.
pub read-word_of :
    (pages : Code) (a w : ℕ)
    → a + 1 < 2 ^ 32
    → word_of pages a ≡ some w
    → read pages (at a) ≡ some (w, at (a + 1))
unfolding read page offset add_words
read-word_of pages a w small h =
    let next : as_u32 (a + 1) ≡ a + 1 = omega (arith, small) in
    let found : word_at (get_elem? pages (a / 2 ^ 8)) (bit_and a 0xFF) ≡ some w =
      ap (λ o. word_at (get_elem? pages (a / 256)) o) (low_byte a)
      ∙ same (get_elem? pages (a / 256)) (a % 256)
      ∙ h in
    rw (found, next) refl
  where
    same : (p : Option (List ℕ)) (o : ℕ) → word_at p o ≡ word_in p o
    same none o = refl
    same (some ws) o = refl

-- Words from an address on.
abbrev pub Reads : Code → ℕ → List ℕ → Type 0
Reads pages a [] = Unit
Reads pages a (w ∷ ws) = (word_of pages a ≡ some w) × Reads pages (a + 1) ws

-- The words that have been pushed since the builder `c`.
pub record Emitted (c : CodeBuilder) (ws : List ℕ) (c' : CodeBuilder) : Type 0 where
  pub valid : IsValid c'
  pub next : position c' ≡ position c + length ws
  pub words : Reads c'.pages (position c) ws

Reads-push :
    (pages : Code) (a at w : ℕ) (ws : List ℕ) (c' : CodeBuilder)
    → Grown pages at w c'
    → at ≡ a + length ws
    → Reads pages a ws
    → Reads c'.pages a (ws ++ (w ∷ []))
Reads-push pages a at w [] c' g e h =
    let z : a ≡ at = omega (arith, e) in (ap (word_of c'.pages) z ∙ g.written, tt)
Reads-push pages a at w (x ∷ ws) c' g e h = (
  g.kept a (omega (arith, e)) ∙ h.0,
  Reads-push pages (a + 1) at w ws c' g (omega (arith, e)) h.1,
)

pub start : (c : CodeBuilder) → IsValid c → Emitted c [] c
start c v = record { valid = v; next = omega arith; words = tt }

pub push_word-Emitted :
    (boxes : Boxes) (c c1 c2 : CodeBuilder) (ws : List ℕ) (w : ℕ)
    → Emitted c ws c1
    → push_word boxes w c1 ≡ ok c2
    → Emitted c (ws ++ (w ∷ [])) c2
unfolding push_word
push_word-Emitted boxes c c1 c2 ws w h e =
    let g : Grown c1.pages (position c1) w c2 =
      push-Grown (boxes (length c1.pages)) c1 c2 w h.valid e in
    record {
      valid = g.valid;
      next = omega (arith, g.next, h.next, length-append ws (w ∷ []));
      words = Reads-push c1.pages (position c) (position c1) w ws c2 g h.next h.words;
    }

-- The first word of an instruction holds its opcode and its immediate.
header : (op imm : ℕ) → op < 256 → imm < 256 → bit_or (shl 16 op 8) imm ≡ op * 256 + imm
header op imm i j =
    let e : shl 16 op 8 ≡ op * 2 ^ 8 = omega (arith, i) in
    ap (λ t. bit_or t imm) e ∙ bit_or_low 8 op imm j

pub decode-header :
    (code : Code) (a op imm : ℕ) (next : JumpTarget)
    → op < 256
    → imm < 256
    → read code (at a) ≡ some (bit_or (shl 16 op 8) imm, next)
    → decode code (at a)
      ≡ decode_control op imm (decode_variable op imm (decode_numeric op imm)) code next
unfolding decode
decode-header code a op imm next i j h =
    let first : read code (at a) ≡ some (op * 256 + imm, next) =
      h ∙ ap (λ w. some (w, next)) (header op imm i j) in
    let o : (op * 256 + imm) / 2 ^ 8 ≡ op = omega (arith, j) in
    let m : bit_and (op * 256 + imm) 0xFF ≡ imm = low_byte (op * 256 + imm) ∙ omega (arith, j) in
    rw (first, o, m) refl

pub read_u32-words :
    (code : Code) (a i : ℕ)
    → i < 2 ^ 32
    → a + 2 < 2 ^ 32
    → Reads code a (as_u16 i ∷ as_u16 (shr i 16) ∷ [])
    → read_u32 code (at a) ≡ some (i, at (a + 2))
unfolding read_u32
read_u32-words code a i small room h =
    let two : (a + 1) + 1 ≡ a + 2 = omega arith in
    let high : shl 32 (as_u16 (shr i 16)) 16 ≡ i / 2 ^ 16 * 2 ^ 16 = omega (arith, small) in
    let value : bit_or (as_u16 i) (shl 32 (as_u16 (shr i 16)) 16) ≡ i =
      ap (bit_or (as_u16 i)) high
      ∙ bit_or_high 16 (as_u16 i) (i / 2 ^ 16) (omega arith)
      ∙ omega arith in
    rw
      (
        read-word_of code a (as_u16 i) (omega (arith, room)) h.0,
        read-word_of code (a + 1) (as_u16 (shr i 16)) (omega (arith, room)) h.1.0,
        value,
        two,
      )
      refl

pub write_32-Emitted :
    (boxes : Boxes) (c c1 c2 : CodeBuilder) (ws : List ℕ) (i : ℕ)
    → Emitted c ws c1
    → write_32 boxes i c1 ≡ ok c2
    → Emitted c ((ws ++ (as_u16 i ∷ [])) ++ (as_u16 (shr i 16) ∷ [])) c2
unfolding write_32
write_32-Emitted boxes c c1 c2 ws i h e =
    let (x, (p, q)) =
      bind_ok (push_word boxes (as_u16 i) c1) (push_word boxes (as_u16 (shr i 16))) c2 e in
    push_word-Emitted boxes c x c2 (ws ++ (as_u16 i ∷ [])) (as_u16 (shr i 16))
      (push_word-Emitted boxes c c1 x ws (as_u16 i) h p) q
