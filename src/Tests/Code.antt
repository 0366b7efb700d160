-- ===== src/Tests/Code.antt =====
-- Words pushed to the code store, and an instruction emitted and read back.
use spacewasm.Prelude.{
  ℕ, ◌≡◌, inr, refl, true, none, some, [], ◌∷◌, set, replicate, length-replicate, arith,
}
use spacewasm.Errors.{ok}
use spacewasm.Text.{CodeBuilder, push, add_page, put}
use spacewasm.Text.Pages.{IsValid, Grown, position, push-Grown}
use spacewasm.Text.Emit.{Boxes, instr_imm_8_or_32, instr_imm_8, write_32, push_word}
use spacewasm.Opcode
use spacewasm.IrReader.RoundTrip.{at}
use spacewasm.IrReader.Decode.{Instruction, decode}
use spacewasm.IrReader.Constants.{decode-i32_const}

-- One full page.
abbrev full_page : CodeBuilder
full_page = record {
  pages = replicate 256 0 ∷ [];
  offset = 256;
  options = record {
    allow_memory_grow = true;
    max_backpatch_iterations = none;
    max_code_pages = 4;
  };
}

full_page-IsValid : IsValid full_page
full_page-IsValid = record {
  full = (length-replicate {A = ℕ} 256 0, tt);
  offset_in = omega arith;
  empty_start = inr (omega arith);
}

-- The word goes to a new page.
abbrev second_page : CodeBuilder
second_page = record full_page {
  pages = replicate 256 0 ∷ set (replicate 256 0) 0 5 ∷ [];
  offset = 1;
}

pushed : push (ok tt) full_page 5 ≡ ok second_page
unfolding push add_page put
pushed = refl

push-Grown_example : Grown full_page.pages (position full_page) 5 second_page
push-Grown_example = push-Grown (ok tt) full_page second_page 5 full_page-IsValid pushed

abbrev boxes : Boxes
boxes n = ok tt

-- `i32.const 70000` takes three words.
abbrev constant : CodeBuilder
constant = record full_page {
  pages = replicate 256 0 ∷ (0x41FF ∷ 4464 ∷ 1 ∷ replicate 253 0) ∷ [];
  offset = 3;
}

emitted : instr_imm_8_or_32 boxes Opcode.i32_const 70000 full_page ≡ ok constant
unfolding instr_imm_8_or_32 instr_imm_8 write_32 push_word push add_page put
emitted = refl

decode-i32_const_example :
    decode constant.pages (at (position full_page))
    ≡ some (Instruction.i32_const 70000, at (position constant))
decode-i32_const_example =
    decode-i32_const boxes full_page constant 70000 full_page-IsValid (omega arith) (omega arith)
      emitted
