-- ===== src/Tests/Jumps.antt =====
-- A block with two jumps to its end.
use spacewasm.Prelude.{◌≡◌, refl, true, some, [], ◌∷◌, replicate, arith}
use spacewasm.Errors.{ValidationError, Result}
use spacewasm.Text.{CodeBuilder, JumpTarget, backpatch}
use spacewasm.Text.Patches.{patch_to}
use spacewasm.Text.Chains.{Jumps}
use spacewasm.Text.Limits.{backpatch_ends}

-- `br 0` twice: the second label holds the way back to the first.
abbrev code : CodeBuilder
code = record {
  pages = (0x0C00 ∷ 0 ∷ 0 ∷ 0x0C00 ∷ 0xFFFD ∷ 0x3F ∷ replicate 250 0) ∷ [];
  offset = 6;
  options = record {
    allow_memory_grow = true;
    max_backpatch_iterations = some 5;
    max_code_pages = 4;
  };
}

abbrev end_of : JumpTarget
end_of = record { address = 6 }

abbrev first : Jumps
first = (record { address = 1 }, 0) ∷ []

-- Two labels that lead to each other.
abbrev cycle : CodeBuilder
cycle = record code { pages = (0x0C00 ∷ 3 ∷ 0 ∷ 0x0C00 ∷ 0xFFFD ∷ 0x3F ∷ replicate 250 0) ∷ [] }

backpatch_ends_example :
    (r : Result ValidationError (CodeBuilder × Unit {0})) × (backpatch 6 tt cycle
        (record { address = 4 })
        (patch_to end_of)
      ≡ some r)
backpatch_ends_example =
    backpatch_ends 6 5 cycle (record { address = 4 }) end_of refl (omega arith) (omega arith)
