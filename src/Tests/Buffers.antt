-- ===== src/Tests/Buffers.antt =====
-- Runs of the ring buffer of src/util/circular_buffer.rs.
use spacewasm.Prelude.{ℕ, ◌≡◌, List, [], ◌∷◌, arith}
use spacewasm.CircularBuffer.{new, capacity}
use spacewasm.CircularBuffer.Refine.{new-Holds}
use spacewasm.CircularBuffer.Deque.{
  Op, push_op, pop_front_op, pop_back_op, get_op, clear_op, run, spec_run, run_refines,
}

-- A third `push` into two slots forgets the first.
abbrev script : List (Op ℕ)
script =
    push_op 1
    ∷ push_op 2
    ∷ push_op 3
    ∷ get_op 0
    ∷ pop_back_op
    ∷ pop_front_op
    ∷ clear_op
    ∷ pop_front_op
    ∷ []

run_refines_example : run (new 2) script ≡ spec_run (capacity (new {A = ℕ} 2)) [] script
run_refines_example = run_refines script (new 2) [] (new-Holds 2 (omega arith))
