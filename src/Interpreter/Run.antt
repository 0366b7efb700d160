-- ===== src/Interpreter/Run.antt =====
-- `InterpreterRunner::run` of src/interpreter.rs: a number of instructions, until one breaks.
pub mod Fuel
pub mod Reset
use spacewasm.Prelude.{ℕ, zero, suc, Bool, true, false, Option, none, some, ◌==◌, if◌then◌else◌}
use spacewasm.Errors.{Result, ok, err}
use spacewasm.Engine.{Engine, TrapReason, InterpreterBreak}
use spacewasm.Text.{JumpTarget}
use spacewasm.IrReader.{Code}
use spacewasm.IrReader.Decode.{Instruction, decode}
use spacewasm.Interpreter.Host.{Host}
use spacewasm.Interpreter.Execute.{execute}

pub data InterpreterResult : Type 0 where
  finished pause out_of_fuel : InterpreterResult
  trap : TrapReason → InterpreterResult

-- A jump has set the program counter; otherwise it goes behind the instruction.
unfoldable pub settle : JumpTarget → Engine → Engine
settle pc e = if e.jumped then record e { jumped = false } else record e { pc = pc }

-- What a trap resets.
unfoldable pub unwind : Engine → Engine
unwind e = record e { sp = 0; pc = record { address = 0xFFFFFFFF }; fp = 0; jumped = false }

abbrev pub Break : Type 0
Break = Option (InterpreterResult × Engine)

-- The `match` on the result of a visit; `loop` is what follows an `Ok`.
unfoldable pub after_visit :
    (Engine → Break) → JumpTarget → Option (Result InterpreterBreak (Unit {0}) × Engine) → Break
after_visit loop pc none = none
after_visit loop pc (some (ok u, e)) = loop (settle pc e)
after_visit loop pc (some (err InterpreterBreak.finished, e)) =
    some (InterpreterResult.finished, settle pc e)
after_visit loop pc (some (err InterpreterBreak.pause, e)) =
    some (InterpreterResult.pause, settle pc e)
after_visit loop pc (some (err (InterpreterBreak.trap t), e)) =
    some (InterpreterResult.trap t, unwind (settle pc e))

unfoldable pub visit : Host → (Engine → Break) → Engine → Option (Instruction × JumpTarget) → Break
visit h loop e none = none
visit h loop e (some (i, pc)) = after_visit loop pc (execute h i e)

unfoldable pub run : Host → Code → ℕ → Engine → Break
run h code zero e = some (InterpreterResult.out_of_fuel, e)
run h code (suc n) e =
    if e.pc.address == 0xFFFFFFFF
    then some (InterpreterResult.finished, e)
    else visit h (run h code n) e (decode code e.pc)
