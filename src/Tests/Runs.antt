-- ===== src/Tests/Runs.antt =====
-- Runs of small programs, refused entries, and instructions on concrete operands.
use spacewasm.Prelude.{◌+◌, ◌≡◌, refl, true, false, none, some, [], ◌∷◌, arith}
use spacewasm.Errors.{err}
use spacewasm.Types.{i32}
use spacewasm.Stack.Words.{IsStack}
use spacewasm.Stack
use spacewasm.Text.{page, offset, add_words}
use spacewasm.Engine
use spacewasm.Engine.{Engine, Module, Store, TrapReason, M, pure, break, grow_words, push_u32}
use spacewasm.IrReader.{Code, read}
use spacewasm.IrReader.Decode.{
  decode, decode_control, decode_variable, decode_numeric, is_access, is_plain, imm_or,
}
use spacewasm.Interpreter.Numeric.Operands.{Holds}
use spacewasm.Interpreter.Host.{Host}
use spacewasm.Interpreter.Access.{i32_const}
use spacewasm.Interpreter.Execute.{execute, execute_plain}
use spacewasm.Interpreter.Run.{InterpreterResult, run, visit, after_visit, settle, unwind}
use spacewasm.Interpreter.Run.Fuel.{refuel, run-add}
use spacewasm.Interpreter.Run.Reset.{IsIdle, run_jumped, run_trapped}
use spacewasm.Interpreter.Invoke.{InvokeError, ResumeError, invoke, resume, resume_with}
use spacewasm.Interpreter.Invoke.Rejections.{resume_err, invoke_err}

-- A program at address 0 with five words in use.
abbrev engine : Engine
engine = record {
  pc = record { address = 0 };
  jumped = false;
  fp = 0;
  sp = 5;
  stack = record { words = 9 ∷ 9 ∷ 0 ∷ 7 ∷ 2 ∷ 0 ∷ 0 ∷ []; size = 7 };
  memory = 0;
  table = [];
  module_ref = 0;
  store = record { modules = []; memories = [] };
  host_pause_result = none;
  result = none;
}

five : Holds engine 4
unfolding IsStack
five = record { stack_sized = refl; operands = omega arith; in_stack = omega arith }

-- `i32.const 20`, `unreachable`.
abbrev code : Code
code = (0x4114 ∷ 0 ∷ []) ∷ []

abbrev host : Host
host = record {
  functions = λ r i. none;
  globals = λ r i. none;
  is_unique = λ e r. true;
  float_instruction = λ o i. pure tt;
}

run-add_example : run host code (1 + 1) engine ≡ refuel (run host code 1) (run host code 1 engine)
run-add_example = run-add host code 1 1 engine

abbrev trapped : Engine
trapped = record engine {
  pc = record { address = 0xFFFFFFFF };
  sp = 0;
  stack = record { words = 9 ∷ 9 ∷ 0 ∷ 7 ∷ 2 ∷ 20 ∷ 0 ∷ []; size = 7 };
}

traps : run host code 2 engine ≡ some (InterpreterResult.trap TrapReason.unreachable, trapped)
unfolding run visit after_visit settle unwind decode read page offset add_words decode_control
    decode_variable decode_numeric is_access is_plain imm_or execute execute_plain i32_const
    push_u32 Engine.write_u32 Stack.write_u32 Stack.check_bounds grow_words
traps = refl

run_jumped_example : trapped.jumped ≡ false
run_jumped_example =
    run_jumped host code 2 engine trapped (InterpreterResult.trap TrapReason.unreachable) refl traps

run_trapped_example : IsIdle trapped
run_trapped_example = run_trapped host code 2 engine trapped TrapReason.unreachable traps

-- A pause that waits for an `i32` is not resumed without a value.
abbrev paused : Engine
paused = record engine { host_pause_result = some (some i32) }

mismatch : resume none paused ≡ some (err ResumeError.result_type_mismatch, paused)
unfolding resume resume_with
mismatch = refl

resume_err_example : paused ≡ paused
resume_err_example = resume_err none paused paused ResumeError.result_type_mismatch mismatch

busy : invoke 0 0 [] engine ≡ some (err InvokeError.busy, engine)
unfolding invoke
busy = refl

invoke_err_example :
    (engine.pc ≡ engine.pc)
    × (engine.sp ≡ 5)
    × (engine.fp ≡ 0)
    × (engine.module_ref ≡ 0)
    × (engine.store ≡ engine.store)
    × (engine.host_pause_result ≡ none)
invoke_err_example = invoke_err 0 0 [] engine engine InvokeError.busy busy
