-- ===== src/Interpreter/Run/Reset.antt =====
-- The engine that `InterpreterRunner::run` of src/interpreter.rs leaves.
use spacewasm.Prelude.{
  ℕ, zero, suc, ◌≡◌, inl, inr, refl, subst, false, Bool-cases, Option, none, some, ◌==◌,
}
use spacewasm.Errors.{Result, ok, err}
use spacewasm.Engine.{Engine, InterpreterBreak, TrapReason}
use spacewasm.Text.{JumpTarget}
use spacewasm.IrReader.{Code}
use spacewasm.IrReader.Decode.{Instruction, decode}
use spacewasm.Interpreter.Host.{Host}
use spacewasm.Interpreter.Execute.{execute}
use spacewasm.Interpreter.Run.{
  InterpreterResult, finished, pause, out_of_fuel, trap, Break, settle, unwind, after_visit, visit,
  run,
}

-- An engine that runs nothing.
abbrev pub IsIdle : Engine → Type 0
IsIdle e = (e.pc ≡ record { address = 0xFFFFFFFF }) × (e.sp ≡ 0) × (e.fp ≡ 0)

-- No jump is pending.
abbrev pub IsSettled : Break → Type 0
IsSettled none = Unit
IsSettled (some (finished, e)) = e.jumped ≡ false
IsSettled (some (pause, e)) = e.jumped ≡ false
IsSettled (some (trap t, e)) = e.jumped ≡ false
IsSettled (some (out_of_fuel, e)) = e.jumped ≡ false

settle-settled : (pc : JumpTarget) (e : Engine) → (settle pc e).jumped ≡ false
unfolding settle
settle-settled pc e = elim (Bool-cases e.jumped) [ inl j ↦ rw j refl | inr j ↦ rw j refl ]

after_visit-IsSettled :
    (f : Engine → Break) (pc : JumpTarget)
    → ((e : Engine) → e.jumped ≡ false → IsSettled (f e))
    → (r : Option (Result InterpreterBreak (Unit {0}) × Engine)) → IsSettled (after_visit f pc r)
unfolding after_visit unwind
after_visit-IsSettled f pc h none = tt
after_visit-IsSettled f pc h (some (ok u, e)) = h (settle pc e) (settle-settled pc e)
after_visit-IsSettled f pc h (some (err InterpreterBreak.finished, e)) = settle-settled pc e
after_visit-IsSettled f pc h (some (err InterpreterBreak.pause, e)) = settle-settled pc e
after_visit-IsSettled f pc h (some (err (InterpreterBreak.trap t), e)) = refl

visit-IsSettled :
    (h : Host) (f : Engine → Break) (e : Engine)
    → ((e : Engine) → e.jumped ≡ false → IsSettled (f e))
    → (d : Option (Instruction × JumpTarget)) → IsSettled (visit h f e d)
unfolding visit
visit-IsSettled h f e p none = tt
visit-IsSettled h f e p (some (i, pc)) = after_visit-IsSettled f pc p (execute h i e)

run-IsSettled :
    (h : Host) (code : Code) (n : ℕ) (e : Engine) → e.jumped ≡ false → IsSettled (run h code n e)
unfolding run
run-IsSettled h code zero e j = j
run-IsSettled h code (suc n) e j = elim (Bool-cases (e.pc.address == 0xFFFFFFFF)) [
  | inl c ↦ rw c j
  | inr c ↦ rw c (visit-IsSettled h (run h code n) e (run-IsSettled h code n) (decode code e.pc))
]

jumped_of : (r : InterpreterResult) (e : Engine) → IsSettled (some (r, e)) → e.jumped ≡ false
jumped_of finished e s = s
jumped_of pause e s = s
jumped_of (trap t) e s = s
jumped_of out_of_fuel e s = s

-- A run from an engine with no pending jump ends in one with no pending jump, whatever it executes.
pub run_jumped :
    (h : Host) (code : Code) (n : ℕ) (e e' : Engine) (r : InterpreterResult)
    → e.jumped ≡ false
    → run h code n e ≡ some (r, e')
    → e'.jumped ≡ false
run_jumped h code n e e' r j q = jumped_of r e' (subst IsSettled q (run-IsSettled h code n e j))

-- The engine of a trap is idle.
abbrev IsUnwound : Break → Type 0
IsUnwound none = Unit
IsUnwound (some (finished, e)) = Unit
IsUnwound (some (pause, e)) = Unit
IsUnwound (some (trap t, e)) = IsIdle e
IsUnwound (some (out_of_fuel, e)) = Unit

after_visit-IsUnwound :
    (f : Engine → Break) (pc : JumpTarget)
    → ((e : Engine) → IsUnwound (f e))
    → (r : Option (Result InterpreterBreak (Unit {0}) × Engine)) → IsUnwound (after_visit f pc r)
unfolding after_visit unwind
after_visit-IsUnwound f pc h none = tt
after_visit-IsUnwound f pc h (some (ok u, e)) = h (settle pc e)
after_visit-IsUnwound f pc h (some (err InterpreterBreak.finished, e)) = tt
after_visit-IsUnwound f pc h (some (err InterpreterBreak.pause, e)) = tt
after_visit-IsUnwound f pc h (some (err (InterpreterBreak.trap t), e)) = (refl, refl, refl)

visit-IsUnwound :
    (h : Host) (f : Engine → Break) (e : Engine)
    → ((e : Engine) → IsUnwound (f e))
    → (d : Option (Instruction × JumpTarget)) → IsUnwound (visit h f e d)
unfolding visit
visit-IsUnwound h f e p none = tt
visit-IsUnwound h f e p (some (i, pc)) = after_visit-IsUnwound f pc p (execute h i e)

run-IsUnwound : (h : Host) (code : Code) (n : ℕ) (e : Engine) → IsUnwound (run h code n e)
unfolding run
run-IsUnwound h code zero e = tt
run-IsUnwound h code (suc n) e = elim (Bool-cases (e.pc.address == 0xFFFFFFFF)) [
  | inl c ↦ rw c tt
  | inr c ↦ rw c (visit-IsUnwound h (run h code n) e (run-IsUnwound h code n) (decode code e.pc))
]

-- A run that traps leaves an idle engine, whatever it started from: the program counter is the sentinel, the
-- stack is empty and no frame is open.
pub run_trapped :
    (h : Host) (code : Code) (n : ℕ) (e e' : Engine) (t : TrapReason)
    → run h code n e ≡ some (trap t, e')
    → IsIdle e'
run_trapped h code n e e' t q = subst IsUnwound q (run-IsUnwound h code n e)
