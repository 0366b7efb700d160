-- ===== src/Interpreter/Run/Fuel.antt =====
-- The number of instructions given to `InterpreterRunner::run` of src/interpreter.rs.
use spacewasm.Prelude.{
  ℕ, zero, suc, ◌+◌, ◌≡◌, inl, inr, refl, ◌∙◌, ap, Bool-cases, Option, none, some, ◌==◌, arith,
}
use spacewasm.Errors.{Result, ok, err}
use spacewasm.Engine.{Engine, InterpreterBreak}
use spacewasm.Text.{JumpTarget}
use spacewasm.IrReader.{Code}
use spacewasm.IrReader.Decode.{Instruction, decode}
use spacewasm.Interpreter.Host.{Host}
use spacewasm.Interpreter.Execute.{execute}
use spacewasm.Interpreter.Run.{
  finished, pause, out_of_fuel, trap, Break, settle, after_visit, visit, run,
}

-- What `k` makes of the engine where a run is out of fuel; the other ends stay.
abbrev pub refuel : (Engine → Break) → Break → Break
refuel k none = none
refuel k (some (finished, e)) = some (finished, e)
refuel k (some (pause, e)) = some (pause, e)
refuel k (some (trap t, e)) = some (trap t, e)
refuel k (some (out_of_fuel, e)) = k e

after_visit-refuel :
    (k f g : Engine → Break) (pc : JumpTarget)
    → ((e : Engine) → f e ≡ refuel k (g e))
    → (r : Option (Result InterpreterBreak (Unit {0}) × Engine))
    → after_visit f pc r ≡ refuel k (after_visit g pc r)
unfolding after_visit
after_visit-refuel k f g pc h none = refl
after_visit-refuel k f g pc h (some (ok u, e)) = h (settle pc e)
after_visit-refuel k f g pc h (some (err InterpreterBreak.finished, e)) = refl
after_visit-refuel k f g pc h (some (err InterpreterBreak.pause, e)) = refl
after_visit-refuel k f g pc h (some (err (InterpreterBreak.trap t), e)) = refl

visit-refuel :
    (h : Host) (k f g : Engine → Break) (e : Engine)
    → ((e : Engine) → f e ≡ refuel k (g e))
    → (d : Option (Instruction × JumpTarget)) → visit h f e d ≡ refuel k (visit h g e d)
unfolding visit
visit-refuel h k f g e same none = refl
visit-refuel h k f g e same (some (i, pc)) = after_visit-refuel k f g pc same (execute h i e)

-- A run of `m + n` instructions is a run of `m` that goes on with `n` more where it is out of fuel, for any
-- engine, code and host: what a run does, does not depend on how the fuel is handed out.
pub run-add :
    (h : Host) (code : Code) (m n : ℕ) (e : Engine)
    → run h code (m + n) e ≡ refuel (run h code n) (run h code m e)
unfolding run
run-add h code zero n e = let z : 0 + n ≡ n = omega arith in ap (λ k. run h code k e) z
run-add h code (suc m) n e =
    let z : suc m + n ≡ suc (m + n) = omega arith in
    ap (λ k. run h code k e) z ∙ elim (Bool-cases (e.pc.address == 0xFFFFFFFF)) [
      | inl c ↦ rw c refl
      | inr c ↦ rw c (
          visit-refuel h (run h code n) (run h code (m + n)) (run h code m) e (run-add h code m n)
            (decode code e.pc))
    ]
