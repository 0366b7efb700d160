-- ===== src/Tests/Locals.antt =====
-- A function with 200 parameters and 65,500 locals in two runs, which the limits on a function body allow.
use spacewasm.Prelude.{
  ◌+◌, ◌<◌, ◌≡◌, refl, none, [], ◌∷◌, length, length-replicate, replicate, arith,
}
use spacewasm.Errors.{ValidationError, err}
use spacewasm.Types.{i32, FuncType}
use spacewasm.Engine.{Func}
use spacewasm.Text.Locals.{get_local, count_locals, get_local_wraps}

abbrev wide : FuncType
wide = record { params = replicate 200 i32; returns = [] }

abbrev many_locals : Func
many_locals = record {
  ty = 0;
  stack_usage = 4;
  local_size = 65500;
  parameter_size = 200;
  return_ty = none;
  locals = (100, i32) ∷ (65400, i32) ∷ [];
  expr = record { address = 0 };
}

get_local_wraps_example :
    (305 < length wide.params + count_locals many_locals.locals)
    × (get_local (wide ∷ []) many_locals 305 ≡ err ValidationError.local_idx_out_of_range)
get_local_wraps_example =
    get_local_wraps (wide ∷ []) many_locals 305 wide ((100, i32) ∷ []) 65400 i32 refl refl
      (omega arith) (omega arith) (omega (arith, length-replicate 200 i32))
      (omega (arith, length-replicate 200 i32)) (omega (arith, length-replicate 200 i32))
