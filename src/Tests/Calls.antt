-- ===== src/Tests/Calls.antt =====
-- A call from one module to another and back, on a small stack.
use spacewasm.Prelude.{
  ℕ, ◌+◌, ◌-◌, ◌^◌, ◌<◌, ◌≡◌, refl, false, none, some, List, [], ◌∷◌, replicate, set, arith,
}
use spacewasm.Errors.{ok, err}
use spacewasm.Types.{i32}
use spacewasm.Memory.{zero_memory}
use spacewasm.Stack.{write_u32, check_bounds, len}
use spacewasm.Stack.Words.{IsStack}
use spacewasm.Text.{add_words}
use spacewasm.Engine
use spacewasm.Engine.{
  Engine, Func, Module, Store, TrapReason, trap, get_memory, get_table, memory_of, table_of,
  enter_context, get_func, below_top, grow_words,
}
use spacewasm.Engine.View.{word}
use spacewasm.Interpreter.{
  CallFrame, call_impl, call_impl_enter_module, push_frame, zero_locals, return_, into_bits,
  from_bits,
}
use spacewasm.Interpreter.Frames.{entered, from_bits-into_bits}
use spacewasm.Interpreter.Context.{in_context}
use spacewasm.Interpreter.Calls.{
  Caller, Callee, Finished, delta, called_word, returned_word, call_overflows,
  call_impl_enter_module_lem,
}
use spacewasm.Interpreter.Calls.Return.{return_call}

abbrev frame : CallFrame
frame = record { frame_length = 300; module_delta = 255; parameter_size = 4 }

from_bits-into_bits_example : (from_bits (into_bits frame) ≡ frame) × (into_bits frame < 2 ^ 32)
from_bits-into_bits_example = from_bits-into_bits frame (omega arith) (omega arith) (omega arith)

abbrev callee : Func
callee = record {
  ty = 0;
  stack_usage = 4;
  local_size = 1;
  parameter_size = 1;
  return_ty = some i32;
  locals = (1, i32) ∷ [];
  expr = record { address = 100 };
}

abbrev module_of : List Func → Module
module_of fs = record {
  imports = [];
  types = [];
  functions = fs;
  table = none;
  memory = none;
  globals = [];
}

-- Module 0 runs with `n` words of stack in use.
abbrev caller : ℕ → Engine
caller n = record {
  pc = record { address = 10 };
  jumped = false;
  fp = 0;
  sp = n;
  stack = record { words = replicate 20 7; size = 20 };
  memory = 0;
  table = [];
  module_ref = 0;
  store = record {
    modules = module_of [] ∷ module_of (callee ∷ []) ∷ [];
    memories = zero_memory ∷ [];
  };
  host_pause_result = none;
  result = none;
}

low : Caller (caller 3)
unfolding IsStack get_memory memory_of get_table table_of
low = record {
  stack_sized = refl;
  frame_open = omega arith;
  frame_small = omega arith;
  address_small = omega arith;
  running = λ q. omega (arith, q);
  module_small = omega arith;
  own_context = record { memory_found = refl; table_found = refl };
}

high : Caller (caller 18)
unfolding IsStack get_memory memory_of get_table table_of
high = record {
  stack_sized = refl;
  frame_open = omega arith;
  frame_small = omega arith;
  address_small = omega arith;
  running = λ q. omega (arith, q);
  module_small = omega arith;
  own_context = record { memory_found = refl; table_found = refl };
}

low_callee : Callee (caller 3) 1 0 callee 0 []
unfolding get_memory memory_of get_table table_of
low_callee = record {
  module_small = omega arith;
  context = record { memory_found = refl; table_found = refl };
  m = module_of (callee ∷ []);
  module_found = refl;
  func_found = refl;
  parameter_small = omega arith;
  params_there = omega arith;
}

high_callee : Callee (caller 18) 1 0 callee 0 []
unfolding get_memory memory_of get_table table_of
high_callee = record {
  module_small = omega arith;
  context = record { memory_found = refl; table_found = refl };
  m = module_of (callee ∷ []);
  module_found = refl;
  func_found = refl;
  parameter_small = omega arith;
  params_there = omega arith;
}

call_overflows_example :
    call_impl_enter_module 1 0 (caller 18)
    ≡ some (err (trap TrapReason.stack_overflow), in_context (caller 18) 1 0 [])
call_overflows_example = call_overflows (caller 18) 1 0 callee 0 [] high high_callee (omega arith)

call_impl_enter_module_lem_example :
    (e1 : Engine) × ((call_impl_enter_module 1 0 (caller 3) ≡ some (ok tt, e1))
      × (e1.pc ≡ callee.expr)
      × (e1.fp ≡ 3)
      × (e1.sp ≡ 3 + 2 + 1)
      × (e1.module_ref ≡ 1)
      × (e1.memory ≡ 0)
      × (e1.table ≡ [])
      × ((k : ℕ) → word e1 k ≡ called_word (caller 3) 1 callee k))
call_impl_enter_module_lem_example =
    call_impl_enter_module_lem (caller 3) 1 0 callee 0 [] low low_callee (omega arith)

abbrev inside : Engine
inside = entered (delta (caller 3) 1) callee (in_context (caller 3) 1 0 [])

called : call_impl_enter_module 1 0 (caller 3) ≡ some (ok tt, inside)
unfolding call_impl_enter_module enter_context get_memory memory_of get_table table_of call_impl
    get_func push_frame below_top Engine.write_u32 write_u32 check_bounds zero_locals grow_words len
called = refl

-- The callee has put its result on the stack.
abbrev done : Engine
done = record inside {
  pc = record { address = 120 };
  sp = 7;
  stack = record (inside.stack) { words = set inside.stack.words 6 42 };
}

finished : Finished (caller 3) inside done 1 0 []
unfolding IsStack get_memory memory_of get_table table_of
finished = record {
  stack_sized = refl;
  same_frame = refl;
  frame_kept = refl;
  return_kept = refl;
  same_module = refl;
  own_context = record { memory_found = refl; table_found = refl };
  caller_context = record { memory_found = refl; table_found = refl };
  results_there = omega arith;
  in_stack = omega arith;
}

return_call_example :
    (e3 : Engine) × ((return_ 1 done ≡ some (ok tt, e3))
      × (e3.pc ≡ add_words (record { address = 10 }) 2)
      × (e3.fp ≡ 0)
      × (e3.sp ≡ 3 - 1 + 1)
      × (e3.module_ref ≡ 0)
      × (e3.memory ≡ 0)
      × (e3.table ≡ [])
      × ((k : ℕ) → word e3 k ≡ returned_word done 1 (3 - 1) k))
return_call_example =
    return_call (caller 3) inside done 1 0 callee 0 [] 1 0 [] low low_callee (omega arith) called
      finished
