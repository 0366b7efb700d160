-- ===== src/Tests/Compiles.antt =====
-- A function body read, validated and compiled, and its instructions executed.
use spacewasm.Prelude.{
  ◌+◌, ◌*◌, ◌^◌, ◌≤◌, ◌<◌, ◌≡◌, refl, true, false, Option, none, some, List, [], ◌∷◌, replicate,
  get_elem?, arith,
}
use spacewasm.Errors.{ValidationError, Result, ok, err}
use spacewasm.Types.{ValType, i32}
use spacewasm.Memory.{zero_memory}
use spacewasm.Stack.Words.{IsStack}
use spacewasm.Text
use spacewasm.Text.{CodeBuilder, JumpTarget, push, add_page, put, backpatch, page_and_offset}
use spacewasm.Text.Emit.{instr, instr_imm_8, instr_imm_8_or_32, push_word}
use spacewasm.Text.Branches.{
  pop_control, leave_frame, pop_frame, patch_end, patch_kind, backpatch_to, pc,
}
use spacewasm.Text.Builder.{known, TextBuilder, Scope, push_frame, emit, with_code}
use spacewasm.Text.Operands.{
  new, started, push_control, mark_unreachable, mark_frame, truncate, validate, pop_types,
  push_types, pop_stack, pop_stack_t, pop_value, agree, control_frame_stack_len, frame_height,
  is_unreachable, push_stack, raise_highwater, stack_height, bottom_up, count_words,
  pop_result_type, last_frame,
}
use spacewasm.Reader
use spacewasm.Reader.{
  Reader, chunk, read_u8, peek_u8, byte_or, fill_buffer, fill_from, fetch_chunk, give_back,
  return_chunk, accept_answer, copy_chunk, push_all, stream_read, bytes_remaining, stream_return,
  next_answer, front_or_eof, take_front,
}
use spacewasm.Reader.Leb.{read_i32, signed_groups, signed_group, add_group, sign_extended}
use spacewasm.CircularBuffer
use spacewasm.Compiler.{i32_const, instruction, plain, with_imm}
use spacewasm.Compiler.Control.{finish, emit_return, unreachable}
use spacewasm.Code.{lookup}
use spacewasm.Engine.{Engine, Func, Module, fault}
use spacewasm.Engine.Imports.{Import}
use spacewasm.Modules.{Ref, get_func_ref}
use spacewasm.Modules.Index.{func_refs, own_refs, func_space, get_func_ref_lem}
use spacewasm.Opcode
use spacewasm.Code.Read.{
  read_code, read_code_loop, read_instruction, read_simple, read_end, go_on, read_index,
  read_memory, read_operand,
}
use spacewasm.Soundness.{
  Straight, operator, const_32, compile, handler, handled, run_all, compile-Lands,
}
use spacewasm.Interpreter.Host.{Host}
use spacewasm.Interpreter.Numeric.Effects.{Lands}
use spacewasm.Text.Operands.Typing.{knowns, words}
use spacewasm.Text.Operands.Accepts.{validate_accepts}
use spacewasm.Text.Operands.Valid.{IsValid}
use spacewasm.Code.Usage.{read_code-IsValid, new-IsValid, read_expr_usage}
use spacewasm.Code.Rounds.{Rounds, read_code_loop-Rounds}
use spacewasm.Code.Functions.{read_expr}

abbrev no_code : CodeBuilder
no_code = record {
  pages = [];
  offset = 0;
  options = record {
    allow_memory_grow = true;
    max_backpatch_iterations = none;
    max_code_pages = 4;
  };
}

-- A function without parameters that returns an `i32`.
abbrev func : Func
func = record {
  ty = 0;
  stack_usage = 0;
  local_size = 0;
  parameter_size = 0;
  return_ty = some i32;
  locals = [];
  expr = record { address = 0 };
}

abbrev scope : Scope
scope = record {
  modules = [];
  host_modules = [];
  this = record {
    imports = [];
    types = record { params = []; returns = i32 ∷ [] } ∷ [];
    functions = func ∷ [];
    table = none;
    memory = none;
    globals = [];
  };
  func = func;
  max_control_frames = 8;
  max_stack_depth = 16;
  boxes = λ n. ok tt;
  fuel = 3;
}

abbrev start : TextBuilder
start = new scope no_code

-- `i32.const 5`, `i32.const 3`, `i32.sub`.
abbrev difference : List Straight
difference = const_32 5 ∷ const_32 3 ∷ operator Opcode.i32_sub ∷ []

abbrev builder_of :
    Option (Result ValidationError (Unit {0} × TextBuilder)) → TextBuilder → TextBuilder
builder_of none s = s
builder_of (some (err e)) s = s
builder_of (some (ok (u, s'))) s = s'

abbrev body_of :
    Option (Result ValidationError (Unit {0} × TextBuilder) × Reader) → TextBuilder → TextBuilder
body_of none s = s
body_of (some (err e, r)) s = s
body_of (some (ok (u, s'), r)) s = s'

abbrev reader_of :
    Option (Result ValidationError (Unit {0} × TextBuilder) × Reader) → Reader → Reader
reader_of none r = r
reader_of (some (x, r')) r = r'

-- The body `unreachable`, `end`: in code that is not reached the missing result is no error.
abbrev reader : Reader
reader = Reader.new (record { answers = chunk (0x00 ∷ 0x0B ∷ []) ∷ []; returned = [] })

abbrev compiled : TextBuilder
compiled = builder_of (compile difference scope start) start

accepted : compile difference scope start ≡ some (ok (tt, compiled))
unfolding compile handler handled new started push_control push_frame lookup i32_const validate
    pop_types push_types pop_stack pop_stack_t pop_value agree control_frame_stack_len frame_height
    is_unreachable push_stack raise_highwater stack_height bottom_up count_words emit with_code
    instr_imm_8_or_32 instr_imm_8 push_word push add_page put instruction plain instr
accepted = refl

reserved : compiled.stack_highwater ≡ 2
unfolding compile handler handled new started push_control push_frame lookup i32_const validate
    pop_types push_types pop_stack pop_stack_t pop_value agree control_frame_stack_len frame_height
    is_unreachable push_stack raise_highwater stack_height bottom_up count_words emit with_code
    instr_imm_8_or_32 instr_imm_8 push_word push add_page put instruction plain instr
reserved = refl

abbrev compiled_body : TextBuilder
compiled_body = body_of (read_code scope.fuel scope reader start) start

abbrev reader_after : Reader
reader_after = reader_of (read_code scope.fuel scope reader start) reader

body_accepted :
    read_code scope.fuel scope reader start ≡ some (ok (tt, compiled_body), reader_after)
unfolding unreachable mark_unreachable mark_frame truncate read_code read_code_loop read_instruction
    read_simple read_end go_on finish pop_control leave_frame pop_frame patch_end patch_kind
    backpatch_to backpatch pc Text.pc page_and_offset pop_result_type emit_return with_imm
    last_frame read_index read_memory read_operand read_i32 signed_groups signed_group add_group
    sign_extended read_u8 peek_u8 byte_or fill_buffer fill_from fetch_chunk give_back return_chunk
    accept_answer copy_chunk push_all stream_read stream_return next_answer front_or_eof take_front
    Reader.new CircularBuffer.new CircularBuffer.len CircularBuffer.is_empty CircularBuffer.push
    CircularBuffer.pop_front CircularBuffer.front new started push_control push_frame lookup
    i32_const validate pop_types push_types pop_stack pop_stack_t pop_value agree
    control_frame_stack_len frame_height is_unreachable push_stack raise_highwater stack_height
    bottom_up count_words emit with_code instr_imm_8_or_32 instr_imm_8 push_word push add_page put
    instruction plain instr
body_accepted = refl

small : 2 * scope.max_stack_depth < 2 ^ 16
small = omega arith

read_code-IsValid_example : IsValid scope compiled_body
read_code-IsValid_example =
    read_code-IsValid scope.fuel scope reader reader_after start compiled_body
      (new-IsValid scope no_code small) body_accepted

read_expr_usage_example :
    (compiled_body.stack_highwater ≤ 32)
    × (stack_height compiled_body ≤ compiled_body.stack_highwater)
    × (read_expr scope no_code reader
        ≡ some (
          ok (record { address = 0 }, compiled_body.stack_highwater, compiled_body.code),
          reader_after,
        ))
unfolding page_and_offset Text.pc
read_expr_usage_example =
    read_expr_usage scope no_code reader reader_after (record { address = 0 }) compiled_body small
      refl body_accepted

read_code_loop-Rounds_example :
    Rounds scope 0
      (record reader { limit = 100 })
      start
      (read_code_loop 200 0 scope (record reader { limit = 100 }) start)
unfolding bytes_remaining Reader.new
read_code_loop-Rounds_example =
    read_code_loop-Rounds 200 0 scope (record reader { limit = 100 }) start (omega arith)

-- An engine with seven words in use, on a stack of twenty.
abbrev engine : Engine
engine = record {
  pc = record { address = 10 };
  jumped = false;
  fp = 0;
  sp = 7;
  stack = record { words = replicate 20 7; size = 20 };
  memory = 0;
  table = [];
  module_ref = 0;
  store = record { modules = []; memories = zero_memory ∷ [] };
  host_pause_result = none;
  result = none;
}

abbrev host : Host
host = record {
  functions = λ r i. none;
  globals = λ r i. none;
  is_unique = λ e m. false;
  float_instruction = λ op imm. fault;
}

compile-Lands_example :
    (us : List ValType) × ((compiled.value_stack ≡ knowns us)
      × (words us ≤ compiled.stack_highwater)
      × Lands (7 + words us) engine (run_all host difference engine))
unfolding new started push_control push_frame is_unreachable IsStack
compile-Lands_example =
    compile-Lands host difference [] scope start compiled 7 engine refl refl (omega arith) accepted
      refl (omega (arith, reserved)) refl

-- A module with a host function, a memory and a global imported, and one function of its own.
abbrev importing : Module
importing = record (scope.this) {
  imports = Import.memory 2 0 ∷ Import.host_func 0 3 ∷ Import.global 1 1 ∷ [];
}

get_func_ref_lem_example : get_func_ref importing 1 ≡ get_elem? (func_space importing) 1
get_func_ref_lem_example = get_func_ref_lem importing 1 (omega arith)

resolved_own : get_elem? (func_space importing) 1 ≡ some (Ref.own 0)
unfolding func_space func_refs own_refs
resolved_own = refl

abbrev holding_two : TextBuilder
holding_two = record start { value_stack = known i32 ∷ known i32 ∷ [] }

validate_accepts_example :
    (s' : TextBuilder) × ((validate (i32 ∷ i32 ∷ []) (i32 ∷ []) scope holding_two
        ≡ some (ok (tt, s')))
      × (s'.value_stack ≡ knowns (i32 ∷ [])))
unfolding new started push_control push_frame frame_height
validate_accepts_example =
    validate_accepts (i32 ∷ i32 ∷ []) (i32 ∷ []) [] scope holding_two refl (omega arith)
      (omega arith)
