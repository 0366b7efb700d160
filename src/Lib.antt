-- ===== src/Lib.antt =====
-- A model of spacewasm, a WebAssembly interpreter for flight software, and proofs about it.
--
-- A module arrives as a stream of chunks. The reader turns it into bytes, integers, vectors and types;
-- the compiler validates the functions and writes them as pages of 16-bit words; the interpreter runs
-- those on linear memories. The development follows that path from the bytes on.
--
--   Prelude         native numbers, lists indexed by them, `|` and `&` as arithmetic, machine words
--   Errors          src/error.rs, src/util/alloc.rs: the error values and Rust's `Result`
--   CircularBuffer  src/util/circular_buffer.rs: `push`, `pop_front`, `pop_back`, `get`, `clear` ...;
--                   Refine, Ends and Deque relate it to a bounded list
--   Reader          src/reader.rs, src/stream.rs: `fill_buffer`, `read_u8`, `with_limit`; Leb holds the
--                   LEB128 integers, Vectors `read_vec_in` and `read_vec_stack`
--   Types           src/types.rs: the types of the binary format, `matches`, `can_hold`; Raw `RawValue`
--   Wire            the decoders on a reader that stands anywhere in its input
--   Memory          src/memory.rs: `new`, `grow`, `load_*` and `store_*`
--   Text            src/text.rs: `LabelTarget`, `JumpOffset`, `JumpTarget` and `CodeBuilder`
--   Text.Pages      the words that `CodeBuilder::push` leaves; Text.Emit the words of an instruction;
--                   Text.Locals `get_local`; Text.Builder, Operands and Branches `TextBuilder` with its two
--                   stacks; Patches what it passes to `backpatch`,
--                   Chains the jumps of a block, Limits the limit on iterations
--   Modules         src/module.rs: `get_func_ref` and `get_global_ref`; Index the space of indexes
--   Compiler        src/compiler.rs: a handler for each instruction; Valid the invariant that they keep
--   Code            src/code.rs: `read_code`, `Expr::read`, `read_function_code`; Preserves and Progress
--                   hold the rules for what its operations keep, Rounds its loop without fuel
--   Soundness       the rules of the compiler beside what the interpreter does
--   IrReader        src/ir_reader.rs: reads of the code; Decode is `visit_instruction`, with the opcodes of
--                   src/opcode.rs in Opcode
--   Engine          src/engine.rs, src/store.rs, src/code.rs: the interpreter's state and the monad of
--                   its operations
--   Interpreter     src/interpreter.rs: calls, returns and branches; Numeric and Integer the integer
--                   instructions, Access loads and stores, Variables locals and globals, Host what calls
--                   the embedder, Invoke the entry points, Execute and Run the loop. Frames, Unwind,
--                   Context and Calls hold the theorems on calls
--   Stack           src/stack.rs: the interpreter's words, `read_*` and `write_*`
--   StaticVec       src/util/static_vec.rs: `push`, `pop`, `truncate`
--   Tests           the theorems at concrete inputs
--
-- State is passed on: a method takes the record of its object and returns the changed one, beside its
-- result. An `i32` or `i64` is its bit pattern, a float its bits, and `usize` has 64 bits. What the
-- embedder supplies is a parameter: the answers of the stream, whether an allocation succeeds, and the
-- two calls of a page allocator, of which IsAllocator says what they must keep to. The loops of
-- `backpatch` and `read_code` run on fuel, a field of the compiler's scope; for `read_code` more than the
-- bytes below the limit is enough, for `backpatch` more than a limit on its iterations below 2 ^ 32 - 1,
-- which its `u32` counter can pass; the counter wraps as in a build without overflow checks. All other loops
-- go down a list or a count.
--
-- An operation of the interpreter takes the engine and answers `none` where the code would panic or leave
-- the stack, which it relies on validation to prevent; a trap, a pause and the end are values. Memories are
-- shared by reference, so a store keeps them in a list. `run` goes down its number of instructions.
--
-- Not modelled: the arithmetic and the conversions of floats, which the language has no numbers for; they
-- are one parameter of the interpreter. The sections of a module, its imports and constant expressions, the
-- owning containers over the allocator, UTF-8 names, and the bindings under crates.
pub mod Prelude
pub mod Errors
pub mod CircularBuffer
pub mod Reader
pub mod Types
pub mod Wire
pub mod Memory
pub mod Text
pub mod Stack
pub mod StaticVec
pub mod Engine
pub mod Interpreter
pub mod Modules
pub mod Compiler
pub mod Code
pub mod Soundness
pub mod IrReader
pub mod Opcode
pub mod Tests
