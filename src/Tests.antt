-- ===== src/Tests.antt =====
-- The theorems on concrete inputs, and runs of the code.
mod Buffers
mod Readers
mod Decoders
mod TypeRules
mod Memories
mod Labels
mod Locals
mod Words
mod Calls
mod Runs
mod Code
mod Compiles
mod Jumps
