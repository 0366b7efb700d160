-- ===== src/Text/Chains/Patched.antt =====
-- `CodeBuilder::backpatch` of src/text.rs on a list of jumps, at the end of a block.
