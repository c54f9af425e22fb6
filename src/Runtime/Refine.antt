-- ===== src/Runtime/Refine.antt =====
-- The machine of `parser_parse_lr` as a representation of the LR automaton.
pub mod Rel
pub mod Args
pub mod Shift
pub mod Reduce
pub mod Errors
mod Tests
