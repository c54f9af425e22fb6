-- ===== src/Runtime/Correct.antt =====
-- `parser_parse_lr` with a checked table: it returns, within a bound and without a fault, and what
-- it accepts is in the grammar's language.
pub mod Setup
pub mod Branches
pub mod Run
pub mod Parse
pub mod Tests
