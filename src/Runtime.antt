-- ===== src/Runtime.antt =====
-- The LR runtime that every generated parser links: include/neoast.h, src/parser.c, src/lr.c.
pub mod Types
pub mod Stack
pub mod Table
pub mod Client
pub mod Reduce
pub mod Errors
pub mod Loop
pub mod Automaton
pub mod Tests
pub mod Refine
pub mod Grammar
pub mod Valid
pub mod Correct
pub mod Empty
