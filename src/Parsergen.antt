-- ===== src/Parsergen.antt =====
-- The generator of parsing tables, src/parsergen. See the children.
pub mod BitVector
pub mod Items
pub mod First
pub mod Closure
pub mod Ready
pub mod PassOn
pub mod Propagate
pub mod Expand
pub mod Covered
pub mod Rounds
pub mod Closed
pub mod Collection
pub mod Cores
pub mod Decode
pub mod Table
pub mod Fill
pub mod Edges
pub mod Reductions
pub mod Rows
pub mod Generated
pub mod FirstLaws
mod Tests
