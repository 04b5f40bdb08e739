-- ===== src/Ssa.antt =====
-- internal/ssa: the SSA form of a function, and its passes in internal/ssa/pass.
mod Tests
pub mod Types
pub mod Op
pub mod Func
pub mod Update
pub mod Edges
pub mod Meaning
pub mod Commute
pub mod Worklist
pub mod Compact
pub mod Pass
pub mod Built
