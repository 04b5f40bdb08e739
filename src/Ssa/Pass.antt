-- ===== src/Ssa/Pass.antt =====
-- internal/ssa/pass: the optimisation passes. A pass returns the function and whether it changed it.
pub mod Tail
pub mod MemAddr
pub mod Simplify
pub mod ConstProp
pub mod Dce
pub mod Cse
