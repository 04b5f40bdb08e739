-- ===== src/Wasm.antt =====
-- internal/wasm: the binary format's data model, the module parser and the instruction reader.
pub mod Reader
pub mod Leb128
pub mod Module
pub mod Parser
pub mod Format
pub mod Instr
mod Tests
