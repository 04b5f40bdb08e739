-- ===== src/Wasm/Format.antt =====
-- The WebAssembly binary format as an encoder, written from the format and not from the parser, and
-- what internal/wasm/parser.go makes of its output.
pub mod Items
pub mod Sections
pub mod Segments
pub mod Modules
mod Tests
pub mod ConstExprs
pub mod Vectors
