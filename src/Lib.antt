-- ===== src/Lib.antt =====
-- wasm2go turns a WebAssembly module into Go source. This library models its front end, the Go package
-- internal/wasm, and the SSA form of internal/ssa with passes of internal/ssa/pass, and proves what they
-- promise to the stages behind them.
--
-- The parts of the program. internal/wasm/parser.go reads a module from an io.Reader into the records of
-- internal/wasm/ir.go, with the LEB128 readers of internal/wasm/leb128.go; function bodies stay bytes.
-- internal/wasm/instr.go reads those bytes one instruction at a time for internal/lower, which builds
-- the SSA form of internal/ssa, and for the call-graph scan. internal/codegen runs the passes until
-- none reports a change and then Compact. transpile and cmd/wasm2go drive the stages,
-- internal/codegen, internal/asmgen and internal/gcasm write the output.
--
-- The files, with the code that they model:
--   Wasm/Reader           the byte source and Go's (value, error) pairs; rules for readers below it
--   Wasm/Leb128           internal/wasm/leb128.go; writeULEB and writeSLEB of internal/wasm/parser.go
--   Wasm/Module           internal/wasm/ir.go: the records, Memory64, ValType.String, FuncTypeOf
--   Wasm/Parser           internal/wasm/parser.go: Parse, readHeader, parseSection
--   Wasm/Parser/Sections  the section parsers up to the export section and the tag section
--   Wasm/Parser/Segments  the element, code and data sections
--   Wasm/Parser/ConstExpr readConstExpr
--   Wasm/Instr            internal/wasm/instr.go: InstrReader, its methods over an explicit state
--   Wasm/Instr/Skip       SkipImmediates
--   Wasm/Instr/Opcodes    internal/wasm/opcodes.go
--   Wasm/Format           an encoder written from the binary format, for comparison
--   Ssa/Types, Ssa/Op     internal/ssa/type.go and internal/ssa/op.go
--   Ssa/Func              internal/ssa/ssa.go: functions, blocks, edges, values and their constructors
--   Ssa/Edges, Ssa/Built  what the constructors of ssa.go keep
--   Ssa/Meaning           the integer operators of WebAssembly, for comparison
--   Ssa/Worklist          the marks and the stack of DCE
--   Ssa/Compact           internal/ssa/compact.go
--   Ssa/Pass/ConstProp    internal/ssa/pass/constprop.go
--   Ssa/Pass/Dce          internal/ssa/pass/dce.go
--   Ssa/Pass/Cse          internal/ssa/pass/cse.go
--   Ssa/Pass/Tail         retMarkerSet of internal/ssa/pass/simplify.go
--   Ssa/Pass/Simplify     trivialPhiArg of internal/ssa/pass/simplify.go
--   Ssa/Pass/MemAddr      internal/ssa/pass/memaddr.go
--   Ssa/Commute           IsCommutative of internal/ssa/op.go, against Ssa/Meaning
--   Prelude               shared names, tests on numbers, lists, bit operations
--
-- A definition is named as the Go function in snake case. A reader of the parser takes the bytes still
-- to come and returns a value with the rest, or an error that keeps the wrapping of fmt.Errorf without
-- its wording. An io.Reader is the finite list of bytes that it yields, and its only error is io.EOF. A
-- method of InstrReader takes the position and the bytes and returns the outcome with the new position,
-- on an error too. A uint64 is a number below 2 ^ 64; an int64 or int32 is its bit pattern; a float is
-- its bits; a string is its bytes; a panic on an index is `none`.
--
-- A pointer to a value or a block of the SSA form is its id, and a function holds two maps from ids to
-- what they point to; the id 0 of a value is the nil pointer, as ssa.go reserves it. A pass takes the
-- function and returns it changed, with the flag that the Go function returns. The map of CSE from
-- texts to values is a list of keys: whether Sprintf prints two keys alike is the parameter `alike`.
--
-- Bounds and fuel. The worklist of DCE has as many rounds as ids were given out, which never run out.
-- CSE follows its map of merged values for as many steps, where one is enough if no value is listed
-- twice. peelCopies follows as many copies; on a cycle of copies it does not end, where the model stops.
-- The loops of readU64 and readS64Bits are recursion on the ten rounds that the source
-- allows. writeULEB and writeSLEB have ten rounds, which are enough for 64 bits. The section loop has as
-- much fuel as there are bytes and the loop of readConstExpr one more, since each round takes a byte;
-- ReadSN has eleven rounds, enough for 64 bits. Fuel that runs out is the value `stuck`, which is no
-- error of the code.
--
-- Not modelled. Allocation before a read that then fails; the text of errors; names, exception regions,
-- MutableLocals and LocalTypes of SSA functions; the boxed float that comments of op.go name, which
-- internal/lower does not set. Of internal/ssa: builder.go, verify.go, domtree.go, memclass.go,
-- metrics.go, outline.go and print.go; of internal/ssa/pass: branchfold.go, condmaskphi.go,
-- diamondfold.go, memopt.go, the rest of simplify.go, and the passes on SIMD and half floats. The stages internal/lower,
-- internal/regalloc, internal/codegen, internal/emit, internal/asmgen, internal/gcasm,
-- internal/simdfuse, transpile and cmd/wasm2go, which build on these or produce Go and assembler text.
pub mod Prelude
pub mod Wasm
pub mod Ssa
