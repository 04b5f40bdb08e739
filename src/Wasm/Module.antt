-- ===== src/Wasm/Module.antt =====
-- internal/wasm/ir.go: the parsed module. Types, kinds and indices are the bytes and uint32 values
-- that the file holds; a name is its bytes; `nil` for Start is `none`.
pub mod Index
pub mod Types
use wasm2go.Prelude.{
  ℕ, suc, ◌+◌, ◌-◌, ◌%◌, ◌^◌, Bool, true, false, ◌&&◌, List, [], ◌∷◌, Option, none, some, ltb, ◌==◌,
  if◌then◌else◌, get_elem?,
}
use Prim.Native.String.{String}
unfoldable pub use Types.*

-- The word for a value type, as ValType.String gives it.
unfoldable pub val_type_name : ℕ → String
val_type_name v =
    if v == val_i32
    then "i32"
    else if v == val_i64
    then "i64"
    else if v == val_f32
    then "f32"
    else if v == val_f64
    then "f64"
    else if v == val_v128
    then "v128"
    else if v == val_funcref
    then "funcref"
    else if v == val_externref
    then "externref"
    else "?"

any_is64 : List MemoryType → Bool
any_is64 [] = false
any_is64 (mem ∷ mems) = if mem.is64 then true else any_is64 mems

any_import_is64 : List Import → Bool
any_import_is64 [] = false
any_import_is64 (imp ∷ imps) =
    if (imp.kind == import_memory) && imp.memory.is64 then true else any_import_is64 imps

-- Module.Memory64
unfoldable pub memory64 : Module → Bool
unfolding any_is64 any_import_is64
memory64 m = if any_is64 m.memories then true else any_import_is64 m.imports

-- `some t` is the return inside the loop of FuncTypeOf; `i` counts the function imports passed.
-- The inner `none` is the panic of an index out of range.
pub data Walk : Type 0 where
  returned : Option FuncType → Walk
  fell_through : Walk

walk_imports : List FuncType → ℕ → List Import → ℕ → Walk
walk_imports types idx [] i = fell_through
walk_imports types idx (imp ∷ imps) i =
    let skip = walk_imports types idx imps i in
    let next = walk_imports types idx imps (i + 1) in
    if imp.kind == import_func
    then (if i == idx then returned (get_elem? types imp.type_idx) else next)
    else skip

-- `m.Types[m.Functions[j].TypeIdx]`
type_of_defined : Module → ℕ → Option FuncType
type_of_defined m j = elim (get_elem? m.functions j) [
  | none ↦ none
  | some f ↦ get_elem? m.types f.type_idx
]

-- Module.FuncTypeOf; `none` is the panic. The subtraction is of uint32 values.
unfoldable pub func_type_of : Module → ℕ → Option FuncType
unfolding walk_imports type_of_defined
func_type_of m idx =
    let defined = type_of_defined m ((idx + 2 ^ 32 - m.num_imported_funcs) % 2 ^ 32) in
    if ltb idx m.num_imported_funcs
    then (elim (walk_imports m.types idx m.imports 0) [ returned t ↦ t | fell_through ↦ defined ])
    else defined
