-- ===== src/Wasm/Parser/Sections.antt =====
-- The sections of internal/wasm/parser.go that describe types, imports, tables, memories, globals,
-- exports and tags.
use wasm2go.Prelude.{ℕ, ◌^◌, bit_and, true, false, not, List, [], ltb, ◌==◌, if◌then◌else◌}
use wasm2go.Wasm.Reader.{
  Error, Reader, pure, fail, ◌>>=◌, ◌>>◌, wrapped, refuse_if, read_byte, read_each, too_long,
  bad_tag, unknown_flags, unknown_kind, entry, part, module_name, import_name, attribute,
  type_index, init,
}
use wasm2go.Wasm.Leb128.{read_u32, read_u64, read_name}
use wasm2go.Wasm.Module.{
  FuncType, Limits, TableType, MemoryType, GlobalType, Import, Export, Global, Function, Tag,
  Module, import_func, import_table, import_memory, import_global, import_tag, zero_table,
  zero_memory, zero_global, zero_tag,
}
use wasm2go.Wasm.Parser.ConstExpr.{read_const_expr}

abbrev pub max_section_payload : ℕ
max_section_payload = 2 ^ 28

abbrev pub max_vector_len : ℕ
max_vector_len = max_section_payload

-- The count that a section starts with, under the cap that every section checks.
unfoldable pub read_count : Reader ℕ
read_count = do n ← read_u32; refuse_if (ltb max_vector_len n) (too_long n); pure n

unfoldable pub read_func_type : Reader FuncType
unfolding read_count
read_func_type = do
  np ← read_count
  params ← read_each 0 np (λ i. read_byte)
  nr ← read_count
  results ← read_each 0 nr (λ i. read_byte)
  pure (record { params = params; results = results })

unfoldable pub read_type : ℕ → Reader FuncType
unfolding read_func_type
read_type i = do
  tag ← read_byte
  refuse_if (not (tag == 0x60)) (bad_tag i tag)
  wrapped (entry i) read_func_type

unfoldable pub parse_type_section : Module → Reader Module
unfolding read_type
parse_type_section m = do
  n ← read_count
  types ← read_each 0 n read_type
  pure (record m { types = types })

-- readLimits; the flags are the bits has_max, shared and is64.
unfoldable pub read_limits : Reader Limits
read_limits = do
  flags ← read_byte
  refuse_if (ltb 0x07 flags) (unknown_flags flags)
  min ← read_u64
  let shared = not (bit_and flags 0x02 == 0)
  let is64 = not (bit_and flags 0x04 == 0)
  if not (bit_and flags 0x01 == 0)
      then (do
        max ← read_u64
        pure (record { min = min; max = max; has_max = true; shared = shared; is64 = is64 }))
      else pure (record { min = min; max = 0; has_max = false; shared = shared; is64 = is64 })

unfoldable pub read_table_type : Reader TableType
unfolding read_limits
read_table_type = do
  et ← read_byte
  lim ← read_limits
  pure (record { elem_type = et; limits = lim })

unfoldable pub read_memory_type : Reader MemoryType
unfolding read_limits
read_memory_type = do lim ← read_limits; pure (record { limits = lim; is64 = lim.is64 })

unfoldable pub read_global_type : Reader GlobalType
read_global_type = do
  vt ← read_byte
  mut ← read_byte
  pure (record { val_type = vt; mutable = mut == 1 })

unfoldable pub read_tag : (Error → Error) → (Error → Error) → Reader Tag
read_tag on_attribute on_type = do
  attr ← wrapped on_attribute read_byte
  ti ← wrapped on_type read_u32
  pure (record { attribute = attr; type_idx = ti })

-- An import of which only the names and the kind are known.
abbrev pub bare_import : List ℕ → List ℕ → ℕ → Import
bare_import mod_name name kind = record {
  module_name = mod_name;
  name = name;
  kind = kind;
  type_idx = 0;
  table = zero_table;
  memory = zero_memory;
  global = zero_global;
  tag = zero_tag;
}

-- The switch on the import's kind.
unfoldable pub read_import_desc : ℕ → Import → Reader Import
unfolding read_table_type read_memory_type read_global_type read_tag
read_import_desc i imp =
    if imp.kind == import_func
    then (do ti ← read_u32; pure (record imp { type_idx = ti }))
    else if imp.kind == import_table
    then (do t ← read_table_type; pure (record imp { table = t }))
    else if imp.kind == import_memory
    then (do t ← read_memory_type; pure (record imp { memory = t }))
    else if imp.kind == import_global
    then (do t ← read_global_type; pure (record imp { global = t }))
    else if imp.kind == import_tag
    then (do t ← read_tag (λ e. e) (λ e. e); pure (record imp { tag = t }))
    else fail (unknown_kind i imp.kind)

unfoldable pub read_import : ℕ → Reader Import
unfolding read_import_desc
read_import i = do
  mod_name ← wrapped (λ e. entry i (part module_name e)) read_name
  name ← wrapped (λ e. entry i (part import_name e)) read_name
  kind ← read_byte
  read_import_desc i (bare_import mod_name name kind)

unfoldable pub parse_import_section : Module → Reader Module
unfolding read_import read_count
parse_import_section m = do
  n ← read_count
  imports ← read_each 0 n read_import
  pure (record m { imports = imports })

unfoldable pub parse_tag_section : Module → Reader Module
unfolding read_tag read_count
parse_tag_section m = do
  n ← read_count
  tags ←
      read_each 0 n
        (λ i. read_tag (λ e. entry i (part attribute e)) (λ e. entry i (part type_index e)))
  pure (record m { tags = tags })

unfoldable pub read_function : ℕ → Reader Function
read_function i = do ti ← read_u32; pure (record { type_idx = ti; body = [] })

unfoldable pub parse_function_section : Module → Reader Module
unfolding read_function read_count
parse_function_section m = do
  n ← read_count
  functions ← read_each 0 n read_function
  pure (record m { functions = functions })

unfoldable pub parse_table_section : Module → Reader Module
unfolding read_table_type read_count
parse_table_section m = do
  n ← read_count
  tables ← read_each 0 n (λ i. read_table_type)
  pure (record m { tables = tables })

unfoldable pub parse_memory_section : Module → Reader Module
unfolding read_memory_type read_count
parse_memory_section m = do
  n ← read_count
  memories ← read_each 0 n (λ i. read_memory_type)
  pure (record m { memories = memories })

unfoldable pub read_global : ℕ → Reader Global
unfolding read_global_type
read_global i = do
  t ← read_global_type
  expr ← wrapped (λ e. entry i (part init e)) read_const_expr
  pure (record { global_type = t; init = expr })

unfoldable pub parse_global_section : Module → Reader Module
unfolding read_global read_count
parse_global_section m = do
  n ← read_count
  globals ← read_each 0 n read_global
  pure (record m { globals = globals })

unfoldable pub read_export : ℕ → Reader Export
read_export i = do
  name ← read_name
  kind ← read_byte
  idx ← read_u32
  pure (record { name = name; kind = kind; index = idx })

unfoldable pub parse_export_section : Module → Reader Module
unfolding read_export read_count
parse_export_section m = do
  n ← read_count
  exports ← read_each 0 n read_export
  pure (record m { exports = exports })
