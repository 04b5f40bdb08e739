-- ===== src/Wasm/Parser.antt =====
-- internal/wasm/parser.go: Parse. The input is the finite list of the bytes that the io.Reader
-- yields; a Module is threaded through the sections and dropped on an error, as Parse returns nil.
pub mod ConstExpr
pub mod Sections
pub mod Segments
pub mod Local
pub mod Total
pub mod Ends
pub mod Counts
pub mod Imports
pub mod Counters
pub mod Fields
use wasm2go.Prelude.{
  ℕ, zero, suc, ◌+◌, ◌%◌, ◌^◌, Bool, true, false, ◌||◌, not, List, [], ◌∷◌, some, ltb, ◌==◌,
  if◌then◌else◌, length,
}
use wasm2go.Wasm.Reader.{
  Result, ok, err, stuck, bind, wrap, Error, Reader, pure, fail, ◌>>=◌, ◌>>◌, wrapped, refuse_if,
  read_byte, read_full, eof, bad_magic, bad_version, unknown_section, too_long, section, part, size,
  payload, header,
}
use wasm2go.Wasm.Leb128.{read_u32}
use wasm2go.Wasm.Module.{
  Module, Import, empty_module, import_func, import_table, import_memory, import_global, import_tag,
}
use wasm2go.Wasm.Parser.Sections.{
  max_section_payload, parse_type_section, parse_import_section, parse_function_section,
  parse_table_section, parse_memory_section, parse_global_section, parse_export_section,
  parse_tag_section,
}
use wasm2go.Wasm.Parser.Segments.{parse_element_section, parse_code_section, parse_data_section}

-- readHeader, on the eight bytes it has read.
check_header : List ℕ → Reader (Unit {0})
check_header (a ∷ b ∷ c ∷ d ∷ e ∷ f ∷ g ∷ h ∷ []) =
    if not (a == 0x00) || (not (b == 0x61) || (not (c == 0x73) || not (d == 0x6d)))
    then fail bad_magic
    else if not (e == 0x01) || (not (f == 0x00) || (not (g == 0x00) || not (h == 0x00)))
    then fail bad_version
    else pure tt
check_header _ = fail bad_magic

unfoldable pub read_header : Reader (Unit {0})
unfolding check_header read_full
read_header = do hdr ← wrapped (part header) (read_full 8); check_header hdr

-- parseSection. A custom section is skipped, and so is the count of DataCount.
unfoldable pub parse_section : Module → ℕ → Reader Module
parse_section m id =
    if id == 0
    then pure m
    else if id == 1
    then parse_type_section m
    else if id == 2
    then parse_import_section m
    else if id == 3
    then parse_function_section m
    else if id == 4
    then parse_table_section m
    else if id == 5
    then parse_memory_section m
    else if id == 6
    then parse_global_section m
    else if id == 7
    then parse_export_section m
    else if id == 8
    then (do idx ← read_u32; pure (record m { start = some idx }))
    else if id == 9
    then parse_element_section m
    else if id == 10
    then parse_code_section m
    else if id == 11
    then parse_data_section m
    else if id == 12
    then (do n ← read_u32; pure m)
    else if id == 13
    then parse_tag_section m
    else fail (unknown_section id)

-- One round of the loop of Parse, behind the section's id: the payload is read whole, and its parser
-- runs on the payload alone; bytes that it leaves are dropped.
unfoldable pub read_section : Module → ℕ → Reader Module
unfolding parse_section
read_section m id = do
  n ← wrapped (λ e. section id (part size e)) read_u32
  refuse_if (ltb max_section_payload n) (section id (too_long n))
  raw ← wrapped (λ e. section id (part payload e)) (read_full n)
  (λ bs. bind (wrap (section id) (parse_section m id raw)) (λ (m', left). ok (m', bs)))

-- The loop of Parse, on fuel: each round takes a byte.
unfoldable pub parse_sections : ℕ → Module → List ℕ → Result Module
unfolding read_section
parse_sections fuel m [] = ok m
parse_sections zero m (id ∷ bs) = stuck
parse_sections (suc fuel) m (id ∷ bs) =
    bind (read_section m id bs) λ (m', rest). parse_sections fuel m' rest

-- One round of the loop that counts the imports; the counters are uint32 values.
unfoldable pub count_import : Module → ℕ → Module
count_import m kind =
    if kind == import_func
    then record m { num_imported_funcs = (m.num_imported_funcs + 1) % 2 ^ 32 }
    else if kind == import_table
    then record m { num_imported_tables = (m.num_imported_tables + 1) % 2 ^ 32 }
    else if kind == import_memory
    then record m { num_imported_mems = (m.num_imported_mems + 1) % 2 ^ 32 }
    else if kind == import_global
    then record m { num_imported_globals = (m.num_imported_globals + 1) % 2 ^ 32 }
    else if kind == import_tag
    then record m { num_imported_tags = (m.num_imported_tags + 1) % 2 ^ 32 }
    else m

unfoldable pub count_imports : List Import → Module → Module
unfolding count_import
count_imports [] m = m
count_imports (imp ∷ imps) m = count_imports imps (count_import m imp.kind)

unfoldable pub parse : List ℕ → Result Module
unfolding read_header parse_sections count_imports
parse bs = bind (read_header bs) λ (_, rest).
    bind (parse_sections (length rest) empty_module rest) λ m. ok (count_imports m.imports m)
