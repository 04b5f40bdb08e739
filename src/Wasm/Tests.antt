-- ===== src/Wasm/Tests.antt =====
-- Runs of the modelled code on concrete bytes, and the theorems applied to them.
use wasm2go.Prelude.{
  ℕ, ◌≡◌, ◌≢◌, ◌↔◌, ◌^◌, ◌-◌, ◌≤◌, ◌<◌, refl, List, [], ◌∷◌, ◌++◌, length, get_elem?, arith,
}
use wasm2go.Prelude.Int.{ℤ, negsuc}
use wasm2go.Wasm.Reader.{read_each, read_full, ok, stuck}
use wasm2go.Wasm.Leb128.{
  read_u32, read_name, read_u64, read_s32, read_s64, read_s64_bits, read_s64_bits_loop, write_uleb,
  write_sleb,
}
use wasm2go.Wasm.Leb128.Unsigned.{Uleb, read_u64-Uleb_iff}
use wasm2go.Wasm.Leb128.Encoding.{uleb, write_uleb-uleb}
use wasm2go.Wasm.Leb128.Signed.{last_neg, more_neg, pattern64, pattern32, IsInt}
use wasm2go.Wasm.Leb128.Signed.Read.{read_s64-Sleb, read_s32-Sleb}
use wasm2go.Wasm.Leb128.Signed.Write.{sleb, write_sleb-sleb}
use wasm2go.Wasm.Leb128.Signed.Range.{read_s64_bits-IsInt}
use wasm2go.Wasm.Module.{
  Module, Import, FuncType, import_func, import_table, import_memory, import_global, import_tag,
  empty_module, zero_table, zero_memory, zero_global, zero_tag, func_type_of,
}
use wasm2go.Wasm.Module.Index.{imported_type_idxs, func_space, lookup_type, func_type_of-func_space}
use wasm2go.Wasm.Parser.{parse, parse_section}
use wasm2go.Wasm.Parser.Sections.{parse_type_section, parse_import_section, parse_function_section}
use wasm2go.Wasm.Parser.Segments.{parse_code_section}
use wasm2go.Wasm.Parser.Fields.{Sets, parse_section-Sets}
use wasm2go.Wasm.Parser.Ends.{parse-ne-stuck}
use wasm2go.Wasm.Parser.Imports.{count_kind, parse-counts, func_type_of-parse}

-- An imported function of type 0 and a defined one of type 1, which returns a constant.
abbrev two_functions : List ℕ
two_functions =
    0x00 ∷ 0x61 ∷ 0x73 ∷ 0x6d ∷ 0x01 ∷ 0x00 ∷ 0x00 ∷ 0x00 ∷ 0x01 ∷ 0x08 ∷ 0x02 ∷ 0x60 ∷ 0x00 ∷ 0x00
    ∷ 0x60 ∷ 0x00 ∷ 0x01 ∷ 0x7f ∷ 0x02 ∷ 0x07 ∷ 0x01 ∷ 0x01 ∷ 0x6d ∷ 0x01 ∷ 0x66 ∷ 0x00 ∷ 0x00
    ∷ 0x03 ∷ 0x02 ∷ 0x01 ∷ 0x01 ∷ 0x0a ∷ 0x06 ∷ 0x01 ∷ 0x04 ∷ 0x00 ∷ 0x41 ∷ 0x2a ∷ 0x0b ∷ []

abbrev bare_type : FuncType
bare_type = record { params = []; results = [] }

abbrev returns_i32 : FuncType
returns_i32 = record { params = []; results = 0x7f ∷ [] }

abbrev imported : Import
imported = record {
  module_name = 0x6d ∷ [];
  name = 0x66 ∷ [];
  kind = import_func;
  type_idx = 0;
  table = zero_table;
  memory = zero_memory;
  global = zero_global;
  tag = zero_tag;
}

abbrev parsed : Module
parsed = record empty_module {
  types = bare_type ∷ returns_i32 ∷ [];
  imports = imported ∷ [];
  functions = record { type_idx = 1; body = 0x00 ∷ 0x41 ∷ 0x2a ∷ 0x0b ∷ [] } ∷ [];
  num_imported_funcs = 1;
}

parse-two_functions : parse two_functions ≡ ok parsed
unfolding parse read_u32 parse_type_section read_each parse_import_section read_name
    parse_function_section parse_code_section
parse-two_functions = refl

parse-ne-stuck_example : parse two_functions ≢ stuck
parse-ne-stuck_example = parse-ne-stuck two_functions

parse-counts_example :
    (parsed.num_imported_funcs ≡ count_kind import_func parsed.imports)
    × (parsed.num_imported_tables ≡ count_kind import_table parsed.imports)
    × (parsed.num_imported_mems ≡ count_kind import_memory parsed.imports)
    × (parsed.num_imported_globals ≡ count_kind import_global parsed.imports)
    × (parsed.num_imported_tags ≡ count_kind import_tag parsed.imports)
parse-counts_example = parse-counts two_functions parsed parse-two_functions

-- The function after the imported one.
func_type_of-parse_example :
    func_type_of parsed 1 ≡ lookup_type parsed.types (get_elem? (func_space parsed) 1)
func_type_of-parse_example =
    func_type_of-parse two_functions parsed 1 parse-two_functions (omega arith)

func_type_of-func_space_example :
    func_type_of parsed 0 ≡ lookup_type parsed.types (get_elem? (func_space parsed) 0)
unfolding imported_type_idxs
func_type_of-func_space_example = func_type_of-func_space parsed 0 refl (omega arith)

-- A code section of one body, for a module that declared one function.
abbrev declares_one : Module
declares_one = record empty_module { functions = record { type_idx = 7; body = [] } ∷ [] }

abbrev has_body : Module
has_body = record empty_module { functions = record { type_idx = 7; body = 0x00 ∷ 0x0b ∷ [] } ∷ [] }

parse-body : parse_section declares_one 10 (0x01 ∷ 0x02 ∷ 0x00 ∷ 0x0b ∷ []) ≡ ok (has_body, [])
unfolding parse_section parse_code_section read_u32 read_full
parse-body = refl

parse_section-Sets_example : Sets declares_one 10 has_body
parse_section-Sets_example =
    parse_section-Sets declares_one has_body 10 (0x01 ∷ 0x02 ∷ 0x00 ∷ 0x0b ∷ []) [] parse-body

-- 300 in two bytes.
read_u64-Uleb_iff_example : (read_u64 (0xac ∷ 0x02 ∷ 0x07 ∷ []) ≡ ok (300, 0x07 ∷ [])) ↔ (
    (used : List ℕ) × Uleb used 300
    × (0xac ∷ 0x02 ∷ 0x07 ∷ [] ≡ used ++ (0x07 ∷ []))
    × (length used ≤ 10)
    × (300 < 2 ^ 64))
read_u64-Uleb_iff_example =
    read_u64-Uleb_iff (0xac ∷ 0x02 ∷ 0x07 ∷ []) 300 (0x07 ∷ []) (omega arith)

write_uleb-uleb_example : write_uleb (0x23 ∷ []) 300 ≡ ok ((0x23 ∷ []) ++ uleb 300)
write_uleb-uleb_example = write_uleb-uleb (0x23 ∷ []) 300 (omega arith)

-- -1 in two bytes.
read_s64-Sleb_example :
    read_s64 ((0xff ∷ 0x7f ∷ []) ++ (0x0b ∷ [])) ≡ ok (pattern64 (negsuc 0), 0x0b ∷ [])
read_s64-Sleb_example =
    read_s64-Sleb (0x0b ∷ [])
      (more_neg {g = 0} {m = 0} (omega arith) (last_neg {m = 0} (omega arith))) (omega arith)
      (omega arith)

read_s32-Sleb_example :
    read_s32 ((0xff ∷ 0x7f ∷ []) ++ (0x0b ∷ [])) ≡ ok (pattern32 (negsuc 0), 0x0b ∷ [])
read_s32-Sleb_example =
    read_s32-Sleb (0x0b ∷ [])
      (more_neg {g = 0} {m = 0} (omega arith) (last_neg {m = 0} (omega arith))) (omega arith)
      (omega arith)

write_sleb-sleb_example : write_sleb [] (pattern64 (negsuc 99)) ≡ ok ([] ++ sleb (negsuc 99))
write_sleb-sleb_example = write_sleb-sleb [] (negsuc 99) (omega arith)

read_s64_bits_example : read_s64_bits 32 (0x7f ∷ []) ≡ ok (2 ^ 64 - 1, [])
unfolding read_s64_bits read_s64_bits_loop
read_s64_bits_example = refl

read_s64_bits-IsInt_example : (z : ℤ) × IsInt 31 z × (2 ^ 64 - 1 ≡ pattern64 z)
read_s64_bits-IsInt_example =
    read_s64_bits-IsInt (0x7f ∷ []) (2 ^ 64 - 1) [] (omega arith) read_s64_bits_example
