-- ===== src/Wasm/Parser/Total.antt =====
-- Every section parser ends.
use wasm2go.Prelude.{ℕ, ◌+◌, List, [], ◌∷◌}
use wasm2go.Wasm.Reader.{Error}
use wasm2go.Wasm.Reader.Total.{
  Total, Total-bind, Total-pure, Total-fail, Total-if, Total-refuse_if, Total-wrapped,
  Total-read_byte, Total-read_full, Total-read_each,
}
use wasm2go.Wasm.Leb128.Total.{Total-read_u32, Total-read_u64, Total-read_byte_vec, Total-read_name}
use wasm2go.Wasm.Module.{Module, Function, Import}
use wasm2go.Wasm.Parser.ConstExpr.Total.{Total-read_const_expr}
use wasm2go.Wasm.Parser.Sections.{
  read_count, read_func_type, read_type, parse_type_section, read_limits, read_table_type,
  read_memory_type, read_global_type, read_tag, read_import_desc, read_import, parse_import_section,
  parse_tag_section, read_function, parse_function_section, parse_table_section,
  parse_memory_section, read_global, parse_global_section, read_export, parse_export_section,
}
use wasm2go.Wasm.Parser.Segments.{
  read_func_idxs, read_element, parse_element_section, read_body, read_bodies, parse_code_section,
  read_data, parse_data_section,
}
use wasm2go.Wasm.Parser.{parse_section}

ruleset rules = (
  Total-bind, Total-pure, Total-fail, Total-if, Total-refuse_if, Total-wrapped, Total-read_byte,
  Total-read_full, Total-read_each, Total-read_u32, Total-read_u64, Total-read_byte_vec,
  Total-read_name, Total-read_const_expr,
)

Total-read_count : Total read_count
unfolding read_count
Total-read_count = search (rules) depth 14

Total-read_func_type : Total read_func_type
unfolding read_func_type
Total-read_func_type = search (rules, Total-read_count) depth 14

Total-read_type : (i : ℕ) → Total (read_type i)
unfolding read_type
Total-read_type i = search (rules, Total-read_func_type) depth 14

Total-read_limits : Total read_limits
unfolding read_limits
Total-read_limits = search (rules) depth 14

Total-read_table_type : Total read_table_type
unfolding read_table_type
Total-read_table_type = search (rules, Total-read_limits) depth 14

Total-read_memory_type : Total read_memory_type
unfolding read_memory_type
Total-read_memory_type = search (rules, Total-read_limits) depth 14

Total-read_global_type : Total read_global_type
unfolding read_global_type
Total-read_global_type = search (rules) depth 14

Total-read_tag : (f g : Error → Error) → Total (read_tag f g)
unfolding read_tag
Total-read_tag f g = search (rules) depth 14

Total-read_import_desc : (i : ℕ) (imp : Import) → Total (read_import_desc i imp)
unfolding read_import_desc
Total-read_import_desc i imp =
    search
      (rules, Total-read_table_type, Total-read_memory_type, Total-read_global_type, Total-read_tag)
      depth 14

Total-read_import : (i : ℕ) → Total (read_import i)
unfolding read_import
Total-read_import i = search (rules, Total-read_import_desc) depth 14

Total-read_function : (i : ℕ) → Total (read_function i)
unfolding read_function
Total-read_function i = search (rules) depth 14

Total-read_global : (i : ℕ) → Total (read_global i)
unfolding read_global
Total-read_global i = search (rules, Total-read_global_type) depth 14

Total-read_export : (i : ℕ) → Total (read_export i)
unfolding read_export
Total-read_export i = search (rules) depth 14

Total-read_func_idxs : (i : ℕ) → Total (read_func_idxs i)
unfolding read_func_idxs
Total-read_func_idxs i = search (rules) depth 14

Total-read_element : (i : ℕ) → Total (read_element i)
unfolding read_element
Total-read_element i = search (rules, Total-read_func_idxs) depth 14

Total-read_body : (i : ℕ) (f : Function) → Total (read_body i f)
unfolding read_body
Total-read_body i f = search (rules) depth 14

Total-read_data : (i : ℕ) → Total (read_data i)
unfolding read_data
Total-read_data i = search (rules) depth 14

Total-read_bodies : (i : ℕ) (fs : List Function) → Total (read_bodies i fs)
unfolding read_bodies
Total-read_bodies i [] = Total-pure []
Total-read_bodies i (f ∷ fs) =
    Total-bind (Total-read_body i f)
      λ f'. Total-bind (Total-read_bodies (i + 1) fs) λ fs'. Total-pure (f' ∷ fs')

ruleset items = (
  rules, Total-read_count, Total-read_type, Total-read_table_type, Total-read_memory_type,
  Total-read_tag, Total-read_import, Total-read_function, Total-read_global, Total-read_export,
  Total-read_element, Total-read_bodies, Total-read_data,
)

Total-parse_type_section : (m : Module) → Total (parse_type_section m)
unfolding parse_type_section
Total-parse_type_section m = search items depth 9

Total-parse_import_section : (m : Module) → Total (parse_import_section m)
unfolding parse_import_section
Total-parse_import_section m = search items depth 9

Total-parse_tag_section : (m : Module) → Total (parse_tag_section m)
unfolding parse_tag_section
Total-parse_tag_section m = search items depth 9

Total-parse_function_section : (m : Module) → Total (parse_function_section m)
unfolding parse_function_section
Total-parse_function_section m = search items depth 9

Total-parse_table_section : (m : Module) → Total (parse_table_section m)
unfolding parse_table_section
Total-parse_table_section m = search items depth 9

Total-parse_memory_section : (m : Module) → Total (parse_memory_section m)
unfolding parse_memory_section
Total-parse_memory_section m = search items depth 9

Total-parse_global_section : (m : Module) → Total (parse_global_section m)
unfolding parse_global_section
Total-parse_global_section m = search items depth 9

Total-parse_export_section : (m : Module) → Total (parse_export_section m)
unfolding parse_export_section
Total-parse_export_section m = search items depth 9

Total-parse_element_section : (m : Module) → Total (parse_element_section m)
unfolding parse_element_section
Total-parse_element_section m = search items depth 9

Total-parse_code_section : (m : Module) → Total (parse_code_section m)
unfolding parse_code_section
Total-parse_code_section m = search items depth 9

Total-parse_data_section : (m : Module) → Total (parse_data_section m)
unfolding parse_data_section
Total-parse_data_section m = search items depth 9

ruleset sections = (
  rules, Total-parse_type_section, Total-parse_import_section, Total-parse_tag_section,
  Total-parse_function_section, Total-parse_table_section, Total-parse_memory_section,
  Total-parse_global_section, Total-parse_export_section, Total-parse_element_section,
  Total-parse_code_section, Total-parse_data_section,
)

pub Total-parse_section : (m : Module) (id : ℕ) → Total (parse_section m id)
unfolding parse_section
Total-parse_section m id = search sections depth 40
