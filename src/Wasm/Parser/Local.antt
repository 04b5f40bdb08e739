-- ===== src/Wasm/Parser/Local.antt =====
-- Every section parser rests on the bytes that it takes and on no others.
use wasm2go.Prelude.{ℕ, ◌+◌, List, [], ◌∷◌, ltb}
use wasm2go.Wasm.Reader.{Error, Result, ok, err, stuck, bind, wrap, section, too_long}
use wasm2go.Wasm.Reader.Local.{
  IsLocal, IsLocal-bind, IsLocal-pure, IsLocal-fail, IsLocal-if, IsLocal-refuse_if, IsLocal-wrapped,
  IsLocal-read_byte, IsLocal-read_full, IsLocal-read_each,
}
use wasm2go.Wasm.Leb128.Local.{
  IsLocal-read_u32, IsLocal-read_u64, IsLocal-read_byte_vec, IsLocal-read_name,
}
use wasm2go.Wasm.Module.{Module, Function, Import}
use wasm2go.Wasm.Parser.ConstExpr.Local.{IsLocal-read_const_expr}
use wasm2go.Wasm.Parser.Sections.{
  max_section_payload, read_count, read_func_type, read_type, parse_type_section, read_limits,
  read_table_type, read_memory_type, read_global_type, read_tag, read_import_desc, read_import,
  parse_import_section, parse_tag_section, read_function, parse_function_section,
  parse_table_section, parse_memory_section, read_global, parse_global_section, read_export,
  parse_export_section,
}
use wasm2go.Wasm.Parser.Segments.{
  read_func_idxs, read_element, parse_element_section, read_body, read_bodies, parse_code_section,
  read_data, parse_data_section,
}
use wasm2go.Wasm.Parser.{parse_section, read_section}

ruleset rules = (
  IsLocal-bind, IsLocal-pure, IsLocal-fail, IsLocal-if, IsLocal-refuse_if, IsLocal-wrapped,
  IsLocal-read_byte, IsLocal-read_full, IsLocal-read_each, IsLocal-read_u32, IsLocal-read_u64,
  IsLocal-read_byte_vec, IsLocal-read_name, IsLocal-read_const_expr,
)

IsLocal-read_count : IsLocal read_count
unfolding read_count
IsLocal-read_count = search (rules) depth 14

IsLocal-read_func_type : IsLocal read_func_type
unfolding read_func_type
IsLocal-read_func_type = search (rules, IsLocal-read_count) depth 14

IsLocal-read_type : (i : ℕ) → IsLocal (read_type i)
unfolding read_type
IsLocal-read_type i = search (rules, IsLocal-read_func_type) depth 14

IsLocal-read_limits : IsLocal read_limits
unfolding read_limits
IsLocal-read_limits = search (rules) depth 14

IsLocal-read_table_type : IsLocal read_table_type
unfolding read_table_type
IsLocal-read_table_type = search (rules, IsLocal-read_limits) depth 14

IsLocal-read_memory_type : IsLocal read_memory_type
unfolding read_memory_type
IsLocal-read_memory_type = search (rules, IsLocal-read_limits) depth 14

IsLocal-read_global_type : IsLocal read_global_type
unfolding read_global_type
IsLocal-read_global_type = search (rules) depth 14

IsLocal-read_tag : (f g : Error → Error) → IsLocal (read_tag f g)
unfolding read_tag
IsLocal-read_tag f g = search (rules) depth 14

IsLocal-read_import_desc : (i : ℕ) (imp : Import) → IsLocal (read_import_desc i imp)
unfolding read_import_desc
IsLocal-read_import_desc i imp =
    search
      (
        rules, IsLocal-read_table_type, IsLocal-read_memory_type, IsLocal-read_global_type,
        IsLocal-read_tag,
      )
      depth 14

IsLocal-read_import : (i : ℕ) → IsLocal (read_import i)
unfolding read_import
IsLocal-read_import i = search (rules, IsLocal-read_import_desc) depth 14

IsLocal-read_function : (i : ℕ) → IsLocal (read_function i)
unfolding read_function
IsLocal-read_function i = search (rules) depth 14

IsLocal-read_global : (i : ℕ) → IsLocal (read_global i)
unfolding read_global
IsLocal-read_global i = search (rules, IsLocal-read_global_type) depth 14

IsLocal-read_export : (i : ℕ) → IsLocal (read_export i)
unfolding read_export
IsLocal-read_export i = search (rules) depth 14

IsLocal-read_func_idxs : (i : ℕ) → IsLocal (read_func_idxs i)
unfolding read_func_idxs
IsLocal-read_func_idxs i = search (rules) depth 14

IsLocal-read_element : (i : ℕ) → IsLocal (read_element i)
unfolding read_element
IsLocal-read_element i = search (rules, IsLocal-read_func_idxs) depth 14

IsLocal-read_body : (i : ℕ) (f : Function) → IsLocal (read_body i f)
unfolding read_body
IsLocal-read_body i f = search (rules) depth 14

IsLocal-read_data : (i : ℕ) → IsLocal (read_data i)
unfolding read_data
IsLocal-read_data i = search (rules) depth 14

IsLocal-read_bodies : (i : ℕ) (fs : List Function) → IsLocal (read_bodies i fs)
unfolding read_bodies
IsLocal-read_bodies i [] = IsLocal-pure []
IsLocal-read_bodies i (f ∷ fs) =
    IsLocal-bind (IsLocal-read_body i f)
      λ f'. IsLocal-bind (IsLocal-read_bodies (i + 1) fs) λ fs'. IsLocal-pure (f' ∷ fs')

ruleset items = (
  rules, IsLocal-read_count, IsLocal-read_type, IsLocal-read_table_type, IsLocal-read_memory_type,
  IsLocal-read_tag, IsLocal-read_import, IsLocal-read_function, IsLocal-read_global,
  IsLocal-read_export, IsLocal-read_element, IsLocal-read_bodies, IsLocal-read_data,
)

IsLocal-parse_type_section : (m : Module) → IsLocal (parse_type_section m)
unfolding parse_type_section
IsLocal-parse_type_section m = search items depth 9

IsLocal-parse_import_section : (m : Module) → IsLocal (parse_import_section m)
unfolding parse_import_section
IsLocal-parse_import_section m = search items depth 9

IsLocal-parse_tag_section : (m : Module) → IsLocal (parse_tag_section m)
unfolding parse_tag_section
IsLocal-parse_tag_section m = search items depth 9

IsLocal-parse_function_section : (m : Module) → IsLocal (parse_function_section m)
unfolding parse_function_section
IsLocal-parse_function_section m = search items depth 9

IsLocal-parse_table_section : (m : Module) → IsLocal (parse_table_section m)
unfolding parse_table_section
IsLocal-parse_table_section m = search items depth 9

IsLocal-parse_memory_section : (m : Module) → IsLocal (parse_memory_section m)
unfolding parse_memory_section
IsLocal-parse_memory_section m = search items depth 9

IsLocal-parse_global_section : (m : Module) → IsLocal (parse_global_section m)
unfolding parse_global_section
IsLocal-parse_global_section m = search items depth 9

IsLocal-parse_export_section : (m : Module) → IsLocal (parse_export_section m)
unfolding parse_export_section
IsLocal-parse_export_section m = search items depth 9

IsLocal-parse_element_section : (m : Module) → IsLocal (parse_element_section m)
unfolding parse_element_section
IsLocal-parse_element_section m = search items depth 9

IsLocal-parse_code_section : (m : Module) → IsLocal (parse_code_section m)
unfolding parse_code_section
IsLocal-parse_code_section m = search items depth 9

IsLocal-parse_data_section : (m : Module) → IsLocal (parse_data_section m)
unfolding parse_data_section
IsLocal-parse_data_section m = search items depth 9

ruleset sections = (
  rules, IsLocal-parse_type_section, IsLocal-parse_import_section, IsLocal-parse_tag_section,
  IsLocal-parse_function_section, IsLocal-parse_table_section, IsLocal-parse_memory_section,
  IsLocal-parse_global_section, IsLocal-parse_export_section, IsLocal-parse_element_section,
  IsLocal-parse_code_section, IsLocal-parse_data_section,
)

-- What parseSection returns, for any section id, rests on the bytes that it takes: on a payload that
-- begins with the same bytes it returns the same module and leaves the bytes behind them.
pub parse_section-IsLocal : (m : Module) (id : ℕ) → IsLocal (parse_section m id)
unfolding parse_section
parse_section-IsLocal m id = search sections depth 40

-- An outcome that was reached elsewhere reads nothing.
IsLocal-outcome : (r : Result (Module × List ℕ)) → IsLocal (λ bs. bind r λ (m, left). ok (m, bs))
IsLocal-outcome (ok (m, left)) = IsLocal-pure m
IsLocal-outcome (err e) = IsLocal-fail e
IsLocal-outcome stuck = record { split = λ bs a rest h. cc }

pub read_section-IsLocal : (m : Module) (id : ℕ) → IsLocal (read_section m id)
unfolding read_section
read_section-IsLocal m id = IsLocal-bind (IsLocal-wrapped _ IsLocal-read_u32) λ n.
    IsLocal-bind (IsLocal-refuse_if (ltb max_section_payload n) (section id (too_long n))) λ _.
      IsLocal-bind (IsLocal-wrapped _ (IsLocal-read_full n))
        λ raw. IsLocal-outcome (wrap (section id) (parse_section m id raw))
