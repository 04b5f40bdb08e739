-- ===== src/Wasm/Parser/Counts.antt =====
-- No section parser moves the import counters, and none lets in more imports than can be counted.
use wasm2go.Prelude.{
  ℕ, zero, suc, ◌^◌, ◌≤◌, ◌≡◌, List, [], ◌∷◌, some, length, ltb, ◌==◌, arith, not,
}
use mathlib.Core.Path.{subst}
use wasm2go.Wasm.Reader.{
  too_long, ok, pure, ◌>>=◌, wrap, wrapped, section, entry, part, attribute, type_index, size,
  payload, read_each, read_full,
}
use wasm2go.Wasm.Reader.Local.{bind-eq-ok, wrap-eq-ok}
use wasm2go.Wasm.Reader.Yields.{
  Yields, Yields-bind, Yields-bind_of, Yields-pure, Yields-fail, Yields-if, Yields-guard,
  length-read_each,
}
use wasm2go.Wasm.Leb128.{read_u32}
use wasm2go.Wasm.Module.{Module}
use wasm2go.Wasm.Parser.Sections.{
  read_count, max_vector_len, read_type, parse_type_section, read_import, parse_import_section,
  parse_tag_section, parse_function_section, parse_table_section, parse_memory_section,
  parse_global_section, parse_export_section, read_tag, read_function, read_table_type,
  read_memory_type, read_global, read_export, max_section_payload,
}
use wasm2go.Wasm.Parser.Segments.{
  parse_element_section, parse_code_section, parse_data_section, read_element, read_data,
  read_bodies,
}
use wasm2go.Wasm.Parser.{parse_section, read_section, parse_sections}

-- Before the counting loop: no counter has moved, and the imports are few enough to be counted.
pub record IsUncounted (m : Module) : Type 0 where
  pub funcs : m.num_imported_funcs ≡ 0
  pub tables : m.num_imported_tables ≡ 0
  pub mems : m.num_imported_mems ≡ 0
  pub globals : m.num_imported_globals ≡ 0
  pub tags : m.num_imported_tags ≡ 0
  pub few : length m.imports ≤ 2 ^ 28

ok-injective : (a b : Module × List ℕ) → ok a ≡ ok b → a.0 ≡ b.0
ok-injective a b h = cc

pub read_count-le : Yields read_count (λ n. n ≤ 2 ^ 28)
unfolding read_count
read_count-le =
    Yields-bind read_u32
      λ n. Yields-guard (ltb max_vector_len n) (too_long n) λ h. Yields-pure (ground arith)

module _ (m : Module) (u : IsUncounted m) where
  parse_type_section-IsUncounted : Yields (parse_type_section m) IsUncounted
  unfolding parse_type_section
  parse_type_section-IsUncounted = Yields-bind read_count λ n.
      Yields-bind (read_each 0 n read_type)
        λ xs. Yields-pure {a = record m { types = xs }} (omega arith)

  parse_tag_section-IsUncounted : Yields (parse_tag_section m) IsUncounted
  unfolding parse_tag_section
  parse_tag_section-IsUncounted = Yields-bind read_count λ n.
      Yields-bind
        (read_each 0 n
          (λ i. read_tag (λ e. entry i (part attribute e)) (λ e. entry i (part type_index e))))
        λ xs. Yields-pure {a = record m { tags = xs }} (omega arith)

  parse_function_section-IsUncounted : Yields (parse_function_section m) IsUncounted
  unfolding parse_function_section
  parse_function_section-IsUncounted = Yields-bind read_count λ n.
      Yields-bind (read_each 0 n read_function)
        λ xs. Yields-pure {a = record m { functions = xs }} (omega arith)

  parse_table_section-IsUncounted : Yields (parse_table_section m) IsUncounted
  unfolding parse_table_section
  parse_table_section-IsUncounted = Yields-bind read_count λ n.
      Yields-bind (read_each 0 n (λ i. read_table_type))
        λ xs. Yields-pure {a = record m { tables = xs }} (omega arith)

  parse_memory_section-IsUncounted : Yields (parse_memory_section m) IsUncounted
  unfolding parse_memory_section
  parse_memory_section-IsUncounted = Yields-bind read_count λ n.
      Yields-bind (read_each 0 n (λ i. read_memory_type))
        λ xs. Yields-pure {a = record m { memories = xs }} (omega arith)

  parse_global_section-IsUncounted : Yields (parse_global_section m) IsUncounted
  unfolding parse_global_section
  parse_global_section-IsUncounted = Yields-bind read_count λ n.
      Yields-bind (read_each 0 n read_global)
        λ xs. Yields-pure {a = record m { globals = xs }} (omega arith)

  parse_export_section-IsUncounted : Yields (parse_export_section m) IsUncounted
  unfolding parse_export_section
  parse_export_section-IsUncounted = Yields-bind read_count λ n.
      Yields-bind (read_each 0 n read_export)
        λ xs. Yields-pure {a = record m { exports = xs }} (omega arith)

  parse_element_section-IsUncounted : Yields (parse_element_section m) IsUncounted
  unfolding parse_element_section
  parse_element_section-IsUncounted = Yields-bind read_count λ n.
      Yields-bind (read_each 0 n read_element)
        λ xs. Yields-pure {a = record m { elements = xs }} (omega arith)

  parse_data_section-IsUncounted : Yields (parse_data_section m) IsUncounted
  unfolding parse_data_section
  parse_data_section-IsUncounted = Yields-bind read_count λ n.
      Yields-bind (read_each 0 n read_data)
        λ xs. Yields-pure {a = record m { datas = xs }} (omega arith)

  parse_import_section-IsUncounted : Yields (parse_import_section m) IsUncounted
  unfolding parse_import_section
  parse_import_section-IsUncounted = Yields-bind_of read_count-le λ n h.
      Yields-bind_of (length-read_each 0 n read_import) λ imports e. Yields-pure (omega arith)

  parse_code_section-IsUncounted : Yields (parse_code_section m) IsUncounted
  unfolding parse_code_section
  parse_code_section-IsUncounted = Yields-bind read_u32 λ n.
      Yields-guard (not (n == length m.functions)) _ λ _.
        Yields-bind (read_bodies 0 m.functions)
          λ fs. Yields-pure {a = record m { functions = fs }} (omega arith)

  parse_start_section-IsUncounted :
      Yields (read_u32 >>= λ idx. pure (record m { start = some idx })) IsUncounted
  parse_start_section-IsUncounted =
      Yields-bind read_u32 λ idx. Yields-pure {a = record m { start = some idx }} (omega arith)

  custom_section-IsUncounted : Yields (pure m) IsUncounted
  custom_section-IsUncounted = Yields-pure u

  parse_data_count-IsUncounted : Yields (read_u32 >>= λ n. pure m) IsUncounted
  parse_data_count-IsUncounted = Yields-bind read_u32 λ n. Yields-pure u

  parse_section-IsUncounted : (id : ℕ) → Yields (parse_section m id) IsUncounted
  unfolding parse_section
  parse_section-IsUncounted id =
      search
        (
          Yields-if, Yields-fail, custom_section-IsUncounted, parse_data_count-IsUncounted,
          parse_type_section-IsUncounted, parse_tag_section-IsUncounted,
          parse_function_section-IsUncounted, parse_table_section-IsUncounted,
          parse_memory_section-IsUncounted, parse_global_section-IsUncounted,
          parse_export_section-IsUncounted, parse_element_section-IsUncounted,
          parse_data_section-IsUncounted, parse_import_section-IsUncounted,
          parse_code_section-IsUncounted, parse_start_section-IsUncounted,
        )
        depth 40

  read_section-IsUncounted : (id : ℕ) → Yields (read_section m id) IsUncounted
  unfolding read_section
  read_section-IsUncounted id = Yields-bind (wrapped (λ e. section id (part size e)) read_u32) λ n.
      Yields-guard (ltb max_section_payload n) _ λ _.
        Yields-bind (wrapped (λ e. section id (part payload e)) (read_full n)) λ raw. record {
          post = λ bs m' rest e.
              let ((m'', left), q, k) =
                bind-eq-ok (wrap (section id) (parse_section m id raw)) (λ (m', left). ok (m', bs))
                  (m', rest) e in
              let same : m'' ≡ m' = ok-injective (m'', bs) (m', rest) k in
              subst IsUncounted same
                ((parse_section-IsUncounted id).post raw m'' left (wrap-eq-ok (section id) _ _ q));
        }

pub parse_sections-IsUncounted :
    (fuel : ℕ) (m : Module) (bs : List ℕ) (m' : Module)
    → IsUncounted m
    → parse_sections fuel m bs ≡ ok m'
    → IsUncounted m'
unfolding parse_sections
parse_sections-IsUncounted fuel m [] m' u h = subst IsUncounted (cc) u
parse_sections-IsUncounted zero m (id ∷ bs) m' u h = cc
parse_sections-IsUncounted (suc fuel) m (id ∷ bs) m' u h =
    let ((mid, rest), q, k) =
      bind-eq-ok (read_section m id bs) (λ (x, r). parse_sections fuel x r) m' h in
    parse_sections-IsUncounted fuel mid rest m'
      ((read_section-IsUncounted m u id).post bs mid rest q) k
