-- ===== src/Wasm/Parser/Fields.antt =====
-- Which field of the module a section sets, and what parseSection lets in.
use wasm2go.Prelude.{
  ℕ, ◌+◌, ◌^◌, ◌≤◌, ◌≡◌, refl, sym, Bool-cases, inl, inr, List, [], ◌∷◌, some, length, not, ◌==◌,
  ==_iff, if◌then◌else◌, ltb, arith,
}
use mathlib.Core.List.{map}
use mathlib.Core.Path.{subst}
use wasm2go.Wasm.Reader.{
  read_full, wrapped, too_long, Reader, ok, IsU32, pure, ◌>>=◌, read_each, entry,
}
use wasm2go.Wasm.Reader.Yields.{
  Yields, Yields-bind, Yields-bind_of, Yields-pure, Yields-fail, Yields-guard, length-read_each,
}
use wasm2go.Wasm.Leb128.{read_u32}
use wasm2go.Wasm.Leb128.Total.{read_u32-IsU32}
use wasm2go.Wasm.Module.{
  Module, FuncType, Import, Function, TableType, MemoryType, Global, Export, ElementSegment,
  DataSegment, Tag,
}
use wasm2go.Wasm.Parser.Counts.{read_count-le}
use wasm2go.Wasm.Parser.Sections.{
  read_count, read_type, parse_type_section, read_import, parse_import_section, parse_tag_section,
  parse_function_section, parse_table_section, parse_memory_section, parse_global_section,
  parse_export_section, read_function, read_table_type, read_memory_type, read_global, read_export,
}
use wasm2go.Wasm.Parser.Segments.{
  max_function_body, parse_element_section, parse_code_section, parse_data_section, read_element,
  read_data, read_body, read_bodies,
}
use wasm2go.Wasm.Parser.{parse_section}

-- At most as many entries as the cap on vectors allows.
abbrev pub Few {ℓ} : {A : Type ℓ} → List A → Type 0
Few xs = length xs ≤ 2 ^ 28

-- `Sets m id m'`: `m'` is `m` with a new value in the field of the section `id`, within the section's
-- limits, and the same in every other field. Custom and DataCount sections have no field.
pub data Sets (m : Module) : ℕ → Module → Type 0 where
  custom : Sets m 0 m
  types : (xs : List FuncType) → Few xs → Sets m 1 (record m { types = xs })
  imports : (xs : List Import) → Few xs → Sets m 2 (record m { imports = xs })
  functions : (xs : List Function) → Few xs → Sets m 3 (record m { functions = xs })
  tables : (xs : List TableType) → Few xs → Sets m 4 (record m { tables = xs })
  memories : (xs : List MemoryType) → Few xs → Sets m 5 (record m { memories = xs })
  globals : (xs : List Global) → Few xs → Sets m 6 (record m { globals = xs })
  exports : (xs : List Export) → Few xs → Sets m 7 (record m { exports = xs })
  start : (idx : ℕ) → IsU32 idx → Sets m 8 (record m { start = some idx })
  elements : (xs : List ElementSegment) → Few xs → Sets m 9 (record m { elements = xs })
  code :
      (xs : List Function)
      → map (λ f. f.type_idx) xs ≡ map (λ f. f.type_idx) m.functions
      → Sets m 10 (record m { functions = xs })
  datas : (xs : List DataSegment) → Few xs → Sets m 11 (record m { datas = xs })
  data_count : Sets m 12 m
  tags : (xs : List Tag) → Few xs → Sets m 13 (record m { tags = xs })

-- A section that is a counted vector.
Yields-vector :
    {A : Type 0} {P : Module → Type 0} (item : ℕ → Reader A) (set : List A → Module)
    → ((xs : List A) → Few xs → P (set xs))
    → Yields (read_count >>= λ n. read_each 0 n item >>= λ xs. pure (set xs)) P
Yields-vector item set h =
    Yields-bind_of read_count-le
      λ n few. Yields-bind_of (length-read_each 0 n item) λ xs e. Yields-pure (h xs (omega arith))

read_body-type_idx : (i : ℕ) (f : Function) → Yields (read_body i f) (λ g. g.type_idx ≡ f.type_idx)
unfolding read_body
read_body-type_idx i f = Yields-bind read_u32 λ size.
    Yields-guard (ltb max_function_body size) (entry i (too_long size)) λ _.
      Yields-bind (wrapped (entry i) (read_full size))
        λ body. Yields-pure {a = record f { body = body }} refl

read_bodies-type_idx :
    (i : ℕ) (fs : List Function)
    → Yields (read_bodies i fs) (λ gs. map (λ f. f.type_idx) gs ≡ map (λ f. f.type_idx) fs)
unfolding read_bodies
read_bodies-type_idx i [] = Yields-pure refl
read_bodies-type_idx i (f ∷ fs) = Yields-bind_of (read_body-type_idx i f) λ g e.
    Yields-bind_of (read_bodies-type_idx (i + 1) fs)
      λ gs es. Yields-pure {a = g ∷ gs} (rw (e, es) refl)

Yields-read_u32 : Yields read_u32 IsU32
Yields-read_u32 = record { post = read_u32-IsU32 }

module _ (m : Module) where
  -- One arm of the switch on the section's id.
  Yields-case :
      (id k : ℕ) {p q : Reader Module}
      → Yields p (Sets m k)
      → Yields q (Sets m id)
      → Yields (if id == k then p else q) (Sets m id)
  Yields-case id k {p} hp hq = elim (Bool-cases (id == k)) [
    | inl e ↦ rw e (subst (λ j. Yields p (Sets m j)) (sym ((==_iff id k).0 e)) hp)
    | inr e ↦ rw e hq
  ]

  parse_code_section-Sets : Yields (parse_code_section m) (Sets m 10)
  unfolding parse_code_section
  parse_code_section-Sets = Yields-bind read_u32 λ n.
      Yields-guard (not (n == length m.functions)) _ λ _.
        Yields-bind_of (read_bodies-type_idx 0 m.functions)
          λ fs e. Yields-pure {a = record m { functions = fs }} (code fs e)

  parse_section-Yields : (id : ℕ) → Yields (parse_section m id) (Sets m id)
  unfolding parse_section parse_type_section parse_import_section parse_function_section
      parse_table_section parse_memory_section parse_global_section parse_export_section
      parse_element_section parse_data_section parse_tag_section
  parse_section-Yields id = Yields-case id 0 (Yields-pure custom) (
      Yields-case id 1 (Yields-vector read_type _ types) (
        Yields-case id 2 (Yields-vector read_import _ imports) (
          Yields-case id 3 (Yields-vector read_function _ functions) (
            Yields-case id 4 (Yields-vector (λ i. read_table_type) _ tables) (
              Yields-case id 5 (Yields-vector (λ i. read_memory_type) _ memories) (
                Yields-case id 6 (Yields-vector read_global _ globals) (
                  Yields-case id 7 (Yields-vector read_export _ exports) (
                    Yields-case id 8
                      (Yields-bind_of Yields-read_u32
                        λ idx h. Yields-pure {a = record m { start = some idx }} (start idx h))
                      (Yields-case id 9 (Yields-vector read_element _ elements) (
                        Yields-case id 10 parse_code_section-Sets (
                          Yields-case id 11 (Yields-vector read_data _ datas) (
                            Yields-case id 12 (Yields-bind read_u32 λ n. Yields-pure data_count) (
                              Yields-case id 13 (Yields-vector _ _ tags)
                                (Yields-fail _))))))))))))))

-- Whatever parseSection accepts, it sets only the field of the section with that id: to at most 2^28
-- entries, for the start section to a number below 2^32, and for the code section to as many functions
-- with the same type indices. A custom and a DataCount section change nothing, and no other id is
-- accepted.
pub parse_section-Sets :
    (m m' : Module) (id : ℕ) (bs left : List ℕ)
    → parse_section m id bs ≡ ok (m', left)
    → Sets m id m'
parse_section-Sets m m' id bs left h = (parse_section-Yields m id).post bs m' left h
