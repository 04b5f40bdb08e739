-- ===== src/Wasm/Format/Modules.antt =====
-- Modules as sequences of sections in the binary format, and Parse of internal/wasm/parser.go on them.
use wasm2go.Prelude.{
  ℕ, zero, suc, ◌^◌, ◌≤◌, ◌<◌, ◌≡◌, refl, ap, sym, ◌∙◌, List, [], ◌∷◌, ◌++◌, append_assoc,
  append-nil, length, length-append, All, arith, some, le→ltb,
}
use mathlib.Core.List.{map}
use wasm2go.Wasm.Reader.{ok, IsU32, Reader, pure, read_full}
use wasm2go.Wasm.Reader.Local.{Reads, Reads-last, Reads-pure, Reads-read_full}
use wasm2go.Wasm.Leb128.Encoding.{uleb, Reads-read_u32}
use wasm2go.Wasm.Leb128.Local.{vec_bytes}
use wasm2go.Wasm.Module.{Module, FuncType, Limits, TableType, Tag, Export, empty_module}
use wasm2go.Wasm.Parser.{
  read_header, parse_section, read_section, parse_sections, count_imports, parse,
}
use wasm2go.Wasm.Parser.Counters.{with_counters, count_imports-with_counters}
use wasm2go.Wasm.Parser.Sections.{
  max_section_payload, parse_import_section, parse_global_section, read_import, read_global,
}
use wasm2go.Wasm.Parser.Segments.{
  parse_element_section, parse_data_section, read_element, read_data,
}
use wasm2go.Wasm.Format.Vectors.{vec}
use wasm2go.Wasm.Format.Items.{
  func_type_bytes, FitsFuncType, table_bytes, FitsLimits, limits_bytes, memory_of, tag_bytes,
  export_bytes, FitsExport,
}
use wasm2go.Wasm.Format.Sections.{
  Reads-vec, Reads-type_section, Reads-function_section, Reads-table_section, Reads-memory_section,
  Reads-export_section, Reads-tag_section, Reads-code_section, declared, FitsTable, FitsTag,
  FitsBody, with_bodies,
}
use wasm2go.Wasm.Format.Segments.{
  ImportSpec, import_bytes, import_of, FitsImport, Reads-read_import, GlobalSpec, global_bytes,
  global_of, FitsGlobal, Reads-read_global, ElementSpec, element_bytes, element_of, FitsElement,
  Reads-read_element, DataSpec, data_bytes, data_of, FitsData, Reads-read_data,
}

-- `Section m id bs m'`: the section `id` with the payload `bs` turns the module `m` into `m'`.
pub data Section : Module → ℕ → List ℕ → Module → Type 0 where
  custom : {m : Module} (bs : List ℕ) → Section m 0 bs m
  types :
      {m : Module} (ts : List FuncType)
      → length ts ≤ 2 ^ 28
      → All FitsFuncType ts
      → Section m 1 (vec func_type_bytes ts) (record m { types = ts })
  imports :
      {m : Module} (is : List ImportSpec)
      → length is ≤ 2 ^ 28
      → All FitsImport is
      → Section m 2 (vec import_bytes is) (record m { imports = map import_of is })
  functions :
      {m : Module} (tis : List ℕ)
      → length tis ≤ 2 ^ 28
      → All IsU32 tis
      → Section m 3 (vec uleb tis) (record m { functions = map declared tis })
  tables :
      {m : Module} (ts : List TableType)
      → length ts ≤ 2 ^ 28
      → All FitsTable ts
      → Section m 4 (vec table_bytes ts) (record m { tables = ts })
  memories :
      {m : Module} (ls : List Limits)
      → length ls ≤ 2 ^ 28
      → All FitsLimits ls
      → Section m 5 (vec limits_bytes ls) (record m { memories = map memory_of ls })
  globals :
      {m : Module} (gs : List GlobalSpec)
      → length gs ≤ 2 ^ 28
      → All FitsGlobal gs
      → Section m 6 (vec global_bytes gs) (record m { globals = map global_of gs })
  exports :
      {m : Module} (es : List Export)
      → length es ≤ 2 ^ 28
      → All FitsExport es
      → Section m 7 (vec export_bytes es) (record m { exports = es })
  start :
      {m : Module} (idx : ℕ) → IsU32 idx → Section m 8 (uleb idx) (record m { start = some idx })
  elements :
      {m : Module} (es : List ElementSpec)
      → length es ≤ 2 ^ 28
      → All FitsElement es
      → Section m 9 (vec element_bytes es) (record m { elements = map element_of es })
  code :
      {m : Module} (bodies : List (List ℕ))
      → length bodies ≡ length m.functions
      → length bodies < 2 ^ 32
      → All FitsBody bodies
      → Section m 10
          (vec vec_bytes bodies)
          (record m { functions = with_bodies m.functions bodies })
  datas :
      {m : Module} (ds : List DataSpec)
      → length ds ≤ 2 ^ 28
      → All FitsData ds
      → Section m 11 (vec data_bytes ds) (record m { datas = map data_of ds })
  data_count : {m : Module} (n : ℕ) → IsU32 n → Section m 12 (uleb n) m
  tags :
      {m : Module} (ts : List Tag)
      → length ts ≤ 2 ^ 28
      → All FitsTag ts
      → Section m 13 (vec tag_bytes ts) (record m { tags = ts })

-- The sections of a module, each an id, the length of its payload and the payload.
pub data Sections : Module → List ℕ → Module → Type 0 where
  none : {m : Module} → Sections m [] m
  next :
      {m m' m'' : Module} {id : ℕ} {bs more : List ℕ}
      → Section m id bs m'
      → length bs ≤ 2 ^ 28
      → Sections m' more m''
      → Sections m (id ∷ (vec_bytes bs ++ more)) m''

abbrev pub magic : List ℕ
magic = 0x00 ∷ 0x61 ∷ 0x73 ∷ 0x6d ∷ 0x01 ∷ 0x00 ∷ 0x00 ∷ 0x00 ∷ []

whole :
    {A : Type 0} {p : Reader A} {bs : List ℕ} {a : A}
    → Reads p bs a
    → (left : List ℕ) × (p bs ≡ ok (a, left))
whole {p} {bs} r = ([], ap p (sym (append-nil bs)) ∙ r.on [])

Section-parses :
    (m m' : Module) (id : ℕ) (bs : List ℕ)
    → Section m id bs m'
    → (left : List ℕ) × (parse_section m id bs ≡ ok (m', left))
unfolding parse_section parse_import_section parse_global_section parse_element_section
    parse_data_section
Section-parses m m' id bs (custom bs') = (bs, refl)
Section-parses m m' id bs (types ts few h) = whole (Reads-type_section m ts few h)
Section-parses m m' id bs (imports is few h) = whole (
    Reads-vec read_import import_bytes import_of FitsImport Reads-read_import
      (λ ys. record m { imports = ys }) is few h)
Section-parses m m' id bs (functions tis few h) = whole (Reads-function_section m tis few h)
Section-parses m m' id bs (tables ts few h) = whole (Reads-table_section m ts few h)
Section-parses m m' id bs (memories ls few h) = whole (Reads-memory_section m ls few h)
Section-parses m m' id bs (globals gs few h) = whole (
    Reads-vec read_global global_bytes global_of FitsGlobal Reads-read_global
      (λ ys. record m { globals = ys }) gs few h)
Section-parses m m' id bs (exports es few h) = whole (Reads-export_section m es few h)
Section-parses m m' id bs (start idx h) = whole (
    Reads-last (λ v. pure (record m { start = some v })) (Reads-read_u32 {v = idx} h)
      (Reads-pure _))
Section-parses m m' id bs (elements es few h) = whole (
    Reads-vec read_element element_bytes element_of FitsElement Reads-read_element
      (λ ys. record m { elements = ys }) es few h)
Section-parses m m' id bs (code bodies n few h) = whole (Reads-code_section m bodies n few h)
Section-parses m m' id bs (datas ds few h) = whole (
    Reads-vec read_data data_bytes data_of FitsData Reads-read_data (λ ys. record m { datas = ys })
      ds few h)
Section-parses m m' id bs (data_count n h) =
    whole (Reads-last (λ v. pure m) (Reads-read_u32 {v = n} h) (Reads-pure _))
Section-parses m m' id bs (tags ts few h) = whole (Reads-tag_section m ts few h)

read_section-Sections :
    (m m' : Module) (id : ℕ) (bs more : List ℕ)
    → Section m id bs m'
    → length bs ≤ 2 ^ 28
    → read_section m id (vec_bytes bs ++ more) ≡ ok (m', more)
unfolding read_section vec_bytes
read_section-Sections m m' id bs more s h =
    let (left, e) = Section-parses m m' id bs s in
    simp (
      append_assoc,
      (Reads-read_u32 {v = length bs} (omega arith)).on,
      le→ltb max_section_payload (length bs) h,
      (Reads-read_full bs).on,
      e,
    )

parse_sections-Sections :
    (fuel : ℕ) (m m' : Module) (bs : List ℕ)
    → Sections m bs m'
    → length bs ≤ fuel
    → parse_sections fuel m bs ≡ ok m'
unfolding parse_sections
parse_sections-Sections zero m m' bs none h = refl
parse_sections-Sections (suc fuel) m m' bs none h = refl
parse_sections-Sections zero m m' bs (next s few rest) h = absurd (omega arith)
parse_sections-Sections (suc fuel) m m'' bs
      (next {m' = m'} {id = id} {bs = p} {more = more} s few rest) h =
    rw (read_section-Sections m m' id p more s few) (
      parse_sections-Sections fuel m' m'' more rest
        (omega (arith, length-append (vec_bytes p) more)))

parse-Sections_counted :
    (bs : List ℕ) (m : Module)
    → Sections empty_module bs m
    → parse (magic ++ bs) ≡ ok (count_imports m.imports m)
unfolding parse read_header read_full
parse-Sections_counted bs m s =
    rw (parse_sections-Sections (length bs) empty_module m bs s (omega arith)) refl

-- Parse on the magic number and any sequence of sections, in any order, of the forms that `Section`
-- lists and within the parser's limits on lengths, returns the module that they describe, with each
-- import counter set to the number of imports of its kind. The forms: numbers in their shortest LEB128, element segments with the flags 0 and 2,
-- data segments with the flags 0, 1 (passive) and 2, and constant expressions of i32.const, i64.const,
-- f32.const, f64.const, global.get, ref.null and ref.func.
pub parse-Sections :
    (bs : List ℕ) (m : Module)
    → Sections empty_module bs m
    → parse (magic ++ bs) ≡ ok (with_counters m)
parse-Sections bs m s =
    let h = parse-Sections_counted bs m s in
    h ∙ ap ok (count_imports-with_counters (magic ++ bs) m h)
