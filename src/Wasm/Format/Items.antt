-- ===== src/Wasm/Format/Items.antt =====
-- The entries of the type, import, function, table, memory, tag, global and export sections: their
-- encodings, and the parser's readers on them.
use wasm2go.Prelude.{
  ℕ, ◌+◌, ◌^◌, ◌≤◌, ◌≡◌, refl, Bool, true, false, List, [], ◌∷◌, ◌++◌, append_assoc, length,
  if◌then◌else◌,
}
use wasm2go.Wasm.Reader.{Error, ok, IsU32, IsU64, read_byte}
use wasm2go.Wasm.Reader.Local.{Reads}
use wasm2go.Wasm.Leb128.Encoding.{uleb, Reads-read_u32, Reads-read_u64}
use wasm2go.Wasm.Leb128.Local.{vec_bytes, Reads-read_name}
use wasm2go.Wasm.Module.{FuncType, Limits, TableType, MemoryType, GlobalType, Tag, Export}
use wasm2go.Wasm.Parser.Sections.{
  read_type, read_limits, read_table_type, read_memory_type, read_global_type, read_tag,
  read_function, read_export,
}
use wasm2go.Wasm.Format.Vectors.{Reads-read_count, Reads-read_bytes}

abbrev pub func_type_bytes : FuncType → List ℕ
func_type_bytes ft = 0x60 ∷ (vec_bytes ft.params ++ vec_bytes ft.results)

abbrev pub FitsFuncType : FuncType → Type 0
FitsFuncType ft = (length ft.params ≤ 2 ^ 28) × (length ft.results ≤ 2 ^ 28)

pub Reads-read_type :
    (i : ℕ) (ft : FuncType) → FitsFuncType ft → Reads (read_type i) (func_type_bytes ft) ft
unfolding read_type read_byte vec_bytes
Reads-read_type i ft h = record {
  on = λ rest. simp (
    append_assoc,
    (Reads-read_count (length ft.params) h.0).on,
    (Reads-read_bytes 0 ft.params).on,
    (Reads-read_count (length ft.results) h.1).on,
    (Reads-read_bytes 0 ft.results).on,
  );
}

-- The flags byte has a bit for each of has_max, shared and is64; the maximum is there if its bit is.
abbrev pub limits_flags : Limits → ℕ
limits_flags lim =
    (if lim.has_max then 1 else 0) + (if lim.shared then 2 else 0) + (if lim.is64 then 4 else 0)

abbrev pub limits_bytes : Limits → List ℕ
limits_bytes lim = limits_flags lim ∷ (uleb lim.min ++ (if lim.has_max then uleb lim.max else []))

-- Without a maximum the field is zero.
abbrev pub FitsMax : Bool → ℕ → Type 0
FitsMax true max = IsU64 max
FitsMax false max = max ≡ 0

abbrev pub FitsLimits : Limits → Type 0
FitsLimits lim = IsU64 lim.min × FitsMax lim.has_max lim.max

abbrev limits_of : ℕ → ℕ → Bool → Bool → Bool → Limits
limits_of min max has_max shared is64 = record {
  min = min;
  max = max;
  has_max = has_max;
  shared = shared;
  is64 = is64;
}

limits_reads :
    (min max : ℕ) (has_max shared is64 : Bool) (rest : List ℕ)
    → FitsLimits (limits_of min max has_max shared is64)
    → read_limits (limits_bytes (limits_of min max has_max shared is64) ++ rest)
      ≡ ok (limits_of min max has_max shared is64, rest)
unfolding read_limits read_byte
limits_reads min max true true true rest h =
    simp (append_assoc, (Reads-read_u64 {v = min} h.0).on, (Reads-read_u64 {v = max} h.1).on)
limits_reads min max true true false rest h =
    simp (append_assoc, (Reads-read_u64 {v = min} h.0).on, (Reads-read_u64 {v = max} h.1).on)
limits_reads min max true false true rest h =
    simp (append_assoc, (Reads-read_u64 {v = min} h.0).on, (Reads-read_u64 {v = max} h.1).on)
limits_reads min max true false false rest h =
    simp (append_assoc, (Reads-read_u64 {v = min} h.0).on, (Reads-read_u64 {v = max} h.1).on)
limits_reads min max false true true rest h =
    simp (append_assoc, (Reads-read_u64 {v = min} h.0).on, h.1)
limits_reads min max false true false rest h =
    simp (append_assoc, (Reads-read_u64 {v = min} h.0).on, h.1)
limits_reads min max false false true rest h =
    simp (append_assoc, (Reads-read_u64 {v = min} h.0).on, h.1)
limits_reads min max false false false rest h =
    simp (append_assoc, (Reads-read_u64 {v = min} h.0).on, h.1)

pub Reads-read_limits : (lim : Limits) → FitsLimits lim → Reads read_limits (limits_bytes lim) lim
Reads-read_limits lim h = record {
  on = λ rest. limits_reads lim.min lim.max lim.has_max lim.shared lim.is64 rest h;
}

abbrev pub table_bytes : TableType → List ℕ
table_bytes t = t.elem_type ∷ limits_bytes t.limits

pub Reads-read_table_type :
    (t : TableType) → FitsLimits t.limits → Reads read_table_type (table_bytes t) t
unfolding read_table_type read_byte
Reads-read_table_type t h = record { on = λ rest. rw ((Reads-read_limits t.limits h).on rest) refl }

-- A memory is its limits; the parser copies the memory64 bit.
abbrev pub memory_of : Limits → MemoryType
memory_of lim = record { limits = lim; is64 = lim.is64 }

pub Reads-read_memory_type :
    (lim : Limits) → FitsLimits lim → Reads read_memory_type (limits_bytes lim) (memory_of lim)
unfolding read_memory_type
Reads-read_memory_type lim h = record { on = λ rest. rw ((Reads-read_limits lim h).on rest) refl }

abbrev pub global_type_bytes : GlobalType → List ℕ
global_type_bytes g = g.val_type ∷ (if g.mutable then 1 else 0) ∷ []

global_type_reads :
    (v : ℕ) (mut : Bool) (rest : List ℕ)
    → let g : GlobalType = record { val_type = v; mutable = mut } in
      read_global_type (global_type_bytes g ++ rest) ≡ ok (g, rest)
unfolding read_global_type read_byte
global_type_reads v true rest = refl
global_type_reads v false rest = refl

pub Reads-read_global_type : (g : GlobalType) → Reads read_global_type (global_type_bytes g) g
Reads-read_global_type g = record { on = λ rest. global_type_reads g.val_type g.mutable rest }

abbrev pub tag_bytes : Tag → List ℕ
tag_bytes t = t.attribute ∷ uleb t.type_idx

pub Reads-read_tag :
    (f g : Error → Error) (t : Tag) → IsU32 t.type_idx → Reads (read_tag f g) (tag_bytes t) t
unfolding read_tag read_byte
Reads-read_tag f g t h = record {
  on = λ rest. rw ((Reads-read_u32 {v = t.type_idx} h).on rest) refl;
}

pub Reads-read_function :
    (i ti : ℕ) → IsU32 ti → Reads (read_function i) (uleb ti) (record { type_idx = ti; body = [] })
unfolding read_function
Reads-read_function i ti h = record { on = λ rest. rw ((Reads-read_u32 {v = ti} h).on rest) refl }

abbrev pub export_bytes : Export → List ℕ
export_bytes e = vec_bytes e.name ++ e.kind ∷ uleb e.index

abbrev pub FitsExport : Export → Type 0
FitsExport e = (length e.name ≤ 2 ^ 28) × IsU32 e.index

pub Reads-read_export :
    (i : ℕ) (e : Export) → FitsExport e → Reads (read_export i) (export_bytes e) e
unfolding read_export read_byte
Reads-read_export i e h = record {
  on = λ rest.
      simp (append_assoc, (Reads-read_name e.name h.0).on, (Reads-read_u32 {v = e.index} h.1).on);
}
