-- ===== src/Wasm/Format/Segments.antt =====
-- Imports, globals, and element and data segments, whose parts depend on a kind or a flag.
use wasm2go.Prelude.{
  ℕ, ◌^◌, ◌≤◌, refl, true, false, List, [], ◌∷◌, ◌++◌, append_assoc, length, All, arith, le→ltb,
}
use mathlib.Core.List.{map-id}
use wasm2go.Wasm.Reader.{IsU32, read_byte}
use wasm2go.Wasm.Reader.Local.{
  Reads, Reads-bind, Reads-last, Reads-pure, Reads-wrapped, Reads-read_byte,
}
use wasm2go.Wasm.Leb128.{read_u32}
use wasm2go.Wasm.Leb128.Encoding.{uleb, Reads-read_u32}
use wasm2go.Wasm.Leb128.Local.{vec_bytes, Reads-read_name, Reads-read_byte_vec}
use wasm2go.Wasm.Module.{
  Limits, TableType, GlobalType, Tag, Import, Global, ElementSegment, DataSegment,
}
use wasm2go.Wasm.Parser.Sections.{
  read_global, bare_import, read_import, read_import_desc, max_vector_len,
}
use wasm2go.Wasm.Parser.Segments.{read_func_idxs, read_element, read_data}
use wasm2go.Wasm.Format.ConstExprs.{ConstInstr, FitsInstr, expr_bytes, Reads-read_const_expr}
use wasm2go.Wasm.Format.Items.{
  table_bytes, Reads-read_table_type, FitsLimits, limits_bytes, memory_of, Reads-read_memory_type,
  tag_bytes, Reads-read_tag, global_type_bytes, Reads-read_global_type,
}
use wasm2go.Wasm.Format.Vectors.{vec, Reads-read_each}

pub record GlobalSpec : Type 0 where
  pub type_of : GlobalType
  pub init : List ConstInstr

abbrev pub global_bytes : GlobalSpec → List ℕ
global_bytes g = global_type_bytes g.type_of ++ expr_bytes g.init

abbrev pub global_of : GlobalSpec → Global
global_of g = record { global_type = g.type_of; init = expr_bytes g.init }

abbrev pub FitsGlobal : GlobalSpec → Type 0
FitsGlobal g = All FitsInstr g.init

pub Reads-read_global :
    (i : ℕ) (g : GlobalSpec) → FitsGlobal g → Reads (read_global i) (global_bytes g) (global_of g)
unfolding read_global
Reads-read_global i g h =
    Reads-bind _ (Reads-read_global_type g.type_of)
      (Reads-last _ (Reads-wrapped _ (Reads-read_const_expr g.init h)) (Reads-pure _))

pub data Imported : Type 0 where
  func : ℕ → Imported
  table : TableType → Imported
  memory : Limits → Imported
  global : GlobalType → Imported
  tag : Tag → Imported

pub record ImportSpec : Type 0 where
  pub module_name : List ℕ
  pub name : List ℕ
  pub desc : Imported

abbrev pub kind_of : Imported → ℕ
kind_of (func ti) = 0x00
kind_of (table t) = 0x01
kind_of (memory l) = 0x02
kind_of (global g) = 0x03
kind_of (tag t) = 0x04

abbrev pub desc_bytes : Imported → List ℕ
desc_bytes (func ti) = uleb ti
desc_bytes (table t) = table_bytes t
desc_bytes (memory l) = limits_bytes l
desc_bytes (global g) = global_type_bytes g
desc_bytes (tag t) = tag_bytes t

abbrev pub FitsDesc : Imported → Type 0
FitsDesc (func ti) = IsU32 ti
FitsDesc (table t) = FitsLimits t.limits
FitsDesc (memory l) = FitsLimits l
FitsDesc (global g) = Unit
FitsDesc (tag t) = IsU32 t.type_idx

abbrev described : Import → Imported → Import
described imp (func ti) = record imp { type_idx = ti }
described imp (table t) = record imp { table = t }
described imp (memory l) = record imp { memory = memory_of l }
described imp (global g) = record imp { global = g }
described imp (tag t) = record imp { tag = t }

abbrev pub import_of : ImportSpec → Import
import_of s = described (bare_import s.module_name s.name (kind_of s.desc)) s.desc

abbrev pub import_bytes : ImportSpec → List ℕ
import_bytes s =
    vec_bytes s.module_name ++ (vec_bytes s.name ++ (kind_of s.desc ∷ desc_bytes s.desc))

abbrev pub FitsImport : ImportSpec → Type 0
FitsImport s = (length s.module_name ≤ 2 ^ 28) × (length s.name ≤ 2 ^ 28) × FitsDesc s.desc

desc-Reads :
    (i : ℕ) (mn n : List ℕ) (d : Imported)
    → FitsDesc d
    → Reads
        (read_import_desc i (bare_import mn n (kind_of d)))
        (desc_bytes d)
        (described (bare_import mn n (kind_of d)) d)
unfolding read_import_desc
desc-Reads i mn n (func ti) h = record {
  on = λ rest. rw ((Reads-read_u32 {v = ti} h).on rest) refl;
}
desc-Reads i mn n (table t) h = record {
  on = λ rest. rw ((Reads-read_table_type t h).on rest) refl;
}
desc-Reads i mn n (memory l) h = record {
  on = λ rest. rw ((Reads-read_memory_type l h).on rest) refl;
}
desc-Reads i mn n (global g) h = record {
  on = λ rest. rw ((Reads-read_global_type g).on rest) refl;
}
desc-Reads i mn n (tag t) h = record {
  on = λ rest. rw ((Reads-read_tag (λ e. e) (λ e. e) t h).on rest) refl;
}

pub Reads-read_import :
    (i : ℕ) (s : ImportSpec) → FitsImport s → Reads (read_import i) (import_bytes s) (import_of s)
unfolding read_import read_byte
Reads-read_import i s h = record {
  on = λ rest. simp (
    append_assoc,
    (Reads-read_name s.module_name h.0).on,
    (Reads-read_name s.name h.1).on,
    (desc-Reads i s.module_name s.name s.desc h.2).on,
  );
}

-- Flag 0 means table 0; with flag 2 the table is written, and the kind of the elements.
pub data ElementSpec : Type 0 where
  active : List ConstInstr → List ℕ → ElementSpec
  explicit : ℕ → List ConstInstr → List ℕ → ElementSpec

abbrev pub element_bytes : ElementSpec → List ℕ
element_bytes (active off idxs) = uleb 0 ++ (expr_bytes off ++ vec uleb idxs)
element_bytes (explicit t off idxs) =
    uleb 2 ++ (uleb t ++ (expr_bytes off ++ ((0x00 ∷ []) ++ vec uleb idxs)))

abbrev pub element_of : ElementSpec → ElementSegment
element_of (active off idxs) = record { table_idx = 0; offset = expr_bytes off; func_idxs = idxs }
element_of (explicit t off idxs) = record {
  table_idx = t;
  offset = expr_bytes off;
  func_idxs = idxs;
}

abbrev pub FitsElement : ElementSpec → Type 0
FitsElement (active off idxs) = All FitsInstr off × (length idxs ≤ 2 ^ 28) × All IsU32 idxs
FitsElement (explicit t off idxs) =
    IsU32 t × All FitsInstr off × (length idxs ≤ 2 ^ 28) × All IsU32 idxs

Reads-read_func_idxs :
    (i : ℕ) (idxs : List ℕ)
    → length idxs ≤ 2 ^ 28
    → All IsU32 idxs
    → Reads (read_func_idxs i) (vec uleb idxs) idxs
unfolding read_func_idxs
Reads-read_func_idxs i idxs few h =
    let each =
      Reads-read_each (λ j. read_u32) uleb (λ v. v) IsU32 (λ j v k. Reads-read_u32 {v = v} k) 0 idxs
        h in
    Reads-bind _ (Reads-read_u32 {v = length idxs} (omega arith))
      (rw (le→ltb max_vector_len (length idxs) few) (rw (map-id idxs) at each))

pub Reads-read_element :
    (i : ℕ) (e : ElementSpec)
    → FitsElement e
    → Reads (read_element i) (element_bytes e) (element_of e)
unfolding read_element
Reads-read_element i (active off idxs) h = Reads-bind _ (Reads-read_u32 {v = 0} (omega arith)) (
    Reads-bind _ (Reads-wrapped _ (Reads-read_const_expr off h.0))
      (Reads-last _ (Reads-read_func_idxs i idxs h.1 h.2) (Reads-pure _)))
Reads-read_element i (explicit t off idxs) h = Reads-bind _ (Reads-read_u32 {v = 2} (omega arith)) (
    Reads-bind _ (Reads-read_u32 {v = t} h.0) (
      Reads-bind _ (Reads-read_const_expr off h.1) (
        Reads-bind _ (Reads-read_byte 0x00)
          (Reads-last _ (Reads-read_func_idxs i idxs h.2 h.3) (Reads-pure _)))))

pub data DataSpec : Type 0 where
  active : List ConstInstr → List ℕ → DataSpec
  passive : List ℕ → DataSpec
  explicit : ℕ → List ConstInstr → List ℕ → DataSpec

abbrev pub data_bytes : DataSpec → List ℕ
data_bytes (active off b) = uleb 0 ++ (expr_bytes off ++ vec_bytes b)
data_bytes (passive b) = uleb 1 ++ vec_bytes b
data_bytes (explicit mem off b) = uleb 2 ++ (uleb mem ++ (expr_bytes off ++ vec_bytes b))

abbrev pub data_of : DataSpec → DataSegment
data_of (active off b) = record { mem_idx = 0; offset = expr_bytes off; bytes = b; passive = false }
data_of (passive b) = record { mem_idx = 0; offset = []; bytes = b; passive = true }
data_of (explicit mem off b) = record {
  mem_idx = mem;
  offset = expr_bytes off;
  bytes = b;
  passive = false;
}

abbrev pub FitsData : DataSpec → Type 0
FitsData (active off b) = All FitsInstr off × (length b ≤ 2 ^ 28)
FitsData (passive b) = length b ≤ 2 ^ 28
FitsData (explicit mem off b) = IsU32 mem × All FitsInstr off × (length b ≤ 2 ^ 28)

pub Reads-read_data :
    (i : ℕ) (d : DataSpec) → FitsData d → Reads (read_data i) (data_bytes d) (data_of d)
unfolding read_data
Reads-read_data i (active off b) h = Reads-bind _ (Reads-read_u32 {v = 0} (omega arith)) (
    Reads-bind _ (Reads-read_const_expr off h.0)
      (Reads-last _ (Reads-read_byte_vec b h.1) (Reads-pure _)))
Reads-read_data i (passive b) h =
    Reads-bind _ (Reads-read_u32 {v = 1} (omega arith))
      (Reads-last _ (Reads-read_byte_vec b h) (Reads-pure _))
Reads-read_data i (explicit mem off b) h = Reads-bind _ (Reads-read_u32 {v = 2} (omega arith)) (
    Reads-bind _ (Reads-read_u32 {v = mem} h.0) (
      Reads-bind _ (Reads-read_const_expr off h.1)
        (Reads-last _ (Reads-read_byte_vec b h.2) (Reads-pure _))))
