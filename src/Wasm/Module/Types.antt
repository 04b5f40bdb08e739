-- ===== src/Wasm/Module/Types.antt =====
-- The types of internal/wasm/ir.go and their zero values.
use wasm2go.Prelude.{ℕ, Bool, false, List, [], Option, none}

abbrev pub val_i32 : ℕ
val_i32 = 0x7f

abbrev pub val_i64 : ℕ
val_i64 = 0x7e

abbrev pub val_f32 : ℕ
val_f32 = 0x7d

abbrev pub val_f64 : ℕ
val_f64 = 0x7c

abbrev pub val_v128 : ℕ
val_v128 = 0x7b

abbrev pub val_funcref : ℕ
val_funcref = 0x70

abbrev pub val_externref : ℕ
val_externref = 0x6f

pub record FuncType : Type 0 where
  pub params : List ℕ
  pub results : List ℕ

pub record Limits : Type 0 where
  pub min : ℕ
  pub max : ℕ
  pub has_max : Bool
  pub shared : Bool
  pub is64 : Bool

pub record TableType : Type 0 where
  pub elem_type : ℕ
  pub limits : Limits

pub record MemoryType : Type 0 where
  pub limits : Limits
  pub is64 : Bool

pub record GlobalType : Type 0 where
  pub val_type : ℕ
  pub mutable : Bool

pub record Tag : Type 0 where
  pub attribute : ℕ
  pub type_idx : ℕ

abbrev pub import_func : ℕ
import_func = 0x00

abbrev pub import_table : ℕ
import_table = 0x01

abbrev pub import_memory : ℕ
import_memory = 0x02

abbrev pub import_global : ℕ
import_global = 0x03

abbrev pub import_tag : ℕ
import_tag = 0x04

-- Each kind uses its own field; the others keep the zero value.
pub record Import : Type 0 where
  pub module_name : List ℕ
  pub name : List ℕ
  pub kind : ℕ
  pub type_idx : ℕ
  pub table : TableType
  pub memory : MemoryType
  pub global : GlobalType
  pub tag : Tag

pub record Export : Type 0 where
  pub name : List ℕ
  pub kind : ℕ
  pub index : ℕ

pub record Global : Type 0 where
  pub global_type : GlobalType
  pub init : List ℕ

pub record Function : Type 0 where
  pub type_idx : ℕ
  pub body : List ℕ

pub record ElementSegment : Type 0 where
  pub table_idx : ℕ
  pub offset : List ℕ
  pub func_idxs : List ℕ

-- The offset of a passive segment is nil, the empty list here.
pub record DataSegment : Type 0 where
  pub mem_idx : ℕ
  pub offset : List ℕ
  pub bytes : List ℕ
  pub passive : Bool

pub record Module : Type 0 where
  pub types : List FuncType
  pub imports : List Import
  pub functions : List Function
  pub tables : List TableType
  pub memories : List MemoryType
  pub globals : List Global
  pub exports : List Export
  pub start : Option ℕ
  pub elements : List ElementSegment
  pub datas : List DataSegment
  pub tags : List Tag
  pub num_imported_funcs : ℕ
  pub num_imported_tables : ℕ
  pub num_imported_mems : ℕ
  pub num_imported_globals : ℕ
  pub num_imported_tags : ℕ

abbrev pub zero_limits : Limits
zero_limits = record { min = 0; max = 0; has_max = false; shared = false; is64 = false }

abbrev pub zero_table : TableType
zero_table = record { elem_type = 0; limits = zero_limits }

abbrev pub zero_memory : MemoryType
zero_memory = record { limits = zero_limits; is64 = false }

abbrev pub zero_global : GlobalType
zero_global = record { val_type = 0; mutable = false }

abbrev pub zero_tag : Tag
zero_tag = record { attribute = 0; type_idx = 0 }

abbrev pub empty_module : Module
empty_module = record {
  types = [];
  imports = [];
  functions = [];
  tables = [];
  memories = [];
  globals = [];
  exports = [];
  start = none;
  elements = [];
  datas = [];
  tags = [];
  num_imported_funcs = 0;
  num_imported_tables = 0;
  num_imported_mems = 0;
  num_imported_globals = 0;
  num_imported_tags = 0;
}
