-- ===== src/Wasm/Format/Tests.antt =====
-- A module of three sections, for the theorem on whole modules; and the prefixed instructions.
use wasm2go.Prelude.{ℕ, ◌≡◌, true, false, List, [], ◌∷◌, ◌++◌, some, arith}
use wasm2go.Wasm.Reader.{ok}
use wasm2go.Wasm.Leb128.Encoding.{uleb, groups}
use wasm2go.Wasm.Leb128.Local.{vec_bytes}
use wasm2go.Wasm.Module.{Module, FuncType, Limits, empty_module}
use wasm2go.Wasm.Parser.{parse}
use wasm2go.Wasm.Parser.Counters.{with_counters}
use wasm2go.Wasm.Format.Vectors.{vec}
use wasm2go.Wasm.Format.Items.{func_type_bytes, limits_bytes, memory_of}
use wasm2go.Wasm.Format.Modules.{
  Sections, none, next, types, memories, start, magic, parse-Sections,
}

abbrev takes_i32 : FuncType
takes_i32 = record { params = 0x7f ∷ []; results = [] }

abbrev one_page : Limits
one_page = record { min = 1; max = 200; has_max = true; shared = false; is64 = true }

abbrev sections : List ℕ
sections =
    1
    ∷ (vec_bytes (vec func_type_bytes (takes_i32 ∷ []))
        ++ (5 ∷ (vec_bytes (vec limits_bytes (one_page ∷ [])) ++ (8 ∷ (vec_bytes (uleb 0) ++ [])))))

abbrev described : Module
described = record empty_module {
  types = takes_i32 ∷ [];
  memories = memory_of one_page ∷ [];
  start = some 0;
}

sections-Sections : Sections empty_module sections described
unfolding uleb groups vec_bytes
sections-Sections = next (types (takes_i32 ∷ []) (omega arith) (omega arith)) (omega arith) (
    next (memories (one_page ∷ []) (omega arith) (omega arith)) (omega arith)
      (next (start 0 (omega arith)) (omega arith) none))

parse-Sections_example : parse (magic ++ sections) ≡ ok (with_counters described)
parse-Sections_example = parse-Sections sections described sections-Sections
