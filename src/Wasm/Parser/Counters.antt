-- ===== src/Wasm/Parser/Counters.antt =====
-- The counting loop of Parse as one assignment to the five counters of the module.
use wasm2go.Prelude.{ℕ, ◌==◌, ◌≡◌, refl, ap, ◌∙◌, Bool, true, false, if◌then◌else◌, List, [], ◌∷◌}
use wasm2go.Wasm.Reader.{ok}
use wasm2go.Wasm.Module.{
  Module, Import, import_func, import_table, import_memory, import_global, import_tag,
}
use wasm2go.Wasm.Parser.{count_import, count_imports, parse}
use wasm2go.Wasm.Parser.Imports.{count_kind, parse-counts}

-- The module `m` with the counters given.
abbrev set_counters : ℕ → ℕ → ℕ → ℕ → ℕ → Module → Module
set_counters funcs tables mems globals tags m = record m {
  num_imported_funcs = funcs;
  num_imported_tables = tables;
  num_imported_mems = mems;
  num_imported_globals = globals;
  num_imported_tags = tags;
}

-- The module `m` with each counter set to the number of imports of its kind.
abbrev pub with_counters : Module → Module
with_counters m =
    set_counters (count_kind import_func m.imports) (count_kind import_table m.imports)
      (count_kind import_memory m.imports) (count_kind import_global m.imports)
      (count_kind import_tag m.imports) m

-- The module `m` with the counters of `c`.
abbrev counters_from : Module → Module → Module
counters_from c m =
    set_counters c.num_imported_funcs c.num_imported_tables c.num_imported_mems
      c.num_imported_globals c.num_imported_tags m

-- `m'` is `m` but for its counters.
abbrev Recounted : Module → Module → Type 0
Recounted m m' = m' ≡ counters_from m' m

Recounted-if :
    (test : Bool) (m x y : Module)
    → Recounted m x
    → Recounted m y
    → Recounted m (if test then x else y)
Recounted-if true m x y h k = h
Recounted-if false m x y h k = k

count_import-Recounted : (m : Module) (kind : ℕ) → Recounted m (count_import m kind)
unfolding count_import
count_import-Recounted m kind = Recounted-if (kind == import_func) m _ _ refl (
    Recounted-if (kind == import_table) m _ _ refl (
      Recounted-if (kind == import_memory) m _ _ refl (
        Recounted-if (kind == import_global) m _ _ refl
          (Recounted-if (kind == import_tag) m _ _ refl refl))))

count_imports-Recounted : (imps : List Import) (m : Module) → Recounted m (count_imports imps m)
unfolding count_imports
count_imports-Recounted [] m = refl
count_imports-Recounted (imp ∷ imps) m =
    let m' = count_import m imp.kind in
    count_imports-Recounted imps m'
    ∙ ap (counters_from (count_imports imps m')) (count_import-Recounted m imp.kind)

-- Where Parse returns the module of its sections with the imports counted, that is the module with
-- each counter set to the number of imports of its kind.
pub count_imports-with_counters :
    (bs : List ℕ) (m : Module)
    → parse bs ≡ ok (count_imports m.imports m)
    → count_imports m.imports m ≡ with_counters m
count_imports-with_counters bs m h =
    let c = count_imports m.imports m in
    let only = count_imports-Recounted m.imports m in
    let same : c.imports ≡ m.imports = ap (λ k. k.imports) only in
    let (f, t, p, g, e) = parse-counts bs c h in only ∙ rw (f, t, p, g, e, same) refl
