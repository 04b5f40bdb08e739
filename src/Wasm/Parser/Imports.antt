-- ===== src/Wasm/Parser/Imports.antt =====
-- The import counters that Parse leaves in the module, and FuncTypeOf on a parsed module.
use wasm2go.Prelude.{
  ℕ, suc, ◌+◌, ◌^◌, ◌≤◌, ◌<◌, ◌≡◌, refl, sym, ◌∙◌, List, [], ◌∷◌, length, get_elem?, ◌==◌,
  if◌then◌else◌, arith,
}
use mathlib.Core.Path.{subst}
use wasm2go.Wasm.Reader.{ok, bind}
use wasm2go.Wasm.Reader.Local.{bind-eq-ok}
use wasm2go.Wasm.Module.{
  Module, Import, empty_module, import_func, import_table, import_memory, import_global, import_tag,
  func_type_of,
}
use wasm2go.Wasm.Module.Index.{imported_type_idxs, func_space, lookup_type, func_type_of-func_space}
use wasm2go.Wasm.Parser.{read_header, parse_sections, count_import, count_imports, parse}
use wasm2go.Wasm.Parser.Counts.{IsUncounted, parse_sections-IsUncounted}

-- How many imports are of a kind.
unfoldable pub count_kind : ℕ → List Import → ℕ
count_kind k [] = 0
count_kind k (imp ∷ imps) = if imp.kind == k then count_kind k imps + 1 else count_kind k imps

count_kind-le : (k : ℕ) (imps : List Import) → count_kind k imps ≤ length imps
unfolding count_kind
count_kind-le k [] = omega arith
count_kind-le k (imp ∷ imps) = ground (arith, count_kind-le k imps)

length-imported_type_idxs :
    (imps : List Import) → length (imported_type_idxs imps) ≡ count_kind import_func imps
unfolding count_kind imported_type_idxs
length-imported_type_idxs [] = refl
length-imported_type_idxs (imp ∷ imps) = ground (arith, length-imported_type_idxs imps)

-- What the counting loop does to the module: it adds to the counters and leaves the rest.
pub record Counted (imps : List Import) (m m' : Module) : Type 0 where
  pub funcs : m'.num_imported_funcs ≡ m.num_imported_funcs + count_kind import_func imps
  pub tables : m'.num_imported_tables ≡ m.num_imported_tables + count_kind import_table imps
  pub mems : m'.num_imported_mems ≡ m.num_imported_mems + count_kind import_memory imps
  pub globals : m'.num_imported_globals ≡ m.num_imported_globals + count_kind import_global imps
  pub tags : m'.num_imported_tags ≡ m.num_imported_tags + count_kind import_tag imps
  pub same_imports : m'.imports ≡ m.imports
  pub same_functions : m'.functions ≡ m.functions
  pub same_types : m'.types ≡ m.types

-- No counter is near the end of uint32.
record HasRoom (n : ℕ) (m : Module) : Type 0 where
  funcs : m.num_imported_funcs + n < 2 ^ 32
  tables : m.num_imported_tables + n < 2 ^ 32
  mems : m.num_imported_mems + n < 2 ^ 32
  globals : m.num_imported_globals + n < 2 ^ 32
  tags : m.num_imported_tags + n < 2 ^ 32

count_import-Counted :
    (imp : Import) (m : Module) → HasRoom 1 m → Counted (imp ∷ []) m (count_import m imp.kind)
unfolding count_import count_kind
count_import-Counted imp m room = record {
  funcs = ground arith;
  tables = ground arith;
  mems = ground arith;
  globals = ground arith;
  tags = ground arith;
  same_imports = ground arith;
  same_functions = ground arith;
  same_types = ground arith;
}

count_kind-cons :
    (k : ℕ) (imp : Import) (imps : List Import)
    → count_kind k (imp ∷ imps) ≡ count_kind k (imp ∷ []) + count_kind k imps
unfolding count_kind
count_kind-cons k imp imps = ground arith

HasRoom-step :
    (n : ℕ) (imp : Import) (m m' : Module)
    → HasRoom (suc n) m
    → Counted (imp ∷ []) m m'
    → HasRoom n m'
HasRoom-step n imp m m' room c = omega (
  arith,
  count_kind-le import_func (imp ∷ []),
  count_kind-le import_table (imp ∷ []),
  count_kind-le import_memory (imp ∷ []),
  count_kind-le import_global (imp ∷ []),
  count_kind-le import_tag (imp ∷ []),
)

Counted-trans :
    (imp : Import) (imps : List Import) (m m' m'' : Module)
    → Counted (imp ∷ []) m m'
    → Counted imps m' m''
    → Counted (imp ∷ imps) m m''
Counted-trans imp imps m m' m'' c d = record {
  funcs = omega (arith, count_kind-cons import_func imp imps);
  tables = omega (arith, count_kind-cons import_table imp imps);
  mems = omega (arith, count_kind-cons import_memory imp imps);
  globals = omega (arith, count_kind-cons import_global imp imps);
  tags = omega (arith, count_kind-cons import_tag imp imps);
  same_imports = d.same_imports ∙ c.same_imports;
  same_functions = d.same_functions ∙ c.same_functions;
  same_types = d.same_types ∙ c.same_types;
}

count_imports-Counted :
    (imps : List Import) (m : Module)
    → HasRoom (length imps) m
    → Counted imps m (count_imports imps m)
unfolding count_imports count_kind
count_imports-Counted [] m room = ground arith
count_imports-Counted (imp ∷ imps) m room =
    let first = count_import-Counted imp m (omega arith) in
    let m' = count_import m imp.kind in
    Counted-trans imp imps m m' (count_imports imps m') first
      (count_imports-Counted imps m' (HasRoom-step (length imps) imp m m' room first))

parse-Counted :
    (bs : List ℕ) (m : Module)
    → parse bs ≡ ok m
    → (mid : Module) × IsUncounted mid × Counted mid.imports mid m
unfolding parse
parse-Counted bs m h =
    let ((_, rest), q, k) =
      bind-eq-ok (read_header bs)
        (λ (_, rest).
          bind (parse_sections (length rest) empty_module rest) λ m. ok (count_imports m.imports m))
        m h in
    let (mid, q', k') =
      bind-eq-ok (parse_sections (length rest) empty_module rest)
        (λ m. ok (count_imports m.imports m)) m k in
    let u = parse_sections-IsUncounted (length rest) empty_module rest mid (omega arith) q' in
    let same : count_imports mid.imports mid ≡ m = cc in
    (
      mid,
      u,
      subst (Counted mid.imports mid) same (count_imports-Counted mid.imports mid (omega arith)),
    )

-- In a module that Parse returns, each import counter is the number of imports of its kind.
pub parse-counts :
    (bs : List ℕ) (m : Module)
    → parse bs ≡ ok m
    → (m.num_imported_funcs ≡ count_kind import_func m.imports)
      × (m.num_imported_tables ≡ count_kind import_table m.imports)
      × (m.num_imported_mems ≡ count_kind import_memory m.imports)
      × (m.num_imported_globals ≡ count_kind import_global m.imports)
      × (m.num_imported_tags ≡ count_kind import_tag m.imports)
parse-counts bs m h = let (mid, u, c) = parse-Counted bs m h in rw (c.same_imports) (omega arith)

-- On a module that Parse returns, FuncTypeOf follows the function index space at every uint32: the
-- imported functions come first, and it panics exactly on an index, or a type index, out of range.
pub func_type_of-parse :
    (bs : List ℕ) (m : Module) (idx : ℕ)
    → parse bs ≡ ok m
    → idx < 2 ^ 32
    → func_type_of m idx ≡ lookup_type m.types (get_elem? (func_space m) idx)
func_type_of-parse bs m idx h hi =
    func_type_of-func_space m idx
      ((parse-counts bs m h).0 ∙ sym (length-imported_type_idxs m.imports)) hi
