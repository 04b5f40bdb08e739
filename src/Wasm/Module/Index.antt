-- ===== src/Wasm/Module/Index.antt =====
-- FuncTypeOf against the function index space: imported functions, then defined ones.
use wasm2go.Prelude.{
  ℕ, zero, suc, ◌+◌, ◌-◌, ◌%◌, ◌^◌, ◌<◌, ◌≡◌, refl, ap, ◌∙◌, false, List, [], ◌∷◌, ◌++◌, Option,
  none, some, ltb, ◌==◌, if◌then◌else◌, length, get_elem?, arith, Bool-cases, inl, inr, lt→ltb, sym,
}
use wasm2go.Wasm.Module.Types.{Module, Import, Function, FuncType, import_func}
use wasm2go.Wasm.Module.{func_type_of, walk_imports, type_of_defined, returned}

-- The type indices of the function imports, in order, and of the defined functions.
unfoldable pub imported_type_idxs : List Import → List ℕ
imported_type_idxs [] = []
imported_type_idxs (imp ∷ imps) =
    if imp.kind == import_func
    then imp.type_idx ∷ imported_type_idxs imps
    else imported_type_idxs imps

pub defined_type_idxs : List Function → List ℕ
defined_type_idxs [] = []
defined_type_idxs (f ∷ fs) = f.type_idx ∷ defined_type_idxs fs

-- The function index space of the binary format.
unfoldable pub func_space : Module → List ℕ
func_space m = imported_type_idxs m.imports ++ defined_type_idxs m.functions

unfoldable pub lookup_type : List FuncType → Option ℕ → Option FuncType
lookup_type types none = none
lookup_type types (some i) = get_elem? types i

get_elem?-append_left :
    (xs ys : List ℕ) (i : ℕ) → i < length xs → get_elem? (xs ++ ys) i ≡ get_elem? xs i
get_elem?-append_left [] ys i h = elim h [ ]
get_elem?-append_left (x ∷ xs) ys zero h = refl
get_elem?-append_left (x ∷ xs) ys (suc i) h = get_elem?-append_left xs ys i (omega arith)

get_elem?-append_right :
    (xs ys : List ℕ) (i : ℕ) → get_elem? (xs ++ ys) (length xs + i) ≡ get_elem? ys i
get_elem?-append_right [] ys i = ap (get_elem? ys) (omega arith)
get_elem?-append_right (x ∷ xs) ys i =
    ap (get_elem? (x ∷ (xs ++ ys))) {y = suc (length xs + i)} (omega arith)
    ∙ get_elem?-append_right xs ys i

walk_imports_lem :
    (types : List FuncType) (idx : ℕ) (imps : List Import) (i j : ℕ)
    → idx ≡ i + j
    → j < length (imported_type_idxs imps)
    → walk_imports types idx imps i
      ≡ returned (lookup_type types (get_elem? (imported_type_idxs imps) j))
unfolding walk_imports imported_type_idxs lookup_type
walk_imports_lem types idx [] i j e h = elim h [ ]
walk_imports_lem types idx (imp ∷ imps) i zero e h =
    ground (arith, walk_imports_lem types idx imps i zero)
walk_imports_lem types idx (imp ∷ imps) i (suc j) e h =
    ground
      (arith, walk_imports_lem types idx imps i (suc j), walk_imports_lem types idx imps (i + 1) j)

type_of_defined_lem :
    (m : Module) (j : ℕ)
    → type_of_defined m j ≡ lookup_type m.types (get_elem? (defined_type_idxs m.functions) j)
unfolding type_of_defined lookup_type defined_type_idxs
type_of_defined_lem m j = go m.functions j
  where
    go :
        (fs : List Function) (k : ℕ)
        → (elim (get_elem? fs k) [ none ↦ none | some f ↦ get_elem? m.types f.type_idx ])
          ≡ lookup_type m.types (get_elem? (defined_type_idxs fs) k)
    go [] k = refl
    go (f ∷ fs) zero = refl
    go (f ∷ fs) (suc k) = go fs k

type_of_imported :
    (m : Module) (idx : ℕ)
    → m.num_imported_funcs ≡ length (imported_type_idxs m.imports)
    → idx < m.num_imported_funcs
    → func_type_of m idx ≡ lookup_type m.types (get_elem? (imported_type_idxs m.imports) idx)
unfolding func_type_of
type_of_imported m idx e h =
    let walk = walk_imports_lem m.types idx m.imports 0 idx (omega arith) (omega arith) in
    rw (lt→ltb idx m.num_imported_funcs h, walk) refl

past_imports :
    (m : Module) (idx : ℕ)
    → ltb idx m.num_imported_funcs ≡ false
    → func_type_of m idx ≡ type_of_defined m ((idx + 2 ^ 32 - m.num_imported_funcs) % 2 ^ 32)
unfolding func_type_of
past_imports m idx t = rw t refl

-- For a module whose import count is the number of its function imports, FuncTypeOf at any uint32
-- gives the type of that entry of the function index space, imports first; it panics exactly if the
-- index is outside that space or the entry's type index is outside the type section.
pub func_type_of-func_space :
    (m : Module) (idx : ℕ)
    → m.num_imported_funcs ≡ length (imported_type_idxs m.imports)
    → idx < 2 ^ 32
    → func_type_of m idx ≡ lookup_type m.types (get_elem? (func_space m) idx)
unfolding func_space
func_type_of-func_space m idx e h = elim (Bool-cases (ltb idx m.num_imported_funcs)) [
  | inl t ↦
      let imported = imported_type_idxs m.imports in
      let lt : idx < m.num_imported_funcs = ground arith in
      type_of_imported m idx e lt
      ∙ ap (lookup_type m.types)
          (sym (get_elem?-append_left imported (defined_type_idxs m.functions) idx (omega arith)))
  | inr t ↦
      let imported = imported_type_idxs m.imports in
      let defined = defined_type_idxs m.functions in
      let j : ℕ = idx - m.num_imported_funcs in
      let at_j : idx ≡ length imported + j = ground arith in
      let wrapped : (idx + 2 ^ 32 - m.num_imported_funcs) % 2 ^ 32 ≡ j = ground arith in
      past_imports m idx t
      ∙ rw wrapped (type_of_defined_lem m j)
      ∙ ap (lookup_type m.types) (
          sym (get_elem?-append_right imported defined j)
          ∙ ap (get_elem? (imported ++ defined)) (sym at_j))
]
