-- ===== src/Ssa/Pass/Cse/Tests.antt =====
-- The theorems on CSE at concrete functions.
use wasm2go.Prelude.{
  ℕ, zero, suc, ◌+◌, Bool, true, false, ◌&&◌, ◌==◌, some, List, [], ◌∷◌, In, ◌≡◌, refl, sym, ◌∙◌,
  inl, inr, ◌⊎◌, arith,
}
use wasm2go.Prelude.Int.{ℤ}
use mathlib.Core.Path.{subst, subst₂}
use mathlib.Core.List.{map}
use wasm2go.Ssa.Types.{ValueType, i32}
use wasm2go.Ssa.Op.{
  Op, Aux, absent, const32, add32, copy, mem_size, mem_grow, op_has_side_effect, has_side_effect,
  is_commutative,
}
use wasm2go.Ssa.Func.{Value, Func, ret, nil_value, empty_block}
use wasm2go.Ssa.Compact.{is_invalid}
use wasm2go.Ssa.Pass.Tail.{ret_marker_set, tail_start, tail_count}
use wasm2go.Ssa.Pass.Dce.Correct.{values_in}
use wasm2go.Ssa.Pass.Cse.{
  Key, cse, numbering, number_blocks, number_values, cse_eligible, cse_key, find_key, resolve,
  forward_blocks, forward_values, bury_blocks, bury_values,
}
use wasm2go.Ssa.Pass.Cse.Merges.{
  PrintsApart, HasForms, Interpretation, Computes, Eligible, SameForm,
}
use wasm2go.Ssa.Pass.Cse.Rewrite.{SameBlock, cse-SameValue, cse-Computes, Rewritten}
use wasm2go.Ssa.Pass.Cse.MemSize.{Resized, cse-Resized}
use wasm2go.Ssa.Pass.Cse.Dangling.{cse-dangling}
use wasm2go.Ssa.Pass.Cse.Roots.{Distinct}

-- A test that is true of keys of equal i32 constants only.
abbrev is_const32 : Op → Bool
is_const32 const32 = true
is_const32 _ = false

abbrev is_i32 : ValueType → Bool
is_i32 i32 = true
is_i32 _ = false

abbrev is_absent : Aux → Bool
is_absent absent = true
is_absent _ = false

abbrev is_empty : List ℤ → Bool
is_empty [] = true
is_empty (x ∷ xs) = false

abbrev plain_constant : Key → Bool
plain_constant k = is_const32 k.op && (is_i32 k.typ && (is_absent k.aux && is_empty k.ids))

abbrev alike : Key → Key → Bool
alike k k' = plain_constant k && (plain_constant k' && (k.aux_int == k'.aux_int))

is_const32-eq : (op : Op) → is_const32 op ≡ true → op ≡ const32
is_const32-eq const32 e = refl
is_const32-eq _ e = cc

is_i32-eq : (t : ValueType) → is_i32 t ≡ true → t ≡ i32
is_i32-eq i32 e = refl
is_i32-eq _ e = cc

is_absent-eq : (a : Aux) → is_absent a ≡ true → a ≡ absent
is_absent-eq absent e = refl
is_absent-eq _ e = cc

is_empty-eq : (ids : List ℤ) → is_empty ids ≡ true → ids ≡ []
is_empty-eq [] e = refl
is_empty-eq (x ∷ xs) e = cc

plain_constant-fields :
    (k : Key)
    → plain_constant k ≡ true
    → (k.op ≡ const32) × (k.typ ≡ i32) × (k.aux ≡ absent) × (k.ids ≡ [])
plain_constant-fields k e = (
  is_const32-eq k.op (ground arith),
  is_i32-eq k.typ (ground arith),
  is_absent-eq k.aux (ground arith),
  is_empty-eq k.ids (ground arith),
)

alike-PrintsApart : PrintsApart alike
alike-PrintsApart k k' e =
    let p = plain_constant-fields k (ground arith) in
    let q = plain_constant-fields k' (ground arith) in
    (p.0 ∙ sym (q.0), p.1 ∙ sym (q.1), ground arith, p.3 ∙ sym (q.3), λ s. p.2 ∙ sym (q.2))

abbrev val : Op → List ℕ → ℕ → Value
val op args n = record { op = op; typ = i32; args = args; aux_int = n; aux = absent; block = 0 }

abbrev values : ℕ → Value
values (suc zero) = val const32 [] 5
values (suc (suc zero)) = val const32 [] 5
values (suc (suc (suc zero))) = val add32 (1 ∷ 2 ∷ []) 0
values (suc (suc (suc (suc zero)))) = val copy (3 ∷ []) 0
values _ = nil_value

abbrev twice : Func
twice = record {
  params = [];
  results = i32 ∷ [];
  order = 0 ∷ [];
  entry = some 0;
  block_of = λ b. record (empty_block ret) { values = 1 ∷ 2 ∷ 3 ∷ 4 ∷ [] };
  value_of = values;
  next_value_id = 5;
  next_block_id = 1;
}

abbrev total : List ℕ → ℕ
total [] = 0
total (x ∷ xs) = x + total xs

abbrev sums : Interpretation ℕ
sums = record { apply = λ op t n a xs. n + total xs; swap = λ op t n a x y e. omega arith }

abbrev env : ℕ → ℕ
env (suc zero) = 5
env (suc (suc zero)) = 5
env (suc (suc (suc zero))) = 10
env (suc (suc (suc (suc zero)))) = 10
env _ = 0

computes_at :
    (v : ℕ)
    → Eligible twice v
    → env v
      ≡ sums.apply
          (values v).op
          (values v).typ
          (values v).aux_int
          (values v).aux
          (map env (values v).args)
computes_at zero el = refl
computes_at (suc zero) el = refl
computes_at (suc (suc zero)) el = refl
computes_at (suc (suc (suc zero))) el = refl
computes_at (suc (suc (suc (suc zero)))) el = refl
computes_at (suc (suc (suc (suc (suc n))))) el = refl

twice-Computes : Computes sums twice env
twice-Computes = record { at = computes_at }

absent_at : (v : ℕ) → (values v).aux ≡ absent
absent_at zero = refl
absent_at (suc zero) = refl
absent_at (suc (suc zero)) = refl
absent_at (suc (suc (suc zero))) = refl
absent_at (suc (suc (suc (suc zero)))) = refl
absent_at (suc (suc (suc (suc (suc n))))) = refl

twice-HasForms : HasForms twice
twice-HasForms u v el el' e = subst₂ SameForm (sym (absent_at u)) (sym (absent_at v)) tt

cse-Computes_example : Computes sums (cse alike twice).0 env
cse-Computes_example =
    cse-Computes sums env alike twice twice-Computes alike-PrintsApart twice-HasForms

cse-SameValue_example :
    ((v : ℕ)
      → Rewritten sums env alike twice twice-Computes alike-PrintsApart twice-HasForms
          (cse alike twice).0
          v)
    × ((b : ℕ) → SameBlock env (twice.block_of b) ((cse alike twice).0.block_of b))
cse-SameValue_example =
    cse-SameValue sums env alike twice twice-Computes alike-PrintsApart twice-HasForms

once : Distinct (values_in twice.block_of twice.order)
once = (apart_1, (apart_2, (apart_3, ((λ i. absurd i), tt))))
  where
    apart_1 : ¬ In {A = ℕ} 1 (2 ∷ 3 ∷ 4 ∷ [])
    apart_1 (inl e) = omega (arith, e)
    apart_1 (inr (inl e)) = omega (arith, e)
    apart_1 (inr (inr (inl e))) = omega (arith, e)
    apart_1 (inr (inr (inr i))) = absurd i

    apart_2 : ¬ In {A = ℕ} 2 (3 ∷ 4 ∷ [])
    apart_2 (inl e) = omega (arith, e)
    apart_2 (inr (inl e)) = omega (arith, e)
    apart_2 (inr (inr i)) = absurd i

    apart_3 : ¬ In {A = ℕ} 3 (4 ∷ [])
    apart_3 (inl e) = omega (arith, e)
    apart_3 (inr i) = absurd i

rewritten : ((cse alike twice).0.value_of 3).args ≡ 1 ∷ 1 ∷ []
unfolding cse numbering number_blocks number_values cse_eligible cse_key find_key resolve
    forward_blocks forward_values bury_blocks bury_values ret_marker_set tail_start tail_count
    has_side_effect op_has_side_effect is_commutative
rewritten = refl

still_valid : is_invalid ((cse alike twice).0.value_of 3).op ≡ false
unfolding cse numbering number_blocks number_values cse_eligible cse_key find_key resolve
    forward_blocks forward_values bury_blocks bury_values ret_marker_set tail_start tail_count
    has_side_effect op_has_side_effect is_commutative
still_valid = refl

cse-dangling_example :
    ◌≡◌ {A = ℕ} 1 0 ⊎ (((cse alike twice).0.value_of 1).op ≡ (twice.value_of 1).op)
cse-dangling_example =
    cse-dangling alike twice once (omega arith) 3 1 (inr (inr (inl refl))) still_valid
      (subst (In 1) (sym rewritten) (inl refl))

-- memory.size, memory.grow and memory.size once more.
abbrev resized_values : ℕ → Value
resized_values (suc zero) = val mem_size [] 0
resized_values (suc (suc zero)) = val const32 [] 1
resized_values (suc (suc (suc zero))) = val mem_grow (2 ∷ []) 0
resized_values (suc (suc (suc (suc zero)))) = val mem_size [] 0
resized_values _ = nil_value

abbrev resized : Func
resized = record twice {
  results = [];
  block_of = λ b. record (empty_block ret) { values = 1 ∷ 3 ∷ 4 ∷ [] };
  value_of = resized_values;
}

resized-Resized : Resized resized 0 1 3 4
unfolding ret_marker_set tail_start tail_count
resized-Resized = record {
  order = refl;
  values = refl;
  size_a = (refl, refl);
  size_b = refl;
  grow = refl;
  not_tail = λ v. refl;
  apart = refl;
}

cse-Resized_example :
    ((cse (λ k k'. true) resized).1 ≡ true)
    × (resolve (numbering (λ k k'. true) resized).canon 5 4 ≡ 1)
cse-Resized_example =
    cse-Resized (λ k k'. true) (λ k. refl) resized 0 1 3 4 resized-Resized (omega arith)
