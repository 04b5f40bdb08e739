-- ===== src/Ssa/Pass/MemAddr.antt =====
-- internal/ssa/pass/memaddr.go: a large constant addend of an access's base moves into its offset.
-- peelCopies has as many steps as ids were given out; on a cycle of copies the code does not end.
pub mod Address
use wasm2go.Prelude.{
  ℕ, zero, suc, ◌+◌, ◌-◌, ◌%◌, ◌^◌, Bool, true, false, Bool-cases, not, ◌&&◌, ◌||◌, ltb, leb, ◌==◌,
  ==_iff, if◌then◌else◌, Option, none, some, List, [], ◌∷◌, ◌≡◌, refl, sym, ap, ◌∙◌, ◌⊎◌, inl, inr,
  arith,
}
use mathlib.Core.Path.{subst}
use wasm2go.Ssa.Op.{
  Op, copy, add32, const32, load8_u, load8_s, load16_u, load16_s, load32, load32_u, load32_s,
  load64, load_f32, load_f64, store8, store16, store32, store64, store_f32, store_f64,
}
use wasm2go.Ssa.Func.{Value, Func, update, set_value}
use wasm2go.Ssa.Update.{update-same, update-other, update-related}
use wasm2go.Ssa.Meaning.{denote, meaning, unary, binary, Agrees}

abbrev pub is_linear_load : Op → Bool
is_linear_load load8_u = true
is_linear_load load8_s = true
is_linear_load load16_u = true
is_linear_load load16_s = true
is_linear_load load32 = true
is_linear_load load32_u = true
is_linear_load load32_s = true
is_linear_load load64 = true
is_linear_load load_f32 = true
is_linear_load load_f64 = true
is_linear_load _ = false

abbrev pub is_linear_store : Op → Bool
is_linear_store store8 = true
is_linear_store store16 = true
is_linear_store store32 = true
is_linear_store store64 = true
is_linear_store store_f32 = true
is_linear_store store_f64 = true
is_linear_store _ = false

-- The body of the loop of peelCopies.
abbrev pub peel_copy : Op → List ℕ → ℕ → (ℕ → ℕ) → ℕ
peel_copy copy (a ∷ []) v again = again a
peel_copy op args v again = v

unfoldable pub peel_copies : (ℕ → Value) → ℕ → ℕ → ℕ
peel_copies values zero v = v
peel_copies values (suc n) v =
    let rest = peel_copy (values v).op (values v).args v (peel_copies values n) in
    if v == 0 then v else rest

abbrev pub is_const32 : Op → Bool
is_const32 const32 = true
is_const32 _ = false

-- The access with base `x`, once the other operand is the constant `n`.
abbrev pub move_addend : ℕ → Value → List ℕ → ℕ → ℕ → Option Value
move_addend threshold w rest x n =
    let c32 = n % 2 ^ 32 in
    let total = (w.aux_int + c32) % 2 ^ 64 in
    let small = if ltb c32 (2 ^ 31) then ltb total threshold else ltb (2 ^ 32 - c32) threshold in
    if small then none else some (record w { args = x ∷ rest; aux_int = total })

module _ (values : ℕ → Value) (n threshold : ℕ) where
  abbrev pub one_constant : Value → List ℕ → ℕ → ℕ → Option Value
  one_constant w rest x c =
      if is_const32 (values c).op
      then (if is_const32 (values x).op
          then none
          else move_addend threshold w rest x (values c).aux_int)
      else (if is_const32 (values x).op
          then move_addend threshold w rest c (values x).aux_int
          else none)

  unfoldable pub split_base : Value → List ℕ → Op → List ℕ → Option Value
  unfolding peel_copies
  split_base w rest add32 (p ∷ q ∷ []) =
      let x = peel_copies values n p in
      let c = peel_copies values n q in
      if (x == 0) || (c == 0) then none else one_constant w rest x c
  split_base w rest op args = none

  unfoldable pub fold_access : Value → List ℕ → Option Value
  unfolding split_base
  fold_access w [] = none
  fold_access w (a ∷ rest) =
      let base = peel_copies values n a in
      if (a == 0) || (base == 0)
      then none
      else split_base w rest (values base).op (values base).args

  unfoldable pub fold_addend : Value → Option Value
  unfolding fold_access
  fold_addend w = if is_linear_load w.op || is_linear_store w.op then fold_access w w.args else none

abbrev pub put_access : ℕ → Func → Option Value → Func × Bool
put_access id f none = (f, false)
put_access id f (some w) = (set_value id w f, true)

unfoldable pub fold_mem_value : ℕ → ℕ → Func → Func × Bool
unfolding fold_addend
fold_mem_value threshold id f =
    put_access id f (fold_addend f.value_of f.next_value_id threshold (f.value_of id))

unfoldable pub fold_mem_values : ℕ → List ℕ → Func × Bool → Func × Bool
unfolding fold_mem_value
fold_mem_values threshold [] s = s
fold_mem_values threshold (v ∷ vs) (f, changed) =
    let (g, c) = fold_mem_value threshold v f in fold_mem_values threshold vs (g, c || changed)

unfoldable pub fold_mem_blocks : ℕ → List ℕ → Func × Bool → Func × Bool
unfolding fold_mem_values
fold_mem_blocks threshold [] s = s
fold_mem_blocks threshold (b ∷ bs) s =
    fold_mem_blocks threshold bs (fold_mem_values threshold (s.0.block_of b).values s)

unfoldable pub fold_mem_addend : ℕ → Func → Func × Bool
unfolding fold_mem_blocks
fold_mem_addend threshold f = fold_mem_blocks threshold f.order (f, false)
