-- ===== src/Ssa/Pass/Cse/Dangling.antt =====
-- internal/ssa/pass/cse.go: the operands of the values that stay.
use wasm2go.Prelude.{
  ℕ, suc, ◌-◌, ◌<◌, Bool, true, false, Bool-cases, ◌==◌, Option, none, List, [], ◌∷◌, ◌++◌, In,
  In-append, ◌≡◌, refl, sym, ap, ◌∙◌, ◌⊎◌, inl, inr, arith,
}
use mathlib.Core.Path.{subst}
use mathlib.Core.List.{map}
use wasm2go.Ssa.Func.{Value, Block, Func}
use wasm2go.Ssa.Update.{update-at, update-split}
use wasm2go.Ssa.Compact.{is_invalid}
use wasm2go.Ssa.Pass.Dce.Correct.{values_in}
use wasm2go.Ssa.Pass.Cse.{
  Key, numbering, resolve, forward, forward_args, forward_value, forward_values, forward_control,
  forward_blocks, is_other, cse,
}
use wasm2go.Ssa.Pass.Cse.Rewrite.{
  forward_value-Forwarded, forward_values-Forwarded, forward_control-Forwarded,
  forward_blocks-Forwarded, Buried, bury_blocks-Buried,
}
use wasm2go.Ssa.Pass.Cse.Roots.{Distinct, resolve-ends}

abbrev blind : ℕ → Unit {0}
blind a = tt

values_in-same :
    (x y : ℕ → Block) (bs : List ℕ)
    → ((c : ℕ) → (y c).values ≡ (x c).values)
    → values_in y bs ≡ values_in x bs
values_in-same x y [] h = refl
values_in-same x y (b ∷ bs) h = λ i. h b i ++ values_in-same x y bs h i

module _ (canon : ℕ → Option ℕ) (find : ℕ → ℕ) (ends : (a : ℕ) → canon (find a) ≡ none) where
  -- The operands are nil or were not merged.
  abbrev Clean : Value → Type 0
  Clean w = (a : ℕ) → In a w.args → (a ≡ 0) ⊎ (canon a ≡ none)

  map-Clean : (args : List ℕ) (a : ℕ) → In a (map (forward find) args) → (a ≡ 0) ⊎ (canon a ≡ none)
  map-Clean [] a i = absurd i
  map-Clean (x ∷ args) a (inr i) = map-Clean args a i
  map-Clean (x ∷ args) a (inl e) = elim (Bool-cases (x == 0)) [
    | inl t ↦ inl (rw t at e)
    | inr t ↦ let q : a ≡ find x = rw t at e in inr (ap canon q ∙ ends x)
  ]

  value-Clean :
      (v u : ℕ) (f : Func) → Clean (f.value_of u) → Clean ((forward_value find v f).value_of u)
  value-Clean v u f h = elim (Bool-cases (is_invalid (f.value_of v).op)) [
    | inl e ↦ rw e h
    | inr e ↦ rw e (
        update-split f.value_of v (forward_args find (f.value_of v)) Clean u
          (map-Clean (f.value_of v).args) h)
  ]

  value-Clean-at :
      (v : ℕ) (f : Func)
      → is_invalid (f.value_of v).op ≡ false
      → Clean ((forward_value find v f).value_of v)
  value-Clean-at v f e = rw e (
      subst Clean (sym (update-at f.value_of v (forward_args find (f.value_of v))))
        (map-Clean (f.value_of v).args))

  values-Clean :
      (vs : List ℕ) (u : ℕ) (f : Func)
      → Clean (f.value_of u) ⊎ (In u vs × (is_invalid (f.value_of u).op ≡ false))
      → Clean ((forward_values find vs f).value_of u)
  unfolding forward_values
  values-Clean [] u f (inl h) = h
  values-Clean [] u f (inr (i, e)) = absurd i
  values-Clean (v ∷ vs) u f (inl h) =
      values-Clean vs u (forward_value find v f) (inl (value-Clean v u f h))
  values-Clean (v ∷ vs) u f (inr (inl p, e)) = values-Clean vs u (forward_value find v f) (
      inl (
        subst (λ k. Clean ((forward_value find v f).value_of k)) (sym p)
          (value-Clean-at v f (subst (λ k. is_invalid (f.value_of k).op ≡ false) p e))))
  values-Clean (v ∷ vs) u f (inr (inr i, e)) =
      let s = (forward_value-Forwarded blind find (λ a. refl) v f).value u in
      values-Clean vs u (forward_value find v f) (inr (i, ap is_invalid s.op ∙ e))

  blocks-Clean :
      (bs : List ℕ) (u : ℕ) (f : Func)
      → Clean (f.value_of u)
        ⊎ (In u (values_in f.block_of bs) × (is_invalid (f.value_of u).op ≡ false))
      → Clean ((forward_blocks find bs f).value_of u)
  unfolding forward_blocks
  blocks-Clean [] u f (inl h) = h
  blocks-Clean [] u f (inr (i, e)) = absurd i
  blocks-Clean (b ∷ bs) u f (inl h) =
      let g = forward_control find b (forward_values find (f.block_of b).values f) in
      blocks-Clean bs u g (inl (values-Clean (f.block_of b).values u f (inl h)))
  blocks-Clean (b ∷ bs) u f (inr (i, e)) =
      let vs = (f.block_of b).values in
      let m = forward_values find vs f in
      let g = forward_control find b m in
      let p = forward_values-Forwarded blind find (λ a. refl) vs f in
      let q = forward_control-Forwarded blind find (λ a. refl) b m in
      elim (In-append u vs (values_in f.block_of bs) i) [
        | inl j ↦ blocks-Clean bs u g (inl (values-Clean vs u f (inr (j, e))))
        | inr j ↦
            let same : (c : ℕ) → (g.block_of c).values ≡ (f.block_of c).values =
              λ c. let r = q.block c in let r' = p.block c in r.values ∙ r'.values in
            let op = let r = q.value u in let r' = p.value u in r.op ∙ r'.op in
            blocks-Clean bs u g (
              inr (
                subst (In u) (sym (values_in-same f.block_of g.block_of bs same)) j,
                ap is_invalid op ∙ e,
              ))
      ]

-- Where no value is listed twice, an operand of a listed value that CSE leaves with an operation
-- is nil or a value whose operation CSE did not remove.
pub cse-dangling :
    (alike : Key → Key → Bool) (f : Func)
    → Distinct (values_in f.block_of f.order)
    → 0 < f.next_value_id
    → (v a : ℕ) → In v (values_in f.block_of f.order)
    → is_invalid ((cse alike f).0.value_of v).op ≡ false
    → In a ((cse alike f).0.value_of v).args
    → (a ≡ 0) ⊎ (((cse alike f).0.value_of a).op ≡ (f.value_of a).op)
unfolding cse Buried
cse-dangling alike f once pos v a =
    let s = numbering alike f in
    let find = resolve s.canon f.next_value_id in
    let m = f.next_value_id - 1 in
    let e : f.next_value_id ≡ suc m = omega arith in
    let ends : (a : ℕ) → s.canon (find a) ≡ none = λ a.
      subst (λ n. s.canon (resolve s.canon n a) ≡ none) (sym e) (resolve-ends alike f once m a) in
    let g = forward_blocks find f.order f in
    let p = forward_blocks-Forwarded blind find (λ a. refl) f.order f in
    let q = bury_blocks-Buried s.canon f.order g in
    elim (Bool-cases s.changed) [
      | inl c ↦ rw c (λ i valid j.
          let op : (u : ℕ) → (g.value_of u).op ≡ (f.value_of u).op =
            λ u. let r = p.value u in r.op in
          elim (q.0 v) [
            | inl k ↦
                let was =
                  sym (ap (λ (w : Value). is_invalid w.op) k ∙ ap is_invalid (op v)) ∙ valid in
                let clean = blocks-Clean s.canon find ends f.order v f (inr (i, was)) in
                elim (clean a (subst (λ (w : Value). In a w.args) k j)) [
                  | inl z ↦ inl z
                  | inr n ↦ elim (q.0 a) [
                    | inl k' ↦ inr (ap (λ (w : Value). w.op) k' ∙ op a)
                    | inr (t, k') ↦
                        let bad : is_other a none ≡ true = ap (is_other a) (sym n) ∙ t in cc
                  ]
                ]
            | inr (t, k) ↦ let bad = ap (λ (w : Value). is_invalid w.op) (sym k) ∙ valid in cc
          ])
      | inr c ↦ rw c (λ i valid j. inr refl)
    ]
