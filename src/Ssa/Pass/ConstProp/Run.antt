-- ===== src/Ssa/Pass/ConstProp/Run.antt =====
-- A whole run of ConstProp, from one call of foldValue to all of them.
use wasm2go.Prelude.{
  ℕ, ◌^◌, ◌<◌, ◌≡◌, refl, sym, ap, ◌∙◌, Bool, false, Bool-cases, ◌==◌, ==_iff, inl, inr, ◌⊎◌, ◌↔◌,
  Option, none, some, List, [], ◌∷◌, All, All-map,
}
use mathlib.Core.Path.{subst}
use wasm2go.Ssa.Types.{ValueType}
use wasm2go.Ssa.Op.{Op, const32, const64}
use wasm2go.Ssa.Func.{Value, Func, update, set_value}
use wasm2go.Ssa.Update.{update-same, update-other, update-split}
use wasm2go.Ssa.Meaning.{denote, meaning, Agrees}
use wasm2go.Ssa.Pass.ConstProp.{fold_args, put, fold_value, fold_values, fold_blocks, const_prop}
use wasm2go.Ssa.Pass.ConstProp.Typing.{width, operand_width, result_type, IsTyped}
use wasm2go.Ssa.Pass.ConstProp.Single.{const_number, Consts, denote-const, Becomes}
use wasm2go.Ssa.Pass.ConstProp.Args.{fold_args-Becomes}

const-result :
    (op : Op) → (op ≡ const32) ⊎ (op ≡ const64) → (result_type op ≡ none) × (operand_width op ≡ 0)
unfolding result_type operand_width
const-result op (inl e) = rw e (refl, refl)
const-result op (inr e) = rw e (refl, refl)

Becomes-const : (v v' : Value) (x : ℕ) → Becomes v v' x → (v'.op ≡ const32) ⊎ (v'.op ≡ const64)
Becomes-const v v' x r = elim (r.constant_op) [ inl p ↦ inl (p.0) | inr p ↦ inr (p.0) ]

module _ (values : ℕ → Value) (id : ℕ) (v' : Value) (typed : IsTyped values) where
  module _ (x : ℕ) (r : Becomes (values id) v' x) where
    typ-update : (j : ℕ) → (update values id v' j).typ ≡ (values j).typ
    typ-update j = elim (Bool-cases (j == id)) [
      | inl e ↦ rw (update-same values id v' j e, (==_iff j id).0 e) (r.typ)
      | inr e ↦ ap (λ u. u.typ) (update-other values id v' j e)
    ]

    update-IsTyped : IsTyped (update values id v')
    update-IsTyped = record {
      const_32 = λ j.
          update-split values id v' (λ u. u.op ≡ const32 → width u.typ ≡ 32) j
            (λ e. elim (r.constant_op) [ inl p ↦ p.1 | inr p ↦ cc ]) (typed.const_32 j);
      const_64 = λ j.
          update-split values id v' (λ u. u.op ≡ const64 → width u.typ ≡ 64) j
            (λ e. elim (r.constant_op) [ inl p ↦ cc | inr p ↦ p.1 ]) (typed.const_64 j);
      operands = λ j.
          update-split values id v'
            (λ u.
              (w : ℕ)
              → operand_width u.op ≡ w
              → 0 < w
              → All (λ a. width (update values id v' a).typ ≡ w) u.args)
            j (λ w e p. rw (r.args) tt)
            (λ w e p.
              All-map (λ a q. ap width (typ-update a) ∙ q) (values j).args
                (typed.operands j w e p));
      result = λ j.
          update-split values id v' (λ u. (t : ValueType) → result_type u.op ≡ some t → u.typ ≡ t) j
            (λ t e. let q = const-result v'.op (Becomes-const (values id) v' x r) in cc)
            (typed.result j);
      words = λ j. update-split values id v' (λ u. u.aux_int < 2 ^ 64) j (r.fits) (typed.words j);
    }

    module _ (env : ℕ → ℕ)
        (was : denote (values id).op (values id).aux_int env (values id).args ≡ some x) where
      update-meaning : (j : ℕ) → meaning env (update values id v' j) ≡ meaning env (values j)
      update-meaning j = elim (Bool-cases (j == id)) [
        | inl e ↦
            rw (update-same values id v' j e, (==_iff j id).0 e)
              (denote-const v'.op v'.aux_int env v'.args x (r.number) ∙ sym was)
        | inr e ↦ ap (meaning env) (update-other values id v' j e)
      ]

Agrees-Consts : (f : Func) (env : ℕ → ℕ) → Agrees f env → Consts f.value_of env
Agrees-Consts f env h a x e =
    h.at a x (denote-const (f.value_of a).op (f.value_of a).aux_int env (f.value_of a).args x e)

-- foldValue either leaves the function, or puts a constant in the place of one value.
fold_value-cases :
    (id : ℕ) (f : Func)
    → ((fold_value id f).0 ≡ f)
      ⊎ ((v' : Value) × (fold_args f.value_of (f.value_of id) (f.value_of id).args ≡ some v')
          × ((fold_value id f).0 ≡ set_value id v' f))
unfolding fold_value
fold_value-cases id f = go (fold_args f.value_of (f.value_of id) (f.value_of id).args)
  where
    go :
        (r : Option Value)
        → ((put id f r).0 ≡ f)
          ⊎ ((v' : Value) × (r ≡ some v') × ((put id f r).0 ≡ set_value id v' f))
    go none = inl refl
    go (some v') = inr (v', refl, refl)

-- A property of a function and an assignment that foldValue keeps, in both directions.
abbrev Kept : (ℕ → ℕ) → Func → Func → Type 0
Kept env f g =
    IsTyped f.value_of
    → IsTyped g.value_of
      × (Agrees f env ↔ Agrees g env)
      × (g.block_of ≡ f.block_of)
      × (g.order ≡ f.order)

Kept-refl : (env : ℕ → ℕ) (f : Func) → Kept env f f
Kept-refl env f t = (t, (λ h. h, λ h. h), refl, refl)

Kept-trans : (env : ℕ → ℕ) (f g h : Func) → Kept env f g → Kept env g h → Kept env f h
Kept-trans env f g h p q t =
    let a = p t in
    let b = q (a.0) in (b.0, (λ x. b.1.0 (a.1.0 x), λ x. a.1.1 (b.1.1 x)), b.2 ∙ a.2, b.3 ∙ a.3)

-- An assignment that is right at the constants.
or_zero : Option ℕ → ℕ
or_zero none = 0
or_zero (some x) = x

const_env : (ℕ → Value) → ℕ → ℕ
const_env values a = or_zero (const_number (values a).op (values a).aux_int)

const_env-Consts : (values : ℕ → Value) → Consts values (const_env values)
unfolding const_env or_zero
const_env-Consts values a x e = rw e refl

module _ (f : Func) (id : ℕ) (v' : Value) (typed : IsTyped f.value_of)
    (e : fold_args f.value_of (f.value_of id) (f.value_of id).args ≡ some v') where
  becomes :
      (env : ℕ → ℕ)
      → Consts f.value_of env
      → (x : ℕ) × (denote (f.value_of id).op (f.value_of id).aux_int env (f.value_of id).args
          ≡ some x)
        × Becomes (f.value_of id) v' x
        × (const_number (f.value_of id).op (f.value_of id).aux_int ≡ none)
  becomes env consts =
      fold_args-Becomes f.value_of env (f.value_of id) v' typed consts (typed.operands id)
        (typed.result id) e

  step-IsTyped : IsTyped (update f.value_of id v')
  step-IsTyped =
      let b = becomes (const_env f.value_of) (const_env-Consts f.value_of) in
      update-IsTyped f.value_of id v' typed (b.0) (b.2)

  step-meaning :
      (env : ℕ → ℕ)
      → Consts f.value_of env
      → (j : ℕ) → meaning env (update f.value_of id v' j) ≡ meaning env (f.value_of j)
  step-meaning env consts =
      let b = becomes env consts in update-meaning f.value_of id v' typed (b.0) (b.2) env (b.1)

  -- The constants of the old function are constants of the new one.
  step-Consts : (env : ℕ → ℕ) → Agrees (set_value id v' f) env → Consts f.value_of env
  step-Consts env h a x k =
      let b = becomes (const_env f.value_of) (const_env-Consts f.value_of) in
      elim (Bool-cases (a == id)) [
        | inl p ↦ let same = (==_iff a id).0 p in let q = rw same at k in cc
        | inr p ↦ h.at a x (
            ap (meaning env) (update-other f.value_of id v' a p)
            ∙ denote-const (f.value_of a).op (f.value_of a).aux_int env (f.value_of a).args x k)
      ]

  step-Agrees : (env : ℕ → ℕ) → Agrees f env ↔ Agrees (set_value id v' f) env
  step-Agrees env = (
    λ h. record { at = λ j x k. h.at j x (sym (step-meaning env (Agrees-Consts f env h) j) ∙ k) },
    λ h. record { at = λ j x k. h.at j x (step-meaning env (step-Consts env h) j ∙ k) },
  )

fold_value-Kept : (env : ℕ → ℕ) (id : ℕ) (f : Func) → Kept env f (fold_value id f).0
fold_value-Kept env id f = elim (fold_value-cases id f) [
  | inl e ↦ subst (Kept env f) (sym e) (Kept-refl env f)
  | inr (v', e, q) ↦
      subst (Kept env f) (sym q)
        (λ t. (step-IsTyped f id v' t e, step-Agrees f id v' t e env, refl, refl))
]

fold_values-Kept :
    (env : ℕ → ℕ) (ids : List ℕ) (f : Func) (c : Bool) → Kept env f (fold_values ids (f, c)).0
unfolding fold_values
fold_values-Kept env [] f c = Kept-refl env f
fold_values-Kept env (id ∷ ids) f c =
    Kept-trans env f (fold_value id f).0 _ (fold_value-Kept env id f)
      (fold_values-Kept env ids (fold_value id f).0 _)

fold_blocks-Kept :
    (env : ℕ → ℕ) (bs : List ℕ) (f : Func) (c : Bool) → Kept env f (fold_blocks bs (f, c)).0
unfolding fold_blocks
fold_blocks-Kept env [] f c = Kept-refl env f
fold_blocks-Kept env (b ∷ bs) f c =
    let s = fold_values (f.block_of b).values (f, c) in
    Kept-trans env f (s.0) _ (fold_values-Kept env (f.block_of b).values f c)
      (fold_blocks-Kept env bs (s.0) (s.1))

-- On a typed function, numbers for all values agree with its operations exactly if they agree with
-- those that ConstProp leaves: every fold, at either width, gives what the integer operators of
-- WebAssembly give.
pub const_prop-Agrees :
    (f : Func) (env : ℕ → ℕ) → IsTyped f.value_of → Agrees f env ↔ Agrees (const_prop f).0 env
unfolding const_prop
const_prop-Agrees f env t = (fold_blocks-Kept env f.order f false t).1

-- ConstProp keeps a function typed: constants have an integer type of their width, integer
-- operations have operands of their width and a result of their type, and immediates are below
-- 2^64.
pub const_prop-IsTyped : (f : Func) → IsTyped f.value_of → IsTyped (const_prop f).0.value_of
unfolding const_prop
const_prop-IsTyped f t = (fold_blocks-Kept (λ a. 0) f.order f false t).0
