-- ===== src/Ssa/Pass/Cse/Merges.antt =====
-- internal/ssa/pass/cse.go: the map of merged values under any meaning of the operations.
use wasm2go.Prelude.{
  ℕ, zero, suc, Bool, true, false, Bool-cases, ◌==◌, ==_iff, Option, some, Option-cases, List, [],
  ◌∷◌, All, ◌≡◌, refl, sym, ap, ◌∙◌, inl, inr, arith,
}
use mathlib.Core.Path.{subst}
use wasm2go.Prelude.Int.{ℤ, pos, negsuc}
use mathlib.Core.List.{map}
use mathlib.Core.Option.{some_inj}
use wasm2go.Ssa.Types.{ValueType}
use wasm2go.Ssa.Op.{Op, Aux, absent, name, index, words, is_commutative}
use wasm2go.Ssa.Func.{Func}
use wasm2go.Ssa.Update.{update-same, update-other}
use wasm2go.Ssa.Meaning.{lt_int}
use wasm2go.Ssa.Compact.{is_invalid}
use wasm2go.Ssa.Pass.Cse.{
  cse_eligible, Key, resolve, key_id, in_order, cse_key, Numbering, find_key, skipped, value_key,
  number_value, number_values, number_blocks, numbering,
}

-- The larger immediates that Sprintf prints apart from each other.
abbrev pub SameForm : Aux → Aux → Type 0
SameForm absent absent = Unit
SameForm (name s) (name t) = Unit
SameForm (index m) (index n) = Unit
SameForm (words a b) (words c d) = Unit
SameForm _ _ = ⊥

-- Keys of the same text have the same fields.
abbrev pub PrintsApart : (Key → Key → Bool) → Type 0
PrintsApart alike =
    (k k' : Key)
    → alike k k' ≡ true
    → (k.op ≡ k'.op)
      × (k.typ ≡ k'.typ)
      × (k.aux_int ≡ k'.aux_int)
      × (k.ids ≡ k'.ids)
      × (SameForm k.aux k'.aux → k.aux ≡ k'.aux)

abbrev pub Eligible : Func → ℕ → Type 0
Eligible f v = (is_invalid (f.value_of v).op ≡ false) × (cse_eligible (f.value_of v) ≡ true)

-- The larger immediate of an operation always has the same form.
abbrev pub HasForms : Func → Type 0
HasForms f =
    (u v : ℕ)
    → Eligible f u
    → Eligible f v
    → (f.value_of u).op ≡ (f.value_of v).op
    → SameForm (f.value_of u).aux (f.value_of v).aux

-- What the operations compute: any function of the operands for each, that ignores the order of two
-- operands where the operation is said to be commutative.
pub record Interpretation {ℓ} (X : Type ℓ) : Type ℓ where
  pub apply : Op → ValueType → ℕ → Aux → List X → X
  pub swap :
      (op : Op) (t : ValueType) (n : ℕ) (a : Aux) (x y : X)
      → is_commutative op ≡ true
      → apply op t n a (x ∷ y ∷ []) ≡ apply op t n a (y ∷ x ∷ [])

pub record Computes {ℓ} {X : Type ℓ} (I : Interpretation X) (f : Func) (env : ℕ → X) : Type ℓ where
  pub at :
      (v : ℕ)
      → Eligible f v
      → let w = f.value_of v in env v ≡ I.apply w.op w.typ w.aux_int w.aux (map env w.args)

module _ {ℓ} {X : Type ℓ} (I : Interpretation X) (env : ℕ → X) where
  env_id : ℤ → X
  env_id (pos n) = env n
  env_id (negsuc n) = env 0

  key_value : Key → X
  key_value k = I.apply k.op k.typ k.aux_int k.aux (map env_id k.ids)

  abbrev Faithful : (ℕ → ℕ) → Type ℓ
  Faithful find = (a : ℕ) → env (find a) ≡ env a

  map-key_id :
      (find : ℕ → ℕ)
      → Faithful find
      → (args : List ℕ) → map env_id (map (key_id find) args) ≡ map env args
  unfolding env_id
  map-key_id find h [] = refl
  map-key_id find h (a ∷ args) =
      let one : env_id (key_id find a) ≡ env a = elim (Bool-cases (a == 0)) [
        | inl e ↦ rw (e, (==_iff a 0).0 e) refl
        | inr e ↦ rw e (h a)
      ] in
      λ i. one i ∷ map-key_id find h args i

  in_order-apply :
      (op : Op) (t : ValueType) (n : ℕ) (a : Aux) (ids : List ℤ)
      → I.apply op t n a (map env_id (in_order (is_commutative op) ids))
        ≡ I.apply op t n a (map env_id ids)
  in_order-apply op t n a ids = go (is_commutative op) refl ids
    where
      go :
          (b : Bool)
          → is_commutative op ≡ b
          → (ids : List ℤ)
          → I.apply op t n a (map env_id (in_order b ids)) ≡ I.apply op t n a (map env_id ids)
      go false e ids = refl
      go true e [] = refl
      go true e (x ∷ []) = refl
      go true e (x ∷ y ∷ []) = elim (Bool-cases (lt_int y x)) [
        | inl k ↦ rw k (I.swap op t n a (env_id y) (env_id x) e)
        | inr k ↦ rw k refl
      ]
      go true e (x ∷ y ∷ z ∷ rest) = refl

  key_value-fields :
      (k k' : Key)
      → k.op ≡ k'.op
      → k.typ ≡ k'.typ
      → k.aux_int ≡ k'.aux_int
      → k.ids ≡ k'.ids
      → k.aux ≡ k'.aux
      → key_value k ≡ key_value k'
  unfolding key_value
  key_value-fields k k' a b c d e = λ i. I.apply (a i) (b i) (c i) (e i) (map env_id (d i))

  module _ (f : Func) (computes : Computes I f env) where
    key_value-cse_key :
        (find : ℕ → ℕ) (v : ℕ)
        → Faithful find
        → Eligible f v
        → env v ≡ key_value (cse_key find (f.value_of v))
    unfolding key_value cse_key
    key_value-cse_key find v h el =
        let w = f.value_of v in
        computes.at v el
        ∙ sym (ap (I.apply w.op w.typ w.aux_int w.aux) (map-key_id find h w.args))
        ∙ sym (in_order-apply w.op w.typ w.aux_int w.aux (map (key_id find) w.args))

    resolve-Faithful :
        (canon : ℕ → Option ℕ)
        → ((v p : ℕ) → canon v ≡ some p → env v ≡ env p)
        → (fuel : ℕ) → Faithful (resolve canon fuel)
    unfolding resolve
    resolve-Faithful canon h zero a = refl
    resolve-Faithful canon h (suc fuel) a =
        let ih = resolve-Faithful canon h fuel in
        elim (Option-cases (canon a)) [
          | inl e ↦ rw (e, resolve) refl
          | inr (p, e) ↦ elim (Bool-cases (p == a)) [
            | inl k ↦ rw (e, resolve, k) refl
            | inr k ↦ rw (e, resolve, k) (ih p ∙ sym (h a p e))
          ]
        ]

    module _ (alike : Key → Key → Bool) (apart : PrintsApart alike) (forms : HasForms f) where
      -- A pair in `seen`.
      record Entry (k : Key) (p : ℕ) : Type ℓ where
        eligible : Eligible f p
        op : k.op ≡ (f.value_of p).op
        aux : k.aux ≡ (f.value_of p).aux
        value : env p ≡ key_value k

      record Sound (s : Numbering) : Type ℓ where
        canon : (v p : ℕ) → s.canon v ≡ some p → env v ≡ env p
        seen : All (λ e. Entry (e.0) (e.1)) s.seen

      same_form :
          (k k' : Key) (v u : ℕ) → Entry k v → Entry k' u → k.op ≡ k'.op → SameForm k.aux k'.aux
      same_form k k' v u a b e =
          subst (λ x. SameForm x k'.aux) (sym a.aux)
            (subst (SameForm (f.value_of v).aux) (sym b.aux)
              (forms v u a.eligible b.eligible (sym a.op ∙ e ∙ b.op)))

      find_key-Entry :
          (k : Key) (v : ℕ) (seen : List (Key × ℕ)) (p : ℕ)
          → Entry k v
          → All (λ e. Entry (e.0) (e.1)) seen
          → find_key alike k seen ≡ some p
          → env v ≡ env p
      unfolding find_key
      find_key-Entry k v [] p entry h e = cc
      find_key-Entry k v ((k', u) ∷ seen) p entry (old, h) e = elim (Bool-cases (alike k k')) [
        | inl t ↦
            let q = apart k k' t in
            let u≡p : u ≡ p = some_inj.0 (rw t at e) in
            let aux = (q.4 (same_form k k' v u entry old (q.0))) in
            entry.value
            ∙ key_value-fields k k' (q.0) (q.1) (q.2) (q.3) aux
            ∙ sym old.value
            ∙ ap env u≡p
        | inr t ↦ find_key-Entry k v seen p entry h (rw t at e)
      ]

      skipped-Eligible : (v : ℕ) → skipped alike f v ≡ false → Eligible f v
      skipped-Eligible v e = (ground arith, ground arith)

      number_value-Sound : (v : ℕ) (s : Numbering) → Sound s → Sound (number_value alike f v s)
      unfolding key_value cse_key
      number_value-Sound v s sound =
          let k = value_key alike f s v in
          let find = resolve s.canon f.next_value_id in
          elim (Bool-cases (skipped alike f v)) [
            | inl e ↦ rw e sound
            | inr e ↦
                let el = skipped-Eligible v e in
                let same =
                  key_value-cse_key find v (resolve-Faithful s.canon sound.canon f.next_value_id)
                    el in
                let entry : Entry k v = record {
                  eligible = el;
                  op = refl;
                  aux = refl;
                  value = same;
                } in
                elim (Option-cases (find_key alike k s.seen)) [
                  | inl n ↦ rw (e, n) (record { canon = sound.canon; seen = (entry, sound.seen) })
                  | inr (p, n) ↦
                      rw (e, n)
                        (record {
                          canon = λ u q c. elim (Bool-cases (u == v)) [
                            | inl t ↦
                                ap env ((==_iff u v).0 t)
                                ∙ find_key-Entry k v s.seen p entry sound.seen n
                                ∙ ap env (some_inj.0 (sym (update-same s.canon v (some p) u t) ∙ c))
                            | inr t ↦
                                sound.canon u q (sym (update-other s.canon v (some p) u t) ∙ c)
                          ];
                          seen = sound.seen;
                        })
                ]
          ]

      number_values-Sound :
          (vs : List ℕ) (s : Numbering) → Sound s → Sound (number_values alike f vs s)
      unfolding number_values
      number_values-Sound [] s h = h
      number_values-Sound (v ∷ vs) s h =
          number_values-Sound vs (number_value alike f v s) (number_value-Sound v s h)

      number_blocks-Sound :
          (bs : List ℕ) (s : Numbering) → Sound s → Sound (number_blocks alike f bs s)
      unfolding number_blocks
      number_blocks-Sound [] s h = h
      number_blocks-Sound (b ∷ bs) s h = number_blocks-Sound bs _ (
          number_values-Sound (f.block_of b).values (record s { seen = [] })
            (record { canon = h.canon; seen = tt }))

      numbering-Sound : Sound (numbering alike f)
      unfolding numbering
      numbering-Sound = number_blocks-Sound f.order _ (record { canon = λ v p e. cc; seen = tt })

      pub numbering-equal : (v p : ℕ) → (numbering alike f).canon v ≡ some p → env v ≡ env p
      numbering-equal = numbering-Sound.canon

      pub resolve-equal : (fuel v : ℕ) → env (resolve (numbering alike f).canon fuel v) ≡ env v
      resolve-equal = resolve-Faithful (numbering alike f).canon numbering-equal
