-- ===== src/Ssa/Pass/Cse/Roots.antt =====
-- internal/ssa/pass/cse.go: the ends of the map of merged values.
use wasm2go.Prelude.{
  ℕ, zero, suc, Bool, false, Bool-cases, ◌==◌, ==_iff, none, some, Option-cases, List, [], ◌∷◌,
  ◌++◌, In, All, All-map, ◌≡◌, refl, sym, ap, ◌∙◌, inl, inr,
}
use mathlib.Core.Path.{subst}
use mathlib.Core.Option.{some_inj}
use wasm2go.Ssa.Func.{Func, update}
use wasm2go.Ssa.Update.{update-same, update-other}
use wasm2go.Ssa.Pass.Dce.Correct.{values_in}
use wasm2go.Ssa.Pass.Cse.{
  Key, Numbering, find_key, skipped, value_key, number_value, number_values, number_blocks,
  numbering, resolve,
}

-- No id occurs twice.
abbrev pub Distinct : List ℕ → Type 0
Distinct [] = Unit
Distinct (v ∷ vs) = (¬ In v vs) × Distinct vs

-- The values of `rest` are still to come.
record Settled (rest : List ℕ) (s : Numbering) : Type 0 where
  canon : (v p : ℕ) → s.canon v ≡ some p → (s.canon p ≡ none) × (¬ In v rest) × (¬ In p rest)
  seen : All (λ e. (s.canon (e.1) ≡ none) × (¬ In (e.1) rest)) s.seen
  idle : s.changed ≡ false → (v : ℕ) → s.canon v ≡ none

module _ (alike : Key → Key → Bool) (f : Func) where
  find_key-All :
      (P : Key × ℕ → Type 0) (k : Key) (seen : List (Key × ℕ)) (p : ℕ)
      → All P seen
      → find_key alike k seen ≡ some p
      → (k' : Key) × P (k', p)
  unfolding find_key
  find_key-All P k [] p h e = cc
  find_key-All P k ((k', u) ∷ seen) p (q, h) e = elim (Bool-cases (alike k k')) [
    | inl t ↦ (k', subst (λ x. P (k', x)) (some_inj.0 (rw t at e)) q)
    | inr t ↦ find_key-All P k seen p h (rw t at e)
  ]

  later : (v : ℕ) (rest : List ℕ) (s : Numbering) → Settled (v ∷ rest) s → Settled rest s
  later v rest s h = record {
    canon = λ u p c. let r = h.canon u p c in (r.0, λ i. r.1 (inr i), λ i. r.2 (inr i));
    seen = All-map (λ e r. (r.0, λ i. r.1 (inr i))) s.seen h.seen;
    idle = h.idle;
  }

  not_same : (u v : ℕ) (rest : List ℕ) → ¬ In u (v ∷ rest) → (u == v) ≡ false
  not_same u v rest n = elim (Bool-cases (u == v)) [
    | inl e ↦ absurd (n (inl ((==_iff u v).0 e)))
    | inr e ↦ e
  ]

  unmerged : (v : ℕ) (rest : List ℕ) (s : Numbering) → Settled (v ∷ rest) s → s.canon v ≡ none
  unmerged v rest s h = elim (Option-cases (s.canon v)) [
    | inl e ↦ e
    | inr (p, e) ↦ absurd ((h.canon v p e).1 (inl refl))
  ]

  number_value-Settled :
      (v : ℕ) (rest : List ℕ) (s : Numbering)
      → ¬ In v rest
      → Settled (v ∷ rest) s
      → Settled rest (number_value alike f v s)
  number_value-Settled v rest s once h =
      let k = value_key alike f s v in
      let l = later v rest s h in
      elim (Bool-cases (skipped alike f v)) [
        | inl e ↦ rw e l
        | inr e ↦ elim (Option-cases (find_key alike k s.seen)) [
          | inl n ↦
              rw (e, n)
                (record {
                  canon = l.canon;
                  seen = ((unmerged v rest s h, once), l.seen);
                  idle = l.idle;
                })
          | inr (p, n) ↦
              let found =
                find_key-All (λ e. (s.canon (e.1) ≡ none) × (¬ In (e.1) (v ∷ rest))) k s.seen p
                  h.seen n in
              let p≠v = not_same p v rest (found.1.1) in
              let other : (q : ℕ)
                  → ¬ In q (v ∷ rest)
                  → s.canon q ≡ none
                  → update s.canon v (some p) q ≡ none =
                λ q out c. update-other s.canon v (some p) q (not_same q v rest out) ∙ c in
              rw (e, n)
                (record {
                  canon = λ u q c. elim (Bool-cases (u == v)) [
                    | inl t ↦
                        let same : p ≡ q =
                          some_inj.0 (sym (update-same s.canon v (some p) u t) ∙ c) in
                        subst
                          (λ q.
                            (update s.canon v (some p) q ≡ none) × (¬ In u rest) × (¬ In q rest))
                          same
                          (
                            other p (found.1.1) (found.1.0),
                            rw ((==_iff u v).0 t) once,
                            λ i. found.1.1 (inr i),
                          )
                    | inr t ↦
                        let c' = sym (update-other s.canon v (some p) u t) ∙ c in
                        let r = h.canon u q c' in
                        (other q (r.2) (r.0), (l.canon u q c').1, (l.canon u q c').2)
                  ];
                  seen = All-map (λ x r. (other (x.1) (r.1) (r.0), λ i. r.1 (inr i))) s.seen h.seen;
                  idle = λ i. cc;
                })
        ]
      ]

  number_values-Settled :
      (vs rest : List ℕ) (s : Numbering)
      → Distinct (vs ++ rest)
      → Settled (vs ++ rest) s
      → Settled rest (number_values alike f vs s)
  unfolding number_values
  number_values-Settled [] rest s d h = h
  number_values-Settled (v ∷ vs) rest s (n, d) h =
      number_values-Settled vs rest (number_value alike f v s) d
        (number_value-Settled v (vs ++ rest) s n h)

  Distinct-right : (xs ys : List ℕ) → Distinct (xs ++ ys) → Distinct ys
  Distinct-right [] ys d = d
  Distinct-right (x ∷ xs) ys (n, d) = Distinct-right xs ys d

  number_blocks-Settled :
      (bs : List ℕ) (s : Numbering)
      → Distinct (values_in f.block_of bs)
      → Settled (values_in f.block_of bs) s
      → Settled [] (number_blocks alike f bs s)
  unfolding number_blocks
  number_blocks-Settled [] s d h = h
  number_blocks-Settled (b ∷ bs) s d h =
      let vs = (f.block_of b).values in
      let rest = values_in f.block_of bs in
      number_blocks-Settled bs _ (Distinct-right vs rest d) (
        number_values-Settled vs rest (record s { seen = [] }) d
          (record { canon = h.canon; seen = tt; idle = h.idle }))

  module _ (once : Distinct (values_in f.block_of f.order)) where
    numbering-Settled : Settled [] (numbering alike f)
    unfolding numbering
    numbering-Settled =
        number_blocks-Settled f.order _ once
          (record { canon = λ v p e. cc; seen = tt; idle = λ e v. refl })

    resolve-stays :
        (n v : ℕ) → (numbering alike f).canon v ≡ none → resolve (numbering alike f).canon n v ≡ v
    unfolding resolve
    resolve-stays zero v e = refl
    resolve-stays (suc n) v e = rw (resolve, e) refl

    -- One step is enough.
    pub resolve-ends :
        (n v : ℕ) → (numbering alike f).canon (resolve (numbering alike f).canon (suc n) v) ≡ none
    unfolding resolve
    resolve-ends n v =
        let canon = (numbering alike f).canon in
        elim (Option-cases (canon v)) [
          | inl e ↦ rw (resolve-stays (suc n) v e) e
          | inr (p, e) ↦
              let r = (numbering-Settled.canon v p e).0 in
              elim (Bool-cases (p == v)) [
                | inl t ↦ let q = rw ((==_iff p v).0 t) at r in cc
                | inr t ↦ ap canon (rw (resolve, e, t) (resolve-stays n p r)) ∙ r
              ]
        ]
