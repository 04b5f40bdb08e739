-- ===== src/Ssa/Pass/Simplify.antt =====
-- internal/ssa/pass/simplify.go, trivialPhiArg.
use wasm2go.Prelude.{
  ℕ, true, false, Bool-cases, ◌||◌, ◌==◌, ==_iff, if◌then◌else◌, List, [], ◌∷◌, In, ◌≡◌, ◌≢◌, refl,
  sym, ap, ◌∙◌, ◌⊎◌, inl, inr, ◌↔◌, arith,
}
use mathlib.Core.Path.{subst}
use wasm2go.Ssa.Op.{Op, phi}
use wasm2go.Ssa.Func.{Value}

-- The loop, with `uniq` so far; 0 is nil.
unfoldable pub phi_arg : ℕ → ℕ → List ℕ → ℕ
phi_arg v uniq [] = uniq
phi_arg v uniq (a ∷ args) =
    let skip = phi_arg v uniq args in
    let first = phi_arg v a args in
    if (a == 0) || (a == v)
    then skip
    else if uniq == 0
    then first
    else if a == uniq
    then skip
    else 0

abbrev pub phi_only : Op → ℕ → ℕ
phi_only phi n = n
phi_only _ n = 0

unfoldable pub trivial_phi_arg : ℕ → Value → ℕ
unfolding phi_arg
trivial_phi_arg id v = phi_only v.op (phi_arg id 0 v.args)

-- Each operand is nil, the phi itself or `u`.
abbrev pub Others : ℕ → ℕ → List ℕ → Type 0
Others v u args = (a : ℕ) → In a args → (a ≡ 0) ⊎ (a ≡ v) ⊎ (a ≡ u)

Others-cons :
    (v u a : ℕ) (args : List ℕ)
    → (a ≡ 0) ⊎ (a ≡ v) ⊎ (a ≡ u)
    → Others v u args
    → Others v u (a ∷ args)
Others-cons v u a args h o b (inl e) = rw e h
Others-cons v u a args h o b (inr i) = o b i

skipped : (a v : ℕ) → ((a == 0) || (a == v)) ≡ true → (a ≡ 0) ⊎ (a ≡ v)
skipped a v e = ground arith

not_skipped : (a v : ℕ) → ((a == 0) || (a == v)) ≡ false → (a ≢ 0) × (a ≢ v)
not_skipped a v e = (ground arith, ground arith)

-- The loop once an operand has been met.
met :
    (v q u : ℕ) (args : List ℕ)
    → q ≢ 0
    → u ≢ 0
    → (phi_arg v q args ≡ u) ↔ ((u ≡ q) × Others v q args)
unfolding phi_arg
met v q u [] hq hu = (λ e. (sym e, λ a i. absurd i), λ r. sym (r.0))
met v q u (a ∷ args) hq hu =
    let ih = met v q u args hq hu in
    elim (Bool-cases ((a == 0) || (a == v))) [
      | inl e ↦ rw e (
        λ k.
            let r = ih.0 k in
            (
              r.0,
              Others-cons v q a args (elim (skipped a v e) [ inl p ↦ inl p | inr p ↦ inr (inl p) ])
                  (r.1),
            ),
        λ r. ih.1 (r.0, λ b i. r.1 b (inr i)),
      )
      | inr e ↦
          let zero_test : (q == 0) ≡ false = ground arith in
          elim (Bool-cases (a == q)) [
            | inl p ↦
                rw (e, zero_test, p)
                  (
                    λ k.
                        let r = ih.0 k in
                        (r.0, Others-cons v q a args (inr (inr ((==_iff a q).0 p))) (r.1)),
                    λ r. ih.1 (r.0, λ b i. r.1 b (inr i)),
                  )
            | inr p ↦
                rw (e, zero_test, p)
                  (
                    λ k. absurd (hu (sym k)),
                    λ r. elim (r.1 a (inl refl)) [
                      | inl z ↦ ground arith
                      | inr (inl z) ↦ ground arith
                      | inr (inr z) ↦ ground arith
                    ],
                  )
          ]
    ]

-- The loop from its start.
start :
    (v u : ℕ) (args : List ℕ)
    → u ≢ 0
    → (phi_arg v 0 args ≡ u) ↔ (In u args × (u ≢ v) × Others v u args)
unfolding phi_arg
start v u [] hu = (λ e. absurd (hu (sym e)), λ r. absurd (r.0))
start v u (a ∷ args) hu = elim (Bool-cases ((a == 0) || (a == v))) [
  | inl e ↦
      let ih = start v u args hu in
      let s = skipped a v e in
      rw e (
        λ k.
            let r = ih.0 k in
            (
              inr (r.0),
              r.1,
              Others-cons v u a args (elim s [ inl p ↦ inl p | inr p ↦ inr (inl p) ]) (r.2),
            ),
        λ r. elim (r.0) [
          | inl p ↦ elim s [ inl z ↦ absurd (hu (p ∙ z)) | inr z ↦ absurd (r.1 (p ∙ z)) ]
          | inr i ↦ ih.1 (i, r.1, λ b j. r.2 b (inr j))
        ],
      )
  | inr e ↦
      let real : (a ≢ 0) × (a ≢ v) = not_skipped a v e in
      let m = met v a u args (real.0) hu in
      rw e (
        λ k.
            let r = m.0 k in
            let same = r.0 in
            (
              inl same,
              (λ z. real.1 (sym same ∙ z)),
              Others-cons v u a args (inr (inr (sym same)))
                  (subst (λ q. Others v q args) (sym same) (r.1)),
            ),
        λ r.
            let same : u ≡ a = elim (r.2 a (inl refl)) [
              | inl z ↦ absurd (real.0 z)
              | inr (inl z) ↦ absurd (real.1 z)
              | inr (inr z) ↦ sym z
            ] in
            m.1 (same, subst (λ q. Others v q args) same (λ b i. r.2 b (inr i))),
      )
]

phi_only-cases : (op : Op) → (op ≡ phi) ⊎ ((op ≢ phi) × ((n : ℕ) → phi_only op n ≡ 0))
phi_only-cases phi = inl refl
phi_only-cases _ = inr ((λ e. cc), λ n. refl)

-- trivialPhiArg returns a value other than nil exactly if that value is an operand of the phi, is
-- not the phi itself, and every operand is nil, the phi itself or that value.
pub trivial_phi_arg-Others :
    (id u : ℕ) (w : Value)
    → u ≢ 0
    → (trivial_phi_arg id w ≡ u) ↔ ((w.op ≡ phi) × In u w.args × (u ≢ id) × Others id u w.args)
unfolding trivial_phi_arg
trivial_phi_arg-Others id u w hu = elim (phi_only-cases w.op) [
  | inl e ↦
      let same : phi_only w.op (phi_arg id 0 w.args) ≡ phi_arg id 0 w.args =
        ap (λ op. phi_only op (phi_arg id 0 w.args)) e in
      let s = start id u w.args hu in
      (λ k. let r = s.0 (sym same ∙ k) in (e, r.0, r.1, r.2), λ r. same ∙ s.1 (r.1, r.2, r.3))
  | inr (n, z) ↦ (λ k. absurd (hu (sym k ∙ z _)), λ r. absurd (n (r.0)))
]
