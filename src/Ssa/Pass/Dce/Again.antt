-- ===== src/Ssa/Pass/Dce/Again.antt =====
-- internal/ssa/pass/dce.go, run twice.
use wasm2go.Prelude.{
  ℕ, suc, leb, Bool, true, false, Bool-cases, List, [], ◌∷◌, In, In-append, In-left, In-right, ◌≡◌,
  refl, sym, ap, ◌∙◌, ◌⊎◌, inl, inr, arith,
}
use mathlib.Core.Path.{subst}
use wasm2go.Ssa.Op.{has_side_effect}
use wasm2go.Ssa.Func.{Value, Block, Func}
use wasm2go.Ssa.Compact.{is_invalid}
use wasm2go.Ssa.Worklist.{root, step}
use wasm2go.Ssa.Pass.Tail.{tail_start, tail_count}
use wasm2go.Ssa.Pass.Dce.{
  present, when, marks, value_roots, block_roots, roots_of, dce_live, sweep_value, sweep_values,
  sweep_blocks, dce,
}
use wasm2go.Ssa.Pass.Dce.Correct.{
  values_in, IsNumbered, Live, dce_live-Live, dce-Swept, Live-kept, dce-Live,
}

-- Where every listed value is live or has no operation, the sweep does nothing.
abbrev Settled : (ℕ → Bool) → Func → ℕ → Type 0
Settled live f v = (is_invalid (f.value_of v).op ≡ true) ⊎ (live v ≡ true)

sweep_values-idle :
    (live : ℕ → Bool) (vs : List ℕ) (f : Func) (c : Bool)
    → ((v : ℕ) → In v vs → Settled live f v)
    → sweep_values live vs (f, c) ≡ (f, c)
unfolding sweep_values
sweep_values-idle live [] f c h = refl
sweep_values-idle live (v ∷ vs) f c h =
    let p : sweep_value live v (f, c) ≡ (f, c) = elim (h v (inl refl)) [
      | inl e ↦ rw e refl
      | inr e ↦ elim (Bool-cases (is_invalid (f.value_of v).op)) [
        | inl k ↦ rw k refl
        | inr k ↦ rw (k, e) refl
      ]
    ] in
    ap (sweep_values live vs) p ∙ sweep_values-idle live vs f c (λ u i. h u (inr i))

sweep_blocks-idle :
    (live : ℕ → Bool) (bs : List ℕ) (f : Func) (c : Bool)
    → ((v : ℕ) → In v (values_in f.block_of bs) → Settled live f v)
    → sweep_blocks live bs (f, c) ≡ (f, c)
unfolding sweep_blocks
sweep_blocks-idle live [] f c h = refl
sweep_blocks-idle live (b ∷ bs) f c h =
    let vs = (f.block_of b).values in
    let rest = values_in f.block_of bs in
    ap (sweep_blocks live bs) (sweep_values-idle live vs f c (λ v i. h v (In-left v vs rest i)))
    ∙ sweep_blocks-idle live bs f c (λ v i. h v (In-right v vs rest i))

In-when : (t : Bool) (u v : ℕ) → In v (when t u) → v ≡ u
In-when true u v (inl e) = e
In-when true u v (inr i) = absurd i
In-when false u v i = absurd i

In-marks : (values : ℕ → Value) (start i u v : ℕ) → In v (marks values start i u) → v ≡ u
In-marks values start i u v h =
    elim (In-append v (when (has_side_effect (values u).op (values u).aux) u) (when (leb start i) u)
      h) [ inl k ↦ In-when _ u v k | inr k ↦ In-when _ u v k ]

value_roots-skip :
    (values : ℕ → Value) (start i u : ℕ) (vs : List ℕ) (v : ℕ)
    → In v (value_roots values start (suc i) vs)
    → In v (value_roots values start i (u ∷ vs))
unfolding value_roots
value_roots-skip values start i u vs v h = elim (Bool-cases (is_invalid (values u).op)) [
  | inl k ↦ rw k h
  | inr k ↦ rw k (In-right v (marks values start i u) (value_roots values start (suc i) vs) h)
]

-- A root that is left as it is, is a root again.
value_roots-kept :
    (values values' : ℕ → Value) (start i : ℕ) (vs : List ℕ) (v : ℕ)
    → values' v ≡ values v
    → In v (value_roots values start i vs)
    → In v (value_roots values' start i vs)
unfolding value_roots
value_roots-kept values values' start i [] v e h = h
value_roots-kept values values' start i (u ∷ vs) v e h =
    let again = value_roots-kept values values' start (suc i) vs v e in
    elim (Bool-cases (is_invalid (values u).op)) [
      | inl k ↦ value_roots-skip values' start i u vs v (again (rw k at h))
      | inr k ↦
          elim (In-append v (marks values start i u) (value_roots values start (suc i) vs)
            (rw k at h)) [
              | inl p ↦
                  let same = subst (λ w. values' w ≡ values w) (In-marks values start i u v p) e in
                  rw (same, k)
                    (In-left v (marks values start i u) (value_roots values' start (suc i) vs) p)
              | inr p ↦ value_roots-skip values' start i u vs v (again p)
            ]
    ]

tail_start-kept : (f g : Func) (b : Block) → g.results ≡ f.results → tail_start g b ≡ tail_start f b
unfolding tail_start tail_count
tail_start-kept f g b e = rw e refl

block_roots-kept :
    (f g : Func) (b : Block) (v : ℕ)
    → g.results ≡ f.results
    → g.value_of v ≡ f.value_of v
    → In v (block_roots f b)
    → In v (block_roots g b)
unfolding block_roots
block_roots-kept f g b v res e (inl p) = inl p
block_roots-kept f g b v res e (inr p) = inr (
    subst (λ k. In v (value_roots g.value_of k 0 b.values)) (sym (tail_start-kept f g b res))
      (value_roots-kept f.value_of g.value_of (tail_start f b) 0 b.values v e p))

roots_of-kept :
    (f g : Func) (bs : List ℕ) (v : ℕ)
    → g.block_of ≡ f.block_of
    → g.results ≡ f.results
    → g.value_of v ≡ f.value_of v
    → In v (roots_of f bs)
    → In v (roots_of g bs)
unfolding roots_of
roots_of-kept f g [] v blocks res e h = h
roots_of-kept f g (b ∷ bs) v blocks res e h =
    elim (In-append v (block_roots f (f.block_of b)) (roots_of f bs) h) [
      | inl p ↦
          In-left v (block_roots g (g.block_of b)) (roots_of g bs)
            (subst (λ blk. In v (block_roots g (blk b))) (sym blocks) (own p))
      | inr p ↦
          In-right v (block_roots g (g.block_of b)) (roots_of g bs)
            (roots_of-kept f g bs v blocks res e p)
    ]
  where
    own : In v (block_roots f (f.block_of b)) → In v (block_roots g (f.block_of b))
    own = block_roots-kept f g (f.block_of b) v res e

present-same :
    (values values' : ℕ → Value) (v : ℕ)
    → values' v ≡ values v
    → present values v ≡ true
    → present values' v ≡ true
unfolding present
present-same values values' v e h = rw e h

Live-again : (f : Func) → IsNumbered f → (v : ℕ) → Live f v → Live (dce f).0 v
Live-again f h v (root i w) =
    let s = dce-Swept f in
    let e = Live-kept f h v (root i w) in
    root (rw (s.blocks.1) (roots_of-kept f (dce f).0 f.order v (s.blocks.0) (s.blocks.2) e i))
      (present-same f.value_of (dce f).0.value_of v e w)
Live-again f h v (step {u} r i w) =
    let e = Live-kept f h v (step r i w) in
    let p = Live-kept f h u r in
    step (Live-again f h u r) (rw p i) (present-same f.value_of (dce f).0.value_of v e w)

IsNumbered-again : (f : Func) → IsNumbered f → IsNumbered (dce f).0
unfolding present
IsNumbered-again f h = record {
  below = λ v p. elim ((dce-Swept f).same v) [
    | inl e ↦
        rw ((dce-Swept f).blocks.3)
          (h.below v (present-same (dce f).0.value_of f.value_of v (sym e) p))
    | inr (l, i, e) ↦ let q = rw e at p in ground arith
  ];
}

-- On a function whose ids are below its counter, a second run of DCE changes nothing and says so.
pub dce-dce : (f : Func) → IsNumbered f → dce (dce f).0 ≡ ((dce f).0, false)
unfolding dce
dce-dce f h =
    let g = (dce f).0 in
    let s = dce-Swept f in
    sweep_blocks-idle (dce_live g) g.order g false (λ v i.
      elim (Bool-cases (is_invalid (g.value_of v).op)) [
        | inl e ↦ inl e
        | inr e ↦
            let listed =
              subst (λ bo. In v (values_in bo f.order)) (s.blocks.0)
                (subst (λ o. In v (values_in g.block_of o)) (s.blocks.1) i) in
            inr (
              (dce_live-Live g (IsNumbered-again f h) v).1
                (Live-again f h v ((dce-Live f h v listed).0 e)))
      ])
