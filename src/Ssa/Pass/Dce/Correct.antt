-- ===== src/Ssa/Pass/Dce/Correct.antt =====
-- internal/ssa/pass/dce.go: its sweep, and its marks as reachability.
use wasm2go.Prelude.{
  ℕ, ◌<◌, Bool, true, false, not, ◌&&◌, Bool-cases, ◌==◌, ==_iff, List, [], ◌∷◌, ◌++◌, In,
  In-append, In-left, In-right, ◌≡◌, refl, ap, ◌∙◌, ◌⊎◌, inl, inr, ◌↔◌, arith,
}
use mathlib.Core.Path.{subst}
use wasm2go.Ssa.Func.{Value, Block, Func}
use wasm2go.Ssa.Update.{update-at}
use wasm2go.Ssa.Compact.{is_invalid}
use wasm2go.Ssa.Worklist.{Reach, root, step}
use wasm2go.Ssa.Worklist.Correct.{drain-Reach}
use wasm2go.Ssa.Pass.Dce.{
  present, roots_of, dce_live, bury, sweep_value, sweep_values, sweep_blocks, dce,
}

-- The ids of the values in the blocks of a list.
abbrev pub values_in : (ℕ → Block) → List ℕ → List ℕ
values_in block_of [] = []
values_in block_of (b ∷ bs) = (block_of b).values ++ values_in block_of bs

-- One id after a sweep: buried where it is in the list and not live, or else as it was.
pub record Swept (live : ℕ → Bool) (ids : List ℕ) (f g : Func) : Type 0 where
  pub blocks :
      (g.block_of ≡ f.block_of)
      × (g.order ≡ f.order)
      × (g.results ≡ f.results)
      × (g.next_value_id ≡ f.next_value_id)
  pub kept : (v : ℕ) → live v ≡ true → g.value_of v ≡ f.value_of v
  pub same :
      (v : ℕ)
      → (g.value_of v ≡ f.value_of v)
        ⊎ ((live v ≡ false) × In v ids × (g.value_of v ≡ bury (f.value_of v)))
  pub swept : (v : ℕ) → In v ids → live v ≡ false → is_invalid (g.value_of v).op ≡ true

Swept-refl : (live : ℕ → Bool) (f : Func) → Swept live [] f f
Swept-refl live f = record {
  blocks = (refl, refl, refl, refl);
  kept = λ v h. refl;
  same = λ v. inl refl;
  swept = λ v i. absurd i;
}

Swept-trans :
    (live : ℕ → Bool) (xs ys : List ℕ) (f g h : Func)
    → Swept live xs f g
    → Swept live ys g h
    → Swept live (xs ++ ys) f h
Swept-trans live xs ys f g h p q = record {
  blocks = (
    q.blocks.0 ∙ p.blocks.0,
    q.blocks.1 ∙ p.blocks.1,
    q.blocks.2 ∙ p.blocks.2,
    q.blocks.3 ∙ p.blocks.3,
  );
  kept = λ v l. q.kept v l ∙ p.kept v l;
  same = λ v. elim (q.same v) [
    | inl e ↦ elim (p.same v) [
      | inl k ↦ inl (e ∙ k)
      | inr (l, i, k) ↦ inr (l, In-left v xs ys i, e ∙ k)
    ]
    | inr (l, i, e) ↦ elim (p.same v) [
      | inl k ↦ inr (l, In-right v xs ys i, e ∙ ap bury k)
      | inr (l', j, k) ↦ inr (l, In-right v xs ys i, e ∙ ap bury k)
    ]
  ];
  swept = λ v i l. elim (In-append v xs ys i) [
    | inl j ↦ elim (q.same v) [ inl e ↦ rw e (p.swept v j l) | inr (l', k, e) ↦ rw e refl ]
    | inr j ↦ q.swept v j l
  ];
}

sweep_value-Swept :
    (live : ℕ → Bool) (v : ℕ) (f : Func) (c : Bool)
    → Swept live (v ∷ []) f (sweep_value live v (f, c)).0
sweep_value-Swept live v f c =
    elim (Bool-cases (not (is_invalid (f.value_of v).op) && not (live v))) [
      | inl e ↦ rw e (record {
        blocks = (refl, refl, refl, refl);
        kept = λ u l. elim (Bool-cases (u == v)) [
          | inl p ↦ let q = (==_iff u v).0 p in ground (arith, q)
          | inr p ↦ rw p refl
        ];
        same = λ u. elim (Bool-cases (u == v)) [
          | inl p ↦
              let q = (==_iff u v).0 p in
              inr (rw q (ground arith), inl q, rw q (update-at f.value_of v (bury (f.value_of v))))
          | inr p ↦ inl (rw p refl)
        ];
        swept = λ u i l. elim i [
          | inl p ↦ rw (p, update-at f.value_of v (bury (f.value_of v))) refl
          | inr j ↦ absurd j
        ];
      })
      | inr e ↦ rw e (record {
        blocks = (refl, refl, refl, refl);
        kept = λ u l. refl;
        same = λ u. inl refl;
        swept = λ u i l. elim i [ inl p ↦ ground (arith, p) | inr j ↦ absurd j ];
      })
    ]

sweep_values-Swept :
    (live : ℕ → Bool) (vs : List ℕ) (f : Func) (c : Bool)
    → Swept live vs f (sweep_values live vs (f, c)).0
unfolding sweep_values
sweep_values-Swept live [] f c = Swept-refl live f
sweep_values-Swept live (v ∷ vs) f c =
    let s = sweep_value live v (f, c) in
    Swept-trans live (v ∷ []) vs f (s.0) _ (sweep_value-Swept live v f c)
      (sweep_values-Swept live vs (s.0) (s.1))

sweep_blocks-Swept :
    (live : ℕ → Bool) (bs : List ℕ) (f : Func) (c : Bool)
    → Swept live (values_in f.block_of bs) f (sweep_blocks live bs (f, c)).0
unfolding sweep_blocks
sweep_blocks-Swept live [] f c = Swept-refl live f
sweep_blocks-Swept live (b ∷ bs) f c =
    let s = sweep_values live (f.block_of b).values (f, c) in
    let p = sweep_values-Swept live (f.block_of b).values f c in
    let q = sweep_blocks-Swept live bs (s.0) (s.1) in
    Swept-trans live (f.block_of b).values (values_in f.block_of bs) f (s.0) _ p (
      subst (λ blocks. Swept live (values_in blocks bs) (s.0) (sweep_blocks live bs s).0)
        (p.blocks.0) q)

-- A value that has an operation has an id that was given out.
pub record IsNumbered (f : Func) : Type 0 where
  pub below : (v : ℕ) → present f.value_of v ≡ true → v < f.next_value_id

abbrev pub Live : Func → ℕ → Type 0
Live f = Reach (present f.value_of) (λ v. (f.value_of v).args) (roots_of f f.order)

pub dce_live-Live : (f : Func) → IsNumbered f → (v : ℕ) → (dce_live f v ≡ true) ↔ Live f v
unfolding dce_live
dce_live-Live f h v =
    drain-Reach (present f.value_of) (λ v. (f.value_of v).args) (roots_of f f.order) f.next_value_id
      h.below v

pub dce-Swept : (f : Func) → Swept (dce_live f) (values_in f.block_of f.order) f (dce f).0
unfolding dce
dce-Swept f = sweep_blocks-Swept (dce_live f) f.order f false

pub Live-present : (f : Func) (v : ℕ) → Live f v → present f.value_of v ≡ true
Live-present f v (root i w) = w
Live-present f v (step r i w) = w

pub present-valid :
    (values : ℕ → Value) (v : ℕ) → present values v ≡ true → is_invalid (values v).op ≡ false
unfolding present
present-valid values v h = ground arith

-- A live value is left as it is.
pub Live-kept : (f : Func) → IsNumbered f → (v : ℕ) → Live f v → (dce f).0.value_of v ≡ f.value_of v
Live-kept f h v l = (dce-Swept f).kept v ((dce_live-Live f h v).1 l)

pub dce-Live :
    (f : Func)
    → IsNumbered f
    → (v : ℕ) → In v (values_in f.block_of f.order)
    → (is_invalid ((dce f).0.value_of v).op ≡ false) ↔ Live f v
dce-Live f h v i = (
  λ valid. elim (Bool-cases (dce_live f v)) [
    | inl e ↦ (dce_live-Live f h v).0 e
    | inr e ↦ let p = (dce-Swept f).swept v i e in cc
  ],
  λ l. rw (Live-kept f h v l) (present-valid f.value_of v (Live-present f v l)),
)

-- On a function whose ids are below its counter, a listed value that keeps its operation is
-- unchanged by DCE, and so is each operand of it that has an operation.
pub dce-operands :
    (f : Func)
    → IsNumbered f
    → (v : ℕ) → In v (values_in f.block_of f.order)
    → is_invalid ((dce f).0.value_of v).op ≡ false
    → ((dce f).0.value_of v ≡ f.value_of v)
      × ((a : ℕ)
          → In a (f.value_of v).args
          → present f.value_of a ≡ true
          → (dce f).0.value_of a ≡ f.value_of a)
dce-operands f h v i valid =
    let l = (dce-Live f h v i).0 valid in (Live-kept f h v l, λ a j p. Live-kept f h a (step l j p))
