-- ===== src/Ssa/Compact/Correct.antt =====
-- internal/ssa/compact.go: the lists of values and their counts before and after.
use wasm2go.Prelude.{
  ℕ, true, false, ◌≢◌, Bool-cases, ◌==◌, ==_iff, List, [], ◌∷◌, In, ◌≡◌, refl, ap, ◌∙◌, ◌⊎◌, inl,
  inr, ◌↔◌, arith,
}
use wasm2go.Ssa.Op.{Op}
use wasm2go.Ssa.Func.{Value, Block, Func, set_block}
use wasm2go.Ssa.Update.{update-same, update-other, update-at}
use wasm2go.Ssa.Compact.{
  is_invalid, live_values, compact_block, compact_blocks, compact, count_valid, count_blocks,
  count_values,
}

pub In-live_values :
    (values : ℕ → Value) (vs : List ℕ) (v : ℕ)
    → In v (live_values values vs) ↔ (In v vs × (is_invalid (values v).op ≡ false))
unfolding live_values
In-live_values values [] v = (λ i. absurd i, λ (i, e). absurd i)
In-live_values values (u ∷ vs) v =
    let ih = In-live_values values vs v in
    elim (Bool-cases (is_invalid (values u).op)) [
      | inl k ↦ rw k (
        λ i. let r = ih.0 i in (inr (r.0), r.1),
        λ r. elim (r.0) [ inl p ↦ let q = rw p at (r.1) in cc | inr i ↦ ih.1 (i, r.1) ],
      )
      | inr k ↦ rw k (
        λ i. elim i [ inl p ↦ (inl p, rw p k) | inr j ↦ let r = ih.0 j in (inr (r.0), r.1) ],
        λ r. elim (r.0) [ inl p ↦ inl p | inr i ↦ inr (ih.1 (i, r.1)) ],
      )
    ]

live_values-again :
    (values : ℕ → Value) (vs : List ℕ)
    → live_values values (live_values values vs) ≡ live_values values vs
unfolding live_values
live_values-again values [] = refl
live_values-again values (v ∷ vs) =
    let ih = live_values-again values vs in
    elim (Bool-cases (is_invalid (values v).op)) [
      | inl k ↦ rw k ih
      | inr k ↦ rw (k, live_values, k) (ap (λ r. v ∷ r) ih)
    ]

count_valid-live :
    (values : ℕ → Value) (vs : List ℕ)
    → count_valid values (live_values values vs) ≡ count_valid values vs
unfolding count_valid live_values
count_valid-live values [] = refl
count_valid-live values (v ∷ vs) =
    let ih = count_valid-live values vs in
    elim (Bool-cases (is_invalid (values v).op)) [
      | inl k ↦ rw k (omega (arith, ih))
      | inr k ↦ rw (k, count_valid, k) (omega (arith, ih))
    ]

compact_block-again :
    (values : ℕ → Value) (b : Block)
    → compact_block values (compact_block values b) ≡ compact_block values b
compact_block-again values b =
    ap (λ (vs : List ℕ). let blk : Block = record b { values = vs } in blk)
      (live_values-again values b.values)

-- The function with the listed blocks compacted.
pub record Compacted (f g : Func) (bs : List ℕ) : Type 0 where
  pub rest : (g.value_of ≡ f.value_of) × (g.order ≡ f.order)
  pub inside : (b : ℕ) → In b bs → g.block_of b ≡ compact_block f.value_of (f.block_of b)
  pub each :
      (b : ℕ)
      → (g.block_of b ≡ f.block_of b) ⊎ (g.block_of b ≡ compact_block f.value_of (f.block_of b))
  pub outside : (b : ℕ) → ¬ In b bs → g.block_of b ≡ f.block_of b

compact_blocks-Compacted : (bs : List ℕ) (f : Func) → Compacted f (compact_blocks bs f) bs
unfolding compact_blocks
compact_blocks-Compacted [] f = record {
  rest = (refl, refl);
  inside = λ b i. absurd i;
  each = λ b. inl refl;
  outside = λ b i. refl;
}
compact_blocks-Compacted (b ∷ bs) f =
    let blk = compact_block f.value_of (f.block_of b) in
    let f' = set_block b blk f in
    let r = compact_blocks-Compacted bs f' in
    let squash : (j : ℕ)
        → (f'.block_of j ≡ f.block_of j)
          ⊎ (f'.block_of j ≡ compact_block f.value_of (f.block_of j)) =
      λ j. elim (Bool-cases (j == b)) [
        | inl e ↦ inr (rw (update-same f.block_of b blk j e, (==_iff j b).0 e) refl)
        | inr e ↦ inl (update-other f.block_of b blk j e)
      ] in
    let fold : (j : ℕ)
        → compact_block f.value_of (f'.block_of j) ≡ compact_block f.value_of (f.block_of j) =
      λ j. elim (squash j) [
        | inl e ↦ ap (compact_block f.value_of) e
        | inr e ↦ ap (compact_block f.value_of) e ∙ compact_block-again f.value_of (f.block_of j)
      ] in
    record {
      rest = r.rest;
      inside = λ j i. elim i [
        | inl e ↦ elim (r.each j) [
          | inl k ↦ k ∙ rw (e, update-at f.block_of b blk) refl
          | inr k ↦ k ∙ fold j
        ]
        | inr i' ↦ r.inside j i' ∙ fold j
      ];
      each = λ j. elim (r.each j) [
        | inl k ↦ elim (squash j) [ inl e ↦ inl (k ∙ e) | inr e ↦ inr (k ∙ e) ]
        | inr k ↦ inr (k ∙ fold j)
      ];
      outside = λ j n. r.outside j (λ i. n (inr i)) ∙ elim (Bool-cases (j == b)) [
        | inl e ↦ absurd (n (inl ((==_iff j b).0 e)))
        | inr e ↦ update-other f.block_of b blk j e
      ];
    }

pub compact-Compacted : (f : Func) → Compacted f (compact f) f.order
unfolding compact
compact-Compacted f = compact_blocks-Compacted f.order f

-- A value is in the list of a block after Compact exactly if it was and has an operation.
pub In-compact :
    (f : Func) (b v : ℕ)
    → In b f.order
    → In v ((compact f).block_of b).values
      ↔ (In v (f.block_of b).values × (is_invalid ((compact f).value_of v).op ≡ false))
In-compact f b v i =
    let r = compact-Compacted f in
    rw (ap (λ k. k.values) (r.inside b i), r.rest.0)
      (In-live_values f.value_of (f.block_of b).values v)

-- `Kept P vs ws`: `ws` is `vs` without the values of which `P` does not hold, in the same order.
pub data Kept (P : ℕ → Type 0) : List ℕ → List ℕ → Type 0 where
  none : Kept P [] []
  keep : {v : ℕ} {vs ws : List ℕ} → P v → Kept P vs ws → Kept P (v ∷ vs) (v ∷ ws)
  drop : {v : ℕ} {vs ws : List ℕ} → ¬ P v → Kept P vs ws → Kept P (v ∷ vs) ws

-- The value `v` has an operation.
abbrev pub IsLive : Func → ℕ → Type 0
IsLive f v = (f.value_of v).op ≢ Op.invalid

is_invalid-only : (op : Op) → is_invalid op ≡ true → op ≡ Op.invalid
is_invalid-only Op.invalid h = refl
is_invalid-only _ h = cc

live_values-Kept : (f : Func) (vs : List ℕ) → Kept (IsLive f) vs (live_values f.value_of vs)
unfolding live_values
live_values-Kept f [] = none
live_values-Kept f (v ∷ vs) =
    let rest = live_values-Kept f vs in
    elim (Bool-cases (is_invalid (f.value_of v).op)) [
      | inl k ↦ rw k (drop (λ n. n (is_invalid-only (f.value_of v).op k)) rest)
      | inr k ↦ rw k (keep (λ e. let q = rw e at k in cc) rest)
    ]

-- `b` with the list `vs` of values.
abbrev pub with_values : Block → List ℕ → Block
with_values b vs = record b { values = vs }

In-cases : (b : ℕ) (bs : List ℕ) → In b bs ⊎ ¬ In b bs
In-cases b [] = inr (λ i. i)
In-cases b (c ∷ bs) = elim (Bool-cases (b == c)) [
  | inl k ↦ inl (inl ((==_iff b c).0 k))
  | inr k ↦ elim (In-cases b bs) [
    | inl i ↦ inl (inr i)
    | inr n ↦ inr (λ i. elim i [ inl e ↦ let q = (==_iff b c).1 e in cc | inr j ↦ n j ])
  ]
]

-- Compact leaves in the list of each block of the function the values with an operation, in the
-- same order, and changes nothing else: no other part of a block, no block outside the function's
-- list of blocks, no value, and not the list of blocks.
pub compact-values :
    (f : Func) (b : ℕ)
    → ((In b f.order
          × ((vs : List ℕ) × Kept (IsLive f) (f.block_of b).values vs
              × ((compact f).block_of b ≡ with_values (f.block_of b) vs)))
        ⊎ ((¬ In b f.order) × ((compact f).block_of b ≡ f.block_of b)))
      × ((compact f).value_of ≡ f.value_of)
      × ((compact f).order ≡ f.order)
compact-values f b =
    let r = compact-Compacted f in
    let blk = f.block_of b in
    (
      elim (In-cases b f.order) [
        | inl i ↦
            inl
              (i, (live_values f.value_of blk.values, live_values-Kept f blk.values, r.inside b i))
        | inr n ↦ inr (n, r.outside b n)
      ],
      r.rest.0,
      r.rest.1,
    )

count_blocks-Compacted :
    (f g : Func) (order bs : List ℕ) → Compacted f g order → count_blocks g bs ≡ count_blocks f bs
unfolding count_blocks
count_blocks-Compacted f g order [] r = refl
count_blocks-Compacted f g order (b ∷ bs) r =
    let same : count_valid g.value_of (g.block_of b).values
        ≡ count_valid f.value_of (f.block_of b).values =
      rw (r.rest.0) (elim (r.each b) [
        | inl e ↦ ap (λ k. count_valid f.value_of k.values) e
        | inr e ↦
            ap (λ k. count_valid f.value_of k.values) e
            ∙ count_valid-live f.value_of (f.block_of b).values
      ]) in
    omega (arith, same, count_blocks-Compacted f g order bs r)

-- CountValues gives the same number before and after Compact.
pub count_values-compact : (f : Func) → count_values (compact f) ≡ count_values f
unfolding count_values
count_values-compact f =
    let r = compact-Compacted f in
    ap (count_blocks (compact f)) (r.rest.1)
    ∙ count_blocks-Compacted f (compact f) f.order f.order r
