-- ===== src/Ssa/Pass/Dce/Needed.antt =====
-- The values that a function needs, said without the lists and marks of DCE.
use wasm2go.Prelude.{
  ℕ, zero, suc, ◌+◌, ◌≤◌, leb, Bool, true, false, Bool-cases, some, List, [], ◌∷◌, In, In-append,
  In-left, In-right, get_elem?, length, ◌≡◌, refl, sym, ap, ◌⊎◌, inl, inr, ◌↔◌, arith,
}
use mathlib.Core.Path.{subst}
use mathlib.Core.Option.{some_inj}
use wasm2go.Ssa.Op.{has_side_effect}
use wasm2go.Ssa.Func.{Func}
use wasm2go.Ssa.Compact.{is_invalid}
use wasm2go.Ssa.Worklist.{root, step}
use wasm2go.Ssa.Pass.Tail.{tail_count, tail_start}
use wasm2go.Ssa.Pass.Dce.{present, when, marks, value_roots, block_roots, roots_of, dce}
use wasm2go.Ssa.Pass.Dce.Correct.{values_in, IsNumbered, Live, present-valid, dce-Live}

abbrev pub Effect : Func → ℕ → Type 0
Effect f v = has_side_effect (f.value_of v).op (f.value_of v).aux ≡ true

-- What a function needs whatever uses it: the condition of a block, a value with an effect, and the
-- values at the tail of a block that returns or throws.
pub data IsRoot (f : Func) : ℕ → Type 0 where
  condition : (b : ℕ) {v : ℕ} → In b f.order → v ≡ (f.block_of b).control → IsRoot f v
  effect : (b : ℕ) {v : ℕ} → In b f.order → In v (f.block_of b).values → Effect f v → IsRoot f v
  result :
      (b i : ℕ) {v : ℕ}
      → In b f.order
      → get_elem? (f.block_of b).values i ≡ some v
      → length (f.block_of b).values ≤ i + tail_count f (f.block_of b)
      → IsRoot f v

pub data Needed (f : Func) : ℕ → Type 0 where
  needed_root : {v : ℕ} → IsRoot f v → present f.value_of v ≡ true → Needed f v
  needed_operand :
      {u v : ℕ} → Needed f u → In v (f.value_of u).args → present f.value_of v ≡ true → Needed f v

-- Why a value of the list is marked; `i` is the place of the first.
abbrev Why : Func → ℕ → ℕ → List ℕ → ℕ → Type 0
Why f start i vs v =
    (In v vs × Effect f v) ⊎ ((k : ℕ) × (get_elem? vs k ≡ some v) × (start ≤ i + k))

In-get : (vs : List ℕ) (k v : ℕ) → get_elem? vs k ≡ some v → In v vs
In-get [] k v h = cc
In-get (u ∷ vs) zero v h = inl (sym (some_inj.0 h))
In-get (u ∷ vs) (suc k) v h = inr (In-get vs k v h)

In-when-true : (t : Bool) (u v : ℕ) → In v (when t u) → (v ≡ u) × (t ≡ true)
In-when-true true u v (inl e) = (e, refl)
In-when-true true u v (inr i) = absurd i
In-when-true false u v i = absurd i

when-In : (t : Bool) (u : ℕ) → t ≡ true → In u (when t u)
when-In t u e = rw e (inl refl)

marks-Why :
    (f : Func) (start i u : ℕ) (vs : List ℕ) (v : ℕ)
    → In v (marks f.value_of start i u)
    → Why f start i (u ∷ vs) v
marks-Why f start i u vs v h =
    elim (In-append v (when (has_side_effect (f.value_of u).op (f.value_of u).aux) u)
      (when (leb start i) u) h) [
        | inl k ↦ let (e, t) = In-when-true _ u v k in inl (inl e, subst (Effect f) (sym e) t)
        | inr k ↦
            let r = In-when-true (leb start i) u v k in
            inr (0, ap some (sym (r.0)), let t = r.1 in ground arith)
      ]

Why-later :
    (f : Func) (start i u : ℕ) (vs : List ℕ) (v : ℕ)
    → Why f start (suc i) vs v
    → Why f start i (u ∷ vs) v
Why-later f start i u vs v (inl (j, e)) = inl (inr j, e)
Why-later f start i u vs v (inr (k, g, l)) = inr (suc k, g, omega arith)

value_roots-Why :
    (f : Func) (start i : ℕ) (vs : List ℕ) (v : ℕ)
    → In v (value_roots f.value_of start i vs)
    → Why f start i vs v
unfolding value_roots
value_roots-Why f start i [] v h = absurd h
value_roots-Why f start i (u ∷ vs) v h = elim (Bool-cases (is_invalid (f.value_of u).op)) [
  | inl k ↦ Why-later f start i u vs v (value_roots-Why f start (suc i) vs v (rw k at h))
  | inr k ↦
      elim (In-append v (marks f.value_of start i u) (value_roots f.value_of start (suc i) vs)
        (rw k at h)) [
          | inl p ↦ marks-Why f start i u vs v p
          | inr p ↦ Why-later f start i u vs v (value_roots-Why f start (suc i) vs v p)
        ]
]

value_roots-cons :
    (f : Func) (start i u : ℕ) (vs : List ℕ) (v : ℕ)
    → (In v (marks f.value_of start i u) × (is_invalid (f.value_of u).op ≡ false))
      ⊎ In v (value_roots f.value_of start (suc i) vs)
    → In v (value_roots f.value_of start i (u ∷ vs))
unfolding value_roots
value_roots-cons f start i u vs v (inl (h, k)) =
    rw k (In-left v (marks f.value_of start i u) (value_roots f.value_of start (suc i) vs) h)
value_roots-cons f start i u vs v (inr h) = elim (Bool-cases (is_invalid (f.value_of u).op)) [
  | inl k ↦ rw k h
  | inr k ↦
      rw k (In-right v (marks f.value_of start i u) (value_roots f.value_of start (suc i) vs) h)
]

Effect-value_roots :
    (f : Func) (start i : ℕ) (vs : List ℕ) (v : ℕ)
    → is_invalid (f.value_of v).op ≡ false
    → In v vs
    → Effect f v
    → In v (value_roots f.value_of start i vs)
Effect-value_roots f start i [] v valid j e = absurd j
Effect-value_roots f start i (u ∷ vs) v valid (inr j) e =
    value_roots-cons f start i u vs v (inr (Effect-value_roots f start (suc i) vs v valid j e))
Effect-value_roots f start i (u ∷ vs) v valid (inl p) e = value_roots-cons f start i u vs v (
    inl (
      subst (λ w. In w (marks f.value_of start i u)) (sym p)
          (In-left u (when (has_side_effect (f.value_of u).op (f.value_of u).aux) u)
            (when (leb start i) u) (when-In _ u (subst (Effect f) p e))),
      subst (λ w. is_invalid (f.value_of w).op ≡ false) p valid,
    ))

result-value_roots :
    (f : Func) (start i : ℕ) (vs : List ℕ) (v k : ℕ)
    → is_invalid (f.value_of v).op ≡ false
    → get_elem? vs k ≡ some v
    → start ≤ i + k
    → In v (value_roots f.value_of start i vs)
result-value_roots f start i [] v k valid g l = cc
result-value_roots f start i (u ∷ vs) v (suc k) valid g l =
    value_roots-cons f start i u vs v
      (inr (result-value_roots f start (suc i) vs v k valid g (omega arith)))
result-value_roots f start i (u ∷ vs) v zero valid g l =
    let p = some_inj.0 g in
    value_roots-cons f start i u vs v (
      inl (
        subst (λ w. In w (marks f.value_of start i u)) p
            (In-right u (when (has_side_effect (f.value_of u).op (f.value_of u).aux) u)
              (when (leb start i) u) (when-In (leb start i) u (ground arith))),
        subst (λ w. is_invalid (f.value_of w).op ≡ false) (sym p) valid,
      ))

block_roots-IsRoot :
    (f : Func) (b v : ℕ) → In b f.order → In v (block_roots f (f.block_of b)) → IsRoot f v
unfolding block_roots tail_start
block_roots-IsRoot f b v i (inl e) = condition b i e
block_roots-IsRoot f b v i (inr h) =
    let blk = f.block_of b in
    elim (value_roots-Why f (tail_start f blk) 0 blk.values v h) [
      | inl (j, e) ↦ effect b i j e
      | inr (k, g, l) ↦ result b k i g (omega arith)
    ]

roots_of-IsRoot :
    (f : Func) (bs : List ℕ) (v : ℕ)
    → ((b : ℕ) → In b bs → In b f.order)
    → In v (roots_of f bs)
    → IsRoot f v
unfolding roots_of
roots_of-IsRoot f [] v sub h = absurd h
roots_of-IsRoot f (b ∷ bs) v sub h =
    elim (In-append v (block_roots f (f.block_of b)) (roots_of f bs) h) [
      | inl p ↦ block_roots-IsRoot f b v (sub b (inl refl)) p
      | inr p ↦ roots_of-IsRoot f bs v (λ c i. sub c (inr i)) p
    ]

In-roots_of :
    (f : Func) (bs : List ℕ) (b v : ℕ)
    → In b bs
    → In v (block_roots f (f.block_of b))
    → In v (roots_of f bs)
unfolding roots_of
In-roots_of f [] b v i h = absurd i
In-roots_of f (c ∷ bs) b v (inl e) h =
    In-left v (block_roots f (f.block_of c)) (roots_of f bs)
      (subst (λ k. In v (block_roots f (f.block_of k))) e h)
In-roots_of f (c ∷ bs) b v (inr i) h =
    In-right v (block_roots f (f.block_of c)) (roots_of f bs) (In-roots_of f bs b v i h)

IsRoot-roots_of :
    (f : Func) (v : ℕ) → IsRoot f v → present f.value_of v ≡ true → In v (roots_of f f.order)
unfolding block_roots tail_start
IsRoot-roots_of f v (condition b i e) p = In-roots_of f f.order b v i (inl e)
IsRoot-roots_of f v (effect b i j e) p =
    let blk = f.block_of b in
    In-roots_of f f.order b v i (
      inr
        (Effect-value_roots f (tail_start f blk) 0 blk.values v (present-valid f.value_of v p) j e))
IsRoot-roots_of f v (result b k i g l) p =
    let blk = f.block_of b in
    In-roots_of f f.order b v i (
      inr (
        result-value_roots f (tail_start f blk) 0 blk.values v k (present-valid f.value_of v p) g
          (omega arith)))

Live-Needed : (f : Func) (v : ℕ) → Live f v → Needed f v
Live-Needed f v (root i w) = needed_root (roots_of-IsRoot f f.order v (λ b j. j) i) w
Live-Needed f v (step {u} r i w) = needed_operand (Live-Needed f u r) i w

Needed-Live : (f : Func) (v : ℕ) → Needed f v → Live f v
Needed-Live f v (needed_root r w) = root (IsRoot-roots_of f v r w) w
Needed-Live f v (needed_operand {u} r i w) = step (Needed-Live f u r) i w

-- On a function whose ids are below its counter, DCE keeps the operation of a value in a block
-- exactly if the value is a condition, has an effect, is a result or thrown operand at a block's
-- tail, or is an operand of one that is kept.
pub dce-Needed :
    (f : Func)
    → IsNumbered f
    → (v : ℕ) → In v (values_in f.block_of f.order)
    → (is_invalid ((dce f).0.value_of v).op ≡ false) ↔ Needed f v
dce-Needed f h v i =
    let r = dce-Live f h v i in (λ e. Live-Needed f v (r.0 e), λ n. r.1 (Needed-Live f v n))
