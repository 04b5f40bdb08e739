-- ===== src/Ssa/Edges.antt =====
-- AddEdge, NewFunc and NewBlock of internal/ssa/ssa.go, and the two lists that hold an edge.
use wasm2go.Prelude.{
  ℕ, zero, suc, false, Bool-cases, if◌then◌else◌, ◌==◌, ==_iff, some, List, [], ◌∷◌, ◌++◌, length,
  get_elem?, ◌≡◌, refl, sym, ap, ◌∙◌, ◌⊎◌, inl, inr,
}
use mathlib.Core.Path.{fun_ext, subst₂}
use mathlib.Core.Option.{some_inj}
use wasm2go.Ssa.Types.{ValueType}
use wasm2go.Ssa.Func.{
  Edge, Block, BlockKind, Func, update, empty_block, add_edge, new_func, new_block,
}
use wasm2go.Ssa.Update.{update-same, update-other, update-related}

-- Each edge of `here` points at the place in `there` that points back at it.
abbrev pub PointsBack : (ℕ → List Edge) → (ℕ → List Edge) → Type 0
PointsBack here there =
    (b i : ℕ) (e : Edge)
    → get_elem? (here b) i ≡ some e
    → get_elem? (there e.block) e.index ≡ some (record { block = b; index = i })

abbrev pub succs_of : Func → ℕ → List Edge
succs_of f b = (f.block_of b).succs

abbrev pub preds_of : Func → ℕ → List Edge
preds_of f b = (f.block_of b).preds

pub record IsLinked (f : Func) : Type 0 where
  pub out : PointsBack (succs_of f) (preds_of f)
  pub back : PointsBack (preds_of f) (succs_of f)

get-left :
    {A : Type 0} (xs ys : List A) (i : ℕ) (a : A)
    → get_elem? xs i ≡ some a
    → get_elem? (xs ++ ys) i ≡ some a
get-left [] ys i a h = cc
get-left (x ∷ xs) ys zero a h = h
get-left (x ∷ xs) ys (suc i) a h = get-left xs ys i a h

get-last : {A : Type 0} (xs : List A) (a : A) → get_elem? (xs ++ (a ∷ [])) (length xs) ≡ some a
get-last [] a = refl
get-last (x ∷ xs) a = get-last xs a

get-snoc :
    {A : Type 0} (xs : List A) (x : A) (i : ℕ) (a : A)
    → get_elem? (xs ++ (x ∷ [])) i ≡ some a
    → (get_elem? xs i ≡ some a) ⊎ ((i ≡ length xs) × (a ≡ x))
get-snoc [] x zero a h = inr (refl, sym (some_inj.0 h))
get-snoc [] x (suc i) a h = cc
get-snoc (y ∷ xs) x zero a h = inl h
get-snoc (y ∷ xs) x (suc i) a h = elim (get-snoc xs x i a h) [
  | inl k ↦ inl k
  | inr (k, e) ↦ inr (ap suc k, e)
]

edge : ℕ → ℕ → Edge
edge b i = record { block = b; index = i }

grow : (ℕ → List Edge) → ℕ → Edge → ℕ → List Edge
grow lists k x b = if b == k then lists b ++ (x ∷ []) else lists b

grow-old :
    (lists : ℕ → List Edge) (k : ℕ) (x : Edge) (b i : ℕ) (e : Edge)
    → get_elem? (lists b) i ≡ some e
    → get_elem? (grow lists k x b) i ≡ some e
unfolding grow
grow-old lists k x b i e h = elim (Bool-cases (b == k)) [
  | inl p ↦ rw p (get-left (lists b) (x ∷ []) i e h)
  | inr p ↦ rw p h
]

grow-new :
    (lists : ℕ → List Edge) (k : ℕ) (x : Edge)
    → get_elem? (grow lists k x k) (length (lists k)) ≡ some x
unfolding grow
grow-new lists k x = rw ((==_iff k k).1 refl) (get-last (lists k) x)

grow-PointsBack :
    (here there : ℕ → List Edge) (src dst : ℕ)
    → PointsBack here there
    → PointsBack
        (grow here src (record { block = dst; index = length (there dst) }))
        (grow there dst (record { block = src; index = length (here src) }))
unfolding grow edge
grow-PointsBack here there src dst linked b i e h =
    let back : Edge = record { block = src; index = length (here src) } in
    let out : Edge = record { block = dst; index = length (there dst) } in
    let old : get_elem? (here b) i ≡ some e
        → get_elem? (grow there dst back e.block) e.index ≡ some (record { block = b; index = i }) =
      λ k.
        grow-old there dst back e.block e.index (record { block = b; index = i })
          (linked b i e k) in
    elim (Bool-cases (b == src)) [
      | inl p ↦ elim (get-snoc (here b) out i e (rw p at h)) [
        | inl k ↦ old k
        | inr (k, q) ↦
            let same = (==_iff b src).0 p in
            let e-block = ap (λ (x : Edge). x.block) q in
            let e-index = ap (λ (x : Edge). x.index) q in
            (λ j. get_elem? (grow there dst back (e-block j)) (e-index j))
            ∙ grow-new there dst back
            ∙ sym (λ j. some (edge (same j) ((k ∙ ap (λ c. length (here c)) same) j)))
      ]
      | inr p ↦ old (rw p at h)
    ]

module _ (src dst : ℕ) (f : Func) where
  abbrev out_edge : Edge
  out_edge = record { block = dst; index = length (preds_of f dst) }

  abbrev back_edge : Edge
  back_edge = record { block = src; index = length (succs_of f src) }

  abbrev grown_src : Block
  grown_src = record (f.block_of src) { succs = succs_of f src ++ (out_edge ∷ []) }

  abbrev one : ℕ → Block
  one = update f.block_of src grown_src

  abbrev grown_dst : Block
  grown_dst = record (one dst) { preds = (one dst).preds ++ (back_edge ∷ []) }

  one-preds : (b : ℕ) → (one b).preds ≡ preds_of f b
  one-preds = update-related f.block_of src grown_src (λ x y. y.preds ≡ x.preds) (λ x. refl) refl

  add_edge-succs : (b : ℕ) → succs_of (add_edge src dst f) b ≡ grow (succs_of f) src out_edge b
  unfolding add_edge grow
  add_edge-succs b =
      update-related one dst grown_dst (λ x y. y.succs ≡ x.succs) (λ x. refl) refl b
      ∙ elim (Bool-cases (b == src)) [
        | inl p ↦
            ap (λ (x : Block). x.succs) (update-same f.block_of src grown_src b p)
            ∙ rw p (ap (λ c. succs_of f c ++ (out_edge ∷ [])) (sym ((==_iff b src).0 p)))
        | inr p ↦
            ap (λ (x : Block). x.succs) (update-other f.block_of src grown_src b p) ∙ rw p refl
      ]

  add_edge-preds : (b : ℕ) → preds_of (add_edge src dst f) b ≡ grow (preds_of f) dst back_edge b
  unfolding add_edge grow
  add_edge-preds b = elim (Bool-cases (b == dst)) [
    | inl p ↦
        ap (λ (x : Block). x.preds) (update-same one dst grown_dst b p)
        ∙ ap (λ ps. ps ++ (back_edge ∷ [])) (one-preds dst)
        ∙ rw p (ap (λ c. preds_of f c ++ (back_edge ∷ [])) (sym ((==_iff b dst).0 p)))
    | inr p ↦
        ap (λ (x : Block). x.preds) (update-other one dst grown_dst b p) ∙ one-preds b ∙ rw p refl
  ]

  pub add_edge-IsLinked : IsLinked f → IsLinked (add_edge src dst f)
  add_edge-IsLinked h = record {
    out =
        subst₂ PointsBack (sym (fun_ext add_edge-succs)) (sym (fun_ext add_edge-preds))
          (grow-PointsBack (succs_of f) (preds_of f) src dst h.out);
    back =
        subst₂ PointsBack (sym (fun_ext add_edge-preds)) (sym (fun_ext add_edge-succs))
          (grow-PointsBack (preds_of f) (succs_of f) dst src h.back);
  }

  -- A block that is neither end of the edge.
  pub add_edge-fresh :
      (b : ℕ)
      → (b == src) ≡ false
      → (b == dst) ≡ false
      → (succs_of f b ≡ []) × (preds_of f b ≡ [])
      → (succs_of (add_edge src dst f) b ≡ []) × (preds_of (add_edge src dst f) b ≡ [])
  unfolding grow
  add_edge-fresh b s d h = (add_edge-succs b ∙ rw s (h.0), add_edge-preds b ∙ rw d (h.1))

pub new_func-IsLinked : (params results : List ValueType) → IsLinked (new_func params results)
unfolding new_func
new_func-IsLinked params results = record { out = λ b i e h. cc; back = λ b i e h. cc }

-- A block beyond those that were given out has no edges.
pub new_block-IsLinked :
    (kind : BlockKind) (f : Func)
    → succs_of f f.next_block_id ≡ []
    → preds_of f f.next_block_id ≡ []
    → IsLinked f
    → IsLinked (new_block kind f).1
unfolding new_block
new_block-IsLinked kind f s p h =
    let e = empty_block kind in
    let succs =
      update-related f.block_of f.next_block_id e (λ x y. y.succs ≡ x.succs) (λ x. refl) (sym s) in
    let preds =
      update-related f.block_of f.next_block_id e (λ x y. y.preds ≡ x.preds) (λ x. refl) (sym p) in
    record {
      out = subst₂ PointsBack (sym (fun_ext succs)) (sym (fun_ext preds)) h.out;
      back = subst₂ PointsBack (sym (fun_ext preds)) (sym (fun_ext succs)) h.back;
    }
