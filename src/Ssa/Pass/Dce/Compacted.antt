-- ===== src/Ssa/Pass/Dce/Compacted.antt =====
-- DCE and then Compact, as the pipeline runs them.
use wasm2go.Prelude.{ℕ, false, List, [], ◌∷◌, In, In-left, In-right, ◌≡◌, sym, inl, inr, ◌↔◌}
use mathlib.Core.Path.{subst}
use wasm2go.Ssa.Func.{Block, Func}
use wasm2go.Ssa.Compact.{is_invalid, compact}
use wasm2go.Ssa.Compact.Correct.{In-compact, compact-Compacted}
use wasm2go.Ssa.Pass.Dce.{dce}
use wasm2go.Ssa.Pass.Dce.Correct.{values_in, IsNumbered, dce-Swept}
use wasm2go.Ssa.Pass.Dce.Needed.{Needed, dce-Needed}

In-values_in :
    (block_of : ℕ → Block) (bs : List ℕ) (b v : ℕ)
    → In b bs
    → In v (block_of b).values
    → In v (values_in block_of bs)
In-values_in block_of [] b v i j = absurd i
In-values_in block_of (c ∷ bs) b v (inl e) j =
    In-left v (block_of c).values (values_in block_of bs)
      (subst (λ k. In v (block_of k).values) e j)
In-values_in block_of (c ∷ bs) b v (inr i) j =
    In-right v (block_of c).values (values_in block_of bs) (In-values_in block_of bs b v i j)

-- On a function whose ids are below its counter, Compact after DCE leaves in each block of the
-- function exactly the values that were there and are needed.
pub compact-dce :
    (f : Func)
    → IsNumbered f
    → (b v : ℕ) → In b f.order
    → In v ((compact (dce f).0).block_of b).values ↔ (In v (f.block_of b).values × Needed f v)
compact-dce f h b v i =
    let g = (dce f).0 in
    let s = dce-Swept f in
    let c = In-compact g b v (subst (In b) (sym (s.blocks.1)) i) in
    let same = (compact-Compacted g).rest.0 in
    (
      λ j.
          let r = c.0 j in
          let k = subst (λ bo. In v (bo b).values) (s.blocks.0) (r.0) in
          let w = subst (λ vo. is_invalid (vo v).op ≡ false) same (r.1) in
          (k, (dce-Needed f h v (In-values_in f.block_of f.order b v i k)).0 w),
      λ r.
          let w = (dce-Needed f h v (In-values_in f.block_of f.order b v i (r.0))).1 (r.1) in
          c.1 (
            subst (λ bo. In v (bo b).values) (sym (s.blocks.0)) (r.0),
            subst (λ vo. is_invalid (vo v).op ≡ false) (sym same) w,
          ),
    )
