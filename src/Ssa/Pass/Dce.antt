-- ===== src/Ssa/Pass/Dce.antt =====
-- internal/ssa/pass/dce.go: dead-code elimination.
pub mod Correct
pub mod Needed
pub mod Again
pub mod Compacted
use wasm2go.Prelude.{
  ℕ, zero, suc, ◌+◌, ◌-◌, Bool, true, false, not, ◌&&◌, ◌||◌, if◌then◌else◌, leb, ◌==◌, List, [],
  ◌∷◌, ◌++◌, length,
}
use wasm2go.Ssa.Op
use wasm2go.Ssa.Op.{Op, has_side_effect}
use wasm2go.Ssa.Func.{Value, Block, Func, set_value}
use wasm2go.Ssa.Compact.{is_invalid}
use wasm2go.Ssa.Worklist.{Marking, nothing_marked, mark_all, drain}
use wasm2go.Ssa.Pass.Tail.{tail_start}

-- The test of `mark`, but for the marks themselves.
unfoldable pub present : (ℕ → Value) → ℕ → Bool
present values v = not (v == 0) && not (is_invalid (values v).op)

abbrev pub when : Bool → ℕ → List ℕ
when t v = if t then v ∷ [] else []

-- What one value that has an operation is marked for.
abbrev pub marks : (ℕ → Value) → ℕ → ℕ → ℕ → List ℕ
marks values start i v =
    when (has_side_effect (values v).op (values v).aux) v ++ when (leb start i) v

-- What the loop over a block's values marks; `i` is the place of the first of them.
unfoldable pub value_roots : (ℕ → Value) → ℕ → ℕ → List ℕ → List ℕ
value_roots values start i [] = []
value_roots values start i (v ∷ vs) =
    let rest = value_roots values start (suc i) vs in
    if is_invalid (values v).op then rest else marks values start i v ++ rest

unfoldable pub block_roots : Func → Block → List ℕ
unfolding value_roots tail_start
block_roots f b = b.control ∷ value_roots f.value_of (tail_start f b) 0 b.values

unfoldable pub roots_of : Func → List ℕ → List ℕ
unfolding block_roots
roots_of f [] = []
roots_of f (b ∷ bs) = block_roots f (f.block_of b) ++ roots_of f bs

unfoldable pub dce_live : Func → ℕ → Bool
unfolding present roots_of
dce_live f =
    let wanted = present f.value_of in
    let start = mark_all wanted (roots_of f f.order) nothing_marked in
    (drain wanted (λ v. (f.value_of v).args) f.next_value_id start).live

-- The last loop, on one value.
abbrev pub bury : Value → Value
bury v = record v { op = Op.invalid; args = [] }

abbrev pub sweep_value : (ℕ → Bool) → ℕ → Func × Bool → Func × Bool
sweep_value live v (f, changed) =
    if not (is_invalid (f.value_of v).op) && not (live v)
    then (set_value v (bury (f.value_of v)) f, true)
    else (f, changed)

unfoldable pub sweep_values : (ℕ → Bool) → List ℕ → Func × Bool → Func × Bool
sweep_values live [] s = s
sweep_values live (v ∷ vs) s = sweep_values live vs (sweep_value live v s)

unfoldable pub sweep_blocks : (ℕ → Bool) → List ℕ → Func × Bool → Func × Bool
unfolding sweep_values
sweep_blocks live [] s = s
sweep_blocks live (b ∷ bs) s = sweep_blocks live bs (sweep_values live (s.0.block_of b).values s)

unfoldable pub dce : Func → Func × Bool
unfolding dce_live sweep_blocks
dce f = sweep_blocks (dce_live f) f.order (f, false)
