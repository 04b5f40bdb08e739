-- ===== src/Ssa/Compact.antt =====
-- internal/ssa/compact.go: values marked dead leave the blocks' lists.
pub mod Correct
use wasm2go.Prelude.{ℕ, zero, suc, ◌+◌, Bool, true, false, if◌then◌else◌, List, [], ◌∷◌}
use wasm2go.Ssa.Op
use wasm2go.Ssa.Op.{Op}
use wasm2go.Ssa.Func.{Value, Block, Func, set_block}

-- The test `v.Op == OpInvalid`.
abbrev pub is_invalid : Op → Bool
is_invalid Op.invalid = true
is_invalid _ = false

unfoldable pub live_values : (ℕ → Value) → List ℕ → List ℕ
live_values values [] = []
live_values values (v ∷ vs) =
    let rest = live_values values vs in if is_invalid (values v).op then rest else v ∷ rest

abbrev pub compact_block : (ℕ → Value) → Block → Block
compact_block values b = record b { values = live_values values b.values }

unfoldable pub compact_blocks : List ℕ → Func → Func
compact_blocks [] f = f
compact_blocks (b ∷ bs) f =
    compact_blocks bs (set_block b (compact_block f.value_of (f.block_of b)) f)

unfoldable pub compact : Func → Func
unfolding compact_blocks
compact f = compact_blocks f.order f

unfoldable pub count_valid : (ℕ → Value) → List ℕ → ℕ
count_valid values [] = 0
count_valid values (v ∷ vs) = (if is_invalid (values v).op then 0 else 1) + count_valid values vs

unfoldable pub count_blocks : Func → List ℕ → ℕ
unfolding count_valid
count_blocks f [] = 0
count_blocks f (b ∷ bs) = count_valid f.value_of (f.block_of b).values + count_blocks f bs

unfoldable pub count_values : Func → ℕ
unfolding count_blocks
count_values f = count_blocks f f.order
