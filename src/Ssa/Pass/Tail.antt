-- ===== src/Ssa/Pass/Tail.antt =====
-- internal/ssa/pass/simplify.go, retMarkerSet: the values at the tail of a block that stand for its
-- results, or for the operands that it throws.
use wasm2go.Prelude.{ℕ, ◌-◌, ◌==◌, Bool, false, ◌||◌, List, [], ◌∷◌, length, drop}
use wasm2go.Ssa.Func.{Block, BlockKind, ret, throw, Func}

abbrev pub tail_of_kind : BlockKind → ℕ → ℕ → ℕ
tail_of_kind ret results argc = results
tail_of_kind throw results argc = argc
tail_of_kind _ results argc = 0

unfoldable pub tail_count : Func → Block → ℕ
tail_count f b = tail_of_kind b.kind (length f.results) b.throw_argc

-- Where the tail starts; it is the whole block where the block is shorter.
unfoldable pub tail_start : Func → Block → ℕ
unfolding tail_count
tail_start f b = length b.values - tail_count f b

abbrev pub member : ℕ → List ℕ → Bool
member v [] = false
member v (x ∷ xs) = (v == x) || member v xs

abbrev marked_in : Func → List ℕ → ℕ → Bool
unfolding tail_start
marked_in f [] v = false
marked_in f (b ∷ bs) v =
    member v (drop (tail_start f (f.block_of b)) (f.block_of b).values) || marked_in f bs v

unfoldable pub ret_marker_set : Func → ℕ → Bool
unfolding marked_in
ret_marker_set f = marked_in f f.order
