-- ===== src/Ssa/Built.antt =====
-- The constructors of internal/ssa/ssa.go in any sequence.
use wasm2go.Prelude.{
  ℕ, ◌<◌, ◌≤◌, Bool-cases, ◌==◌, ==_iff, leb, List, [], ◌∷◌, ◌++◌, length, ◌≡◌, refl, sym, ◌∙◌, inl,
  inr, arith,
}
use mathlib.Core.Path.{subst₂, fun_ext}
use wasm2go.Ssa.Types.{ValueType}
use wasm2go.Ssa.Op.{Op, Aux}
use wasm2go.Ssa.Func.{
  Block, BlockKind, Func, empty_block, new_func, new_block, set_entry, new_value, append_value,
  new_value_before, add_edge, insert_at,
}
use wasm2go.Ssa.Update.{update-related}
use wasm2go.Ssa.Edges.{
  PointsBack, IsLinked, succs_of, preds_of, add_edge-IsLinked, new_func-IsLinked,
  new_block-IsLinked, add_edge-fresh,
}
use wasm2go.Ssa.Pass.Dce.{present}
use wasm2go.Ssa.Pass.Dce.Correct.{IsNumbered}

-- The functions that a run of the constructors makes; an edge joins blocks that are there.
pub data Built : Func → Type 0 where
  start : (params results : List ValueType) → Built (new_func params results)
  block : {f : Func} (kind : BlockKind) → Built f → Built (new_block kind f).1
  entry : {f : Func} (b : ℕ) → Built f → Built (set_entry b f)
  edge :
      {f : Func} (src dst : ℕ)
      → src < f.next_block_id
      → dst < f.next_block_id
      → Built f
      → Built (add_edge src dst f)
  value :
      {f : Func} (op : Op) (typ : ValueType) (args : List ℕ) (b n : ℕ) (aux : Aux)
      → Built f
      → Built (new_value op typ args b n aux f).1
  append : {f : Func} (b v : ℕ) → Built f → Built (append_value b v f)
  before :
      {f : Func} (b i : ℕ) (op : Op) (typ : ValueType) (n : ℕ) (aux : Aux) (args : List ℕ)
      → Built f
      → Built (new_value_before b i op typ n aux args f).1

pub record IsWellFormed (f : Func) : Type 0 where
  pub linked : IsLinked f
  pub fresh : (b : ℕ) → f.next_block_id ≤ b → (succs_of f b ≡ []) × (preds_of f b ≡ [])
  pub numbered : IsNumbered f

-- A function with the same edges and values.
same_edges :
    (f g : Func)
    → ((b : ℕ) → succs_of g b ≡ succs_of f b)
    → ((b : ℕ) → preds_of g b ≡ preds_of f b)
    → g.next_block_id ≡ f.next_block_id
    → IsNumbered g
    → IsWellFormed f
    → IsWellFormed g
same_edges f g s p n num h = record {
  linked = record {
    out = subst₂ PointsBack (sym (fun_ext s)) (sym (fun_ext p)) h.linked.out;
    back = subst₂ PointsBack (sym (fun_ext p)) (sym (fun_ext s)) h.linked.back;
  };
  fresh = λ b l. let r = h.fresh b (omega arith) in (s b ∙ r.0, p b ∙ r.1);
  numbered = num;
}

new_value-IsNumbered :
    (op : Op) (typ : ValueType) (args : List ℕ) (b n : ℕ) (aux : Aux) (f : Func)
    → IsNumbered f
    → IsNumbered (new_value op typ args b n aux f).1
unfolding new_value present
new_value-IsNumbered op typ args b n aux f h = record {
  below = λ v p. elim (Bool-cases (v == f.next_value_id)) [
    | inl e ↦ let q = (==_iff v f.next_value_id).0 e in omega arith
    | inr e ↦ let q = rw e at p in let r = h.below v q in omega arith
  ];
}

append_value-WellFormed : (b v : ℕ) (f : Func) → IsWellFormed f → IsWellFormed (append_value b v f)
append_value-WellFormed b v f h =
    let blk : Block = record (f.block_of b) { values = (f.block_of b).values ++ (v ∷ []) } in
    same_edges f (append_value b v f)
      (update-related f.block_of b blk (λ x y. y.succs ≡ x.succs) (λ x. refl) refl)
      (update-related f.block_of b blk (λ x y. y.preds ≡ x.preds) (λ x. refl) refl) refl
      (record { below = h.numbered.below }) h

new_value-WellFormed :
    (op : Op) (typ : ValueType) (args : List ℕ) (b n : ℕ) (aux : Aux) (f : Func)
    → IsWellFormed f
    → IsWellFormed (new_value op typ args b n aux f).1
unfolding new_value
new_value-WellFormed op typ args b n aux f h =
    same_edges f (new_value op typ args b n aux f).1 (λ c. refl) (λ c. refl) refl
      (new_value-IsNumbered op typ args b n aux f h.numbered) h

new_value_before-WellFormed :
    (b i : ℕ) (op : Op) (typ : ValueType) (n : ℕ) (aux : Aux) (args : List ℕ) (f : Func)
    → IsWellFormed f
    → IsWellFormed (new_value_before b i op typ n aux args f).1
unfolding new_value_before
new_value_before-WellFormed b i op typ n aux args f h =
    let r = new_value op typ args b n aux f in
    let g = r.1 in
    let old = g.block_of b in
    let w = new_value-WellFormed op typ args b n aux f h in
    elim (Bool-cases (leb (length old.values) i)) [
      | inl e ↦ rw e (append_value-WellFormed b (r.0) g w)
      | inr e ↦
          let blk : Block = record old { values = insert_at i (r.0) old.values } in
          rw e (
            same_edges g _
              (update-related g.block_of b blk (λ x y. y.succs ≡ x.succs) (λ x. refl) refl)
              (update-related g.block_of b blk (λ x y. y.preds ≡ x.preds) (λ x. refl) refl) refl
              (record { below = w.numbered.below }) w)
    ]

new_block-WellFormed :
    (kind : BlockKind) (f : Func) → IsWellFormed f → IsWellFormed (new_block kind f).1
unfolding new_block
new_block-WellFormed kind f h =
    let k = f.next_block_id in
    let e = empty_block kind in
    let none_yet = h.fresh k (omega arith) in
    record {
      linked = new_block-IsLinked kind f (none_yet.0) (none_yet.1) h.linked;
      fresh = λ b l.
          let r = h.fresh b (omega arith) in
          (
            update-related f.block_of k e (λ x y. y.succs ≡ x.succs) (λ x. refl) (sym (none_yet.0))
                  b
                ∙ r.0,
            update-related f.block_of k e (λ x y. y.preds ≡ x.preds) (λ x. refl) (sym (none_yet.1))
                  b
                ∙ r.1,
          );
      numbered = record { below = h.numbered.below };
    }

-- In every function that NewFunc, NewBlock, SetEntry, AddEdge between blocks that are there,
-- newValue, the appending of a value and NewValueBefore build, each edge is in the two lists of
-- its ends at the places that it names, blocks not yet given out have no edges, and values with an
-- operation have ids below the counter.
pub Built-WellFormed : (f : Func) → Built f → IsWellFormed f
unfolding new_func set_entry present add_edge
Built-WellFormed f (start params results) = record {
  linked = new_func-IsLinked params results;
  fresh = λ b l. (refl, refl);
  numbered = record { below = λ v p. ground arith };
}
Built-WellFormed f (block {f = g} kind built) =
    new_block-WellFormed kind g (Built-WellFormed g built)
Built-WellFormed f (entry {f = g} b built) =
    same_edges g (set_entry b g) (λ c. refl) (λ c. refl) refl
      (record { below = (Built-WellFormed g built).numbered.below }) (Built-WellFormed g built)
Built-WellFormed f (edge {f = g} src dst s d built) =
    let h = Built-WellFormed g built in
    record {
      linked = add_edge-IsLinked src dst g h.linked;
      fresh = λ b l. add_edge-fresh src dst g b (ground arith) (ground arith) (h.fresh b l);
      numbered = record { below = h.numbered.below };
    }
Built-WellFormed f (value {f = g} op typ args b n aux built) =
    new_value-WellFormed op typ args b n aux g (Built-WellFormed g built)
Built-WellFormed f (append {f = g} b v built) =
    append_value-WellFormed b v g (Built-WellFormed g built)
Built-WellFormed f (before {f = g} b i op typ n aux args built) =
    new_value_before-WellFormed b i op typ n aux args g (Built-WellFormed g built)
