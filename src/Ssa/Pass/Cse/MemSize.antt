-- ===== src/Ssa/Pass/Cse/MemSize.antt =====
-- internal/ssa/pass/cse.go on memory.size, read on both sides of memory.grow.
use wasm2go.Prelude.{
  ℕ, zero, suc, Bool, true, false, ◌==◌, none, some, [], ◌∷◌, ◌≡◌, ◌<◌, ◌-◌, refl, ap, ◌∙◌, arith,
}
use wasm2go.Ssa.Op.{mem_size, mem_grow, op_has_side_effect, has_side_effect}
use wasm2go.Ssa.Func.{Value, Func, update}
use wasm2go.Ssa.Update.{update-at, update-other}
use wasm2go.Ssa.Compact.{is_invalid}
use wasm2go.Ssa.Pass.Tail.{ret_marker_set}
use wasm2go.Ssa.Pass.Cse.{
  Key, Numbering, skipped, value_key, number_value, cse_eligible, cse_key, resolve, find_key,
  number_values, number_blocks, numbering, cse,
}

-- A function of one block with the values a, g and b, where g is memory.grow and a and b are memory.size.
pub record Resized (f : Func) (blk a g b : ℕ) : Type 0 where
  pub order : f.order ≡ blk ∷ []
  pub values : (f.block_of blk).values ≡ a ∷ g ∷ b ∷ []
  pub size_a : ((f.value_of a).op ≡ mem_size) × ((f.value_of a).args ≡ [])
  pub size_b : f.value_of b ≡ f.value_of a
  pub grow : (f.value_of g).op ≡ mem_grow
  pub not_tail : (v : ℕ) → ret_marker_set f v ≡ false
  pub apart : (a == b) ≡ false

size-eligible : (v : Value) → v.op ≡ mem_size → (is_invalid v.op ≡ false) × (cse_eligible v ≡ true)
unfolding cse_eligible has_side_effect op_has_side_effect
size-eligible v e = rw e (refl, refl)

grow-eligible : (v : Value) → v.op ≡ mem_grow → cse_eligible v ≡ false
unfolding cse_eligible has_side_effect op_has_side_effect
grow-eligible v e = rw e refl

module _ (alike : Key → Key → Bool) (same : (k : Key) → alike k k ≡ true) (f : Func) (blk a g b : ℕ)
    (r : Resized f blk a g b) where
  abbrev start : Numbering
  start = record { canon = λ v. none; seen = []; changed = false }

  abbrev first : Numbering
  first = record start { seen = (value_key alike f start a, a) ∷ [] }

  abbrev last : Numbering
  last = record first { canon = update (λ v. none) b (some a); changed = true }

  skip-size : (v : ℕ) → (f.value_of v).op ≡ mem_size → skipped alike f v ≡ false
  skip-size v e = let q = size-eligible (f.value_of v) e in rw (q.0, q.1, r.not_tail v) refl

  skip-grow : skipped alike f g ≡ true
  skip-grow = let q = grow-eligible (f.value_of g) r.grow in ground arith

  step-a : number_value alike f a start ≡ first
  unfolding find_key
  step-a = rw (skip-size a (r.size_a.0)) refl

  step-g : number_value alike f g first ≡ first
  step-g = rw skip-grow refl

  key-b : value_key alike f first b ≡ value_key alike f start a
  key-b = ap (cse_key (resolve start.canon f.next_value_id)) r.size_b

  step-b : number_value alike f b first ≡ last
  unfolding find_key
  step-b =
      rw
        (
          skip-size b (ap (λ (v : Value). v.op) r.size_b ∙ r.size_a.0),
          key-b,
          find_key,
          same (value_key alike f start a),
        )
        refl

  numbering-last : numbering alike f ≡ last
  unfolding numbering number_blocks number_values
  numbering-last =
      ap (λ bs. number_blocks alike f bs start) r.order
      ∙ ap (λ vs. number_values alike f vs start) r.values
      ∙ ap (λ s. number_value alike f b (number_value alike f g s)) step-a
      ∙ ap (number_value alike f b) step-g
      ∙ step-b

  resolve-a : (n : ℕ) → resolve last.canon n a ≡ a
  unfolding resolve
  resolve-a zero = refl
  resolve-a (suc n) = rw (resolve, update-other (λ v. none) b (some a) a r.apart) refl

  resolve-b : (n : ℕ) → resolve last.canon (suc n) b ≡ a
  unfolding resolve
  resolve-b n = rw (resolve, update-at (λ v. none) b (some a), r.apart) (resolve-a n)

  -- In a function of one block with memory.size, memory.grow and the same memory.size again, none
  -- of them at a block's tail, CSE reports a change and resolves the second memory.size to the
  -- first, where a key prints like itself.
  pub cse-Resized :
      0 < f.next_value_id
      → ((cse alike f).1 ≡ true) × (resolve (numbering alike f).canon f.next_value_id b ≡ a)
  unfolding cse
  cse-Resized h =
      let e : f.next_value_id ≡ suc (f.next_value_id - 1) = omega arith in
      let changed = ap (λ (s : Numbering). s.changed) numbering-last in
      (
        rw changed refl,
        ap (λ (s : Numbering). resolve s.canon f.next_value_id b) numbering-last
            ∙ ap (λ n. resolve last.canon n b) e
            ∙ resolve-b (f.next_value_id - 1),
      )
