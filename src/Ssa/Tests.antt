-- ===== src/Ssa/Tests.antt =====
-- The theorems on the SSA form at concrete functions.
use wasm2go.Prelude.{
  ℕ, zero, suc, ◌<◌, true, false, some, List, [], ◌∷◌, In, All, ◌≡◌, ◌≢◌, refl, inl, inr, ◌↔◌, ◌⊎◌,
  arith, ltb, ltb→lt, ◌^◌,
}
use wasm2go.Ssa.Types.{ValueType, i32, same_type}
use wasm2go.Ssa.Op.{
  Op, is_commutative, xor32, phi, param, load32, absent, const32, const64, add32, copy,
  op_has_side_effect, has_side_effect,
}
use wasm2go.Ssa.Func.{
  Value, Func, plain, ret, nil_value, empty_block, new_func, new_block, add_edge,
}
use wasm2go.Ssa.Commute.{is_commutative-binary}
use wasm2go.Ssa.Pass.MemAddr.{
  fold_mem_addend, fold_mem_blocks, fold_mem_values, fold_mem_value, fold_addend, fold_access,
  split_base, peel_copies,
}
use wasm2go.Ssa.Pass.MemAddr.Address.{Moved, fold_mem_addend-Moved}
use mathlib.Core.Option.{some_inj}
use wasm2go.Ssa.Meaning.{denote, meaning, unary, apply2, binary, Agrees}
use wasm2go.Ssa.Built.{Built, start, block, edge, IsWellFormed, Built-WellFormed}
use wasm2go.Ssa.Compact.{is_invalid, compact, count_values}
use wasm2go.Ssa.Compact.Correct.{Kept, IsLive, with_values, compact-values, count_values-compact}
use wasm2go.Ssa.Worklist.{Reach, mark_all, nothing_marked, drain}
use wasm2go.Ssa.Worklist.Correct.{drain-Reach}
use wasm2go.Ssa.Pass.ConstProp.{
  const_prop, fold_blocks, fold_values, fold_value, fold_args, fold_unary, fold_binary, int_const,
  const_of,
}
use wasm2go.Ssa.Pass.ConstProp.Typing.{width, operand_width, result_type, IsTyped}
use wasm2go.Ssa.Pass.ConstProp.Folds.{binary_width, binary_type}
use wasm2go.Ssa.Pass.ConstProp.Run.{const_prop-Agrees, const_prop-IsTyped}
use wasm2go.Ssa.Pass.Simplify.{trivial_phi_arg, phi_arg, Others, trivial_phi_arg-Others}
use wasm2go.Ssa.Pass.Tail.{tail_start, tail_count}
use wasm2go.Ssa.Pass.Dce.{
  present, value_roots, block_roots, roots_of, dce_live, sweep_values, sweep_blocks, dce,
}
use wasm2go.Ssa.Pass.Dce.Correct.{IsNumbered, dce-operands}
use wasm2go.Ssa.Pass.Dce.Needed.{Needed, dce-Needed}
use wasm2go.Ssa.Pass.Dce.Again.{dce-dce}
use wasm2go.Ssa.Pass.Dce.Compacted.{compact-dce}

abbrev lookup : List Value → ℕ → Value
lookup [] v = nil_value
lookup (w ∷ ws) zero = w
lookup (w ∷ ws) (suc v) = lookup ws v

-- A statement about the first six ids and all the others.
six :
    (P : ℕ → Type 0)
    → P 0
    → P 1
    → P 2
    → P 3
    → P 4
    → P 5
    → ((n : ℕ) → P (suc (suc (suc (suc (suc (suc n)))))))
    → (v : ℕ) → P v
six P a b c d e f g zero = a
six P a b c d e f g (suc zero) = b
six P a b c d e f g (suc (suc zero)) = c
six P a b c d e f g (suc (suc (suc zero))) = d
six P a b c d e f g (suc (suc (suc (suc zero)))) = e
six P a b c d e f g (suc (suc (suc (suc (suc zero))))) = f
six P a b c d e f g (suc (suc (suc (suc (suc (suc n)))))) = g n

abbrev lookup_number : List ℕ → ℕ → ℕ
lookup_number [] v = 0
lookup_number (x ∷ xs) zero = x
lookup_number (x ∷ xs) (suc v) = lookup_number xs v

abbrev one_block : List ℕ → List Value → ℕ → Func
one_block ids ws n = record {
  params = [];
  results = i32 ∷ [];
  order = 0 ∷ [];
  entry = some 0;
  block_of = λ b. record (empty_block ret) { values = ids };
  value_of = lookup ws;
  next_value_id = n;
  next_block_id = 1;
}

abbrev val : Op → List ℕ → ℕ → Value
val op args n = record { op = op; typ = i32; args = args; aux_int = n; aux = absent; block = 0 }

-- Two constants, their sum, a value that nothing uses, and the result.
abbrev sum_values : List Value
sum_values =
    nil_value
    ∷ val const32 [] 5
    ∷ val const32 [] 7
    ∷ val add32 (1 ∷ 2 ∷ []) 0
    ∷ val add32 (1 ∷ 1 ∷ []) 0
    ∷ val copy (3 ∷ []) 0
    ∷ []

abbrev sum_func : Func
sum_func = one_block (1 ∷ 2 ∷ 3 ∷ 4 ∷ 5 ∷ []) sum_values 6

sum-IsTyped : IsTyped (lookup sum_values)
unfolding operand_width binary_width result_type binary_type
sum-IsTyped = record {
  const_32 =
      six (λ v. (lookup sum_values v).op ≡ const32 → width (lookup sum_values v).typ ≡ 32) (λ e. cc)
        (λ e. refl) (λ e. refl) (λ e. refl) (λ e. refl) (λ e. refl) (λ n e. cc);
  const_64 =
      six (λ v. (lookup sum_values v).op ≡ const64 → width (lookup sum_values v).typ ≡ 64) (λ e. cc)
        (λ e. cc) (λ e. cc) (λ e. cc) (λ e. cc) (λ e. cc) (λ n e. cc);
  operands =
      six
        (λ v.
          (w : ℕ)
          → operand_width (lookup sum_values v).op ≡ w
          → 0 < w
          → All (λ a. width (lookup sum_values a).typ ≡ w) (lookup sum_values v).args)
        (λ w e p. tt) (λ w e p. tt) (λ w e p. tt) (λ w e p. (e, (e, tt))) (λ w e p. (e, (e, tt)))
        (λ w e p. absurd (omega arith)) (λ n w e p. tt);
  result =
      six
        (λ v.
          (t : ValueType)
          → result_type (lookup sum_values v).op ≡ some t
          → (lookup sum_values v).typ ≡ t)
        (λ t e. cc) (λ t e. cc) (λ t e. cc) (λ t e. cc) (λ t e. cc) (λ t e. cc) (λ n t e. cc);
  words =
      six (λ v. (lookup sum_values v).aux_int < 2 ^ 64) (omega arith) (omega arith) (omega arith)
        (omega arith) (omega arith) (omega arith) (λ n. omega arith);
}

const_prop-Agrees_example :
    Agrees sum_func (lookup_number (0 ∷ 5 ∷ 7 ∷ 12 ∷ 10 ∷ 12 ∷ []))
    ↔ Agrees (const_prop sum_func).0 (lookup_number (0 ∷ 5 ∷ 7 ∷ 12 ∷ 10 ∷ 12 ∷ []))
const_prop-Agrees_example =
    const_prop-Agrees sum_func (lookup_number (0 ∷ 5 ∷ 7 ∷ 12 ∷ 10 ∷ 12 ∷ [])) sum-IsTyped

const_prop-IsTyped_example : IsTyped (const_prop sum_func).0.value_of
const_prop-IsTyped_example = const_prop-IsTyped sum_func sum-IsTyped

-- The sum is folded, and its operands are not.
folded :
    (((const_prop sum_func).0.value_of 3).op ≡ const32)
    × (((const_prop sum_func).0.value_of 3).aux_int ≡ 12)
unfolding const_prop fold_blocks fold_values fold_value fold_args fold_unary fold_binary int_const
    const_of same_type
folded = (refl, refl)

sum-IsNumbered : IsNumbered sum_func
unfolding present
sum-IsNumbered = record {
  below =
      six (λ v. present (lookup sum_values) v ≡ true → v < 6) (λ e. omega arith) (λ e. omega arith)
        (λ e. omega arith) (λ e. omega arith) (λ e. omega arith) (λ e. omega arith)
        (λ n e. ground arith);
}

dce-Needed_example : (is_invalid ((dce sum_func).0.value_of 4).op ≡ false) ↔ Needed sum_func 4
dce-Needed_example = dce-Needed sum_func sum-IsNumbered 4 (inr (inr (inr (inl refl))))

swept : ((dce sum_func).0.value_of 4).op ≡ Op.invalid
unfolding dce dce_live present roots_of block_roots value_roots tail_start tail_count sweep_blocks
    sweep_values drain mark_all op_has_side_effect has_side_effect
swept = refl

kept : is_invalid ((dce sum_func).0.value_of 3).op ≡ false
unfolding dce dce_live present roots_of block_roots value_roots tail_start tail_count sweep_blocks
    sweep_values drain mark_all op_has_side_effect has_side_effect
kept = refl

dce-operands_example :
    ((dce sum_func).0.value_of 3 ≡ sum_func.value_of 3)
    × ((a : ℕ)
        → In a (sum_func.value_of 3).args
        → present sum_func.value_of a ≡ true
        → (dce sum_func).0.value_of a ≡ sum_func.value_of a)
dce-operands_example = dce-operands sum_func sum-IsNumbered 3 (inr (inr (inl refl))) kept

dce-dce_example : dce (dce sum_func).0 ≡ ((dce sum_func).0, false)
dce-dce_example = dce-dce sum_func sum-IsNumbered

compact-dce_example :
    In 4 ((compact (dce sum_func).0).block_of 0).values
    ↔ (In 4 (sum_func.block_of 0).values × Needed sum_func 4)
compact-dce_example = compact-dce sum_func sum-IsNumbered 0 4 (inl refl)

-- The function with its unused value marked dead.
abbrev dead_func : Func
dead_func =
    one_block (1 ∷ 2 ∷ 3 ∷ 4 ∷ 5 ∷ [])
      (nil_value
        ∷ val const32 [] 5
        ∷ val const32 [] 7
        ∷ val add32 (1 ∷ 2 ∷ []) 0
        ∷ val Op.invalid [] 0
        ∷ val copy (3 ∷ []) 0
        ∷ [])
      6

compact-values_example :
    ((In 0 dead_func.order
        × ((vs : List ℕ) × Kept (IsLive dead_func) (1 ∷ 2 ∷ 3 ∷ 4 ∷ 5 ∷ []) vs
            × ((compact dead_func).block_of 0 ≡ with_values (dead_func.block_of 0) vs)))
      ⊎ ((¬ In 0 dead_func.order) × ((compact dead_func).block_of 0 ≡ dead_func.block_of 0)))
    × ((compact dead_func).value_of ≡ dead_func.value_of)
    × ((compact dead_func).order ≡ dead_func.order)
compact-values_example = compact-values dead_func 0

count_values-compact_example : count_values (compact dead_func) ≡ count_values dead_func
count_values-compact_example = count_values-compact dead_func

-- Two blocks and an edge from the first to the second.
abbrev two_blocks : Func
two_blocks = (new_block ret (new_block plain (new_func [] [])).1).1

joined : Built (add_edge 0 1 two_blocks)
unfolding new_block new_func
joined = edge 0 1 (omega arith) (omega arith) (block ret (block plain (start [] [])))

Built-WellFormed_example : IsWellFormed (add_edge 0 1 two_blocks)
Built-WellFormed_example = Built-WellFormed (add_edge 0 1 two_blocks) joined

drain-Reach_example :
    ((drain
          (λ v. ltb v 6)
          (λ v. (lookup sum_values v).args)
          6
          (mark_all (λ v. ltb v 6) (5 ∷ []) nothing_marked)).live
        1
      ≡ true)
    ↔ Reach (λ v. ltb v 6) (λ v. (lookup sum_values v).args) (5 ∷ []) 1
drain-Reach_example =
    drain-Reach (λ v. ltb v 6) (λ v. (lookup sum_values v).args) (5 ∷ []) 6 (λ v e. ltb→lt v 6 e) 1

is_commutative-binary_example : apply2 (binary xor32) 6 3 ≡ apply2 (binary xor32) 3 6
unfolding is_commutative
is_commutative-binary_example = is_commutative-binary xor32 6 3 refl

-- A phi of itself, nil and one other value.
trivial_phi_arg-Others_example :
    (trivial_phi_arg 4 (val phi (4 ∷ 0 ∷ 2 ∷ []) 0) ≡ 2)
    ↔ ((val phi (4 ∷ 0 ∷ 2 ∷ []) 0).op ≡ phi)
      × In {A = ℕ} 2 (4 ∷ 0 ∷ 2 ∷ [])
      × (◌≢◌ {A = ℕ} 2 4)
      × Others 4 2 (4 ∷ 0 ∷ 2 ∷ [])
trivial_phi_arg-Others_example =
    trivial_phi_arg-Others 4 2 (val phi (4 ∷ 0 ∷ 2 ∷ []) 0) (λ e. omega (arith, e))

phi_of_one : trivial_phi_arg 4 (val phi (4 ∷ 0 ∷ 2 ∷ []) 0) ≡ 2
unfolding trivial_phi_arg phi_arg
phi_of_one = refl

-- A load at a parameter plus a large constant.
abbrev load_values : List Value
load_values =
    nil_value
    ∷ val param [] 0
    ∷ val const32 [] 1000000
    ∷ val add32 (1 ∷ 2 ∷ []) 0
    ∷ val load32 (3 ∷ []) 4
    ∷ val copy (4 ∷ []) 0
    ∷ []

abbrev load_func : Func
load_func = one_block (1 ∷ 2 ∷ 3 ∷ 4 ∷ 5 ∷ []) load_values 6

abbrev load_env : ℕ → ℕ
load_env = lookup_number (0 ∷ 7 ∷ 1000000 ∷ 1000007 ∷ 42 ∷ 42 ∷ [])

load-Agrees : Agrees load_func load_env
unfolding denote unary binary
load-Agrees = record {
  at =
      six (λ v. (x : ℕ) → meaning load_env (lookup load_values v) ≡ some x → load_env v ≡ x)
        (λ x e. cc) (λ x e. cc) (λ x e. some_inj.0 e) (λ x e. some_inj.0 e) (λ x e. cc)
        (λ x e. some_inj.0 e) (λ n x e. cc);
}

fold_mem_addend-Moved_example :
    Agrees (fold_mem_addend 65536 load_func).0 load_env
    × Moved load_env load_func (fold_mem_addend 65536 load_func).0
fold_mem_addend-Moved_example = fold_mem_addend-Moved 65536 load_func load_env load-Agrees

-- The constant is in the offset.
moved :
    (((fold_mem_addend 65536 load_func).0.value_of 4).args ≡ 1 ∷ [])
    × (((fold_mem_addend 65536 load_func).0.value_of 4).aux_int ≡ 1000004)
unfolding fold_mem_addend fold_mem_blocks fold_mem_values fold_mem_value fold_addend fold_access
    split_base peel_copies
moved = (refl, refl)
