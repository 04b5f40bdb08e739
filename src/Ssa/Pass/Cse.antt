-- ===== src/Ssa/Pass/Cse.antt =====
-- internal/ssa/pass/cse.go: common-subexpression elimination within a block.
mod Tests
pub mod Merges
pub mod Rewrite
pub mod MemSize
pub mod Roots
pub mod Dangling
use wasm2go.Prelude.{
  ℕ, zero, suc, Bool, true, false, not, ◌&&◌, ◌||◌, if◌then◌else◌, ◌==◌, Option, none, some, List,
  [], ◌∷◌,
}
use wasm2go.Prelude.Int.{ℤ, pos, negsuc}
use mathlib.Core.List.{map}
use wasm2go.Ssa.Types.{ValueType}
use wasm2go.Ssa.Op
use wasm2go.Ssa.Op.{
  Op, Aux, is_commutative, has_side_effect, phi, param, load8_u, load8_s, load16_u, load16_s,
  load32, load32_u, load32_s, load64, load_f32, load_f64, global_get, local_get,
}
use wasm2go.Ssa.Func.{Value, Block, Func, update, set_value, set_block}
use wasm2go.Ssa.Meaning.{lt_int}
use wasm2go.Ssa.Compact.{is_invalid}
use wasm2go.Ssa.Pass.Tail.{ret_marker_set}

abbrev pub excluded : Op → Bool
excluded phi = true
excluded param = true
excluded load8_u = true
excluded load8_s = true
excluded load16_u = true
excluded load16_s = true
excluded load32 = true
excluded load32_u = true
excluded load32_s = true
excluded load64 = true
excluded load_f32 = true
excluded load_f64 = true
excluded global_get = true
excluded local_get = true
excluded _ = false

unfoldable pub cse_eligible : Value → Bool
cse_eligible v = not (excluded v.op || has_side_effect v.op v.aux)

-- What Sprintf is given in cseKey.
pub record Key : Type 0 where
  pub op : Op
  pub typ : ValueType
  pub aux_int : ℕ
  pub aux : Aux
  pub ids : List ℤ

-- `canon` is the map of merged values.
unfoldable pub resolve : (ℕ → Option ℕ) → ℕ → ℕ → ℕ
resolve canon zero v = v
resolve canon (suc fuel) v = elim (canon v) [
  | none ↦ v
  | some r ↦ let next = resolve canon fuel r in if r == v then v else next
]

abbrev pub key_id : (ℕ → ℕ) → ℕ → ℤ
key_id find a = if a == 0 then negsuc 0 else pos (find a)

abbrev pub in_order : Bool → List ℤ → List ℤ
in_order true (a ∷ b ∷ []) = if lt_int b a then b ∷ a ∷ [] else a ∷ b ∷ []
in_order commutative ids = ids

unfoldable pub cse_key : (ℕ → ℕ) → Value → Key
unfolding is_commutative
cse_key find v = record {
  op = v.op;
  typ = v.typ;
  aux_int = v.aux_int;
  aux = v.aux;
  ids = in_order (is_commutative v.op) (map (key_id find) v.args);
}

pub record Numbering : Type 0 where
  pub canon : ℕ → Option ℕ
  pub seen : List (Key × ℕ)
  pub changed : Bool

-- Sprintf gives a key's text; `alike` tells whether two keys have the same one.
module _ (alike : Key → Key → Bool) where
  unfoldable pub find_key : Key → List (Key × ℕ) → Option ℕ
  find_key k [] = none
  find_key k ((k', v) ∷ seen) = let rest = find_key k seen in if alike k k' then some v else rest

  abbrev pub merge : Key → ℕ → Numbering → Option ℕ → Numbering
  merge k v s (some p) = record s { canon = update s.canon v (some p); changed = true }
  merge k v s none = record s { seen = (k, v) ∷ s.seen }

  module _ (f : Func) where
    abbrev pub skipped : ℕ → Bool
    skipped v =
        is_invalid (f.value_of v).op || ret_marker_set f v || not (cse_eligible (f.value_of v))

    abbrev pub value_key : Numbering → ℕ → Key
    value_key s v = cse_key (resolve s.canon f.next_value_id) (f.value_of v)

    abbrev pub number_value : ℕ → Numbering → Numbering
    number_value v s =
        let k = value_key s v in if skipped v then s else merge k v s (find_key k s.seen)

    unfoldable pub number_values : List ℕ → Numbering → Numbering
    unfolding cse_eligible resolve cse_key find_key
    number_values [] s = s
    number_values (v ∷ vs) s = number_values vs (number_value v s)

    unfoldable pub number_blocks : List ℕ → Numbering → Numbering
    unfolding number_values
    number_blocks [] s = s
    number_blocks (b ∷ bs) s =
        number_blocks bs (number_values (f.block_of b).values (record s { seen = [] }))

    abbrev pub numbering : Numbering
    unfolding number_blocks
    numbering = number_blocks f.order (record { canon = λ v. none; seen = []; changed = false })

-- The rewriting of the references.
abbrev pub forward : (ℕ → ℕ) → ℕ → ℕ
forward find a = if a == 0 then 0 else find a

abbrev pub forward_args : (ℕ → ℕ) → Value → Value
forward_args find v = record v { args = map (forward find) v.args }

abbrev pub forward_value : (ℕ → ℕ) → ℕ → Func → Func
forward_value find v f =
    if is_invalid (f.value_of v).op then f else set_value v (forward_args find (f.value_of v)) f

unfoldable pub forward_values : (ℕ → ℕ) → List ℕ → Func → Func
forward_values find [] f = f
forward_values find (v ∷ vs) f = forward_values find vs (forward_value find v f)

abbrev pub forward_control : (ℕ → ℕ) → ℕ → Func → Func
forward_control find b f =
    let blk = f.block_of b in set_block b (record blk { control = forward find blk.control }) f

unfoldable pub forward_blocks : (ℕ → ℕ) → List ℕ → Func → Func
unfolding forward_values
forward_blocks find [] f = f
forward_blocks find (b ∷ bs) f =
    forward_blocks find bs (forward_control find b (forward_values find (f.block_of b).values f))

abbrev pub is_other : ℕ → Option ℕ → Bool
is_other v none = false
is_other v (some r) = not (r == v)

abbrev pub merged : (ℕ → Option ℕ) → ℕ → Bool
merged canon v = is_other v (canon v)

abbrev pub buried_value : Value → Value
buried_value v = record v { op = Op.invalid; args = [] }

abbrev pub bury_value : (ℕ → Option ℕ) → ℕ → Func → Func
bury_value canon v f =
    if not (is_invalid (f.value_of v).op) && merged canon v
    then set_value v (buried_value (f.value_of v)) f
    else f

unfoldable pub bury_values : (ℕ → Option ℕ) → List ℕ → Func → Func
bury_values canon [] f = f
bury_values canon (v ∷ vs) f = bury_values canon vs (bury_value canon v f)

unfoldable pub bury_blocks : (ℕ → Option ℕ) → List ℕ → Func → Func
unfolding bury_values
bury_blocks canon [] f = f
bury_blocks canon (b ∷ bs) f = bury_blocks canon bs (bury_values canon (f.block_of b).values f)

unfoldable pub cse : (Key → Key → Bool) → Func → Func × Bool
unfolding resolve numbering forward_blocks bury_blocks
cse alike f =
    let s = numbering alike f in
    let find = resolve s.canon f.next_value_id in
    if s.changed
    then (bury_blocks s.canon f.order (forward_blocks find f.order f), true)
    else (f, false)
