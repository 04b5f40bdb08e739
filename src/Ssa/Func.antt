-- ===== src/Ssa/Func.antt =====
-- internal/ssa/ssa.go: functions, blocks, edges and values. A pointer to a value or a block is its id,
-- and a function holds what they point to; the id 0 of a value is the nil pointer, as the source
-- reserves it. Names, the exception regions (TryRegion) and the fields MutableLocals and LocalTypes,
-- which a function with mutable locals has for the emitter, are left out.
use wasm2go.Prelude.{
  ℕ, zero, suc, ◌+◌, ◌==◌, leb, if◌then◌else◌, Bool, false, Option, none, some, List, [], ◌∷◌, ◌++◌,
  length,
}
use wasm2go.Ssa.Types.{ValueType, invalid}
use wasm2go.Ssa.Op.{Op, Aux, absent}

-- `aux_int` is the bit pattern of an int64.
pub record Value : Type 0 where
  pub op : Op
  pub typ : ValueType
  pub args : List ℕ
  pub aux_int : ℕ
  pub aux : Aux
  pub block : ℕ

-- `index` is the place of this edge in the other block's list.
pub record Edge : Type 0 where
  pub block : ℕ
  pub index : ℕ

pub data BlockKind : Type 0 where
  bad plain branch ret trap br_table throw : BlockKind

pub record Block : Type 0 where
  pub kind : BlockKind
  pub preds : List Edge
  pub succs : List Edge
  pub values : List ℕ
  pub control : ℕ
  pub table_cases : List (List ℕ)
  pub table_default : ℕ
  pub tag_index : ℕ
  pub throw_argc : ℕ
  pub is_rethrow : Bool

-- `order` is the slice Blocks; `next_value_id` is also the length of the slice Values.
pub record Func : Type 0 where
  pub params : List ValueType
  pub results : List ValueType
  pub order : List ℕ
  pub entry : Option ℕ
  pub block_of : ℕ → Block
  pub value_of : ℕ → Value
  pub next_value_id : ℕ
  pub next_block_id : ℕ

abbrev pub update {ℓ} : {A : Type ℓ} → (ℕ → A) → ℕ → A → ℕ → A
update m k v j = if j == k then v else m j

abbrev pub set_value : ℕ → Value → Func → Func
set_value id v f = record f { value_of = update f.value_of id v }

abbrev pub set_block : ℕ → Block → Func → Func
set_block id b f = record f { block_of = update f.block_of id b }

abbrev pub nil_value : Value
nil_value = record {
  op = Op.invalid;
  typ = invalid;
  args = [];
  aux_int = 0;
  aux = absent;
  block = 0;
}

abbrev pub empty_block : BlockKind → Block
empty_block kind = record {
  kind = kind;
  preds = [];
  succs = [];
  values = [];
  control = 0;
  table_cases = [];
  table_default = 0;
  tag_index = 0;
  throw_argc = 0;
  is_rethrow = false;
}

unfoldable pub new_func : List ValueType → List ValueType → Func
new_func params results = record {
  params = params;
  results = results;
  order = [];
  entry = none;
  block_of = λ b. empty_block bad;
  value_of = λ v. nil_value;
  next_value_id = 1;
  next_block_id = 0;
}

unfoldable pub new_block : BlockKind → Func → ℕ × Func
new_block kind f =
    let id = f.next_block_id in
    (
      id,
      record (set_block id (empty_block kind) f) {
        next_block_id = id + 1;
        order = f.order ++ (id ∷ []);
      },
    )

unfoldable pub set_entry : ℕ → Func → Func
set_entry b f = record f { entry = some b }

-- Func.newValue
unfoldable pub new_value : Op → ValueType → List ℕ → ℕ → ℕ → Aux → Func → ℕ × Func
new_value op typ args b aux_int aux f =
    let id = f.next_value_id in
    let v : Value = record {
      op = op;
      typ = typ;
      args = args;
      aux_int = aux_int;
      aux = aux;
      block = b;
    } in
    (id, record (set_value id v f) { next_value_id = id + 1 })

abbrev pub append_value : ℕ → ℕ → Func → Func
append_value b v f =
    let blk = f.block_of b in set_block b (record blk { values = blk.values ++ (v ∷ []) }) f

abbrev pub insert_at : ℕ → ℕ → List ℕ → List ℕ
insert_at zero v xs = v ∷ xs
insert_at (suc i) v [] = v ∷ []
insert_at (suc i) v (x ∷ xs) = x ∷ insert_at i v xs

-- Block.NewValueBefore, at an index that is not negative.
unfoldable pub new_value_before : ℕ → ℕ → Op → ValueType → ℕ → Aux → List ℕ → Func → ℕ × Func
unfolding new_value
new_value_before b idx op typ aux_int aux args f =
    let (v, f') = new_value op typ args b aux_int aux f in
    let blk = f'.block_of b in
    if leb (length blk.values) idx
    then (v, append_value b v f')
    else (v, set_block b (record blk { values = insert_at idx v blk.values }) f')

-- AddEdge; where `src` is `dst` the second write sees the first.
unfoldable pub add_edge : ℕ → ℕ → Func → Func
add_edge src dst f =
    let si = length (f.block_of dst).preds in
    let di = length (f.block_of src).succs in
    let s = f.block_of src in
    let out : Edge = record { block = dst; index = si } in
    let back : Edge = record { block = src; index = di } in
    let f' = set_block src (record s { succs = s.succs ++ (out ∷ []) }) f in
    let d = f'.block_of dst in set_block dst (record d { preds = d.preds ++ (back ∷ []) }) f'
