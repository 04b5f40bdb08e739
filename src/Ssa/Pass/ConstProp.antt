-- ===== src/Ssa/Pass/ConstProp.antt =====
-- internal/ssa/pass/constprop.go: constant folding. An int64 is its bit pattern.
pub mod Words
pub mod Folds
pub mod Typing
pub mod Single
pub mod Args
pub mod Run
use wasm2go.Prelude.{
  ℕ, ◌+◌, ◌-◌, ◌*◌, ◌/◌, ◌%◌, ◌^◌, bit_and, bit_or, bit_xor, Bool, true, false, not, ◌&&◌, ◌||◌,
  Option, none, some, List, [], ◌∷◌, ltb, leb, ◌==◌, if◌then◌else◌,
}
use wasm2go.Wasm.Leb128.{sar64}
use wasm2go.Ssa.Types.{ValueType, i32, i64, bool, same_type}
use wasm2go.Ssa.Op.{
  Op, absent, const32, const64, add32, add64, sub32, sub64, mul32, mul64, and32, and64, or32, or64,
  xor32, xor64, shl32, shl64, shr_s32, shr_s64, shr_u32, shr_u64, eq32, eq64, ne32, ne64, lt_s32,
  lt_s64, lt_u32, lt_u64, le_s32, le_s64, le_u32, le_u64, extend32_to64_s, extend32_to64_u,
  trunc64_to32,
}
use wasm2go.Ssa.Func.{Value, Func, set_value}

-- `int64(int32(x))` and `int64(uint32(x))`.
abbrev pub int32 : ℕ → ℕ
int32 x = if ltb (x % 2 ^ 32) (2 ^ 31) then x % 2 ^ 32 else x % 2 ^ 32 + (2 ^ 64 - 2 ^ 32)

abbrev pub uint32 : ℕ → ℕ
uint32 x = x % 2 ^ 32

-- `a < b` of int64 values: the sign bits decide, or else the patterns do.
abbrev pub less : ℕ → ℕ → Bool
less a b = if ltb a (2 ^ 63) then ltb b (2 ^ 63) && ltb a b else ltb b (2 ^ 63) || ltb a b

-- What the big switch leaves in `folded`, or in `foldedAsBool`, or its default.
pub data Folded : Type 0 where
  word : ℕ → Folded
  truth : Bool → Folded
  unknown : Folded

unfoldable pub fold_binary : Op → ℕ → ℕ → Folded
fold_binary add32 a b = word ((a + b) % 2 ^ 64)
fold_binary add64 a b = word ((a + b) % 2 ^ 64)
fold_binary sub32 a b = word ((a + 2 ^ 64 - b) % 2 ^ 64)
fold_binary sub64 a b = word ((a + 2 ^ 64 - b) % 2 ^ 64)
fold_binary mul32 a b = word (a * b % 2 ^ 64)
fold_binary mul64 a b = word (a * b % 2 ^ 64)
fold_binary and32 a b = word (bit_and a b)
fold_binary and64 a b = word (bit_and a b)
fold_binary or32 a b = word (bit_or a b)
fold_binary or64 a b = word (bit_or a b)
fold_binary xor32 a b = word (bit_xor a b)
fold_binary xor64 a b = word (bit_xor a b)
fold_binary shl32 a b = word (int32 (int32 a * 2 ^ bit_and (uint32 b) 31))
fold_binary shl64 a b = word (a * 2 ^ bit_and b 63 % 2 ^ 64)
fold_binary shr_s32 a b = word (sar64 (int32 a) (bit_and (uint32 b) 31))
fold_binary shr_s64 a b = word (sar64 a (bit_and b 63))
fold_binary shr_u32 a b = word (uint32 a / 2 ^ bit_and (uint32 b) 31)
fold_binary shr_u64 a b = word (a / 2 ^ bit_and b 63)
fold_binary eq32 a b = truth (a == b)
fold_binary eq64 a b = truth (a == b)
fold_binary ne32 a b = truth (not (a == b))
fold_binary ne64 a b = truth (not (a == b))
fold_binary lt_s32 a b = truth (less a b)
fold_binary lt_s64 a b = truth (less a b)
fold_binary le_s32 a b = truth (not (less b a))
fold_binary le_s64 a b = truth (not (less b a))
fold_binary lt_u32 a b = truth (ltb (uint32 a) (uint32 b))
fold_binary le_u32 a b = truth (leb (uint32 a) (uint32 b))
fold_binary lt_u64 a b = truth (ltb a b)
fold_binary le_u64 a b = truth (leb a b)
fold_binary _ a b = unknown

abbrev pub constant : Op → ValueType → ℕ → Value → Value
constant op typ n v = record v { op = op; typ = typ; args = []; aux_int = n; aux = absent }

unfoldable pub fold_unary : Op → ℕ → Value → Option Value
fold_unary extend32_to64_s c v = some (constant const64 i64 (int32 c) v)
fold_unary extend32_to64_u c v = some (constant const64 i64 (uint32 c) v)
fold_unary trunc64_to32 c v = some (constant const32 i32 (int32 c) v)
fold_unary _ c v = none

-- intConst
unfoldable pub const_of : Op → ℕ → Option ℕ
const_of const32 n = some (int32 n)
const_of const64 n = some n
const_of _ n = none

unfoldable pub int_const : Value → Option ℕ
unfolding const_of
int_const v = const_of v.op v.aux_int

-- The end of foldValue.
abbrev pub folded_value : Bool → Folded → Value → Option Value
folded_value is32 unknown v = none
folded_value is32 (truth t) v = some (constant const32 bool (if t then 1 else 0) v)
folded_value true (word n) v = some (constant const32 i32 (int32 n) v)
folded_value false (word n) v = some (constant const64 i64 n v)

abbrev pub with_const : Op → Value → Option ℕ → Option Value
with_const op v none = none
with_const op v (some c) = fold_unary op c v

abbrev pub with_consts : Bool → Value → Option ℕ → Option ℕ → Option Value
with_consts is32 v (some a) (some b) = folded_value is32 (fold_binary v.op a b) v
with_consts is32 v _ _ = none

-- foldValue, by the arguments; argIs32 is the test on the first one's type.
unfoldable pub fold_args : (ℕ → Value) → Value → List ℕ → Option Value
unfolding fold_unary fold_binary int_const
fold_args values v (a ∷ []) = if a == 0 then none else with_const v.op v (int_const (values a))
fold_args values v (a ∷ b ∷ []) =
    let is32 = same_type v.typ i32 || (same_type v.typ bool && same_type (values a).typ i32) in
    if (a == 0) || (b == 0)
    then none
    else with_consts is32 v (int_const (values a)) (int_const (values b))
fold_args values v _ = none

abbrev pub put : ℕ → Func → Option Value → Func × Bool
put id f none = (f, false)
put id f (some v) = (set_value id v f, true)

unfoldable pub fold_value : ℕ → Func → Func × Bool
unfolding fold_args
fold_value id f = let v = f.value_of id in put id f (fold_args f.value_of v v.args)

abbrev pub fold_next : ℕ → Func × Bool → Func × Bool
fold_next id (f, changed) = let (f', c) = fold_value id f in (f', c || changed)

unfoldable pub fold_values : List ℕ → Func × Bool → Func × Bool
unfolding fold_value
fold_values [] s = s
fold_values (id ∷ ids) s = fold_values ids (fold_next id s)

unfoldable pub fold_blocks : List ℕ → Func × Bool → Func × Bool
unfolding fold_values
fold_blocks [] s = s
fold_blocks (b ∷ bs) s = fold_blocks bs (fold_values (s.0.block_of b).values s)

unfoldable pub const_prop : Func → Func × Bool
unfolding fold_blocks
const_prop f = fold_blocks f.order (f, false)
