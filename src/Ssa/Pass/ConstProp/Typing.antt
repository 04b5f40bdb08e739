-- ===== src/Ssa/Pass/ConstProp/Typing.antt =====
-- The typing that ConstProp relies on, and keeps: constants have an integer type of their width, and
-- an integer operation has operands of its width and a result of its type.
use wasm2go.Prelude.{ℕ, ◌^◌, ◌<◌, ◌≡◌, Option, some, All}
use wasm2go.Ssa.Types.{ValueType, i32, i64, bool}
use wasm2go.Ssa.Op.{Op, const32, const64, extend32_to64_s, extend32_to64_u, trunc64_to32}
use wasm2go.Ssa.Func.{Value}
use wasm2go.Ssa.Pass.ConstProp.Folds.{binary_width, binary_type}

-- The width of the integers of a type; a comparison leaves an i32.
abbrev pub width : ValueType → ℕ
width i32 = 32
width bool = 32
width i64 = 64
width _ = 0

unfoldable pub operand_width : Op → ℕ
unfolding binary_width
operand_width extend32_to64_s = 32
operand_width extend32_to64_u = 32
operand_width trunc64_to32 = 64
operand_width op = binary_width op

unfoldable pub result_type : Op → Option ValueType
unfolding binary_type
result_type extend32_to64_s = some i64
result_type extend32_to64_u = some i64
result_type trunc64_to32 = some i32
result_type op = binary_type op

abbrev pub HasOperands : (ℕ → Value) → Value → Type 0
HasOperands values v =
    (w : ℕ) → operand_width v.op ≡ w → 0 < w → All (λ a. width (values a).typ ≡ w) v.args

pub record IsTyped (values : ℕ → Value) : Type 0 where
  pub const_32 : (id : ℕ) → (values id).op ≡ const32 → width (values id).typ ≡ 32
  pub const_64 : (id : ℕ) → (values id).op ≡ const64 → width (values id).typ ≡ 64
  pub operands : (id : ℕ) → HasOperands values (values id)
  pub result : (id : ℕ) (t : ValueType) → result_type (values id).op ≡ some t → (values id).typ ≡ t
  pub words : (id : ℕ) → (values id).aux_int < 2 ^ 64
