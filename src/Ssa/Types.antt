-- ===== src/Ssa/Types.antt =====
-- internal/ssa/type.go: the types of values.
use wasm2go.Prelude.{ℕ, Bool, true, false}

pub data ValueType : Type 0 where
  invalid i32 i64 f32 f64 mem bool tuple v128 : ValueType

unfoldable pub is_int : ValueType → Bool
is_int i32 = true
is_int i64 = true
is_int _ = false

unfoldable pub is_float : ValueType → Bool
is_float f32 = true
is_float f64 = true
is_float _ = false

-- The width of a scalar, or 0.
unfoldable pub bits : ValueType → ℕ
bits i32 = 32
bits f32 = 32
bits i64 = 64
bits f64 = 64
bits bool = 1
bits _ = 0

unfoldable pub same_type : ValueType → ValueType → Bool
same_type invalid invalid = true
same_type i32 i32 = true
same_type i64 i64 = true
same_type f32 f32 = true
same_type f64 f64 = true
same_type mem mem = true
same_type bool bool = true
same_type tuple tuple = true
same_type v128 v128 = true
same_type _ _ = false
