-- ===== src/Ssa/Op.antt =====
-- internal/ssa/op.go: the operations and their properties.
use wasm2go.Prelude.{ℕ, Bool, true, false, not, List, [], ◌∷◌, ◌||◌}
use Prim.Native.String.{String}
use text.Mathlib.Text.{◌==◌}

-- The constants of type Op, in their order.
pub data Op : Type 0 where
  invalid copy phi param const32 const64 const_f32 const_f64 add32 add64 sub32 sub64 mul32 mul64 :
      Op
  div_s32 div_s64 div_u32 div_u64 rem_s32 rem_s64 rem_u32 rem_u64 and32 and64 or32 or64 xor32 : Op
  xor64 shl32 shl64 shr_s32 shr_s64 shr_u32 shr_u64 eq32 eq64 ne32 ne64 lt_s32 lt_s64 lt_u32 : Op
  lt_u64 le_s32 le_s64 le_u32 le_u64 add_f32 add_f64 sub_f32 sub_f64 mul_f32 mul_f64 div_f32 : Op
  div_f64 extend32_to64_s extend32_to64_u trunc64_to32 load8_u load8_s load16_u load16_s load32 : Op
  load32_u load32_s load64 load_f32 load_f64 store8 store16 store32 store64 store_f32 store_f64 : Op
  global_get global_set local_get local_set call_direct call_indirect call_import select : Op
  unreachable helper_call atomic_call mem_size mem_grow memory_copy memory_fill memory_init : Op
  data_drop catch_arg exc_pending exc_tag exc_val exc_raise exc_rearm exc_clear simd_const : Op
  simd_call simd_mem_call : Op

-- Op.IsConstant
unfoldable pub is_constant : Op → Bool
is_constant const32 = true
is_constant const64 = true
is_constant const_f32 = true
is_constant const_f64 = true
is_constant _ = false

-- Op.IsCommutative
unfoldable pub is_commutative : Op → Bool
is_commutative add32 = true
is_commutative add64 = true
is_commutative mul32 = true
is_commutative mul64 = true
is_commutative and32 = true
is_commutative and64 = true
is_commutative or32 = true
is_commutative or64 = true
is_commutative xor32 = true
is_commutative xor64 = true
is_commutative eq32 = true
is_commutative eq64 = true
is_commutative ne32 = true
is_commutative ne64 = true
is_commutative add_f32 = true
is_commutative add_f64 = true
is_commutative mul_f32 = true
is_commutative mul_f64 = true
is_commutative _ = false

-- Op.HasSideEffect
unfoldable pub op_has_side_effect : Op → Bool
op_has_side_effect store8 = true
op_has_side_effect store16 = true
op_has_side_effect store32 = true
op_has_side_effect store64 = true
op_has_side_effect store_f32 = true
op_has_side_effect store_f64 = true
op_has_side_effect global_set = true
op_has_side_effect local_set = true
op_has_side_effect call_direct = true
op_has_side_effect call_indirect = true
op_has_side_effect call_import = true
op_has_side_effect helper_call = true
op_has_side_effect atomic_call = true
op_has_side_effect simd_mem_call = true
op_has_side_effect exc_raise = true
op_has_side_effect exc_rearm = true
op_has_side_effect exc_clear = true
op_has_side_effect unreachable = true
op_has_side_effect mem_grow = true
op_has_side_effect memory_copy = true
op_has_side_effect memory_fill = true
op_has_side_effect memory_init = true
op_has_side_effect data_drop = true
op_has_side_effect _ = false

-- The larger immediate: a helper or callee name, a wasm type index, an import, or two words. There is
-- no form for the boxed float that the comments on OpConstF32 and OpConstF64 name: internal/lower
-- sets only AuxInt, the bits of the float.
pub data Aux : Type 0 where
  absent : Aux
  name : String → Aux
  index : ℕ → Aux
  import_of : String → String → Aux
  words : ℕ → ℕ → Aux

-- pureHelperNames
abbrev pub pure_helper_names : List String
pure_helper_names =
    "i32_eqz" ∷ "i64_eqz" ∷ "i32_clz" ∷ "i32_ctz" ∷ "i32_popcnt" ∷ "i64_clz" ∷ "i64_ctz"
    ∷ "i64_popcnt" ∷ "i32_rotl" ∷ "i32_rotr" ∷ "i64_rotl" ∷ "i64_rotr" ∷ "f32_abs" ∷ "f32_neg"
    ∷ "f32_ceil" ∷ "f32_floor" ∷ "f32_trunc" ∷ "f32_nearest" ∷ "f32_sqrt" ∷ "f64_abs" ∷ "f64_neg"
    ∷ "f64_ceil" ∷ "f64_floor" ∷ "f64_trunc" ∷ "f64_nearest" ∷ "f64_sqrt" ∷ "f32_add" ∷ "f32_sub"
    ∷ "f32_mul" ∷ "f32_div" ∷ "f32_min" ∷ "f32_max" ∷ "f32_copysign" ∷ "f64_add" ∷ "f64_sub"
    ∷ "f64_mul" ∷ "f64_div" ∷ "f64_min" ∷ "f64_max" ∷ "f64_copysign" ∷ "f32_eq" ∷ "f32_ne"
    ∷ "f32_lt" ∷ "f32_gt" ∷ "f32_le" ∷ "f32_ge" ∷ "f64_eq" ∷ "f64_ne" ∷ "f64_lt" ∷ "f64_gt"
    ∷ "f64_le" ∷ "f64_ge" ∷ "i32_wrap_i64" ∷ "i64_extend_i32_s" ∷ "i64_extend_i32_u"
    ∷ "f32_convert_i32_s" ∷ "f32_convert_i32_u" ∷ "f32_convert_i64_s" ∷ "f32_convert_i64_u"
    ∷ "f32_demote_f64" ∷ "f64_convert_i32_s" ∷ "f64_convert_i32_u" ∷ "f64_convert_i64_s"
    ∷ "f64_convert_i64_u" ∷ "f64_promote_f32" ∷ "i32_reinterpret_f32" ∷ "i64_reinterpret_f64"
    ∷ "f32_reinterpret_i32" ∷ "f64_reinterpret_i64" ∷ "i32_extend8_s" ∷ "i32_extend16_s"
    ∷ "i64_extend8_s" ∷ "i64_extend16_s" ∷ "i64_extend32_s" ∷ "i32_trunc_sat_f32_s"
    ∷ "i32_trunc_sat_f32_u" ∷ "i32_trunc_sat_f64_s" ∷ "i32_trunc_sat_f64_u" ∷ "i64_trunc_sat_f32_s"
    ∷ "i64_trunc_sat_f32_u" ∷ "i64_trunc_sat_f64_s" ∷ "i64_trunc_sat_f64_u" ∷ []

abbrev listed : String → List String → Bool
listed s [] = false
listed s (x ∷ xs) = (s == x) || listed s xs

-- Value.HasSideEffect: a helper call has an effect unless the helper is known to be pure.
unfoldable pub has_side_effect : Op → Aux → Bool
unfolding op_has_side_effect
has_side_effect atomic_call aux = true
has_side_effect helper_call (name s) = not (listed s pure_helper_names)
has_side_effect helper_call aux = true
has_side_effect op aux = op_has_side_effect op
