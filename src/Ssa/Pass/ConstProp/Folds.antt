-- ===== src/Ssa/Pass/ConstProp/Folds.antt =====
-- foldValue's switch, operation by operation, against the operators of WebAssembly.
use wasm2go.Prelude.{
  ℕ, ◌-◌, ◌%◌, ◌^◌, ◌<◌, ◌≡◌, refl, ap, ◌∙◌, Bool, true, false, not, ◌==◌, if◌then◌else◌, Option,
  none, some, arith, bit_and,
}
use wasm2go.Prelude.Bits.{bit_and-lt, bit_or-lt, bit_xor-lt}
use native.Mathlib.Nat.{div-le_self, mod-eq_of_lt}
use wasm2go.Wasm.Leb128.{sar64}
use wasm2go.Ssa.Op.{
  Op, add32, add64, sub32, sub64, mul32, mul64, and32, and64, or32, or64, xor32, xor64, shl32,
  shl64, shr_s32, shr_s64, shr_u32, shr_u64, eq32, eq64, ne32, ne64, lt_s32, lt_s64, lt_u32, lt_u64,
  le_s32, le_s64, le_u32, le_u64,
}
use wasm2go.Ssa.Types.{ValueType, i32, i64, bool}
use wasm2go.Ssa.Meaning.{number, binary, apply2, ishr_s}
use wasm2go.Ssa.Pass.ConstProp.{int32, fold_binary, Folded, word, truth, unknown}
use wasm2go.Ssa.Pass.ConstProp.Words.{
  add_low, sub_low, mul_low, and_low, or_low, xor_low, shl_low, shr_u_low, shr_s_low, less_low,
  eq_low, int32-low, int32-lt, mask63, sar64_lem, sar64-lt, less_lem,
}

-- The width of the operands of an integer operation on two words, and the type of its result.
unfoldable pub binary_width : Op → ℕ
binary_width add32 = 32
binary_width sub32 = 32
binary_width mul32 = 32
binary_width and32 = 32
binary_width or32 = 32
binary_width xor32 = 32
binary_width shl32 = 32
binary_width shr_s32 = 32
binary_width shr_u32 = 32
binary_width eq32 = 32
binary_width ne32 = 32
binary_width lt_s32 = 32
binary_width lt_u32 = 32
binary_width le_s32 = 32
binary_width le_u32 = 32
binary_width add64 = 64
binary_width sub64 = 64
binary_width mul64 = 64
binary_width and64 = 64
binary_width or64 = 64
binary_width xor64 = 64
binary_width shl64 = 64
binary_width shr_s64 = 64
binary_width shr_u64 = 64
binary_width eq64 = 64
binary_width ne64 = 64
binary_width lt_s64 = 64
binary_width lt_u64 = 64
binary_width le_s64 = 64
binary_width le_u64 = 64
binary_width _ = 0

unfoldable pub binary_type : Op → Option ValueType
binary_type add32 = some i32
binary_type add64 = some i64
binary_type sub32 = some i32
binary_type sub64 = some i64
binary_type mul32 = some i32
binary_type mul64 = some i64
binary_type and32 = some i32
binary_type and64 = some i64
binary_type or32 = some i32
binary_type or64 = some i64
binary_type xor32 = some i32
binary_type xor64 = some i64
binary_type shl32 = some i32
binary_type shl64 = some i64
binary_type shr_s32 = some i32
binary_type shr_s64 = some i64
binary_type shr_u32 = some i32
binary_type shr_u64 = some i64
binary_type eq32 = some bool
binary_type eq64 = some bool
binary_type ne32 = some bool
binary_type ne64 = some bool
binary_type lt_s32 = some bool
binary_type lt_s64 = some bool
binary_type lt_u32 = some bool
binary_type lt_u64 = some bool
binary_type le_s32 = some bool
binary_type le_s64 = some bool
binary_type le_u32 = some bool
binary_type le_u64 = some bool
binary_type _ = none

-- What the switch may leave for an operation of width `w` and type `typ` that means `x`.
abbrev pub Means : ℕ → Option ValueType → Folded → Option ℕ → Type 0
Means w typ (word n) (some x) =
    (n % 2 ^ w ≡ x) × (n < 2 ^ 64) × (typ ≡ (if w == 32 then some i32 else some i64))
Means w typ (word n) none = ⊥
Means w typ (truth t) (some x) = (number t ≡ x) × (typ ≡ some bool)
Means w typ (truth t) none = ⊥
Means w typ unknown m = ⊥

number-not : (a b : Bool) → a ≡ b → number (not a) ≡ number (not b)
number-not a b h = ap (λ c. number (not c)) h

number-opposite : (t : Bool) → number (not t) ≡ 1 - number t
number-opposite true = refl
number-opposite false = refl

shr_s_full :
    (x y : ℕ)
    → x < 2 ^ 64
    → (sar64 x (bit_and y 63) % 2 ^ 64 ≡ ishr_s 64 x y)
      × (sar64 x (bit_and y 63) < 2 ^ 64)
      × (some i64 ≡ some i64)
shr_s_full x y hx =
    let low = sar64-lt x (y % 64) hx in
    rw (mask63 y) (mod-eq_of_lt low ∙ sar64_lem x (y % 64) hx, low, refl)

pub fold_binary-32 :
    (op : Op) (x y : ℕ)
    → binary_width op ≡ 32
    → Means 32
        (binary_type op)
        (fold_binary op (int32 x) (int32 y))
        (apply2 (binary op) (x % 2 ^ 32) (y % 2 ^ 32))
unfolding binary_width binary_type fold_binary binary
fold_binary-32 add32 x y h = (add_low x y, omega arith, refl)
fold_binary-32 sub32 x y h = (sub_low x y, omega arith, refl)
fold_binary-32 mul32 x y h = (mul_low x y, omega arith, refl)
fold_binary-32 and32 x y h = (and_low x y, bit_and-lt 64 _ _ (int32-lt x) (int32-lt y), refl)
fold_binary-32 or32 x y h = (or_low x y, bit_or-lt 64 _ _ (int32-lt x) (int32-lt y), refl)
fold_binary-32 xor32 x y h = (xor_low x y, bit_xor-lt 64 _ _ (int32-lt x) (int32-lt y), refl)
fold_binary-32 shl32 x y h = (shl_low x y, int32-lt _, refl)
fold_binary-32 shr_s32 x y h = (shr_s_low x y, sar64-lt _ _ (int32-lt _), refl)
fold_binary-32 shr_u32 x y h = (
  shr_u_low x y,
  omega (arith, div-le_self (int32 x % 2 ^ 32) (2 ^ bit_and (int32 y % 2 ^ 32) 31)),
  refl,
)
fold_binary-32 eq32 x y h = (ap number (eq_low x y), refl)
fold_binary-32 ne32 x y h = (number-opposite _ ∙ ap (λ t. 1 - number t) (eq_low x y), refl)
fold_binary-32 lt_s32 x y h = (ap number (less_low x y), refl)
fold_binary-32 lt_u32 x y h = (rw (int32-low x, int32-low y), refl)
fold_binary-32 le_s32 x y h = (number-not _ _ (less_low y x), refl)
fold_binary-32 le_u32 x y h = (rw (int32-low x, int32-low y), refl)
fold_binary-32 _ x y h = absurd (omega arith)

pub fold_binary-64 :
    (op : Op) (x y : ℕ)
    → binary_width op ≡ 64
    → x < 2 ^ 64
    → y < 2 ^ 64
    → Means 64 (binary_type op) (fold_binary op x y) (apply2 (binary op) x y)
unfolding binary_width binary_type fold_binary binary
fold_binary-64 add64 x y h hx hy = (omega arith, omega arith, refl)
fold_binary-64 sub64 x y h hx hy = (omega arith, omega arith, refl)
fold_binary-64 mul64 x y h hx hy = (omega arith, omega arith, refl)
fold_binary-64 and64 x y h hx hy =
    (omega (arith, bit_and-lt 64 x y hx hy), bit_and-lt 64 x y hx hy, refl)
fold_binary-64 or64 x y h hx hy =
    (omega (arith, bit_or-lt 64 x y hx hy), bit_or-lt 64 x y hx hy, refl)
fold_binary-64 xor64 x y h hx hy =
    (omega (arith, bit_xor-lt 64 x y hx hy), bit_xor-lt 64 x y hx hy, refl)
fold_binary-64 shl64 x y h hx hy = (rw (mask63 y) (omega arith), omega arith, refl)
fold_binary-64 shr_s64 x y h hx hy = shr_s_full x y hx
fold_binary-64 shr_u64 x y h hx hy = (
  rw (mask63 y) (omega (arith, div-le_self x (2 ^ (y % 64)))),
  omega (arith, div-le_self x (2 ^ bit_and y 63)),
  refl,
)
fold_binary-64 eq64 x y h hx hy = (refl, refl)
fold_binary-64 ne64 x y h hx hy = (number-opposite _, refl)
fold_binary-64 lt_s64 x y h hx hy = (ap number (less_lem x y hx hy), refl)
fold_binary-64 lt_u64 x y h hx hy = (refl, refl)
fold_binary-64 le_s64 x y h hx hy = (number-not _ _ (less_lem y x hy hx), refl)
fold_binary-64 le_u64 x y h hx hy = (refl, refl)
fold_binary-64 _ x y h hx hy = absurd (omega arith)
