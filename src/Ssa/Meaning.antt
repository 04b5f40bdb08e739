-- ===== src/Ssa/Meaning.antt =====
-- The integer operators of WebAssembly on bit patterns, as the specification defines them, and what
-- the integer operations of the SSA form compute.
use wasm2go.Prelude.{
  ℕ, ◌+◌, ◌-◌, ◌*◌, ◌/◌, ◌%◌, ◌^◌, bit_and, bit_or, bit_xor, Bool, true, false, not, Option, none,
  some, List, [], ◌∷◌, ltb, leb, ◌==◌, ◌≡◌, if◌then◌else◌,
}
use wasm2go.Prelude.Int.{ℤ, pos, negsuc}
use wasm2go.Ssa.Op.{
  Op, copy, const32, const64, add32, add64, sub32, sub64, mul32, mul64, and32, and64, or32, or64,
  xor32, xor64, shl32, shl64, shr_s32, shr_s64, shr_u32, shr_u64, eq32, eq64, ne32, ne64, lt_s32,
  lt_s64, lt_u32, lt_u64, le_s32, le_s64, le_u32, le_u64, extend32_to64_s, extend32_to64_u,
  trunc64_to32,
}
use wasm2go.Ssa.Func.{Value, Func}

-- The integer that a pattern of `w` bits stands for, and the pattern of an integer.
abbrev pub signed : ℕ → ℕ → ℤ
signed w x = if ltb x (2 ^ (w - 1)) then pos x else negsuc (2 ^ w - 1 - x)

abbrev pub pattern_of : ℕ → ℤ → ℕ
pattern_of w (pos m) = m
pattern_of w (negsuc m) = 2 ^ w - 1 - m

abbrev pub shift_right : ℤ → ℕ → ℤ
shift_right (pos m) k = pos (m / 2 ^ k)
shift_right (negsuc m) k = negsuc (m / 2 ^ k)

abbrev pub lt_int : ℤ → ℤ → Bool
lt_int (pos a) (pos b) = ltb a b
lt_int (pos a) (negsuc b) = false
lt_int (negsuc a) (pos b) = true
lt_int (negsuc a) (negsuc b) = ltb b a

abbrev pub number : Bool → ℕ
number true = 1
number false = 0

-- The operators at width `w`; a comparison gives 1 or 0.
abbrev pub iadd : ℕ → ℕ → ℕ → ℕ
iadd w a b = (a + b) % 2 ^ w

abbrev pub isub : ℕ → ℕ → ℕ → ℕ
isub w a b = (a + 2 ^ w - b) % 2 ^ w

abbrev pub imul : ℕ → ℕ → ℕ → ℕ
imul w a b = a * b % 2 ^ w

abbrev pub ishl : ℕ → ℕ → ℕ → ℕ
ishl w a b = a * 2 ^ (b % w) % 2 ^ w

abbrev pub ishr_u : ℕ → ℕ → ℕ → ℕ
ishr_u w a b = a / 2 ^ (b % w)

abbrev pub ishr_s : ℕ → ℕ → ℕ → ℕ
ishr_s w a b = pattern_of w (shift_right (signed w a) (b % w))

abbrev pub ilt_s : ℕ → ℕ → ℕ → ℕ
ilt_s w a b = number (lt_int (signed w a) (signed w b))

abbrev pub ile_s : ℕ → ℕ → ℕ → ℕ
ile_s w a b = number (not (lt_int (signed w b) (signed w a)))

abbrev pub ilt_u : ℕ → ℕ → ℕ
ilt_u a b = number (ltb a b)

abbrev pub ile_u : ℕ → ℕ → ℕ
ile_u a b = number (leb a b)

abbrev pub ieq : ℕ → ℕ → ℕ
ieq a b = number (a == b)

-- What an operation on two integers computes.
unfoldable pub binary : Op → Option (ℕ → ℕ → ℕ)
binary add32 = some (iadd 32)
binary add64 = some (iadd 64)
binary sub32 = some (isub 32)
binary sub64 = some (isub 64)
binary mul32 = some (imul 32)
binary mul64 = some (imul 64)
binary and32 = some bit_and
binary and64 = some bit_and
binary or32 = some bit_or
binary or64 = some bit_or
binary xor32 = some bit_xor
binary xor64 = some bit_xor
binary shl32 = some (ishl 32)
binary shl64 = some (ishl 64)
binary shr_s32 = some (ishr_s 32)
binary shr_s64 = some (ishr_s 64)
binary shr_u32 = some (ishr_u 32)
binary shr_u64 = some (ishr_u 64)
binary eq32 = some ieq
binary eq64 = some ieq
binary ne32 = some (λ a b. 1 - ieq a b)
binary ne64 = some (λ a b. 1 - ieq a b)
binary lt_s32 = some (ilt_s 32)
binary lt_s64 = some (ilt_s 64)
binary lt_u32 = some ilt_u
binary lt_u64 = some ilt_u
binary le_s32 = some (ile_s 32)
binary le_s64 = some (ile_s 64)
binary le_u32 = some ile_u
binary le_u64 = some ile_u
binary _ = none

-- What an operation on one integer computes.
unfoldable pub unary : Op → Option (ℕ → ℕ)
unary extend32_to64_s = some (λ a. pattern_of 64 (signed 32 a))
unary extend32_to64_u = some (λ a. a)
unary trunc64_to32 = some (λ a. a % 2 ^ 32)
unary copy = some (λ a. a)
unary _ = none

abbrev pub apply1 {ℓ κ} : {A : Type ℓ} {B : Type κ} → Option (A → B) → A → Option B
apply1 none a = none
apply1 (some g) a = some (g a)

abbrev pub apply2 {ℓ κ} : {A : Type ℓ} {B : Type κ} → Option (A → A → B) → A → A → Option B
apply2 none a b = none
apply2 (some g) a b = some (g a b)

abbrev pub combine : Op → (ℕ → ℕ) → List ℕ → Option ℕ
combine op env (a ∷ []) = apply1 (unary op) (env a)
combine op env (a ∷ b ∷ []) = apply2 (binary op) (env a) (env b)
combine op env _ = none

-- The number that a value computes, where its operation fixes one; `env` holds those of its operands.
unfoldable pub denote : Op → ℕ → (ℕ → ℕ) → List ℕ → Option ℕ
unfolding unary binary
denote const32 aux_int env args = some (aux_int % 2 ^ 32)
denote const64 aux_int env args = some aux_int
denote op aux_int env args = combine op env args

abbrev pub meaning : (ℕ → ℕ) → Value → Option ℕ
meaning env v = denote v.op v.aux_int env v.args

-- `env` gives every value of the function the number that it computes.
pub record Agrees (f : Func) (env : ℕ → ℕ) : Type 0 where
  pub at : (id x : ℕ) → meaning env (f.value_of id) ≡ some x → env id ≡ x
