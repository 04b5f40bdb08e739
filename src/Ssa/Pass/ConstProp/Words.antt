-- ===== src/Ssa/Pass/ConstProp/Words.antt =====
-- The conversions of constprop.go on 32- and 64-bit patterns, against the operators of WebAssembly.
use wasm2go.Prelude.{
  ℕ, ◌+◌, ◌-◌, ◌*◌, ◌/◌, ◌%◌, ◌^◌, ◌<◌, ◌≡◌, bit_and, bit_or, bit_xor, ltb, ◌==◌, if◌then◌else◌,
  arith,
}
use wasm2go.Prelude.Bits.{
  bit_and_mask, and_fields, or_fields, xor_fields, bit_and-lt, bit_or-lt, bit_xor-lt,
}
use wasm2go.Wasm.Leb128.{sar64}
use wasm2go.Ssa.Meaning.{
  signed, pattern_of, shift_right, lt_int, iadd, isub, imul, ishl, ishr_u, ishr_s,
}
use wasm2go.Ssa.Pass.ConstProp.{int32, uint32, less}
use native.Mathlib.Nat.{add-mul-mod_self_right, mul_comm, div-le_self}

abbrev IsU64 : ℕ → Type 0
IsU64 x = x < 2 ^ 64

pub int32-low : (x : ℕ) → int32 x % 2 ^ 32 ≡ x % 2 ^ 32
int32-low x = ground arith

pub int32-lt : (x : ℕ) → int32 x < 2 ^ 64
int32-lt x = ground arith

-- The number of sign-extension carried over the low word.
abbrev high : ℕ → ℕ
high x = if ltb (x % 2 ^ 32) (2 ^ 31) then 0 else 2 ^ 32 - 1

split : (x : ℕ) → int32 x ≡ high x * 2 ^ 32 + x % 2 ^ 32
split x = ground arith

pub add_low : (x y : ℕ) → (int32 x + int32 y) % 2 ^ 64 % 2 ^ 32 ≡ iadd 32 (x % 2 ^ 32) (y % 2 ^ 32)
add_low x y = ground arith

pub sub_low :
    (x y : ℕ) → (int32 x + 2 ^ 64 - int32 y) % 2 ^ 64 % 2 ^ 32 ≡ isub 32 (x % 2 ^ 32) (y % 2 ^ 32)
sub_low x y = ground arith

-- Only the low word of a factor counts for the low word of a product.
low_factor : (q r b n : ℕ) → (q * n + r) * b % n ≡ r * b % n
low_factor q r b n =
    let e : (q * n + r) * b ≡ r * b + q * b * n = grind arith in
    rw e (add-mul-mod_self_right (r * b) (q * b) n)

pub mul_low : (x y : ℕ) → int32 x * int32 y % 2 ^ 64 % 2 ^ 32 ≡ imul 32 (x % 2 ^ 32) (y % 2 ^ 32)
mul_low x y =
    let a = x % 2 ^ 32 in
    let b = y % 2 ^ 32 in
    let left : int32 x * int32 y % 2 ^ 32 ≡ a * int32 y % 2 ^ 32 =
      rw (split x) (low_factor (high x) a (int32 y) (2 ^ 32)) in
    let right : int32 y * a % 2 ^ 32 ≡ b * a % 2 ^ 32 =
      rw (split y) (low_factor (high y) b a (2 ^ 32)) in
    omega (arith, left, right, mul_comm a (int32 y), mul_comm a b)

pub and_low : (x y : ℕ) → bit_and (int32 x) (int32 y) % 2 ^ 32 ≡ bit_and (x % 2 ^ 32) (y % 2 ^ 32)
and_low x y =
    rw
      (
        split x,
        split y,
        and_fields 32 (high x) (high y) (x % 2 ^ 32) (y % 2 ^ 32) (omega arith) (omega arith),
      )
      (omega (arith, bit_and-lt 32 (x % 2 ^ 32) (y % 2 ^ 32) (omega arith) (omega arith)))

pub or_low : (x y : ℕ) → bit_or (int32 x) (int32 y) % 2 ^ 32 ≡ bit_or (x % 2 ^ 32) (y % 2 ^ 32)
or_low x y =
    rw
      (
        split x,
        split y,
        or_fields 32 (high x) (high y) (x % 2 ^ 32) (y % 2 ^ 32) (omega arith) (omega arith),
      )
      (omega (arith, bit_or-lt 32 (x % 2 ^ 32) (y % 2 ^ 32) (omega arith) (omega arith)))

pub xor_low : (x y : ℕ) → bit_xor (int32 x) (int32 y) % 2 ^ 32 ≡ bit_xor (x % 2 ^ 32) (y % 2 ^ 32)
xor_low x y =
    rw
      (
        split x,
        split y,
        xor_fields 32 (high x) (high y) (x % 2 ^ 32) (y % 2 ^ 32) (omega arith) (omega arith),
      )
      (omega (arith, bit_xor-lt 32 (x % 2 ^ 32) (y % 2 ^ 32) (omega arith) (omega arith)))

pub mask31 : (y : ℕ) → bit_and (uint32 (int32 y)) 31 ≡ y % 2 ^ 32 % 32
mask31 y = rw (bit_and_mask 5 (uint32 (int32 y)), int32-low y)

pub mask63 : (y : ℕ) → bit_and y 63 ≡ y % 64
mask63 y = bit_and_mask 6 y

pub shl_low :
    (x y : ℕ)
    → int32 (int32 (int32 x) * 2 ^ bit_and (uint32 (int32 y)) 31) % 2 ^ 32
      ≡ ishl 32 (x % 2 ^ 32) (y % 2 ^ 32)
shl_low x y =
    let k = 2 ^ (y % 2 ^ 32 % 32) in
    let same : int32 (int32 x) ≡ int32 x = ground arith in
    let low : int32 x * k % 2 ^ 32 ≡ x % 2 ^ 32 * k % 2 ^ 32 =
      rw (split x) (low_factor (high x) (x % 2 ^ 32) k (2 ^ 32)) in
    rw (mask31 y, int32-low (int32 (int32 x) * k), same) low

pub shr_u_low :
    (x y : ℕ)
    → (uint32 (int32 x) / 2 ^ bit_and (uint32 (int32 y)) 31) % 2 ^ 32
      ≡ ishr_u 32 (x % 2 ^ 32) (y % 2 ^ 32)
shr_u_low x y =
    let k = 2 ^ (y % 2 ^ 32 % 32) in
    rw (mask31 y, int32-low x) (omega (arith, div-le_self (x % 2 ^ 32) k))

pub shr_s_low :
    (x y : ℕ)
    → sar64 (int32 (int32 x)) (bit_and (uint32 (int32 y)) 31) % 2 ^ 32
      ≡ ishr_s 32 (x % 2 ^ 32) (y % 2 ^ 32)
shr_s_low x y =
    let k = 2 ^ (y % 2 ^ 32 % 32) in
    rw (mask31 y)
      (ground (arith, div-le_self (x % 2 ^ 32) k, div-le_self (2 ^ 32 - 1 - x % 2 ^ 32) k))

pub sar64-lt : (x k : ℕ) → x < 2 ^ 64 → sar64 x k < 2 ^ 64
sar64-lt x k h = ground (arith, div-le_self x (2 ^ k))

pub sar64_lem : (x k : ℕ) → x < 2 ^ 64 → sar64 x k ≡ pattern_of 64 (shift_right (signed 64 x) k)
sar64_lem x k h = ground arith

pub less_lem : (x y : ℕ) → x < 2 ^ 64 → y < 2 ^ 64 → less x y ≡ lt_int (signed 64 x) (signed 64 y)
less_lem x y h k = ground arith

pub less_low :
    (x y : ℕ) → less (int32 x) (int32 y) ≡ lt_int (signed 32 (x % 2 ^ 32)) (signed 32 (y % 2 ^ 32))
less_low x y = ground arith

pub eq_low : (x y : ℕ) → (int32 x == int32 y) ≡ (x % 2 ^ 32 == y % 2 ^ 32)
eq_low x y = ground arith
