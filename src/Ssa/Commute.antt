-- ===== src/Ssa/Commute.antt =====
-- The operations that IsCommutative lists, against the integer operators of WebAssembly.
use wasm2go.Prelude.{ℕ, ◌-◌, ◌%◌, ◌^◌, true, ◌==◌, some, ◌≡◌, ap, arith}
use native.Mathlib.Nat.{mul_comm}
use wasm2go.Prelude.Bits.{bit_and_comm, bit_or_comm, bit_xor_comm}
use wasm2go.Ssa.Op.{
  Op, is_commutative, add32, add64, mul32, mul64, and32, and64, or32, or64, xor32, xor64, eq32,
  eq64, ne32, ne64,
}
use wasm2go.Ssa.Meaning.{binary, apply2, number}

eq_comm : (a b : ℕ) → (a == b) ≡ (b == a)
eq_comm a b = ground arith

-- For an operation that IsCommutative lists, the integer operator of WebAssembly, where it has
-- one, gives the same for its two operands in either order.
pub is_commutative-binary :
    (op : Op) (a b : ℕ) → is_commutative op ≡ true → apply2 (binary op) a b ≡ apply2 (binary op) b a
unfolding is_commutative binary
is_commutative-binary add32 a b h = ap some (omega arith)
is_commutative-binary add64 a b h = ap some (omega arith)
is_commutative-binary mul32 a b h = ap (λ x. some (x % 2 ^ 32)) (mul_comm a b)
is_commutative-binary mul64 a b h = ap (λ x. some (x % 2 ^ 64)) (mul_comm a b)
is_commutative-binary and32 a b h = ap some (bit_and_comm a b)
is_commutative-binary and64 a b h = ap some (bit_and_comm a b)
is_commutative-binary or32 a b h = ap some (bit_or_comm a b)
is_commutative-binary or64 a b h = ap some (bit_or_comm a b)
is_commutative-binary xor32 a b h = ap some (bit_xor_comm a b)
is_commutative-binary xor64 a b h = ap some (bit_xor_comm a b)
is_commutative-binary eq32 a b h = ap (λ t. some (number t)) (eq_comm a b)
is_commutative-binary eq64 a b h = ap (λ t. some (number t)) (eq_comm a b)
is_commutative-binary ne32 a b h = ap (λ t. some (1 - number t)) (eq_comm a b)
is_commutative-binary ne64 a b h = ap (λ t. some (1 - number t)) (eq_comm a b)
is_commutative-binary _ a b h = cc
