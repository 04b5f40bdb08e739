-- ===== src/Wasm/Leb128/Total.antt =====
-- The LEB128 readers and writers end, and the readers' values fit their types.
use wasm2go.Prelude.{
  ℕ, zero, suc, ◌+◌, ◌-◌, ◌^◌, ◌≡◌, ◌≢◌, bit_and, bit_or, List, [], ◌∷◌, ltb, Bool-cases, inl, inr,
  arith,
}
use native.Mathlib.Nat.{one-le-pow}
use wasm2go.Prelude.Int.{pos, negsuc}
use wasm2go.Prelude.Bits.{bit_or-lt}
use wasm2go.Wasm.Reader.{ok, stuck, leb128_overflow, IsU32, IsU64}
use wasm2go.Wasm.Reader.Total.{
  Total, Total-bind, Total-pure, Total-fail, Total-if, Total-refuse_if, Total-read_full,
}
use wasm2go.Wasm.Leb128.{
  read_u64_loop, read_u64, read_u32, read_s64_bits_loop, read_s64, read_s32, read_byte_vec,
  read_name, leb128_byte, shl64, write_uleb, write_sleb,
}
use wasm2go.Wasm.Leb128.Encoding.{write_uleb-uleb}
use wasm2go.Wasm.Leb128.Signed.Write.{write_sleb-sleb}

Total-leb128_byte : Total leb128_byte
unfolding leb128_byte
Total-leb128_byte = record { on = go }
  where
    go : (bs : List ℕ) → leb128_byte bs ≢ stuck
    go [] h = cc
    go (b ∷ bs) h = cc

ruleset rules = (Total-bind, Total-pure, Total-fail, Total-if, Total-refuse_if, Total-read_full)

Total-read_u64_loop : (n i s result : ℕ) → Total (read_u64_loop n i s result)
unfolding read_u64_loop
Total-read_u64_loop zero i s result = Total-fail leb128_overflow
Total-read_u64_loop (suc n) i s result =
    search (rules, Total-leb128_byte, Total-read_u64_loop n) depth 9

pub Total-read_u64 : Total read_u64
unfolding read_u64
Total-read_u64 = Total-read_u64_loop 10 0 0 0

pub Total-read_u32 : Total read_u32
unfolding read_u32
Total-read_u32 = search (rules, Total-read_u64)

Total-read_s64_bits_loop : (bits n s result : ℕ) → Total (read_s64_bits_loop bits n s result)
unfolding read_s64_bits_loop
Total-read_s64_bits_loop bits zero s result = Total-fail leb128_overflow
Total-read_s64_bits_loop bits (suc n) s result =
    search (rules, Total-leb128_byte, Total-read_s64_bits_loop bits n) depth 9

pub Total-read_s64 : Total read_s64
unfolding read_s64
Total-read_s64 = Total-read_s64_bits_loop 64 10 0 0

pub Total-read_s32 : Total read_s32
unfolding read_s32
Total-read_s32 = search (rules, Total-read_s64_bits_loop 32 10 0 0)

pub Total-read_byte_vec : Total read_byte_vec
unfolding read_byte_vec
Total-read_byte_vec = search (rules, Total-read_u32)

pub Total-read_name : Total read_name
unfolding read_name
Total-read_name = search (rules, Total-read_byte_vec)

pub read_u32-IsU32 : (bs : List ℕ) (v : ℕ) (rest : List ℕ) → read_u32 bs ≡ ok (v, rest) → IsU32 v
unfolding read_u32
read_u32-IsU32 bs v rest h = ground arith

pub read_s32-IsU32 : (bs : List ℕ) (v : ℕ) (rest : List ℕ) → read_s32 bs ≡ ok (v, rest) → IsU32 v
unfolding read_s32
read_s32-IsU32 bs v rest h = ground arith

or_sign-IsU64 : (r s : ℕ) → IsU64 r → IsU64 (bit_or r (2 ^ 64 - 2 ^ s))
or_sign-IsU64 r s h =
    bit_or-lt 64 r (2 ^ 64 - 2 ^ s) h (omega (arith, one-le-pow s 2 (omega arith)))

read_s64_bits_loop-IsU64 :
    (bits n s result : ℕ) (bs : List ℕ) (v : ℕ) (rest : List ℕ)
    → IsU64 result
    → read_s64_bits_loop bits n s result bs ≡ ok (v, rest)
    → IsU64 v
unfolding read_s64_bits_loop
read_s64_bits_loop-IsU64 bits zero s result bs v rest hr h = cc
read_s64_bits_loop-IsU64 bits (suc n) s result [] v rest hr h = cc
read_s64_bits_loop-IsU64 bits (suc n) s result (b ∷ bs) v rest hr h =
    let next : ℕ = bit_or result (shl64 (bit_and b 0x7f) s) in
    let fits : IsU64 next = bit_or-lt 64 result (shl64 (bit_and b 0x7f) s) hr (omega arith) in
    ground (
      arith,
      or_sign-IsU64 next (s + 7) fits,
      read_s64_bits_loop-IsU64 bits n (s + 7) next bs v rest fits,
    )

pub read_s64-IsU64 : (bs : List ℕ) (v : ℕ) (rest : List ℕ) → read_s64 bs ≡ ok (v, rest) → IsU64 v
unfolding read_s64
read_s64-IsU64 bs v rest h = read_s64_bits_loop-IsU64 64 10 0 0 bs v rest (omega arith) h

-- On a uint64 and on the pattern of an int64 the writers return a buffer.
pub write_uleb-ne-stuck : (buf : List ℕ) (v : ℕ) → IsU64 v → write_uleb buf v ≢ stuck
write_uleb-ne-stuck buf v h = λ q. cc (write_uleb-uleb buf v h)

pub write_sleb-ne-stuck : (buf : List ℕ) (v : ℕ) → IsU64 v → write_sleb buf v ≢ stuck
write_sleb-ne-stuck buf v h = elim (Bool-cases (ltb v (2 ^ 63))) [
  | inl t ↦ λ q. cc (write_sleb-sleb buf (pos v) (ground arith))
  | inr t ↦
      let e : v ≡ 2 ^ 64 - 1 - (2 ^ 64 - 1 - v) = omega arith in
      let w = write_sleb-sleb buf (negsuc (2 ^ 64 - 1 - v)) (ground arith) in λ q. cc (w, e)
]
