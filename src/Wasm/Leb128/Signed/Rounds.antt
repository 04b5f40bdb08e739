-- ===== src/Wasm/Leb128/Signed/Rounds.antt =====
-- One round of the loop of readS64Bits.
use wasm2go.Prelude.{ℕ, zero, suc, ◌+◌, ◌-◌, ◌*◌, ◌%◌, ◌^◌, ◌≤◌, ◌<◌, ◌≡◌, bit_or, List, ◌∷◌, arith}
use wasm2go.Prelude.Bits.{bit_or_fields}
use wasm2go.Wasm.Reader.{ok}
use wasm2go.Wasm.Leb128.{read_s64_bits_loop, shl64}
use wasm2go.Wasm.Leb128.Bytes.{low_seven, top_bit, bit_six}
use wasm2go.Wasm.Leb128.Signed.Sign.{SignOk, assembled}

-- The OR of a group, and the OR that extends the sign, are additions.
pub or_assembled :
    (i result p : ℕ)
    → i ≤ 9
    → result < 2 ^ (7 * i)
    → bit_or result (shl64 p (7 * i)) ≡ result + shl64 p (7 * i)
or_assembled (suc (suc (suc (suc (suc (suc (suc (suc (suc zero))))))))) result p hi hr =
    ground (arith, bit_or_fields 63 result (p % 2) hr)
or_assembled i result p hi hr =
    ground (arith, bit_or_fields (7 * i) result (p % 2 ^ (64 - 7 * i)) hr)

or_sign :
    (i r : ℕ)
    → i ≤ 8
    → r < 2 ^ (7 * i + 7)
    → bit_or r (2 ^ 64 - 2 ^ (7 * i + 7)) ≡ r + (2 ^ 64 - 2 ^ (7 * i + 7))
or_sign (suc (suc (suc (suc (suc (suc (suc (suc zero)))))))) r hi hr =
    ground (arith, bit_or_fields 63 r 1 hr)
or_sign i r hi hr = ground (arith, bit_or_fields (7 * i + 7) r (2 ^ (57 - 7 * i) - 1) hr)

module _ (bits n i result b : ℕ) (rest : List ℕ) (hi : i ≤ 9) (hr : result < 2 ^ (7 * i))
    (check : SignOk bits (7 * i) (assembled (7 * i) result b) b) where
  pub last_pos_byte :
      b < 64
      → read_s64_bits_loop bits (suc n) (7 * i) result (b ∷ rest)
        ≡ ok (assembled (7 * i) result b, rest)
  unfolding read_s64_bits_loop
  last_pos_byte hb =
      ground
        (arith, low_seven b, top_bit b, bit_six b, or_assembled i result (b % 128) hi hr, check)

  pub inner_byte :
      128 ≤ b
      → b < 256
      → read_s64_bits_loop bits (suc n) (7 * i) result (b ∷ rest)
        ≡ read_s64_bits_loop bits n (7 * i + 7) (assembled (7 * i) result b) rest
  unfolding read_s64_bits_loop
  inner_byte lo hb =
      ground (arith, low_seven b, top_bit b, or_assembled i result (b % 128) hi hr, check)

  -- A last byte with bit 6 set: the sign is extended from the first bit that was not read.
  pub last_neg_byte :
      64 ≤ b
      → b < 128
      → i ≤ 8
      → assembled (7 * i) result b < 2 ^ (7 * i + 7)
      → read_s64_bits_loop bits (suc n) (7 * i) result (b ∷ rest)
        ≡ ok (assembled (7 * i) result b + (2 ^ 64 - 2 ^ (7 * i + 7)), rest)
  unfolding read_s64_bits_loop
  last_neg_byte lo hb early ha = ground (
    arith,
    low_seven b,
    top_bit b,
    bit_six b,
    or_assembled i result (b % 128) hi hr,
    or_sign i (assembled (7 * i) result b) early ha,
    check,
  )

  pub last_neg_tenth :
      64 ≤ b
      → b < 128
      → i ≡ 9
      → read_s64_bits_loop bits (suc n) (7 * i) result (b ∷ rest)
        ≡ ok (assembled (7 * i) result b, rest)
  unfolding read_s64_bits_loop
  last_neg_tenth lo hb e =
      ground (arith, low_seven b, top_bit b, or_assembled i result (b % 128) hi hr, check)
