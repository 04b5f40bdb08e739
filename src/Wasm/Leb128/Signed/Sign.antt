-- ===== src/Wasm/Leb128/Signed/Sign.antt =====
-- The sign test of readS64Bits: on an integer in range it refuses no byte, at 32 and at 64 bits.
use wasm2go.Prelude.{
  ℕ, zero, suc, ◌+◌, ◌-◌, ◌*◌, ◌/◌, ◌%◌, ◌^◌, ◌≤◌, ◌<◌, ◌≡◌, false, ◌&&◌, ltb, arith,
}
use wasm2go.Wasm.Leb128.{shl64, sar64, bad_sign_bits}
use wasm2go.Wasm.Leb128.Bytes.{low_seven, bits_from_four, bits_from_one, low_bit}

-- The sign test of a round, on the byte `b` and the value assembled with it.
abbrev pub SignOk : ℕ → ℕ → ℕ → ℕ → Type 0
SignOk bits s result b = (ltb bits (s + 7) && bad_sign_bits bits s result b) ≡ false

pub sign_pos32 :
    (i result b : ℕ)
    → i ≤ 9
    → b < 256
    → result < 2 ^ (7 * i)
    → result + b % 128 * 2 ^ (7 * i) < 2 ^ 31
    → SignOk 32 (7 * i) (result + b % 128 * 2 ^ (7 * i)) b
unfolding bad_sign_bits
sign_pos32 (suc (suc (suc (suc (suc (suc (suc (suc (suc zero))))))))) result b hi hb hr fits =
    ground (
      arith,
      low_seven b,
      bits_from_four b,
      low_bit (result / 2 ^ 31),
      low_bit ((result + b % 128 * 2 ^ 28) / 2 ^ 31),
    )
sign_pos32 i result b hi hb hr fits = ground (
  arith,
  low_seven b,
  bits_from_four b,
  low_bit (result / 2 ^ 31),
  low_bit ((result + b % 128 * 2 ^ 28) / 2 ^ 31),
)

pub sign_pos64 :
    (i result b : ℕ)
    → i ≤ 9
    → b < 256
    → result < 2 ^ (7 * i)
    → result + b % 128 * 2 ^ (7 * i) < 2 ^ 63
    → SignOk 64 (7 * i) (result + b % 128 * 2 ^ (7 * i)) b
unfolding bad_sign_bits
sign_pos64 (suc (suc (suc (suc (suc (suc (suc (suc (suc zero))))))))) result b hi hb hr fits =
    ground (arith, low_seven b, bits_from_one b, low_bit (result / 2 ^ 63))
sign_pos64 i result b hi hb hr fits = ground arith

-- For a negative integer the complement of what was assembled is small. `assembled` is the value
-- with the byte's group in it, at 64 bits.
abbrev pub Complement : ℕ → ℕ → ℕ → ℕ → Type 0
Complement w s result b = 2 ^ s - 1 - result + (127 - b % 128) * 2 ^ s < 2 ^ w

abbrev pub assembled : ℕ → ℕ → ℕ → ℕ
assembled s result b = result + shl64 (b % 128) s

pub sign_neg32 :
    (i result b : ℕ)
    → i ≤ 9
    → b < 256
    → result < 2 ^ (7 * i)
    → Complement 31 (7 * i) result b
    → SignOk 32 (7 * i) (assembled (7 * i) result b) b
unfolding bad_sign_bits
sign_neg32 (suc (suc (suc (suc (suc (suc (suc (suc (suc zero))))))))) result b hi hb hr fits =
    ground (arith, low_seven b, low_bit (sar64 (assembled 63 result b) 31))
sign_neg32 i result b hi hb hr fits =
    ground (arith, low_seven b, bits_from_four b, low_bit (sar64 (assembled (7 * i) result b) 31))

pub sign_neg64 :
    (i result b : ℕ)
    → i ≤ 9
    → b < 256
    → result < 2 ^ (7 * i)
    → Complement 63 (7 * i) result b
    → SignOk 64 (7 * i) (assembled (7 * i) result b) b
unfolding bad_sign_bits
sign_neg64 (suc (suc (suc (suc (suc (suc (suc (suc (suc zero))))))))) result b hi hb hr fits =
    ground (arith, low_seven b, bits_from_one b, low_bit (sar64 (assembled 63 result b) 63))
sign_neg64 i result b hi hb hr fits = ground arith
