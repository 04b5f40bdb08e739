-- ===== src/Wasm/Leb128/Bytes.antt =====
-- The masks that LEB128 code applies to a byte, as arithmetic.
use wasm2go.Prelude.{
  ℕ, zero, suc, ◌+◌, ◌*◌, ◌/◌, ◌%◌, ◌<◌, bit_and, bit_or, ◌≡◌, refl, Bool, true, ◌&&◌, ◌==◌, arith,
}
use wasm2go.Prelude.Bits.{bit_and_mask}

-- Two functions with the same values at the bytes below a bound.
module _ (f g : ℕ → ℕ) where
  same_up_to : ℕ → Bool
  same_up_to zero = true
  same_up_to (suc top) = (f top == g top) && same_up_to top

  same_value : (top x : ℕ) → x < top → same_up_to top ≡ true → f x ≡ g x
  unfolding same_up_to
  same_value zero x below test = absurd (omega arith)
  same_value (suc top) x below test = ground (arith, same_value top x)

  agree_below : (top : ℕ) → same_up_to top ≡ true → (x : ℕ) → x < top → f x ≡ g x
  agree_below top table x below = same_value top x below table

pub low_seven : (b : ℕ) → bit_and b 0x7f ≡ b % 128
low_seven b = bit_and_mask 7 b

pub top_bit : (b : ℕ) → b < 256 → bit_and b 0x80 ≡ b / 128 * 128
unfolding same_up_to
top_bit = agree_below _ _ 256 refl

pub bit_six : (b : ℕ) → b < 256 → bit_and b 0x40 ≡ b / 64 % 2 * 64
unfolding same_up_to
bit_six = agree_below _ _ 256 refl

pub set_top_bit : (b : ℕ) → b < 128 → bit_or b 0x80 ≡ b + 128
unfolding same_up_to
set_top_bit = agree_below _ _ 128 refl

-- The masks of the sign test: bits 4 to 6, and bits 1 to 6.
pub bits_from_four : (b : ℕ) → b < 256 → bit_and b 0x70 ≡ b / 16 % 8 * 16
unfolding same_up_to
bits_from_four = agree_below _ _ 256 refl

pub bits_from_one : (b : ℕ) → b < 256 → bit_and b 0x7e ≡ b / 2 % 64 * 2
unfolding same_up_to
bits_from_one = agree_below _ _ 256 refl

pub low_bit : (a : ℕ) → bit_and a 1 ≡ a % 2
low_bit a = bit_and_mask 1 a
