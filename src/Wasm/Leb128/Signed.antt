-- ===== src/Wasm/Leb128/Signed.antt =====
-- Signed LEB128 over the integers: the description that readS64Bits and writeSLEB are held to.
pub mod Sign
pub mod Rounds
pub mod Read
pub mod Write
pub mod Range
use wasm2go.Prelude.{ℕ, ◌+◌, ◌-◌, ◌*◌, ◌^◌, ◌<◌, List, [], ◌∷◌}
use wasm2go.Prelude.Int.{ℤ, pos, negsuc}

-- `Sleb bs z`: groups of seven bits, lowest first; the last byte stands for -64 to 63, and a byte
-- before it with the group `g` stands for g + 128 * z.
pub data Sleb : List ℕ → ℤ → Type 0 where
  last_pos : {b : ℕ} → b < 64 → Sleb (b ∷ []) (pos b)
  last_neg : {m : ℕ} → m < 64 → Sleb ((127 - m) ∷ []) (negsuc m)
  more_pos :
      {g m : ℕ} {bs : List ℕ}
      → g < 128
      → Sleb bs (pos m)
      → Sleb ((g + 128) ∷ bs) (pos (g + 128 * m))
  more_neg :
      {g m : ℕ} {bs : List ℕ}
      → g < 128
      → Sleb bs (negsuc m)
      → Sleb ((255 - g) ∷ bs) (negsuc (g + 128 * m))

-- The bit pattern of an int64, and of an int32.
abbrev pub pattern64 : ℤ → ℕ
pattern64 (pos m) = m
pattern64 (negsuc m) = 2 ^ 64 - 1 - m

abbrev pub pattern32 : ℤ → ℕ
pattern32 (pos m) = m
pattern32 (negsuc m) = 2 ^ 32 - 1 - m

-- The range of a signed integer of `w + 1` bits.
abbrev pub IsInt : ℕ → ℤ → Type 0
IsInt w (pos m) = m < 2 ^ w
IsInt w (negsuc m) = m < 2 ^ w
