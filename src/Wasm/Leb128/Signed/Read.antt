-- ===== src/Wasm/Leb128/Signed/Read.antt =====
-- readS64 and readS32 read back every encoding of an integer in their range.
use wasm2go.Prelude.{
  ℕ, zero, suc, ◌+◌, ◌-◌, ◌*◌, ◌%◌, ◌^◌, ◌≤◌, ◌<◌, ◌≡◌, refl, ap, ◌∙◌, List, ◌∷◌, ◌++◌, length,
  arith, ◌==◌, Bool-cases, inl, inr,
}
use wasm2go.Prelude.Int.{ℤ, pos, negsuc}
use wasm2go.Wasm.Reader.{ok}
use wasm2go.Wasm.Leb128.{read_s64_bits_loop, read_s64, read_s32}
use wasm2go.Wasm.Leb128.Signed.{
  Sleb, last_pos, last_neg, more_pos, more_neg, pattern64, pattern32, IsInt,
}
use wasm2go.Wasm.Leb128.Signed.Sign.{
  SignOk, assembled, Complement, sign_pos32, sign_neg32, sign_pos64, sign_neg64,
}
use wasm2go.Wasm.Leb128.Signed.Rounds.{last_pos_byte, last_neg_byte, last_neg_tenth, inner_byte}
use native.Mathlib.Nat.{pow-le-pow_right}
use native.Mathlib.Numerals.{towards_suc}

shift_seven : (s : ℕ) → 2 ^ (s + 7) ≡ 128 * 2 ^ s
shift_seven s = simp towards_suc (omega arith)

length-Sleb : {bs : List ℕ} {z : ℤ} → Sleb bs z → 0 < length bs
length-Sleb (last_pos _) = omega arith
length-Sleb (last_neg _) = omega arith
length-Sleb (more_pos _ _) = omega arith
length-Sleb (more_neg _ _) = omega arith

-- What is left to read, `m` or its complement, on top of what was assembled.
abbrev nonneg_sum : ℕ → ℕ → ℕ → ℕ
nonneg_sum s result m = result + m * 2 ^ s

abbrev neg_sum : ℕ → ℕ → ℕ → ℕ
neg_sum s result m = 2 ^ s - 1 - result + m * 2 ^ s

pow_early : (i : ℕ) → i ≤ 8 → 2 ^ (7 * i) ≤ 2 ^ 56
pow_early i h = pow-le-pow_right {n = 2} (omega arith) {j = 56} (omega arith)

-- A group and its complement make 127.
complement_group : (m s : ℕ) → m ≤ 127 → (127 - m) * 2 ^ s + m * 2 ^ s ≡ 127 * 2 ^ s
complement_group m s h =
    let e : 127 - m + m ≡ 127 = omega arith in omega (arith, ap (λ (t : ℕ). t * 2 ^ s) e)

early_group : (p i : ℕ) → p < 128 → i ≤ 8 → p * 2 ^ (7 * i) < 2 ^ 63
early_group p i hp hi = grind (arith, pow_early i hi)

abbrev total : ℕ → ℕ → ℤ → ℤ
total s result (pos m) = pos (nonneg_sum s result m)
total s result (negsuc m) = negsuc (neg_sum s result m)

module _ (w bits : ℕ) (wide : w ≤ 63)
    (sign_pos : (i result b : ℕ)
      → i ≤ 9
      → b < 256
      → result < 2 ^ (7 * i)
      → result + b % 128 * 2 ^ (7 * i) < 2 ^ w
      → SignOk bits (7 * i) (result + b % 128 * 2 ^ (7 * i)) b)
    (sign_neg : (i result b : ℕ)
      → i ≤ 9
      → b < 256
      → result < 2 ^ (7 * i)
      → Complement w (7 * i) result b
      → SignOk bits (7 * i) (assembled (7 * i) result b) b) where
  w_fits : 2 ^ w ≤ 2 ^ 63
  w_fits = pow-le-pow_right {n = 2} (omega arith) wide

  assembled-fits :
      (i result b : ℕ)
      → result + b % 128 * 2 ^ (7 * i) < 2 ^ w
      → assembled (7 * i) result b ≡ result + b % 128 * 2 ^ (7 * i)
  assembled-fits i result b h = omega (arith, w_fits)

  -- The last byte of a nonnegative integer.
  round_last_pos :
      (n i result b : ℕ) (rest : List ℕ)
      → b < 64
      → i ≤ 9
      → result < 2 ^ (7 * i)
      → nonneg_sum (7 * i) result b < 2 ^ w
      → read_s64_bits_loop bits (suc n) (7 * i) result (b ∷ rest)
        ≡ ok (nonneg_sum (7 * i) result b, rest)
  round_last_pos n i result b rest hb hi hr fits =
      let same : b % 128 ≡ b = omega arith in
      let fits' : result + b % 128 * 2 ^ (7 * i) < 2 ^ w = rw same fits in
      let e = assembled-fits i result b fits' in
      last_pos_byte bits n i result b rest hi hr
        (rw e (sign_pos i result b hi (omega arith) hr fits')) hb
      ∙ ap (λ (t : ℕ). ok (t, rest)) (e ∙ rw same refl)

  round_more_pos :
      (n i result g : ℕ) (rest : List ℕ)
      → g < 128
      → i ≤ 9
      → result < 2 ^ (7 * i)
      → nonneg_sum (7 * i) result g < 2 ^ w
      → read_s64_bits_loop bits (suc n) (7 * i) result ((g + 128) ∷ rest)
        ≡ read_s64_bits_loop bits n (7 * i + 7) (nonneg_sum (7 * i) result g) rest
  round_more_pos n i result g rest hg hi hr fits =
      let same : (g + 128) % 128 ≡ g = omega arith in
      let fits' : result + (g + 128) % 128 * 2 ^ (7 * i) < 2 ^ w = rw same fits in
      let e = assembled-fits i result (g + 128) fits' in
      inner_byte bits n i result (g + 128) rest hi hr
        (rw e (sign_pos i result (g + 128) hi (omega arith) hr fits')) (omega arith) (omega arith)
      ∙ ap (λ (t : ℕ). read_s64_bits_loop bits n (7 * i + 7) t rest) (e ∙ rw same refl)

  assembled_neg :
      (i result b m : ℕ)
      → b % 128 ≡ 127 - m
      → i ≤ 8
      → assembled (7 * i) result b ≡ result + (127 - m) * 2 ^ (7 * i)
  assembled_neg i result b m e hi = rw e (omega (arith, early_group (127 - m) i (omega arith) hi))

  Complement-neg :
      (i result b m : ℕ)
      → b % 128 ≡ 127 - m
      → m ≤ 127
      → neg_sum (7 * i) result m < 2 ^ w
      → Complement w (7 * i) result b
  Complement-neg i result b m e hm fits = let same : 127 - b % 128 ≡ m = omega arith in rw same fits

  round_more_neg :
      (n i result g : ℕ) (rest : List ℕ)
      → g < 128
      → i ≤ 8
      → result < 2 ^ (7 * i)
      → neg_sum (7 * i) result g < 2 ^ w
      → read_s64_bits_loop bits (suc n) (7 * i) result ((255 - g) ∷ rest)
        ≡ read_s64_bits_loop bits n (7 * i + 7) (result + (127 - g) * 2 ^ (7 * i)) rest
  round_more_neg n i result g rest hg hi hr fits =
      let e : (255 - g) % 128 ≡ 127 - g = omega arith in
      inner_byte bits n i result (255 - g) rest (omega arith) hr
        (sign_neg i result (255 - g) (omega arith) (omega arith) hr
          (Complement-neg i result (255 - g) g e (omega arith) fits))
        (omega arith) (omega arith)
      ∙ ap (λ (t : ℕ). read_s64_bits_loop bits n (7 * i + 7) t rest)
          (assembled_neg i result (255 - g) g e hi)

  -- The last byte of a negative integer, before the tenth and as the tenth.
  round_last_neg :
      (n i result m : ℕ) (rest : List ℕ)
      → m < 64
      → i ≤ 8
      → result < 2 ^ (7 * i)
      → neg_sum (7 * i) result m < 2 ^ w
      → read_s64_bits_loop bits (suc n) (7 * i) result ((127 - m) ∷ rest)
        ≡ ok (2 ^ 64 - 1 - neg_sum (7 * i) result m, rest)
  round_last_neg n i result m rest hm hi hr fits =
      let e : (127 - m) % 128 ≡ 127 - m = omega arith in
      let a = assembled_neg i result (127 - m) m e hi in
      let c = complement_group m (7 * i) (omega arith) in
      let q = shift_seven (7 * i) in
      last_neg_byte bits n i result (127 - m) rest (omega arith) hr
        (sign_neg i result (127 - m) (omega arith) (omega arith) hr
          (Complement-neg i result (127 - m) m e (omega arith) fits))
        (omega arith) (omega arith) hi (rw a (omega arith))
      ∙ ap (λ (t : ℕ). ok (t, rest)) (rw a (omega (arith, pow_early i hi)))

  round_tenth_neg :
      (n result m : ℕ) (rest : List ℕ)
      → m < 64
      → result < 2 ^ 63
      → neg_sum 63 result m < 2 ^ w
      → read_s64_bits_loop bits (suc n) 63 result ((127 - m) ∷ rest)
        ≡ ok (2 ^ 64 - 1 - neg_sum 63 result m, rest)
  round_tenth_neg n result m rest hm hr fits =
      let none_left : m ≡ 0 = omega (arith, w_fits) in
      let e : (127 - m) % 128 ≡ 127 - m = omega arith in
      last_neg_tenth bits n 9 result (127 - m) rest (omega arith) hr
        (sign_neg 9 result (127 - m) (omega arith) (omega arith) hr
          (Complement-neg 9 result (127 - m) m e (omega arith) fits))
        (omega arith) (omega arith) refl
      ∙ ap (λ (t : ℕ). ok (t, rest)) (omega arith)

  loop-Sleb :
      (n : ℕ) {used : List ℕ} {z : ℤ} (i result : ℕ) (rest : List ℕ)
      → Sleb used z
      → length used ≤ n
      → i + n ≡ 10
      → result < 2 ^ (7 * i)
      → IsInt w (total (7 * i) result z)
      → read_s64_bits_loop bits n (7 * i) result (used ++ rest)
        ≡ ok (pattern64 (total (7 * i) result z), rest)
  loop-Sleb zero i result rest u len hi hr fits = absurd (omega (arith, length-Sleb u))
  loop-Sleb (suc n) i result rest (last_pos {b} hb) len hi hr fits =
      round_last_pos n i result b rest hb (omega arith) hr fits
  loop-Sleb (suc n) i result rest (last_neg {m} hm) len hi hr fits = elim (Bool-cases (i == 9)) [
    | inl t ↦
        let e : i ≡ 9 = ground arith in
        rw e (round_tenth_neg n result m rest hm (rw e at hr) (rw e at fits))
    | inr t ↦ round_last_neg n i result m rest hm (ground arith) hr fits
  ]
  loop-Sleb (suc n) i result rest (more_pos {g} {m} {bs} hg u) len hi hr fits =
      let e : 7 * (i + 1) ≡ 7 * i + 7 = omega arith in
      let q = shift_seven (7 * i) in
      let v = ap (λ (t : ℕ). m * t) q in
      let same : nonneg_sum (7 * i + 7) (nonneg_sum (7 * i) result g) m
          ≡ nonneg_sum (7 * i) result (g + 128 * m) =
        omega arith in
      let below : nonneg_sum (7 * i) result g < 2 ^ (7 * i + 7) = grind arith in
      let rest_of =
        loop-Sleb n (i + 1) (nonneg_sum (7 * i) result g) rest u (omega (arith, length-Sleb u))
          (omega arith) (rw e below) (rw (e, same) fits) in
      round_more_pos n i result g (bs ++ rest) hg (omega arith) hr (omega arith)
      ∙ (rw e at rest_of)
      ∙ ap (λ (t : ℕ). ok (t, rest)) same
  loop-Sleb (suc n) i result rest (more_neg {g} {m} {bs} hg u) len hi hr fits =
      let e : 7 * (i + 1) ≡ 7 * i + 7 = omega arith in
      let q = shift_seven (7 * i) in
      let v = ap (λ (t : ℕ). m * t) q in
      let c = complement_group g (7 * i) (omega arith) in
      let next : ℕ = result + (127 - g) * 2 ^ (7 * i) in
      let same : neg_sum (7 * i + 7) next m ≡ neg_sum (7 * i) result (g + 128 * m) = omega arith in
      let below : next < 2 ^ (7 * i + 7) = omega arith in
      let rest_of =
        loop-Sleb n (i + 1) next rest u (omega (arith, length-Sleb u)) (omega arith) (rw e below)
          (rw (e, same) fits) in
      round_more_neg n i result g (bs ++ rest) hg (omega (arith, length-Sleb u)) hr (omega arith)
      ∙ (rw e at rest_of)
      ∙ ap (λ (t : ℕ). ok (2 ^ 64 - 1 - t, rest)) same

total_start : (z : ℤ) → total 0 0 z ≡ z
total_start (pos m) = ap pos (omega arith)
total_start (negsuc m) = ap negsuc (omega arith)

-- readS64 reads every encoding, of at most ten bytes, of an integer in the range of int64: it
-- returns the integer's bit pattern and leaves what follows the encoding.
pub read_s64-Sleb :
    {used : List ℕ} {z : ℤ} (rest : List ℕ)
    → Sleb used z
    → length used ≤ 10
    → IsInt 63 z
    → read_s64 (used ++ rest) ≡ ok (pattern64 z, rest)
unfolding read_s64
read_s64-Sleb {z} rest u len fits =
    loop-Sleb 63 64 (omega arith) sign_pos64 sign_neg64 10 0 0 rest u len refl (omega arith)
      (rw (total_start z) fits)
    ∙ rw (total_start z) refl

pattern32-mod : (z : ℤ) → IsInt 31 z → pattern64 z % 2 ^ 32 ≡ pattern32 z
pattern32-mod (pos m) h = omega arith
pattern32-mod (negsuc m) h = omega arith

-- readS32 reads every encoding, of at most ten bytes, of an integer in the range of int32.
pub read_s32-Sleb :
    {used : List ℕ} {z : ℤ} (rest : List ℕ)
    → Sleb used z
    → length used ≤ 10
    → IsInt 31 z
    → read_s32 (used ++ rest) ≡ ok (pattern32 z, rest)
unfolding read_s32
read_s32-Sleb {used} {z} rest u len fits =
    let e : read_s64_bits_loop 32 10 0 0 (used ++ rest) ≡ ok (pattern64 z, rest) =
      loop-Sleb 31 32 (omega arith) sign_pos32 sign_neg32 10 0 0 rest u len refl (omega arith)
        (rw (total_start z) fits)
      ∙ rw (total_start z) refl in
    rw e (ap (λ (t : ℕ). ok (t, rest)) (pattern32-mod z fits))
