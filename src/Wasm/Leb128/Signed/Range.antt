-- ===== src/Wasm/Leb128/Signed/Range.antt =====
-- readS64Bits at 32 bits on any bytes: what it accepts is in the range of int32.
use wasm2go.Prelude.{
  ℕ, zero, suc, ◌+◌, ◌-◌, ◌*◌, ◌/◌, ◌%◌, ◌^◌, ◌≤◌, ◌<◌, ◌≡◌, refl, sym, ◌∙◌, ◌≢◌, ◌⊎◌, inl, inr,
  List, [], ◌∷◌, arith, ltb, ◌&&◌, if◌then◌else◌, Bool-cases, All, true, ◌||◌,
}
use wasm2go.Prelude.Int.{ℤ, pos, negsuc}
use wasm2go.Wasm.Reader.{ok, IsByte}
use wasm2go.Wasm.Leb128.{read_s64_bits_loop, read_s64_bits, bad_sign_bits, sar64}
use wasm2go.Wasm.Leb128.Bytes.{low_seven, bits_from_four, low_bit}
use wasm2go.Wasm.Leb128.Signed.{pattern64, IsInt}
use wasm2go.Wasm.Leb128.Signed.Sign.{SignOk, assembled}
use wasm2go.Wasm.Leb128.Signed.Rounds.{
  or_assembled, last_pos_byte, last_neg_byte, last_neg_tenth, inner_byte,
}

-- The bits that `i` bytes fill.
abbrev filled : ℕ → ℕ
filled i = if ltb 9 i then 2 ^ 64 else 2 ^ (7 * i)

-- After `i` bytes the bits from 31 on agree, once there are any.
abbrev Agrees : ℕ → ℕ → Type 0
Agrees i r = (r < filled i) × ((i ≤ 4) ⊎ ((r < 2 ^ 31) ⊎ (filled i ≤ r + 2 ^ 31)))

-- The same behind the byte `b`, whose bit 6 is their sign.
abbrev AgreesWith : ℕ → ℕ → ℕ → Type 0
AgreesWith i r b =
    (r < filled (i + 1))
    × ((i ≤ 3)
        ⊎ (((b / 64 % 2 ≡ 0) × (r < 2 ^ 31)) ⊎ ((b / 64 % 2 ≡ 1) × (filled (i + 1) ≤ r + 2 ^ 31))))

sign_test :
    (i r b : ℕ)
    → i ≤ 9
    → b < 256
    → Agrees i r
    → SignOk 32 (7 * i) (assembled (7 * i) r b) b
    → AgreesWith i (assembled (7 * i) r b) b
unfolding bad_sign_bits
sign_test (suc (suc (suc (suc (suc (suc (suc (suc (suc zero))))))))) r b hi hb h check =
    ground (arith, low_seven b, low_bit (sar64 (assembled 63 r b) 31))
sign_test i r b hi hb h check =
    ground (arith, low_seven b, bits_from_four b, low_bit (sar64 (assembled (7 * i) r b) 31))

Agrees-below : (i r : ℕ) → i ≤ 9 → Agrees i r → r < 2 ^ (7 * i)
Agrees-below i r hi h = ground arith

-- A byte that fails the test ends the loop in an error.
refused :
    (n i r b : ℕ) (rest : List ℕ) (v : ℕ) (left : List ℕ)
    → i ≤ 9
    → r < 2 ^ (7 * i)
    → (ltb 32 (7 * i + 7) && bad_sign_bits 32 (7 * i) (assembled (7 * i) r b) b) ≡ true
    → read_s64_bits_loop 32 (suc n) (7 * i) r (b ∷ rest) ≢ ok (v, left)
unfolding read_s64_bits_loop
refused n i r b rest v left hi hr check h =
    ground (arith, low_seven b, or_assembled i r (b % 128) hi hr)

no_input : (n s r : ℕ) (v : ℕ) (left : List ℕ) → read_s64_bits_loop 32 n s r [] ≢ ok (v, left)
unfolding read_s64_bits_loop
no_input zero s r v left h = cc
no_input (suc n) s r v left h = ground arith

no_rounds :
    (s r : ℕ) (bs : List ℕ) (v : ℕ) (left : List ℕ) → read_s64_bits_loop 32 0 s r bs ≢ ok (v, left)
unfolding read_s64_bits_loop
no_rounds s r bs v left h = cc

abbrev InRange : ℕ → Type 0
InRange v = (z : ℤ) × IsInt 31 z × (v ≡ pattern64 z)

InRange-of : (v : ℕ) → (v < 2 ^ 31) ⊎ ((2 ^ 64 ≤ v + 2 ^ 31) × (v < 2 ^ 64)) → InRange v
InRange-of v (inl h) = (pos v, h, refl)
InRange-of v (inr h) = (negsuc (2 ^ 64 - 1 - v), omega arith, omega arith)

-- The value that the last byte leaves, with its sign extended.
abbrev finished : ℕ → ℕ → ℕ → ℕ
finished i r b = if ltb b 64 || ltb 8 i then r else r + (2 ^ 64 - 2 ^ (7 * i + 7))

finished-InRange : (i r b : ℕ) → i ≤ 9 → b < 128 → AgreesWith i r b → InRange (finished i r b)
finished-InRange (suc (suc (suc (suc (suc (suc (suc (suc (suc zero))))))))) r b hi hb h =
    InRange-of _ (ground arith)
finished-InRange i r b hi hb h = InRange-of _ (ground arith)

module _ (n i r b : ℕ) (rest : List ℕ) (hi : i ≤ 9) (agrees : Agrees i r)
    (check : SignOk 32 (7 * i) (assembled (7 * i) r b) b) where
  below : r < 2 ^ (7 * i)
  below = Agrees-below i r hi agrees

  last_round :
      b < 128
      → read_s64_bits_loop 32 (suc n) (7 * i) r (b ∷ rest)
        ≡ ok (finished i (assembled (7 * i) r b) b, rest)
  last_round hb = elim (Bool-cases (ltb b 64)) [
    | inl t ↦ last_pos_byte 32 n i r b rest hi below check (ground arith) ∙ rw t refl
    | inr t ↦ elim (Bool-cases (ltb 8 i)) [
      | inl late ↦
          last_neg_tenth 32 n i r b rest hi below check (ground arith) hb (ground arith)
          ∙ rw (t, late) refl
      | inr early ↦
          let after = sign_test i r b hi (omega arith) agrees check in
          last_neg_byte 32 n i r b rest hi below check (ground arith) hb (ground arith)
            (ground arith)
          ∙ rw (t, early) refl
    ]
  ]

value_eq : (a b : ℕ × List ℕ) → ok a ≡ ok b → a.0 ≡ b.0
value_eq a b q = cc

loop-InRange :
    (n i r : ℕ) (bs : List ℕ) (v : ℕ) (left : List ℕ)
    → All IsByte bs
    → i + n ≡ 10
    → Agrees i r
    → read_s64_bits_loop 32 n (7 * i) r bs ≡ ok (v, left)
    → InRange v
loop-InRange zero i r bs v left hb hi agrees h = absurd (no_rounds (7 * i) r bs v left h)
loop-InRange (suc n) i r [] v left hb hi agrees h = absurd (no_input (suc n) (7 * i) r v left h)
loop-InRange (suc n) i r (b ∷ bs) v left hb hi agrees h =
    let below' = Agrees-below i r (omega arith) agrees in
    elim (Bool-cases (ltb 32 (7 * i + 7) && bad_sign_bits 32 (7 * i) (assembled (7 * i) r b) b)) [
      | inl bad ↦ absurd (refused n i r b bs v left (omega arith) below' bad h)
      | inr check ↦
          let after = sign_test i r b (omega arith) hb.0 agrees check in
          elim (Bool-cases (ltb b 128)) [
            | inl t ↦
                let e = last_round n i r b bs (omega arith) agrees check (ground arith) in
                let same : v ≡ finished i (assembled (7 * i) r b) b =
                  value_eq (v, left) (_, bs) (sym h ∙ e) in
                rw same
                  (finished-InRange i (assembled (7 * i) r b) b (omega arith) (ground arith) after)
            | inr t ↦
                let s : 7 * (i + 1) ≡ 7 * i + 7 = omega arith in
                let e = inner_byte 32 n i r b bs (omega arith) below' check (ground arith) hb.0 in
                loop-InRange n (i + 1) (assembled (7 * i) r b) bs v left hb.1 (omega arith)
                  (ground arith) (rw s (sym e ∙ h))
          ]
    ]

-- Whatever readS64Bits accepts at 32 bits, on a list of numbers below 256, is the pattern at 64 bits of
-- an integer in the range of int32.
pub read_s64_bits-IsInt :
    (bs : List ℕ) (v : ℕ) (rest : List ℕ)
    → All IsByte bs
    → read_s64_bits 32 bs ≡ ok (v, rest)
    → (z : ℤ) × IsInt 31 z × (v ≡ pattern64 z)
unfolding read_s64_bits
read_s64_bits-IsInt bs v rest hb h = loop-InRange 10 0 0 bs v rest hb refl (omega arith) h
