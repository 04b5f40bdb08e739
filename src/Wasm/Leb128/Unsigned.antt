-- ===== src/Wasm/Leb128/Unsigned.antt =====
-- readU64, readU32 and writeULEB against an inductive description of unsigned LEB128.
use wasm2go.Prelude.{
  ℕ, zero, suc, ◌+◌, ◌-◌, ◌*◌, ◌^◌, ◌≤◌, ◌<◌, ◌≡◌, refl, sym, ap, ◌∙◌, ◌↔◌, ◌≢◌, bit_or, List, [],
  ◌∷◌, ◌++◌, ltb, ◌==◌, length, All, arith, Bool-cases, inl, inr, ==_iff,
}
use wasm2go.Prelude.Bits.{bit_or_fields}
use wasm2go.Wasm.Reader.{Result, ok, IsByte}
use wasm2go.Wasm.Leb128.{read_u64_loop, read_u64, shl64}
use wasm2go.Wasm.Leb128.Bytes.{low_seven, top_bit}
use native.Mathlib.Numerals.{towards_suc}
use native.Mathlib.Nat.{pow-le-pow_right}

-- `Uleb bs v`: the bytes `bs` are groups of seven bits, lowest first, the last one alone with its top
-- bit clear, and `v` is the number that they spell.
pub data Uleb : List ℕ → ℕ → Type 0 where
  last : {b : ℕ} → b < 128 → Uleb (b ∷ []) b
  more : {b v : ℕ} {bs : List ℕ} → b < 128 → Uleb bs v → Uleb ((b + 128) ∷ bs) (b + 128 * v)

shift_seven : (s : ℕ) → 2 ^ (s + 7) ≡ 128 * 2 ^ s
shift_seven s = simp towards_suc (omega arith)

-- One OR of a group is an addition, as long as the sum is a uint64.
pub or_group :
    (g s result : ℕ)
    → result < 2 ^ s
    → g * 2 ^ s < 2 ^ 64
    → bit_or result (shl64 g s) ≡ result + g * 2 ^ s
or_group g s result h fits =
    let e : shl64 g s ≡ g * 2 ^ s = omega arith in rw e (bit_or_fields s result g h)

last_byte :
    (n i s result b : ℕ) (rest : List ℕ)
    → b < 128
    → s ≡ 7 * i
    → i ≤ 9
    → result < 2 ^ s
    → result + b * 2 ^ s < 2 ^ 64
    → read_u64_loop (suc n) i s result (b ∷ rest) ≡ ok (result + b * 2 ^ s, rest)
unfolding read_u64_loop
last_byte n i s result b rest hb hs hi hr fits =
    ground (arith, low_seven b, top_bit b, or_group b s result hr (omega arith))

inner_byte :
    (n i s result g : ℕ) (rest : List ℕ)
    → g < 128
    → s < 64
    → result < 2 ^ s
    → g * 2 ^ s < 2 ^ 64
    → read_u64_loop (suc n) i s result ((g + 128) ∷ rest)
      ≡ read_u64_loop n (i + 1) (s + 7) (result + g * 2 ^ s) rest
unfolding read_u64_loop
inner_byte n i s result g rest hg hs hr fits =
    ground (arith, low_seven (g + 128), top_bit (g + 128), or_group g s result hr fits)

-- Splitting off the lowest group, shifted by `s`.
split_group : (b v s : ℕ) → (b + 128 * v) * 2 ^ s ≡ b * 2 ^ s + v * 2 ^ (s + 7)
split_group b v s = omega (arith, ap (λ (t : ℕ). v * t) (shift_seven s))

below_next : (g s result : ℕ) → g < 128 → result < 2 ^ s → result + g * 2 ^ s < 2 ^ (s + 7)
below_next g s result hg hr = grind (arith, shift_seven s)

pub read_u64_loop-Uleb :
    (n : ℕ) {used : List ℕ} {v : ℕ} (i s result : ℕ) (rest : List ℕ)
    → Uleb used v
    → length used ≤ n
    → i + n ≡ 10
    → s ≡ 7 * i
    → result < 2 ^ s
    → result + v * 2 ^ s < 2 ^ 64
    → read_u64_loop n i s result (used ++ rest) ≡ ok (result + v * 2 ^ s, rest)
read_u64_loop-Uleb zero i s result rest (last hb) len hi hs hr fits = absurd (omega arith)
read_u64_loop-Uleb zero i s result rest (more hb u) len hi hs hr fits = absurd (omega arith)
read_u64_loop-Uleb (suc n) i s result rest (last {b} hb) len hi hs hr fits =
    last_byte n i s result b rest hb hs (omega arith) hr fits
read_u64_loop-Uleb (suc n) i s result rest (more {b} {v} {bs} hb u) len hi hs hr fits =
    let e = split_group b v s in
    inner_byte n i s result b (bs ++ rest) hb (omega arith) hr (omega arith)
    ∙ read_u64_loop-Uleb n (i + 1) (s + 7) (result + b * 2 ^ s) rest u (omega arith) (omega arith)
        (omega arith) (below_next b s result hb hr) (omega arith)
    ∙ ap (λ (t : ℕ). ok (t, rest)) (omega arith)

-- Rounds below the last stay well inside 64 bits.
early_fits : (g s result : ℕ) → g < 128 → s ≤ 56 → result < 2 ^ s → result + g * 2 ^ s < 2 ^ 63
early_fits g s result hg hs hr =
    let top : 2 ^ s ≤ 2 ^ 56 = pow-le-pow_right {n = 2} (omega arith) hs in
    grind (arith, shift_seven s)

-- The tenth byte may only be 0 or 1.
tenth_byte :
    (n s result b : ℕ) (bs : List ℕ) (r : ℕ) (rest : List ℕ)
    → b < 128
    → s ≡ 63
    → read_u64_loop (suc n) 9 s result (b ∷ bs) ≡ ok (r, rest)
    → b ≤ 1
unfolding read_u64_loop
tenth_byte n s result b bs r rest hb hs h = ground (arith, top_bit b)

tenth_fits : (s result b : ℕ) → s ≡ 63 → result < 2 ^ s → b ≤ 1 → result + b * 2 ^ s < 2 ^ 64
tenth_fits s result b hs hr hb = ground arith

accept_fits :
    (n i s result b : ℕ) (bs : List ℕ) (r : ℕ) (rest : List ℕ)
    → b < 128
    → i ≤ 9
    → s ≡ 7 * i
    → result < 2 ^ s
    → read_u64_loop (suc n) i s result (b ∷ bs) ≡ ok (r, rest)
    → result + b * 2 ^ s < 2 ^ 64
accept_fits n i s result b bs r rest hb hi hs hr h = elim (Bool-cases (i == 9)) [
  | inl t ↦
      let e : i ≡ 9 = (==_iff i 9).0 t in
      tenth_fits s result b (omega arith) hr (
        tenth_byte n s result b bs r rest hb (omega arith)
          (ap (λ (j : ℕ). read_u64_loop (suc n) j s result (b ∷ bs)) (sym e) ∙ h))
  | inr f ↦ omega (arith, early_fits b s result hb (ground arith) hr)
]

-- Whatever the loop accepts is such a string of groups, in range.
abbrev Accepted : ℕ → ℕ → ℕ → List ℕ → ℕ → List ℕ → Type 0
Accepted n s result bs r rest =
    (used : List ℕ) × (v : ℕ) × Uleb used v
    × (bs ≡ used ++ rest)
    × (length used ≤ n)
    × (r ≡ result + v * 2 ^ s)
    × (r < 2 ^ 64)

accept_last :
    (n i s result b : ℕ) (bs : List ℕ) (r : ℕ) (rest : List ℕ)
    → b < 128
    → i ≤ 9
    → s ≡ 7 * i
    → result < 2 ^ s
    → read_u64_loop (suc n) i s result (b ∷ bs) ≡ ok (r, rest)
    → Accepted (suc n) s result (b ∷ bs) r rest
accept_last n i s result b bs r rest hb hi hs hr h =
    let fits : result + b * 2 ^ s < 2 ^ 64 = accept_fits n i s result b bs r rest hb hi hs hr h in
    let e : ◌≡◌ {A = Result (ℕ × List ℕ)} (ok (result + b * 2 ^ s, bs)) (ok (r, rest)) =
      sym (last_byte n i s result b bs hb hs hi hr fits) ∙ h in
    (b ∷ [], b, last hb, ground arith, omega arith, ground arith, ground arith)

no_rounds :
    (i s result : ℕ) (bs : List ℕ) (r : ℕ) (rest : List ℕ)
    → read_u64_loop 0 i s result bs ≢ ok (r, rest)
unfolding read_u64_loop
no_rounds i s result bs r rest h = cc

no_input : (n i s result : ℕ) (r : ℕ) (rest : List ℕ) → read_u64_loop n i s result [] ≢ ok (r, rest)
unfolding read_u64_loop
no_input zero i s result r rest h = cc
no_input (suc n) i s result r rest h = ground arith

-- Whatever the loop accepts is such a string of groups, in range.
accept_more :
    (n i s result g : ℕ) (bs : List ℕ) (r : ℕ) (rest : List ℕ)
    → g < 128
    → s ≡ 7 * i
    → Accepted n (s + 7) (result + g * 2 ^ s) bs r rest
    → Accepted (suc n) s result ((g + 128) ∷ bs) r rest
accept_more n i s result g bs r rest hg hs (used, v, u, e, len, value, range) = (
  (g + 128) ∷ used,
  g + 128 * v,
  more hg u,
  ap (λ t. (g + 128) ∷ t) e,
  omega arith,
  omega (arith, split_group g v s),
  range,
)

-- The tenth byte is the last.
early_round :
    (n i s result b : ℕ) (bs : List ℕ) (r : ℕ) (rest : List ℕ)
    → i + suc n ≡ 10
    → 128 ≤ b
    → b < 256
    → read_u64_loop (suc n) i s result (b ∷ bs) ≡ ok (r, rest)
    → i ≤ 8
unfolding read_u64_loop
early_round zero i s result b bs r rest hi lo hb h = ground (arith, top_bit b)
early_round (suc n) i s result b bs r rest hi lo hb h = omega arith

read_u64_loop_sound :
    (n i s result : ℕ) (bs : List ℕ) (r : ℕ) (rest : List ℕ)
    → All IsByte bs
    → i + n ≡ 10
    → s ≡ 7 * i
    → result < 2 ^ s
    → read_u64_loop n i s result bs ≡ ok (r, rest)
    → Accepted n s result bs r rest
read_u64_loop_sound zero i s result bs r rest hb hi hs hr h =
    absurd (no_rounds i s result bs r rest h)
read_u64_loop_sound (suc n) i s result [] r rest hb hi hs hr h =
    absurd (no_input (suc n) i s result r rest h)
read_u64_loop_sound (suc n) i s result (b ∷ bs) r rest hb hi hs hr h =
    elim (Bool-cases (ltb b 128)) [
      | inl t ↦ accept_last n i s result b bs r rest (ground arith) (omega arith) hs hr h
      | inr t ↦
          let e : b ≡ b - 128 + 128 = ground arith in
          let hg : b - 128 < 128 = omega arith in
          let early : i ≤ 8 = early_round n i s result b bs r rest hi (ground arith) hb.0 h in
          let fits = early_fits (b - 128) s result hg (omega arith) hr in
          let h' = ap (λ (x : ℕ). read_u64_loop (suc n) i s result (x ∷ bs)) (sym e) ∙ h in
          let step = inner_byte n i s result (b - 128) bs hg (omega arith) hr (omega arith) in
          rw e (
            accept_more n i s result (b - 128) bs r rest hg hs (
              read_u64_loop_sound n (i + 1) (s + 7) (result + (b - 128) * 2 ^ s) bs r rest hb.1
                (omega arith) (omega arith) (below_next (b - 128) s result hg hr) (sym step ∙ h')))
    ]

-- On a list of numbers below 256, readU64 accepts exactly the unsigned LEB128 encodings of uint64
-- values in at most ten bytes, and returns the value together with the bytes that follow the encoding.
pub read_u64-Uleb_iff :
    (bs : List ℕ) (v : ℕ) (rest : List ℕ)
    → All IsByte bs
    → (read_u64 bs ≡ ok (v, rest))
      ↔ ((used : List ℕ) × Uleb used v × (bs ≡ used ++ rest) × (length used ≤ 10) × (v < 2 ^ 64))
unfolding read_u64
read_u64-Uleb_iff bs v rest hb = (forth, back)
  where
    Spec : Type 0
    Spec = (used : List ℕ) × Uleb used v × (bs ≡ used ++ rest) × (length used ≤ 10) × (v < 2 ^ 64)

    forth : read_u64 bs ≡ ok (v, rest) → Spec
    forth h =
        let (used, w, u, e, len, value, range) =
          read_u64_loop_sound 10 0 0 0 bs v rest hb refl refl (omega arith) h in
        let same : w ≡ v = omega arith in (used, rw same at u, e, len, range)

    back : Spec → read_u64 bs ≡ ok (v, rest)
    back (used, u, e, len, range) = rw e (
        read_u64_loop-Uleb 10 0 0 0 rest u len refl refl (omega arith) (omega arith)
        ∙ ap (λ (t : ℕ). ok (t, rest)) (omega arith))
