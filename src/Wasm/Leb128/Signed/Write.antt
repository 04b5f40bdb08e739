-- ===== src/Wasm/Leb128/Signed/Write.antt =====
-- writeSLEB, and its round trip through readS64 and readS32.
use wasm2go.Prelude.{
  ℕ, zero, suc, ◌+◌, ◌-◌, ◌*◌, ◌/◌, ◌%◌, ◌^◌, ◌≤◌, ◌<◌, ◌≡◌, ap, ◌∙◌, List, [], ◌∷◌, ◌++◌,
  append_assoc, length, arith, ltb, if◌then◌else◌, Bool-cases, inl, inr,
}
use wasm2go.Prelude.Int.{ℤ, pos, negsuc}
use wasm2go.Wasm.Reader.{ok}
use wasm2go.Wasm.Reader.Local.{Reads}
use wasm2go.Wasm.Leb128.{read_s64, read_s32, write_sleb_loop, write_sleb, sar64}
use wasm2go.Wasm.Leb128.Bytes.{low_seven, bit_six, set_top_bit}
use wasm2go.Wasm.Leb128.Signed.{
  Sleb, last_pos, last_neg, more_pos, more_neg, pattern64, pattern32, IsInt,
}
use wasm2go.Wasm.Leb128.Signed.Read.{read_s64-Sleb, read_s32-Sleb}
use native.Mathlib.Nat.{pow-suc}

-- The shortest signed encoding, for integers of 7 * (k + 1) bits.
pub signed_groups : ℕ → ℤ → List ℕ
signed_groups zero (pos m) = m ∷ []
signed_groups zero (negsuc m) = (127 - m) ∷ []
signed_groups (suc k) (pos m) =
    if ltb m 64 then m ∷ [] else ((m % 128 + 128) ∷ signed_groups k (pos (m / 128)))
signed_groups (suc k) (negsuc m) =
    if ltb m 64 then (127 - m) ∷ [] else ((255 - m % 128) ∷ signed_groups k (negsuc (m / 128)))

unfoldable pub sleb : ℤ → List ℕ
sleb z = signed_groups 9 z

-- The integers of `k + 1` groups.
abbrev FitsGroups : ℕ → ℤ → Type 0
FitsGroups k (pos m) = m < 64 * 128 ^ k
FitsGroups k (negsuc m) = m < 64 * 128 ^ k

signed_groups-Sleb : (k : ℕ) (z : ℤ) → FitsGroups k z → Sleb (signed_groups k z) z
unfolding signed_groups
signed_groups-Sleb zero (pos m) h = last_pos (omega arith)
signed_groups-Sleb zero (negsuc m) h = last_neg (omega arith)
signed_groups-Sleb (suc k) (pos m) h = elim (Bool-cases (ltb m 64)) [
  | inl t ↦ rw t (last_pos (ground arith))
  | inr t ↦
      let e : m ≡ m % 128 + 128 * (m / 128) = omega arith in
      let tail = signed_groups-Sleb k (pos (m / 128)) (omega (arith, pow-suc 128 k)) in
      rw t (rw (← e) at (more_pos {g = m % 128} (omega arith) tail))
]
signed_groups-Sleb (suc k) (negsuc m) h = elim (Bool-cases (ltb m 64)) [
  | inl t ↦ rw t (last_neg (ground arith))
  | inr t ↦
      let e : m ≡ m % 128 + 128 * (m / 128) = omega arith in
      let tail = signed_groups-Sleb k (negsuc (m / 128)) (omega (arith, pow-suc 128 k)) in
      rw t (rw (← e) at (more_neg {g = m % 128} (omega arith) tail))
]

length-signed_groups : (k : ℕ) (z : ℤ) → length (signed_groups k z) ≤ k + 1
unfolding signed_groups
length-signed_groups zero (pos m) = omega arith
length-signed_groups zero (negsuc m) = omega arith
length-signed_groups (suc k) (pos m) = ground (arith, length-signed_groups k (pos (m / 128)))
length-signed_groups (suc k) (negsuc m) = ground (arith, length-signed_groups k (negsuc (m / 128)))

FitsGroups-nine : (z : ℤ) → IsInt 63 z → FitsGroups 9 z
FitsGroups-nine (pos m) h = omega arith
FitsGroups-nine (negsuc m) h = omega arith

-- The last round on a negative number, and one that goes on.
write_last_neg :
    (n m : ℕ) (buf : List ℕ)
    → m < 64
    → write_sleb_loop (suc n) buf (2 ^ 64 - 1 - m) ≡ ok (buf ++ ((127 - m) ∷ []))
unfolding write_sleb_loop
write_last_neg n m buf hm =
    let low : (2 ^ 64 - 1 - m) % 128 ≡ 127 - m = omega arith in
    let next : sar64 (2 ^ 64 - 1 - m) 7 ≡ 2 ^ 64 - 1 = ground arith in
    rw (low_seven (2 ^ 64 - 1 - m), low, next) (ground (arith, bit_six (127 - m)))

write_round_neg :
    (n m : ℕ) (buf : List ℕ)
    → 64 ≤ m
    → m < 2 ^ 63
    → write_sleb_loop (suc n) buf (2 ^ 64 - 1 - m)
      ≡ write_sleb_loop n (buf ++ ((255 - m % 128) ∷ [])) (2 ^ 64 - 1 - m / 128)
unfolding write_sleb_loop
write_round_neg n m buf hm r =
    let low : (2 ^ 64 - 1 - m) % 128 ≡ 127 - m % 128 = omega arith in
    let next : sar64 (2 ^ 64 - 1 - m) 7 ≡ 2 ^ 64 - 1 - m / 128 = ground arith in
    let byte : 127 - m % 128 + 128 ≡ 255 - m % 128 = omega arith in
    ground (
      arith,
      low_seven (2 ^ 64 - 1 - m),
      low,
      next,
      byte,
      bit_six (127 - m % 128),
      set_top_bit (127 - m % 128),
    )

-- The loop of writeSLEB writes those bytes.
write_sleb_loop-groups :
    (k : ℕ) (buf : List ℕ) (z : ℤ)
    → FitsGroups k z
    → IsInt 63 z
    → write_sleb_loop (suc k) buf (pattern64 z) ≡ ok (buf ++ signed_groups k z)
unfolding write_sleb_loop signed_groups
write_sleb_loop-groups zero buf (pos m) h r = ground (arith, low_seven m, bit_six (m % 128))
write_sleb_loop-groups zero buf (negsuc m) h r = write_last_neg zero m buf (omega arith)
write_sleb_loop-groups (suc k) buf (pos m) h r =
    let head : List ℕ = (m % 128 + 128) ∷ [] in
    ground (
      arith,
      low_seven m,
      bit_six (m % 128),
      set_top_bit (m % 128),
      write_sleb_loop-groups k (buf ++ head) (pos (m / 128)) (omega (arith, pow-suc 128 k))
          (omega arith),
      append_assoc buf head (signed_groups k (pos (m / 128))),
    )
write_sleb_loop-groups (suc k) buf (negsuc m) h r = elim (Bool-cases (ltb m 64)) [
  | inl t ↦ rw t (write_last_neg (suc k) m buf (ground arith))
  | inr t ↦
      let head : List ℕ = (255 - m % 128) ∷ [] in
      let later : ℤ = negsuc (m / 128) in
      rw t (
        write_round_neg (suc k) m buf (ground arith) r
        ∙ write_sleb_loop-groups k (buf ++ head) later (omega (arith, pow-suc 128 k)) (omega arith)
        ∙ ap ok (append_assoc buf head (signed_groups k later)))
]

FitsGroups-pattern32 : (z : ℤ) → IsInt 31 z → IsInt 63 z
FitsGroups-pattern32 (pos m) h = omega arith
FitsGroups-pattern32 (negsuc m) h = omega arith

-- writeSLEB terminates within ten rounds on every int64: it appends the shortest encoding.
pub write_sleb-sleb :
    (buf : List ℕ) (z : ℤ) → IsInt 63 z → write_sleb buf (pattern64 z) ≡ ok (buf ++ sleb z)
unfolding write_sleb sleb
write_sleb-sleb buf z h = write_sleb_loop-groups 9 buf z (FitsGroups-nine z h) h

pub sleb-Sleb : (z : ℤ) → IsInt 63 z → Sleb (sleb z) z × (length (sleb z) ≤ 10)
unfolding sleb
sleb-Sleb z h = (signed_groups-Sleb 9 z (FitsGroups-nine z h), length-signed_groups 9 z)

pub Reads-read_s64 : (z : ℤ) → IsInt 63 z → Reads read_s64 (sleb z) (pattern64 z)
Reads-read_s64 z h = record {
  on = λ rest. read_s64-Sleb rest (sleb-Sleb z h).0 (sleb-Sleb z h).1 h;
}

pub Reads-read_s32 : (z : ℤ) → IsInt 31 z → Reads read_s32 (sleb z) (pattern32 z)
Reads-read_s32 z h =
    let wide = FitsGroups-pattern32 z h in
    record { on = λ rest. read_s32-Sleb rest (sleb-Sleb z wide).0 (sleb-Sleb z wide).1 h }
