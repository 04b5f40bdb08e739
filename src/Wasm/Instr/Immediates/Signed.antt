-- ===== src/Wasm/Instr/Immediates/Signed.antt =====
-- A signed LEB128 field, seen by its continuation bits alone.
use wasm2go.Prelude.{
  ℕ, zero, suc, ◌+◌, ◌*◌, ◌^◌, ◌≤◌, ◌<◌, ◌≡◌, true, false, ◌&&◌, not, List, [], ◌∷◌, ltb, ◌==◌,
  bit_and, bit_or, ◌-◌, le→ltb, if◌then◌else◌, arith,
}
use wasm2go.Wasm.Leb128.{shl64}
use wasm2go.Wasm.Leb128.Bytes.{top_bit}
use wasm2go.Wasm.Instr.{read_sn_loop, read_sn, read_s32, read_s33, read_s64}
use wasm2go.Wasm.Instr.Consumes.{
  Consumes, Consumes-bind, Consumes-last, Consumes-pure, Consumes-read_byte,
}

-- At most `k` bytes, of which the last and no other is below 128.
pub data Chain : ℕ → List ℕ → Type 0 where
  final : {k b : ℕ} → b < 128 → Chain (suc k) (b ∷ [])
  longer : {k b : ℕ} {bs : List ℕ} → 128 ≤ b → b < 256 → Chain k bs → Chain (suc k) (b ∷ bs)

Chain-pos : {k : ℕ} {bs : List ℕ} → Chain k bs → 0 < k
Chain-pos (final h) = omega arith
Chain-pos (longer lo hi c) = omega arith

ends : (b : ℕ) → b < 128 → (bit_and b 0x80 == 0) ≡ true
ends b h = ground (arith, top_bit b (omega (arith, h)))

goes_on : (b : ℕ) → 128 ≤ b → b < 256 → (bit_and b 0x80 == 0) ≡ false
goes_on b h k = ground (arith, top_bit b k)

read_sn_loop-Chain :
    (bits n k v s : ℕ) (bs : List ℕ)
    → s + 7 * k ≤ bits + 14
    → k ≤ n
    → Chain k bs
    → (a : ℕ) × Consumes (read_sn_loop bits n v s) bs a
unfolding read_sn_loop
read_sn_loop-Chain bits zero zero v s bs hs hn c = elim c [ ]
read_sn_loop-Chain bits (suc n) zero v s bs hs hn c = elim c [ ]
read_sn_loop-Chain bits zero (suc k) v s bs hs hn c = absurd (omega arith)
read_sn_loop-Chain bits (suc n) (suc k) v s [] hs hn c = elim c [ ]
read_sn_loop-Chain bits (suc n) (suc k) v s (b ∷ []) hs hn (final h) =
    let v' = bit_or v (shl64 (bit_and b 0x7f) s) in
    let w =
      if ltb (s + 7) 64 && not (bit_and b 0x40 == 0)
      then bit_or v' (2 ^ 64 - 2 ^ (s + 7))
      else v' in
    (w, Consumes-last _ (Consumes-read_byte b) (rw (ends b h) (Consumes-pure w)))
read_sn_loop-Chain bits (suc n) (suc k) v s (b ∷ bs) hs hn (longer lo hi c) =
    let (a, reads) =
      read_sn_loop-Chain bits n k (bit_or v (shl64 (bit_and b 0x7f) s)) (s + 7) bs (omega arith)
        (omega arith) c in
    (
      a,
      Consumes-bind _ (Consumes-read_byte b)
          (rw (goes_on b lo hi, le→ltb (bits + 7) (s + 7) (omega (arith, Chain-pos c))) reads),
    )

-- InstrReader.ReadS32 returns a value on every field of at most six bytes of which the last and no
-- other is below 128, whatever number the field encodes, and leaves the reader just after the field.
pub read_s32-Chain : (bs : List ℕ) → Chain 6 bs → (a : ℕ) × Consumes read_s32 bs a
unfolding read_s32 read_sn
read_s32-Chain bs c =
    let (a, reads) = read_sn_loop-Chain 32 11 6 0 0 bs (omega arith) (omega arith) c in
    (_, Consumes-last _ reads (Consumes-pure _))

pub read_s33-Chain : (bs : List ℕ) → Chain 6 bs → (a : ℕ) × Consumes read_s33 bs a
unfolding read_s33 read_sn
read_s33-Chain bs c = read_sn_loop-Chain 33 11 6 0 0 bs (omega arith) (omega arith) c

pub read_s64-Chain : (bs : List ℕ) → Chain 10 bs → (a : ℕ) × Consumes read_s64 bs a
unfolding read_s64 read_sn
read_s64-Chain bs c = read_sn_loop-Chain 64 11 10 0 0 bs (omega arith) (omega arith) c
