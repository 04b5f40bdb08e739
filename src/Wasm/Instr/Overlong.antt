-- ===== src/Wasm/Instr/Overlong.antt =====
-- Where ReadU64 of internal/wasm/instr.go and readU64 of internal/wasm/leb128.go part.
use wasm2go.Prelude.{
  ℕ, ◌*◌, ◌%◌, ◌^◌, ◌≤◌, ◌<◌, ◌≡◌, refl, List, [], ◌∷◌, ◌==◌, bit_and, ltb, true, arith,
}
use wasm2go.Prelude.Bits.{zero-bit_or}
use wasm2go.Wasm.Reader.{err, leb128_overflow}
use wasm2go.Wasm.Leb128
use wasm2go.Wasm.Leb128.Bytes.{low_seven, top_bit}
use wasm2go.Wasm.Instr.{done, at, new_instr_reader, read_byte, read_u64, read_u64_loop}

-- Nine bytes of no value that go on, and `b`.
abbrev pub ten_bytes : ℕ → List ℕ
ten_bytes b = 0x80 ∷ 0x80 ∷ 0x80 ∷ 0x80 ∷ 0x80 ∷ 0x80 ∷ 0x80 ∷ 0x80 ∷ 0x80 ∷ b ∷ []

-- On nine bytes 0x80 and a tenth byte from 2 to 127, which encode a number that is no uint64,
-- readU64 answers that the value overflows, and InstrReader.ReadU64 returns what is left of the
-- number modulo 2 ^ 64.
pub read_u64-truncates :
    (b : ℕ)
    → 2 ≤ b
    → b < 128
    → (Leb128.read_u64 (ten_bytes b) ≡ err leb128_overflow)
      × (read_u64 (new_instr_reader (ten_bytes b))
          ≡ (done (b * 2 ^ 63 % 2 ^ 64), at (ten_bytes b) 10))
unfolding Leb128.read_u64 Leb128.read_u64_loop Leb128.leb128_byte read_u64 read_u64_loop read_byte
    new_instr_reader
read_u64-truncates b h k =
    let e : bit_and b 0x7f ≡ b = simp (low_seven) (omega arith) in
    let z : (bit_and b 0x80 == 0) ≡ true = ground (arith, top_bit b (omega arith)) in
    let o : ltb 1 b ≡ true = ground arith in (simp (z, o) refl, simp (z, e, zero-bit_or) refl)
