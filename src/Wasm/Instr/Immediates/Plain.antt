-- ===== src/Wasm/Instr/Immediates/Plain.antt =====
-- SkipImmediates of internal/wasm/instr.go on the instructions of one byte.
use wasm2go.Prelude.{ℕ, ◌≤◌, ◌≡◌, true, List, [], ◌∷◌, length, arith}
use wasm2go.Wasm.Instr.{pure, read_byte, read_u32, read_s33}
use wasm2go.Wasm.Instr.Skip.{skip, skip_memarg, skip_plain, skip_immediates, one_of}
use wasm2go.Wasm.Instr.Consumes.{
  Consumes, Consumes-bind, Consumes-pure, Consumes-read_byte, Consumes-read_u32,
}
use wasm2go.Wasm.Instr.Immediates.{
  with_index, without_operand, Immediates, bare, numeric, index, memory, call_indirect, br_table,
  block, select_t, one_byte, i32_const, i64_const, f32_const, f64_const,
}
use wasm2go.Wasm.Instr.Immediates.Signed.{read_s32-Chain, read_s33-Chain, read_s64-Chain}
use wasm2go.Wasm.Instr.Immediates.Shapes.{
  skip-one, skip-two, Consumes-read_vec_u32, Consumes-skip_bytes, Consumes-skip_memarg,
  Consumes-read_f32, Consumes-read_f64,
}

skip-bare : (op : ℕ) → one_of op without_operand ≡ true → skip_immediates op ≡ pure tt
unfolding skip_immediates skip_plain
skip-bare op h = ground arith

skip-numeric : (op : ℕ) → 0x45 ≤ op → op ≤ 0xc4 → skip_immediates op ≡ pure tt
unfolding skip_immediates skip_plain
skip-numeric op h k = ground arith

skip-index : (op : ℕ) → one_of op with_index ≡ true → skip_immediates op ≡ skip read_u32
unfolding skip_immediates skip_plain
skip-index op h = ground arith

skip-memory : (op : ℕ) → 0x28 ≤ op → op ≤ 0x3e → skip_immediates op ≡ skip_memarg
unfolding skip_immediates skip_plain
skip-memory op h k = ground arith

skip-block :
    (op : ℕ)
    → one_of op (0x02 ∷ 0x03 ∷ 0x04 ∷ 0x06 ∷ []) ≡ true
    → skip_immediates op ≡ skip read_s33
unfolding skip_immediates skip_plain
skip-block op h = ground arith

skip-one_byte :
    (op : ℕ) → one_of op (0x3f ∷ 0x40 ∷ 0xd0 ∷ []) ≡ true → skip_immediates op ≡ skip read_byte
unfolding skip_immediates skip_plain
skip-one_byte op h = ground arith

-- On an opcode in 0x00-0x09, 0x0b-0x11, 0x18-0x1c, 0x20-0x24 or 0x28-0xc4, or 0xd0 or 0xd2, and any
-- immediate operands that the binary format gives it, unsigned numbers in their shortest encoding,
-- SkipImmediates succeeds and leaves the reader just after the operands. table.get (0x25), table.set
-- (0x26) and ref.is_null (0xd1) are not covered.
pub skip_immediates-Consumes :
    (op : ℕ) (bs : List ℕ) → Immediates op bs → Consumes (skip_immediates op) bs tt
unfolding skip_immediates skip_plain
skip_immediates-Consumes op [] (bare h) = rw (skip-bare op h) (Consumes-pure tt)
skip_immediates-Consumes op [] (numeric h k) = rw (skip-numeric op h k) (Consumes-pure tt)
skip_immediates-Consumes op bs (index v h k) =
    rw (skip-index op h) (skip-one (Consumes-read_u32 {v = v} k))
skip_immediates-Consumes op bs (memory a o lo hi h k) =
    rw (skip-memory op lo hi) (Consumes-skip_memarg a o h k)
skip_immediates-Consumes op bs (call_indirect x y h k) =
    skip-two (Consumes-read_u32 {v = x} h) (Consumes-read_u32 {v = y} k)
skip_immediates-Consumes op bs (br_table ls d h k m) =
    skip-two (Consumes-read_vec_u32 ls h k) (Consumes-read_u32 {v = d} m)
skip_immediates-Consumes op bs (block h c) =
    rw (skip-block op h) (skip-one ((read_s33-Chain bs c).1))
skip_immediates-Consumes op bs (select_t ts h) =
    Consumes-bind _ (Consumes-read_u32 {v = length ts} h) (Consumes-skip_bytes ts)
skip_immediates-Consumes op bs (one_byte b h) =
    rw (skip-one_byte op h) (skip-one (Consumes-read_byte b))
skip_immediates-Consumes op bs (i32_const c) = skip-one ((read_s32-Chain bs c).1)
skip_immediates-Consumes op bs (i64_const c) = skip-one ((read_s64-Chain bs c).1)
skip_immediates-Consumes op bs (f32_const a b c d) = skip-one (Consumes-read_f32 a b c d)
skip_immediates-Consumes op bs (f64_const a b c d e f g h) =
    skip-one (Consumes-read_f64 a b c d e f g h)
