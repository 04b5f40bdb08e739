-- ===== src/Wasm/Instr/Immediates.antt =====
-- The immediate operands of the instructions that the code knows, as the WebAssembly binary format
-- gives them, and SkipImmediates of internal/wasm/instr.go on them.
pub mod Signed
pub mod Shapes
pub mod Plain
pub mod Unknown
pub mod Prefixed
use wasm2go.Prelude.{ℕ, suc, ◌≤◌, ◌<◌, ◌≡◌, true, Bool, List, [], ◌∷◌, ◌++◌, length, All}
use wasm2go.Wasm.Reader.{IsU32, IsU64}
use wasm2go.Wasm.Leb128.Encoding.{uleb}
use wasm2go.Wasm.Format.Vectors.{flat}
use wasm2go.Wasm.Instr.Skip.{one_of}
use Signed.{Chain}

-- br, br_if, call, local.get/set/tee, global.get/set, ref.func; and catch, throw, rethrow, delegate.
abbrev pub with_index : List ℕ
with_index =
    0x0c ∷ 0x0d ∷ 0x10 ∷ 0x20 ∷ 0x21 ∷ 0x22 ∷ 0x23 ∷ 0x24 ∷ 0xd2 ∷ 0x07 ∷ 0x08 ∷ 0x09 ∷ 0x18 ∷ []

-- unreachable, nop, else, end, return, drop, select, catch_all.
abbrev pub without_operand : List ℕ
without_operand = 0x00 ∷ 0x01 ∷ 0x05 ∷ 0x0b ∷ 0x0f ∷ 0x1a ∷ 0x1b ∷ 0x19 ∷ []

-- The instructions of one byte that SkipImmediates knows and what may follow each of them. An unsigned
-- number is in its shortest encoding, a signed one in at most the bytes that its reader takes.
-- table.get (0x25), table.set (0x26) and ref.is_null (0xd1) are not among them.
pub data Immediates : ℕ → List ℕ → Type 0 where
  bare : {op : ℕ} → one_of op without_operand ≡ true → Immediates op []
  numeric : {op : ℕ} → 0x45 ≤ op → op ≤ 0xc4 → Immediates op []
  index : {op : ℕ} (v : ℕ) → one_of op with_index ≡ true → IsU32 v → Immediates op (uleb v)
  memory :
      {op : ℕ} (align offset : ℕ)
      → 0x28 ≤ op
      → op ≤ 0x3e
      → IsU32 align
      → IsU64 offset
      → Immediates op (uleb align ++ uleb offset)
  call_indirect :
      (type table : ℕ) → IsU32 type → IsU32 table → Immediates 0x11 (uleb type ++ uleb table)
  br_table :
      (labels : List ℕ) (other : ℕ)
      → IsU32 (length labels)
      → All IsU32 labels
      → IsU32 other
      → Immediates 0x0e ((uleb (length labels) ++ flat uleb labels) ++ uleb other)
  block :
      {op : ℕ} {bs : List ℕ}
      → one_of op (0x02 ∷ 0x03 ∷ 0x04 ∷ 0x06 ∷ []) ≡ true
      → Chain 6 bs
      → Immediates op bs
  select_t :
      (types : List ℕ) → IsU32 (length types) → Immediates 0x1c (uleb (length types) ++ types)
  one_byte : {op : ℕ} (b : ℕ) → one_of op (0x3f ∷ 0x40 ∷ 0xd0 ∷ []) ≡ true → Immediates op (b ∷ [])
  i32_const : {bs : List ℕ} → Chain 6 bs → Immediates 0x41 bs
  i64_const : {bs : List ℕ} → Chain 10 bs → Immediates 0x42 bs
  f32_const : (a b c d : ℕ) → Immediates 0x43 (a ∷ b ∷ c ∷ d ∷ [])
  f64_const : (a b c d e f g h : ℕ) → Immediates 0x44 (a ∷ b ∷ c ∷ d ∷ e ∷ f ∷ g ∷ h ∷ [])
