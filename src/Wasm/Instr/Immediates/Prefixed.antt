-- ===== src/Wasm/Instr/Immediates/Prefixed.antt =====
-- The instructions behind the prefixes 0xfc, 0xfd and 0xfe: what may follow each sub-opcode in the
-- binary format, and SkipImmediates of internal/wasm/instr.go on it.
use wasm2go.Prelude.{ℕ, ◌≤◌, ◌≡◌, ◌≢◌, List, [], ◌∷◌, ◌++◌, length, arith}
use wasm2go.Wasm.Reader.{IsU32, IsU64}
use wasm2go.Wasm.Leb128.Encoding.{uleb}
use wasm2go.Wasm.Instr.{pure, ◌>>◌, read_byte, read_u32}
use wasm2go.Wasm.Instr.Skip.{
  skip, skip_bytes, skip_memarg, skip_fe, skip_fe_sub, skip_fd, skip_fd_sub, skip_fc, skip_fc_sub,
  skip_immediates,
}
use wasm2go.Wasm.Instr.Consumes.{
  Consumes, Consumes-bind, Consumes-pure, Consumes-read_byte, Consumes-read_u32,
}
use wasm2go.Wasm.Instr.Immediates.Shapes.{
  skip-one, skip-two, Consumes-skip_bytes, Consumes-skip_memarg,
}

-- memory.init, data.drop, memory.copy and so on, with their indices and reserved bytes.
pub data Bulk : ℕ → List ℕ → Type 0 where
  saturating : {sub : ℕ} → sub ≤ 7 → Bulk sub []
  memory_init : (seg b : ℕ) → IsU32 seg → Bulk 8 (uleb seg ++ (b ∷ []))
  data_drop : (seg : ℕ) → IsU32 seg → Bulk 9 (uleb seg)
  memory_copy : (a b : ℕ) → Bulk 10 ((a ∷ []) ++ (b ∷ []))
  memory_fill : (b : ℕ) → Bulk 11 (b ∷ [])
  table_init : (elem table : ℕ) → IsU32 elem → IsU32 table → Bulk 12 (uleb elem ++ uleb table)
  elem_drop : (elem : ℕ) → IsU32 elem → Bulk 13 (uleb elem)
  table_copy : (to from : ℕ) → IsU32 to → IsU32 from → Bulk 14 (uleb to ++ uleb from)
  table_op : {sub : ℕ} (table : ℕ) → 15 ≤ sub → sub ≤ 17 → IsU32 table → Bulk sub (uleb table)

-- Vector instructions.
pub data Simd : ℕ → List ℕ → Type 0 where
  load :
      {sub : ℕ} (align offset : ℕ)
      → sub ≤ 0x0b
      → IsU32 align
      → IsU64 offset
      → Simd sub (uleb align ++ uleb offset)
  sixteen : {sub : ℕ} (bs : List ℕ) → 0x0c ≤ sub → sub ≤ 0x0d → length bs ≡ 16 → Simd sub bs
  lane : {sub : ℕ} (b : ℕ) → 0x15 ≤ sub → sub ≤ 0x22 → Simd sub (b ∷ [])
  load_lane :
      {sub : ℕ} (align offset b : ℕ)
      → 0x54 ≤ sub
      → sub ≤ 0x5b
      → IsU32 align
      → IsU64 offset
      → Simd sub ((uleb align ++ uleb offset) ++ (b ∷ []))
  load_zero :
      {sub : ℕ} (align offset : ℕ)
      → 0x5c ≤ sub
      → sub ≤ 0x5d
      → IsU32 align
      → IsU64 offset
      → Simd sub (uleb align ++ uleb offset)
  splat_or_swizzle : {sub : ℕ} → 0x0e ≤ sub → sub ≤ 0x14 → Simd sub []
  compare_or_bits : {sub : ℕ} → 0x23 ≤ sub → sub ≤ 0x53 → Simd sub []
  arithmetic : {sub : ℕ} → 0x5e ≤ sub → sub ≤ 0xff → Simd sub []

-- Atomic instructions.
pub data Atomic : ℕ → List ℕ → Type 0 where
  fence : (b : ℕ) → Atomic 0x03 (b ∷ [])
  access :
      {sub : ℕ} (align offset : ℕ)
      → sub ≤ 0x4e
      → sub ≢ 3
      → IsU32 align
      → IsU64 offset
      → Atomic sub (uleb align ++ uleb offset)

skip_fc_sub-Bulk : (sub : ℕ) (bs : List ℕ) → Bulk sub bs → Consumes (skip_fc_sub sub) bs tt
unfolding skip_fc_sub
skip_fc_sub-Bulk sub bs (saturating h) =
    let e : skip_fc_sub sub ≡ pure tt = ground arith in rw e (Consumes-pure tt)
skip_fc_sub-Bulk sub bs (memory_init d b h) =
    skip-two (Consumes-read_u32 {v = d} h) (Consumes-read_byte b)
skip_fc_sub-Bulk sub bs (data_drop d h) = skip-one (Consumes-read_u32 {v = d} h)
skip_fc_sub-Bulk sub bs (memory_copy a b) = skip-two (Consumes-read_byte a) (Consumes-read_byte b)
skip_fc_sub-Bulk sub bs (memory_fill b) = skip-one (Consumes-read_byte b)
skip_fc_sub-Bulk sub bs (table_init x y h k) =
    skip-two (Consumes-read_u32 {v = x} h) (Consumes-read_u32 {v = y} k)
skip_fc_sub-Bulk sub bs (elem_drop x h) = skip-one (Consumes-read_u32 {v = x} h)
skip_fc_sub-Bulk sub bs (table_copy x y h k) =
    skip-two (Consumes-read_u32 {v = x} h) (Consumes-read_u32 {v = y} k)
skip_fc_sub-Bulk sub bs (table_op x lo hi h) =
    let e : skip_fc_sub sub ≡ skip read_u32 = ground arith in
    rw e (skip-one (Consumes-read_u32 {v = x} h))

skip_fd_sub-Simd : (sub : ℕ) (bs : List ℕ) → Simd sub bs → Consumes (skip_fd_sub sub) bs tt
unfolding skip_fd_sub
skip_fd_sub-Simd sub bs (load a o le h k) =
    let e : skip_fd_sub sub ≡ skip_memarg = ground arith in rw e (Consumes-skip_memarg a o h k)
skip_fd_sub-Simd sub bs (sixteen xs lo hi n) =
    let e : skip_fd_sub sub ≡ skip_bytes (length bs) = ground arith in rw e (Consumes-skip_bytes bs)
skip_fd_sub-Simd sub bs (lane b lo hi) =
    let e : skip_fd_sub sub ≡ skip read_byte = ground arith in
    rw e (skip-one (Consumes-read_byte b))
skip_fd_sub-Simd sub bs (load_lane a o b lo hi h k) =
    let e : skip_fd_sub sub ≡ (skip_memarg >> skip read_byte) = ground arith in
    rw e (skip-two (Consumes-skip_memarg a o h k) (Consumes-read_byte b))
skip_fd_sub-Simd sub bs (load_zero a o lo hi h k) =
    let e : skip_fd_sub sub ≡ skip_memarg = ground arith in rw e (Consumes-skip_memarg a o h k)
skip_fd_sub-Simd sub bs (splat_or_swizzle lo hi) =
    let e : skip_fd_sub sub ≡ pure tt = ground arith in rw e (Consumes-pure tt)
skip_fd_sub-Simd sub bs (compare_or_bits lo hi) =
    let e : skip_fd_sub sub ≡ pure tt = ground arith in rw e (Consumes-pure tt)
skip_fd_sub-Simd sub bs (arithmetic lo hi) =
    let e : skip_fd_sub sub ≡ pure tt = ground arith in rw e (Consumes-pure tt)

skip_fe_sub-Atomic : (sub : ℕ) (bs : List ℕ) → Atomic sub bs → Consumes (skip_fe_sub sub) bs tt
unfolding skip_fe_sub
skip_fe_sub-Atomic sub bs (fence b) = skip-one (Consumes-read_byte b)
skip_fe_sub-Atomic sub bs (access a o le ne h k) =
    let e : skip_fe_sub sub ≡ skip_memarg = ground arith in rw e (Consumes-skip_memarg a o h k)

-- The sub-opcodes and operands that may follow the prefix `op`.
pub data Prefixed : ℕ → ℕ → List ℕ → Type 0 where
  bulk : {sub : ℕ} {bs : List ℕ} → Bulk sub bs → Prefixed 0xfc sub bs
  simd : {sub : ℕ} {bs : List ℕ} → Simd sub bs → Prefixed 0xfd sub bs
  atomic : {sub : ℕ} {bs : List ℕ} → Atomic sub bs → Prefixed 0xfe sub bs

-- On a prefix 0xfc, 0xfd or 0xfe, a canonically encoded sub-opcode below 2 ^ 32 and any operands that
-- the format gives the two, SkipImmediates succeeds and leaves the reader just after the operands.
pub skip_immediates-Prefixed :
    (op sub : ℕ) (bs : List ℕ)
    → IsU32 sub
    → Prefixed op sub bs
    → Consumes (skip_immediates op) (uleb sub ++ bs) tt
unfolding skip_immediates skip_fc skip_fd skip_fe
skip_immediates-Prefixed op sub bs h (bulk p) =
    Consumes-bind _ (Consumes-read_u32 {v = sub} h) (skip_fc_sub-Bulk sub bs p)
skip_immediates-Prefixed op sub bs h (simd p) =
    Consumes-bind _ (Consumes-read_u32 {v = sub} h) (skip_fd_sub-Simd sub bs p)
skip_immediates-Prefixed op sub bs h (atomic p) =
    Consumes-bind _ (Consumes-read_u32 {v = sub} h) (skip_fe_sub-Atomic sub bs p)
