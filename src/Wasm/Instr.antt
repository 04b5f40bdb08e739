-- ===== src/Wasm/Instr.antt =====
-- internal/wasm/instr.go: the reader over a function body's instruction bytes. Every method takes
-- the reader's state and returns its outcome and the state that it leaves, on an error too.
pub mod Opcodes
pub mod Skip
pub mod Bounds
pub mod Consumes
pub mod Immediates
pub mod Overlong
mod Tests
use wasm2go.Prelude.{
  ℕ, zero, suc, ◌+◌, ◌-◌, ◌*◌, ◌%◌, ◌^◌, bit_and, bit_or, Bool, ◌&&◌, not, Option, none, some, List,
  [], ◌∷◌, length, get_elem?, drop, ltb, leb, ◌==◌, if◌then◌else◌,
}
use wasm2go.Wasm.Leb128.{shl64}

-- `src` and `pos` of a Go slice and an int; NewInstrReader starts at 0.
pub record InstrReader : Type 0 where
  pub src : List ℕ
  pub pos : ℕ

abbrev pub at : List ℕ → ℕ → InstrReader
at src pos = record { src = src; pos = pos }

pub data InstrError : Type 0 where
  unexpected_eof unexpected_eof_f32 unexpected_eof_f64 : InstrError
  u32_overflow u64_overflow sn_overflow : InstrError
  unknown_opcode unknown_fe unknown_fd unsupported_fc : ℕ → InstrError

-- `stuck` is no Go value: a loop of the model ran out of fuel.
pub data Outcome {ℓ} (A : Type ℓ) : Type ℓ where
  done : A → Outcome A
  failed : InstrError → Outcome A
  stuck : Outcome A

abbrev pub Method {ℓ} : Type ℓ → Type ℓ
Method A = InstrReader → Outcome A × InstrReader

abbrev pub pure {ℓ} : {A : Type ℓ} → A → Method A
pure a r = (done a, r)

abbrev pub fail {ℓ} : {A : Type ℓ} → InstrError → Method A
fail e r = (failed e, r)

abbrev pub exhausted {ℓ} : {A : Type ℓ} → Method A
exhausted r = (stuck, r)

-- `if err != nil { return ..., err }` after a call.
abbrev pub next {ℓ κ} :
    {A : Type ℓ} {B : Type κ} → (A → Method B) → Outcome A × InstrReader → Outcome B × InstrReader
next f (done a, r) = f a r
next f (failed e, r) = (failed e, r)
next f (stuck, r) = (stuck, r)

infixl 5 ◌>>=◌ ◌>>◌
abbrev pub ◌>>=◌ {ℓ κ} : {A : Type ℓ} {B : Type κ} → Method A → (A → Method B) → Method B
◌>>=◌ p f r = next f (p r)

abbrev pub ◌>>◌ {ℓ κ} : {A : Type ℓ} {B : Type κ} → Method A → Method B → Method B
p >> q = p >>= λ _. q

unfoldable pub new_instr_reader : List ℕ → InstrReader
new_instr_reader src = at src 0

unfoldable pub at_eof : InstrReader → Bool
at_eof r = leb (length r.src) r.pos

unfoldable pub read_byte : Method ℕ
read_byte r = elim (get_elem? r.src r.pos) [
  | none ↦ (failed unexpected_eof, r)
  | some b ↦ (done b, at r.src (r.pos + 1))
]

-- The loop of ReadU64, with the rounds that are left.
unfoldable pub read_u64_loop : ℕ → ℕ → ℕ → Method ℕ
unfolding read_byte
read_u64_loop zero v s = fail u64_overflow
read_u64_loop (suc n) v s = do
  b ← read_byte
  let v' = bit_or v (shl64 (bit_and b 0x7f) s)
  let more = read_u64_loop n v' (s + 7)
  if bit_and b 0x80 == 0 then pure v' else more

unfoldable pub read_u64 : Method ℕ
unfolding read_u64_loop
read_u64 = read_u64_loop 10 0 0

unfoldable pub read_u32 : Method ℕ
unfolding read_u64
read_u32 = do v ← read_u64; if ltb 0xffffffff v then fail u32_overflow else pure v

-- The loop of ReadSN on fuel. An int64 is its bit pattern.
unfoldable pub read_sn_loop : ℕ → ℕ → ℕ → ℕ → Method ℕ
unfolding read_byte
read_sn_loop bits zero v s = exhausted
read_sn_loop bits (suc n) v s = do
  b ← read_byte
  let v' = bit_or v (shl64 (bit_and b 0x7f) s)
  let s' = s + 7
  let more = read_sn_loop bits n v' s'
  if bit_and b 0x80 == 0
      then pure (if ltb s' 64 && not (bit_and b 0x40 == 0) then bit_or v' (2 ^ 64 - 2 ^ s') else v')
      else (if ltb (bits + 7) s' then fail sn_overflow else more)

-- A width of at most 64 bits ends in eleven rounds.
unfoldable pub read_sn : ℕ → Method ℕ
unfolding read_sn_loop
read_sn bits = read_sn_loop bits 11 0 0

unfoldable pub read_s32 : Method ℕ
unfolding read_sn
read_s32 = do v ← read_sn 32; pure (v % 2 ^ 32)

unfoldable pub read_s33 : Method ℕ
unfolding read_sn
read_s33 = read_sn 33

unfoldable pub read_s64 : Method ℕ
unfolding read_sn
read_s64 = read_sn 64

-- binary.LittleEndian of the first `n` bytes.
abbrev pub little_endian : ℕ → List ℕ → ℕ
little_endian zero bs = 0
little_endian (suc n) [] = 0
little_endian (suc n) (b ∷ bs) = b + 256 * little_endian n bs

-- A float is its bit pattern.
unfoldable pub read_f32 : Method ℕ
read_f32 r =
    if ltb (length r.src) (r.pos + 4)
    then (failed unexpected_eof_f32, r)
    else (done (little_endian 4 (drop r.pos r.src)), at r.src (r.pos + 4))

unfoldable pub read_f64 : Method ℕ
read_f64 r =
    if ltb (length r.src) (r.pos + 8)
    then (failed unexpected_eof_f64, r)
    else (done (little_endian 8 (drop r.pos r.src)), at r.src (r.pos + 8))

unfoldable pub read_mem_arg : Method (ℕ × ℕ)
unfolding read_u32 read_u64
read_mem_arg = do align ← read_u32; offset ← read_u64; pure (align, offset)

-- `for i := range out`, with the elements that are left.
unfoldable pub read_u32s : ℕ → Method (List ℕ)
unfolding read_u32
read_u32s zero = pure []
read_u32s (suc n) = do v ← read_u32; vs ← read_u32s n; pure (v ∷ vs)

unfoldable pub read_vec_u32 : Method (List ℕ)
unfolding read_u32 read_u32s
read_vec_u32 = do n ← read_u32; read_u32s n
