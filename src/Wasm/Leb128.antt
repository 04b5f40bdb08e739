-- ===== src/Wasm/Leb128.antt =====
-- internal/wasm/leb128.go: LEB128 integers read from a byte source; and the two writers of
-- internal/wasm/parser.go. A uint64 is a number below 2 ^ 64, and an int64 is its bit pattern.
pub mod Bytes
pub mod Unsigned
pub mod Encoding
pub mod Signed
pub mod Local
pub mod Total
use wasm2go.Prelude.{
  ℕ, zero, suc, ◌+◌, ◌-◌, ◌*◌, ◌/◌, ◌%◌, ◌^◌, bit_and, bit_or, Bool, ◌&&◌, ◌||◌, not, List, [], ◌∷◌,
  ◌++◌, ltb, leb, ◌==◌, if◌then◌else◌,
}
use wasm2go.Wasm.Reader.{
  Error, Result, ok, err, stuck, bind, Reader, pure, fail, ◌>>=◌, ◌>>◌, refuse_if, read_byte,
  read_full, eof, leb128_overflow, leb128_truncated, too_long,
}

-- `if errors.Is(err, io.EOF) { return 0, errLEB128Truncated }`
unfoldable pub leb128_byte : Reader ℕ
unfolding read_byte
leb128_byte bs = elim (read_byte bs) [ err eof ↦ err leb128_truncated | err e ↦ err e | r ↦ r ]

-- `x << k` at 64 bits, and `x >> k` of an int64.
abbrev pub shl64 : ℕ → ℕ → ℕ
shl64 x k = x * 2 ^ k % 2 ^ 64

abbrev pub sar64 : ℕ → ℕ → ℕ
sar64 x k = if ltb x (2 ^ 63) then x / 2 ^ k else 2 ^ 64 - 1 - (2 ^ 64 - 1 - x) / 2 ^ k

-- The loop of readU64, with the rounds that are left.
unfoldable pub read_u64_loop : ℕ → ℕ → ℕ → ℕ → Reader ℕ
unfolding leb128_byte
read_u64_loop zero i shift result = fail leb128_overflow
read_u64_loop (suc n) i shift result = do
  b ← leb128_byte
  refuse_if (leb 64 shift) leb128_overflow
  let result' = bit_or result (shl64 (bit_and b 0x7f) shift)
  let more = read_u64_loop n (i + 1) (shift + 7) result'
  if bit_and b 0x80 == 0
      then (if (i == 9) && ltb 1 b then fail leb128_overflow else pure result')
      else more

unfoldable pub read_u64 : Reader ℕ
unfolding read_u64_loop
read_u64 = read_u64_loop 10 0 0 0

unfoldable pub read_u32 : Reader ℕ
unfolding read_u64
read_u32 = do v ← read_u64; refuse_if (ltb 0xffffffff v) leb128_overflow; pure v

-- The test on the payload bits of `b` at or above the declared width, after `b` was OR'd in.
unfoldable pub bad_sign_bits : ℕ → ℕ → ℕ → ℕ → Bool
bad_sign_bits bits shift result b =
    let sign_bit = bit_and (sar64 result (bits - 1)) 1 in
    let sign_byte = if sign_bit == 0 then 0 else 0x7f in
    let legal_in_this_byte = if ltb shift bits then bits - shift else 0 in
    let mask = bit_and 0x7f (255 - (2 ^ legal_in_this_byte % 256 + 255) % 256) in
    not (bit_and b mask == bit_and sign_byte mask)

-- The loop of readS64Bits, with the rounds that are left.
unfoldable pub read_s64_bits_loop : ℕ → ℕ → ℕ → ℕ → Reader ℕ
unfolding leb128_byte bad_sign_bits
read_s64_bits_loop bits zero shift result = fail leb128_overflow
read_s64_bits_loop bits (suc n) shift result = do
  b ← leb128_byte
  let result' = bit_or result (shl64 (bit_and b 0x7f) shift)
  refuse_if (ltb bits (shift + 7) && bad_sign_bits bits shift result' b) leb128_overflow
  let shift' = shift + 7
  let more = read_s64_bits_loop bits n shift' result'
  if bit_and b 0x80 == 0
      then pure (
          if ltb shift' 64 && not (bit_and b 0x40 == 0)
          then bit_or result' (2 ^ 64 - 2 ^ shift')
          else result')
      else more

unfoldable pub read_s64_bits : ℕ → Reader ℕ
unfolding read_s64_bits_loop
read_s64_bits bits = read_s64_bits_loop bits 10 0 0

-- The int32 is its bit pattern.
unfoldable pub read_s32 : Reader ℕ
unfolding read_s64_bits
read_s32 = do v ← read_s64_bits 32; pure (v % 2 ^ 32)

unfoldable pub read_s64 : Reader ℕ
unfolding read_s64_bits
read_s64 = read_s64_bits 64

abbrev pub read_byte_vec_cap : ℕ
read_byte_vec_cap = 2 ^ 28

unfoldable pub read_byte_vec : Reader (List ℕ)
unfolding read_u32 read_full
read_byte_vec = do n ← read_u32; refuse_if (ltb read_byte_vec_cap n) (too_long n); read_full n

-- A string is its bytes.
unfoldable pub read_name : Reader (List ℕ)
unfolding read_byte_vec
read_name = do b ← read_byte_vec; pure b

-- writeULEB, with the rounds that are left; ten are enough for a uint64.
unfoldable pub write_uleb_loop : ℕ → List ℕ → ℕ → Result (List ℕ)
write_uleb_loop zero buf v = stuck
write_uleb_loop (suc n) buf v =
    let low = bit_and v 0x7f in
    let v' = v / 2 ^ 7 in
    let b = if v' == 0 then low else bit_or low 0x80 in
    let more = write_uleb_loop n (buf ++ (b ∷ [])) v' in
    if v' == 0 then ok (buf ++ (b ∷ [])) else more

unfoldable pub write_uleb : List ℕ → ℕ → Result (List ℕ)
unfolding write_uleb_loop
write_uleb buf v = write_uleb_loop 10 buf v

-- writeSLEB on the bit pattern of an int64; -1 is 2 ^ 64 - 1.
unfoldable pub write_sleb_loop : ℕ → List ℕ → ℕ → Result (List ℕ)
write_sleb_loop zero buf v = stuck
write_sleb_loop (suc n) buf v =
    let b = bit_and v 0x7f in
    let v' = sar64 v 7 in
    let clear = bit_and b 0x40 == 0 in
    let more = write_sleb_loop n (buf ++ (bit_or b 0x80 ∷ [])) v' in
    if ((v' == 0) && clear) || ((v' == 2 ^ 64 - 1) && not clear) then ok (buf ++ (b ∷ [])) else more

unfoldable pub write_sleb : List ℕ → ℕ → Result (List ℕ)
unfolding write_sleb_loop
write_sleb buf v = write_sleb_loop 10 buf v
