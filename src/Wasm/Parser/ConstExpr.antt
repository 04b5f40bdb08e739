-- ===== src/Wasm/Parser/ConstExpr.antt =====
-- readConstExpr of internal/wasm/parser.go.
pub mod Local
pub mod Total
use wasm2go.Prelude.{
  ℕ, zero, suc, ◌+◌, ◌-◌, ◌^◌, List, [], ◌∷◌, ◌++◌, ltb, ◌==◌, if◌then◌else◌, length,
}
use wasm2go.Wasm.Reader.{
  Result, ok, err, stuck, bind, Reader, pure, fail, ◌>>=◌, read_byte, read_full, unsupported_opcode,
}
use wasm2go.Wasm.Leb128.{read_s32, read_s64, read_u32, write_uleb, write_sleb}

-- `int64(v)` of the bit pattern of an int32.
abbrev pub extend32 : ℕ → ℕ
extend32 v = if ltb v (2 ^ 31) then v else v + (2 ^ 64 - 2 ^ 32)

-- A writer's buffer, with nothing read.
abbrev pub written : Result (List ℕ) → Reader (List ℕ)
written r bs = bind r λ buf. ok (buf, bs)

-- The immediates of one constant instruction, written back to the buffer behind its opcode.
unfoldable pub const_immediate : ℕ → List ℕ → Reader (List ℕ)
const_immediate op buf =
    if op == 0x41
    then (do v ← read_s32; written (write_sleb buf (extend32 v)))
    else if op == 0x42
    then (do v ← read_s64; written (write_sleb buf v))
    else if op == 0x43
    then (do b ← read_full 4; pure (buf ++ b))
    else if op == 0x44
    then (do b ← read_full 8; pure (buf ++ b))
    else if op == 0x23
    then (do v ← read_u32; written (write_uleb buf v))
    else if op == 0xd0
    then (do t ← read_byte; pure (buf ++ (t ∷ [])))
    else if op == 0xd2
    then (do v ← read_u32; written (write_uleb buf v))
    else fail (unsupported_opcode op)

-- The loop, on fuel: each round takes a byte.
unfoldable pub const_expr_loop : ℕ → List ℕ → Reader (List ℕ)
unfolding const_immediate read_byte
const_expr_loop zero buf bs = stuck
const_expr_loop (suc fuel) buf bs = bind (read_byte bs) λ (op, rest).
    let buf' = buf ++ (op ∷ []) in
    let more =
      bind (const_immediate op buf' rest) λ (buf'', rest'). const_expr_loop fuel buf'' rest' in
    if op == 0x0b then ok (buf', rest) else more

-- The raw bytes of one constant expression, the final 0x0b included.
unfoldable pub read_const_expr : Reader (List ℕ)
unfolding const_expr_loop
read_const_expr bs = const_expr_loop (length bs + 1) [] bs
