-- ===== src/Wasm/Instr/Skip.antt =====
-- internal/wasm/instr.go: SkipImmediates, with one definition for each of its prefixed parts.
use wasm2go.Prelude.{ℕ, zero, suc, Bool, false, ◌&&◌, ◌||◌, List, [], ◌∷◌, leb, ◌==◌, if◌then◌else◌}
use wasm2go.Wasm.Instr.{
  Method, pure, fail, ◌>>=◌, ◌>>◌, read_byte, read_u32, read_u64, read_s32, read_s33, read_s64,
  read_f32, read_f64, read_vec_u32, unknown_opcode, unknown_fe, unknown_fd, unsupported_fc,
}
use wasm2go.Wasm.Instr.Opcodes.{
  op_block, op_br, op_br_if, op_br_table, op_call, op_call_indirect, op_catch, op_catch_all,
  op_delegate, op_drop, op_else, op_end, op_f32_const, op_f64_const, op_global_get, op_global_set,
  op_i32_const, op_i64_const, op_if, op_local_get, op_local_set, op_local_tee, op_loop, op_mem_grow,
  op_mem_size, op_nop, op_prefix_fc, op_prefix_fd, op_prefix_fe, op_ref_func, op_ref_null,
  op_rethrow, op_return, op_select, op_select_t, op_throw, op_try, op_unreachable,
}

-- `case a, b, ...:`
abbrev pub one_of : ℕ → List ℕ → Bool
one_of op [] = false
one_of op (x ∷ xs) = (op == x) || one_of op xs

-- `if _, err := r.ReadX(); err != nil { return err }`, and `return nil` after it.
abbrev pub skip {ℓ} : {A : Type ℓ} → Method A → Method (Unit {0})
skip p = p >> pure tt

-- `for i := 0; i < n; i++` over ReadByte.
unfoldable pub skip_bytes : ℕ → Method (Unit {0})
unfolding read_byte
skip_bytes zero = pure tt
skip_bytes (suc n) = do read_byte; skip_bytes n

unfoldable pub skip_memarg : Method (Unit {0})
unfolding read_u32 read_u64
skip_memarg = do read_u32; skip read_u64

abbrev pub between : ℕ → ℕ → ℕ → Bool
between lo op hi = leb lo op && leb op hi

-- The switch on the sub-opcode.
unfoldable pub skip_fe_sub : ℕ → Method (Unit {0})
unfolding read_byte skip_memarg
skip_fe_sub sub =
    if sub == 0x03
    then skip read_byte
    else if leb sub 0x4e
    then skip_memarg
    else fail (unknown_fe sub)

unfoldable pub skip_fe : Method (Unit {0})
unfolding read_u32 skip_fe_sub
skip_fe = do sub ← read_u32; skip_fe_sub sub

-- The switch on the sub-opcode.
unfoldable pub skip_fd_sub : ℕ → Method (Unit {0})
unfolding read_byte skip_memarg skip_bytes
skip_fd_sub sub =
    if leb sub 0x0b
    then skip_memarg
    else if one_of sub (0x0c ∷ 0x0d ∷ [])
    then skip_bytes 16
    else if between 0x15 sub 0x22
    then skip read_byte
    else if between 0x54 sub 0x5b
    then (do skip_memarg; skip read_byte)
    else if one_of sub (0x5c ∷ 0x5d ∷ [])
    then skip_memarg
    else if leb sub 0xff
    then pure tt
    else fail (unknown_fd sub)

unfoldable pub skip_fd : Method (Unit {0})
unfolding read_u32 skip_fd_sub
skip_fd = do sub ← read_u32; skip_fd_sub sub

-- The switch on the sub-opcode.
unfoldable pub skip_fc_sub : ℕ → Method (Unit {0})
unfolding read_u32 read_byte
skip_fc_sub sub =
    if one_of sub (0 ∷ 1 ∷ 2 ∷ 3 ∷ 4 ∷ 5 ∷ 6 ∷ 7 ∷ [])
    then pure tt
    else if sub == 8
    then (do read_u32; skip read_byte)
    else if sub == 9
    then skip read_u32
    else if sub == 10
    then (do read_byte; skip read_byte)
    else if sub == 11
    then skip read_byte
    else if sub == 12
    then (do read_u32; skip read_u32)
    else if sub == 13
    then skip read_u32
    else if sub == 14
    then (do read_u32; skip read_u32)
    else if one_of sub (15 ∷ 16 ∷ 17 ∷ [])
    then skip read_u32
    else fail (unsupported_fc sub)

unfoldable pub skip_fc : Method (Unit {0})
unfolding read_u32 skip_fc_sub
skip_fc = do sub ← read_u32; skip_fc_sub sub

abbrev pub index_ops : List ℕ
index_ops =
    op_br ∷ op_br_if ∷ op_local_get ∷ op_local_set ∷ op_local_tee ∷ op_global_get ∷ op_global_set
    ∷ op_call ∷ op_catch ∷ op_throw ∷ op_rethrow ∷ op_delegate ∷ []

abbrev pub bare_ops : List ℕ
bare_ops =
    op_else ∷ op_end ∷ op_return ∷ op_unreachable ∷ op_nop ∷ op_drop ∷ op_select ∷ op_catch_all ∷ []

-- The part after the prefixes.
unfoldable pub skip_plain : ℕ → Method (Unit {0})
unfolding read_u32 read_u64 read_byte read_vec_u32 read_s32 read_s33 read_s64 read_f32 read_f64
    skip_memarg skip_bytes
skip_plain op =
    if one_of op index_ops
    then skip read_u32
    else if op == op_ref_func
    then skip read_u32
    else if op == op_ref_null
    then skip read_byte
    else if op == op_call_indirect
    then (do read_u32; skip read_u32)
    else if op == op_br_table
    then (do read_vec_u32; skip read_u32)
    else if one_of op (op_block ∷ op_loop ∷ op_if ∷ op_try ∷ [])
    then skip read_s33
    else if one_of op bare_ops
    then pure tt
    else if op == op_select_t
    then (do n ← read_u32; skip_bytes n)
    else if one_of op (op_mem_size ∷ op_mem_grow ∷ [])
    then skip read_byte
    else if op == op_i32_const
    then skip read_s32
    else if op == op_i64_const
    then skip read_s64
    else if op == op_f32_const
    then skip read_f32
    else if op == op_f64_const
    then skip read_f64
    else if between 0x28 op 0x3e
    then skip_memarg
    else if between 0x45 op 0xc4
    then pure tt
    else fail (unknown_opcode op)

unfoldable pub skip_immediates : ℕ → Method (Unit {0})
unfolding skip_fe skip_fd skip_fc skip_plain
skip_immediates op =
    if op == op_prefix_fe
    then skip_fe
    else if op == op_prefix_fd
    then skip_fd
    else if op == op_prefix_fc
    then skip_fc
    else skip_plain op
