-- ===== src/Wasm/Instr/Tests.antt =====
-- Runs of the instruction reader on concrete bytes, and its theorems applied to them.
use wasm2go.Prelude.{
  All, ◌≤◌, List, ◌≢◌, ℕ, ◌≡◌, ◌↔◌, ◌*◌, ◌%◌, ◌^◌, refl, [], ◌∷◌, ◌++◌, drop, arith,
}
use wasm2go.Prelude.Int.{pos, negsuc}
use wasm2go.Wasm.Reader.{ok, err, leb128_overflow, unsupported_opcode}
use wasm2go.Wasm.Reader.Local.{Reads}
use wasm2go.Wasm.Leb128
use wasm2go.Wasm.Leb128.Encoding.{uleb}
use wasm2go.Wasm.Parser.ConstExpr.{read_const_expr}
use wasm2go.Wasm.Format.ConstExprs.{
  ConstInstr, opcode, instr_bytes, i32_const, i64_const, f32_const, f64_const, global_get, ref_null,
  ref_func, expr_bytes, Reads-read_const_expr, read_const_expr-unsupported,
}
use wasm2go.Wasm.Format.Vectors.{flat}
use wasm2go.Wasm.Instr.{
  done, failed, fail, unknown_opcode, at, new_instr_reader, read_u64, read_s32,
}
use wasm2go.Wasm.Instr.Opcodes.{memory_ops, comparison_ops, integer_ops, float_ops, conversion_ops}
use wasm2go.Wasm.Instr.Skip.{skip_immediates, skip_plain}
use wasm2go.Wasm.Instr.Bounds.{Advances, skip_immediates-Advances}
use wasm2go.Wasm.Instr.Consumes.{Leaves, Consumes, read_u64-agrees}
use wasm2go.Wasm.Instr.Immediates.{Immediates, br_table}
use wasm2go.Wasm.Instr.Immediates.Plain.{skip_immediates-Consumes}
use wasm2go.Wasm.Instr.Immediates.Unknown.{skip_immediates-unknown_iff}
use wasm2go.Wasm.Instr.Immediates.Signed.{final, longer, read_s32-Chain}
use wasm2go.Wasm.Instr.Immediates.Prefixed.{bulk, memory_init, skip_immediates-Prefixed}
use wasm2go.Wasm.Instr.Overlong.{ten_bytes, read_u64-truncates}

-- The opcodes that opcodes.go names lie in the ranges that SkipImmediates tests.
memory_ops-range : All (λ op. (0x28 ≤ op) × (op ≤ 0x3e)) memory_ops
memory_ops-range = omega arith

operators-range :
    All
      (λ op. (0x45 ≤ op) × (op ≤ 0xc4))
      (comparison_ops ++ integer_ops ++ float_ops ++ conversion_ops)
operators-range = omega arith

-- No instruction has the opcode 0xff.
unknown :
    skip_immediates 0xff (new_instr_reader (0x0b ∷ []))
    ≡ (failed (unknown_opcode 0xff), at (0x0b ∷ []) 0)
unfolding skip_immediates skip_plain new_instr_reader
unknown = refl

-- memory.copy with its last byte missing.
skip_immediates-Advances_example :
    Advances
      (at (0xfc ∷ 0x0a ∷ 0x00 ∷ []) 1)
      (skip_immediates 0xfc (at (0xfc ∷ 0x0a ∷ 0x00 ∷ []) 1))
skip_immediates-Advances_example =
    skip_immediates-Advances 0xfc (at (0xfc ∷ 0x0a ∷ 0x00 ∷ []) 1) (omega arith)

-- br_table 1 2 and 0.
skip_immediates-Consumes_example :
    Consumes (skip_immediates 0x0e) ((uleb 2 ++ (uleb 1 ++ (uleb 2 ++ []))) ++ uleb 0) tt
skip_immediates-Consumes_example =
    skip_immediates-Consumes 0x0e ((uleb 2 ++ (uleb 1 ++ (uleb 2 ++ []))) ++ uleb 0)
      (br_table (1 ∷ 2 ∷ []) 0 (omega arith) (omega arith) (omega arith))

-- table.get.
skip_immediates-unknown_iff_example :
    (skip_immediates 0x25 ≡ fail (unknown_opcode 0x25)) ↔ ((bs : List ℕ) → ¬ Immediates 0x25 bs)
skip_immediates-unknown_iff_example =
    skip_immediates-unknown_iff 0x25 (omega arith) (omega arith) (omega arith)

-- 300, behind an opcode.
read_300 : Leb128.read_u64 (drop 1 (0x20 ∷ 0xac ∷ 0x02 ∷ 0x0b ∷ [])) ≡ ok (300, 0x0b ∷ [])
unfolding Leb128.read_u64
read_300 = refl

read_u64-agrees_example :
    Leaves
      (read_u64 (at (0x20 ∷ 0xac ∷ 0x02 ∷ 0x0b ∷ []) 1))
      (0x20 ∷ 0xac ∷ 0x02 ∷ 0x0b ∷ [])
      1
      300
      (0x0b ∷ [])
read_u64-agrees_example =
    read_u64-agrees (0x20 ∷ 0xac ∷ 0x02 ∷ 0x0b ∷ []) 1 300 (0x0b ∷ []) read_300

read_u64-truncates_example :
    (Leb128.read_u64 (ten_bytes 2) ≡ err leb128_overflow)
    × (read_u64 (new_instr_reader (ten_bytes 2))
        ≡ (done (2 * 2 ^ 63 % 2 ^ 64), at (ten_bytes 2) 10))
read_u64-truncates_example = read_u64-truncates 2 (omega arith) (omega arith)

-- 2 ^ 32 - 1, which is no int32.
read_s32-Chain_example : (a : ℕ) × Consumes read_s32 (0xff ∷ 0xff ∷ 0xff ∷ 0xff ∷ 0x0f ∷ []) a
read_s32-Chain_example = read_s32-Chain (0xff ∷ 0xff ∷ 0xff ∷ 0xff ∷ 0x0f ∷ []) (
    longer (omega arith) (omega arith) (
      longer (omega arith) (omega arith) (
        longer (omega arith) (omega arith)
          (longer (omega arith) (omega arith) (final (omega arith))))))

-- i32.const -1, global.get 200.
Reads-read_const_expr_example :
    Reads read_const_expr
      (expr_bytes (i32_const (negsuc 0) ∷ global_get 200 ∷ []))
      (expr_bytes (i32_const (negsuc 0) ∷ global_get 200 ∷ []))
Reads-read_const_expr_example =
    Reads-read_const_expr (i32_const (negsuc 0) ∷ global_get 200 ∷ []) (omega arith)

-- memory.init of segment 3.
skip_immediates-Prefixed_example :
    Consumes (skip_immediates 0xfc) (uleb 8 ++ (uleb 3 ++ (0x00 ∷ []))) tt
skip_immediates-Prefixed_example =
    skip_immediates-Prefixed 0xfc 8 (uleb 3 ++ (0x00 ∷ [])) (omega arith)
      (bulk (memory_init 3 0x00 (omega arith)))

-- v128.const, behind i32.const 5.
not_v128 : (c : ConstInstr) → 0xfd ≢ opcode c
not_v128 (i32_const z) = omega arith
not_v128 (i64_const z) = omega arith
not_v128 (f32_const b) = omega arith
not_v128 (f64_const b) = omega arith
not_v128 (global_get x) = omega arith
not_v128 (ref_null t) = omega arith
not_v128 (ref_func x) = omega arith

read_const_expr-unsupported_example :
    read_const_expr (flat instr_bytes (i32_const (pos 5) ∷ []) ++ (0xfd ∷ 0x0c ∷ []))
    ≡ err (unsupported_opcode 0xfd)
read_const_expr-unsupported_example =
    read_const_expr-unsupported (i32_const (pos 5) ∷ []) 0xfd (0x0c ∷ []) (omega arith)
      (omega arith) not_v128
