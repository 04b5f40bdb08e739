-- ===== src/Wasm/Format/ConstExprs.antt =====
-- Constant expressions of the seven instructions that readConstExpr knows, canonically encoded; it
-- rejects any other, as v128.const.
use wasm2go.Prelude.{
  ℕ, zero, suc, ◌+◌, ◌≤◌, ◌<◌, ◌≡◌, ◌≢◌, refl, ap, ◌∙◌, List, [], ◌∷◌, ◌++◌, append_assoc, length,
  length-append, All, arith, false, ◌==◌,
}
use wasm2go.Prelude.Int.{ℤ, pos, negsuc}
use wasm2go.Wasm.Reader.{ok, err, unsupported_opcode, read_byte, IsU32}
use wasm2go.Wasm.Reader.Local.{Reads, Reads-read_full}
use wasm2go.Wasm.Leb128.Encoding.{uleb, Reads-read_u32, write_uleb-uleb}
use wasm2go.Wasm.Leb128.Signed.{pattern32, pattern64, IsInt}
use wasm2go.Wasm.Leb128.Signed.Write.{sleb, Reads-read_s32, Reads-read_s64, write_sleb-sleb}
use wasm2go.Wasm.Parser.ConstExpr.{const_immediate, const_expr_loop, read_const_expr, extend32}
use wasm2go.Wasm.Parser.ConstExpr.Local.{round, fails, last_round}
use wasm2go.Wasm.Format.Vectors.{flat}

-- The constant instructions that readConstExpr knows. A float is its four or eight bytes.
pub data ConstInstr : Type 0 where
  i32_const i64_const : ℤ → ConstInstr
  f32_const f64_const : List ℕ → ConstInstr
  global_get ref_null ref_func : ℕ → ConstInstr

abbrev pub opcode : ConstInstr → ℕ
opcode (i32_const z) = 0x41
opcode (i64_const z) = 0x42
opcode (f32_const b) = 0x43
opcode (f64_const b) = 0x44
opcode (global_get x) = 0x23
opcode (ref_null t) = 0xd0
opcode (ref_func x) = 0xd2

abbrev pub immediate : ConstInstr → List ℕ
immediate (i32_const z) = sleb z
immediate (i64_const z) = sleb z
immediate (f32_const b) = b
immediate (f64_const b) = b
immediate (global_get x) = uleb x
immediate (ref_null t) = t ∷ []
immediate (ref_func x) = uleb x

abbrev pub FitsInstr : ConstInstr → Type 0
FitsInstr (i32_const z) = IsInt 31 z
FitsInstr (i64_const z) = IsInt 63 z
FitsInstr (f32_const b) = length b ≡ 4
FitsInstr (f64_const b) = length b ≡ 8
FitsInstr (global_get x) = IsU32 x
FitsInstr (ref_null t) = Unit
FitsInstr (ref_func x) = IsU32 x

abbrev pub instr_bytes : ConstInstr → List ℕ
instr_bytes c = opcode c ∷ immediate c

-- An expression is instructions and 0x0b.
abbrev pub expr_bytes : List ConstInstr → List ℕ
expr_bytes e = flat instr_bytes e ++ (0x0b ∷ [])

extend32-pattern : (z : ℤ) → IsInt 31 z → extend32 (pattern32 z) ≡ pattern64 z
extend32-pattern (pos m) h = ground arith
extend32-pattern (negsuc m) h = ground arith

IsInt-wide : (z : ℤ) → IsInt 31 z → IsInt 63 z
IsInt-wide (pos m) h = omega arith
IsInt-wide (negsuc m) h = omega arith

const_immediate-reads :
    (c : ConstInstr) (buf rest : List ℕ)
    → FitsInstr c
    → const_immediate (opcode c) buf (immediate c ++ rest) ≡ ok (buf ++ immediate c, rest)
unfolding const_immediate
const_immediate-reads (i32_const z) buf rest h =
    rw ((Reads-read_s32 z h).on rest, extend32-pattern z h, write_sleb-sleb buf z (IsInt-wide z h))
      refl
const_immediate-reads (i64_const z) buf rest h =
    rw ((Reads-read_s64 z h).on rest, write_sleb-sleb buf z h) refl
const_immediate-reads (f32_const b) buf rest h = rw (rw h at (Reads-read_full b).on rest) refl
const_immediate-reads (f64_const b) buf rest h = rw (rw h at (Reads-read_full b).on rest) refl
const_immediate-reads (global_get x) buf rest h =
    rw ((Reads-read_u32 {v = x} h).on rest, write_uleb-uleb buf x (omega arith)) refl
const_immediate-reads (ref_null t) buf rest h = unfold read_byte in refl
const_immediate-reads (ref_func x) buf rest h =
    rw ((Reads-read_u32 {v = x} h).on rest, write_uleb-uleb buf x (omega arith)) refl

not_end : (c : ConstInstr) → (opcode c == 0x0b) ≡ false
not_end (i32_const z) = refl
not_end _ = refl

const_expr_loop-reads :
    (e : List ConstInstr) (fuel : ℕ) (buf rest : List ℕ)
    → All FitsInstr e
    → length e < fuel
    → const_expr_loop fuel buf (flat instr_bytes e ++ (0x0b ∷ rest))
      ≡ ok (buf ++ expr_bytes e, rest)
const_expr_loop-reads e zero buf rest h len = elim len [ ]
const_expr_loop-reads [] (suc fuel) buf rest h len = last_round fuel 0x0b buf rest refl
const_expr_loop-reads (c ∷ e) (suc fuel) buf rest h len =
    let buf' : List ℕ = buf ++ (opcode c ∷ []) in
    let later : List ℕ = flat instr_bytes e ++ (0x0b ∷ rest) in
    ap (λ l. const_expr_loop (suc fuel) buf (opcode c ∷ l))
      (append_assoc (immediate c) (flat instr_bytes e) (0x0b ∷ rest))
    ∙ round fuel (opcode c) buf (immediate c ++ later) (buf' ++ immediate c) later (not_end c)
        (const_immediate-reads c buf' later h.0)
    ∙ const_expr_loop-reads e fuel (buf' ++ immediate c) rest h.1 (omega arith)
    ∙ simp append_assoc

length-flat : (e : List ConstInstr) → length e ≤ length (flat instr_bytes e)
length-flat [] = omega arith
length-flat (c ∷ e) = omega (arith, length-append (immediate c) (flat instr_bytes e), length-flat e)

-- readConstExpr on a sequence of the instructions i32.const, i64.const, f32.const, f64.const,
-- global.get, ref.null and ref.func, their immediates in range and in the shortest encoding, and
-- 0x0b behind it, returns the bytes of all this and leaves what follows them.
pub Reads-read_const_expr :
    (e : List ConstInstr) → All FitsInstr e → Reads read_const_expr (expr_bytes e) (expr_bytes e)
unfolding read_const_expr
Reads-read_const_expr e h = record {
  on = λ rest. rw (append_assoc (flat instr_bytes e) (0x0b ∷ []) rest) (
      const_expr_loop-reads e (length (flat instr_bytes e ++ (0x0b ∷ rest)) + 1) [] rest h
        (omega (arith, length-flat e, length-append (flat instr_bytes e) (0x0b ∷ rest))));
}

const_immediate-unsupported :
    (op : ℕ) (buf rest : List ℕ)
    → ((c : ConstInstr) → op ≢ opcode c)
    → const_immediate op buf rest ≡ err (unsupported_opcode op)
unfolding const_immediate
const_immediate-unsupported op buf rest other = ground (
  arith,
  other (i32_const (pos 0)),
  other (i64_const (pos 0)),
  other (f32_const []),
  other (f64_const []),
  other (global_get 0),
  other (ref_null 0),
  other (ref_func 0),
)

const_expr_loop-unsupported :
    (e : List ConstInstr) (op fuel : ℕ) (buf rest : List ℕ)
    → All FitsInstr e
    → op ≢ 0x0b
    → ((c : ConstInstr) → op ≢ opcode c)
    → length e < fuel
    → const_expr_loop fuel buf (flat instr_bytes e ++ (op ∷ rest)) ≡ err (unsupported_opcode op)
const_expr_loop-unsupported e op zero buf rest h last other len = elim len [ ]
const_expr_loop-unsupported [] op (suc fuel) buf rest h last other len =
    fails fuel op buf rest (unsupported_opcode op) (ground arith)
      (const_immediate-unsupported op (buf ++ (op ∷ [])) rest other)
const_expr_loop-unsupported (c ∷ e) op (suc fuel) buf rest h last other len =
    let buf' : List ℕ = buf ++ (opcode c ∷ []) in
    let later : List ℕ = flat instr_bytes e ++ (op ∷ rest) in
    ap (λ l. const_expr_loop (suc fuel) buf (opcode c ∷ l))
      (append_assoc (immediate c) (flat instr_bytes e) (op ∷ rest))
    ∙ round fuel (opcode c) buf (immediate c ++ later) (buf' ++ immediate c) later (not_end c)
        (const_immediate-reads c buf' later h.0)
    ∙ const_expr_loop-unsupported e op fuel (buf' ++ immediate c) rest h.1 last other (omega arith)

-- readConstExpr on the seven constant instructions, in range and in the shortest encoding, any number
-- of times, and then an opcode that is neither one of theirs nor 0x0b, fails and names the opcode as
-- unsupported.
pub read_const_expr-unsupported :
    (e : List ConstInstr) (op : ℕ) (rest : List ℕ)
    → All FitsInstr e
    → op ≢ 0x0b
    → ((c : ConstInstr) → op ≢ opcode c)
    → read_const_expr (flat instr_bytes e ++ (op ∷ rest)) ≡ err (unsupported_opcode op)
unfolding read_const_expr
read_const_expr-unsupported e op rest h last other =
    const_expr_loop-unsupported e op (length (flat instr_bytes e ++ (op ∷ rest)) + 1) [] rest h last
      other (omega (arith, length-flat e, length-append (flat instr_bytes e) (op ∷ rest)))
