-- ===== src/Wasm/Parser/ConstExpr/Total.antt =====
-- readConstExpr ends on every input: the fuel of the model suffices.
use wasm2go.Prelude.{
  ℕ, zero, suc, ◌+◌, ◌<◌, ◌≡◌, ◌≢◌, ap, List, [], ◌∷◌, ◌++◌, ◌==◌, length, length-append, arith,
  Bool-cases, inl, inr,
}
use wasm2go.Wasm.Reader.{Result, ok, stuck, Reader, ◌>>=◌, unsupported_opcode, IsU32, IsU64}
use wasm2go.Wasm.Reader.Total.{
  Total, Total-bind, Total-pure, Total-fail, Total-if, Total-read_byte, Total-read_full,
  bind-ne-stuck,
}
use wasm2go.Wasm.Leb128.{write_uleb, write_sleb}
use wasm2go.Wasm.Leb128.Total.{
  Total-read_s32, Total-read_s64, Total-read_u32, read_u32-IsU32, read_s32-IsU32, read_s64-IsU64,
  write_uleb-ne-stuck, write_sleb-ne-stuck,
}
use wasm2go.Wasm.Parser.ConstExpr.{
  const_immediate, const_expr_loop, read_const_expr, written, extend32,
}
use wasm2go.Wasm.Parser.ConstExpr.Local.{IsLocal-const_immediate}

-- A reader whose value fits, and a writer that returns on such values.
Total-written :
    {p : Reader ℕ} {w : ℕ → Result (List ℕ)}
    → Total p
    → ((bs : List ℕ) (v : ℕ) (rest : List ℕ) → p bs ≡ ok (v, rest) → w v ≢ stuck)
    → Total (p >>= λ v. written (w v))
Total-written {p} {w} hp hw = record {
  on = λ bs.
      bind-ne-stuck (p bs) (λ (v, r). written (w v) r) (hp.on bs)
        (λ (v, rest) e. bind-ne-stuck (w v) (λ buf. ok (buf, rest)) (hw bs v rest e) (λ b q h. cc));
}

extend32-IsU64 : (v : ℕ) → IsU32 v → IsU64 (extend32 v)
extend32-IsU64 v h = ground arith

Total-const_immediate : (op : ℕ) (buf : List ℕ) → Total (const_immediate op buf)
unfolding const_immediate
Total-const_immediate op buf =
    let from_s32 =
      Total-written {w = λ v. write_sleb buf (extend32 v)} Total-read_s32 (λ bs v rest e.
        write_sleb-ne-stuck buf (extend32 v) (extend32-IsU64 v (read_s32-IsU32 bs v rest e))) in
    let from_s64 =
      Total-written {w = write_sleb buf} Total-read_s64
        (λ bs v rest e. write_sleb-ne-stuck buf v (read_s64-IsU64 bs v rest e)) in
    let from_u32 = Total-written {w = write_uleb buf} Total-read_u32 (λ bs v rest e.
      write_uleb-ne-stuck buf v (let h = read_u32-IsU32 bs v rest e in omega arith)) in
    Total-if (op == 0x41) from_s32 (
      Total-if (op == 0x42) from_s64 (
        Total-if (op == 0x43) (Total-bind (Total-read_full 4) λ b. Total-pure (buf ++ b)) (
          Total-if (op == 0x44) (Total-bind (Total-read_full 8) λ b. Total-pure (buf ++ b)) (
            Total-if (op == 0x23) from_u32 (
              Total-if (op == 0xd0) (Total-bind Total-read_byte λ t. Total-pure (buf ++ (t ∷ [])))
                (Total-if (op == 0xd2) from_u32 (Total-fail (unsupported_opcode op))))))))

const_expr_loop-ne-stuck :
    (fuel : ℕ) (buf bs : List ℕ) → length bs < fuel → const_expr_loop fuel buf bs ≢ stuck
unfolding const_expr_loop
const_expr_loop-ne-stuck zero buf bs len = elim len [ ]
const_expr_loop-ne-stuck (suc fuel) buf [] len = λ h. cc
const_expr_loop-ne-stuck (suc fuel) buf (op ∷ bs) len = elim (Bool-cases (op == 0x0b)) [
  | inl t ↦ rw t (λ h. cc)
  | inr t ↦
      let buf' : List ℕ = buf ++ (op ∷ []) in
      rw t (
        bind-ne-stuck (const_immediate op buf' bs)
          (λ (buf'', rest). const_expr_loop fuel buf'' rest) ((Total-const_immediate op buf').on bs)
          (λ (buf'', rest) e.
            let (used, split, reads) = (IsLocal-const_immediate op buf').split bs buf'' rest e in
            const_expr_loop-ne-stuck fuel buf'' rest
              (omega (arith, ap length split, length-append used rest))))
]

pub Total-read_const_expr : Total read_const_expr
unfolding read_const_expr
Total-read_const_expr = record {
  on = λ bs. const_expr_loop-ne-stuck (length bs + 1) [] bs (omega arith);
}
