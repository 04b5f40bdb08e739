-- ===== src/Wasm/Instr/Immediates/Unknown.antt =====
-- SkipImmediates of internal/wasm/instr.go on the opcodes of one byte that it does not know.
use wasm2go.Prelude.{
  ℕ, ◌≡◌, ◌≢◌, ◌↔◌, sym, ap, append-nil, true, false, Bool, Bool-cases, inl, inr, List, [], ◌∷◌,
  ◌++◌, ◌==◌, ==_iff, arith,
}
use mathlib.Core.Path.{subst}
use wasm2go.Wasm.Leb128.Encoding.{uleb}
use wasm2go.Wasm.Instr.{fail, unknown_opcode, at}
use wasm2go.Wasm.Instr.Skip.{skip_plain, skip_immediates, one_of, between}
use wasm2go.Wasm.Instr.Immediates.{
  with_index, without_operand, Immediates, bare, numeric, index, memory, call_indirect, br_table,
  block, select_t, one_byte, i32_const, i64_const, f32_const, f64_const,
}
use wasm2go.Wasm.Instr.Immediates.Signed.{final}
use wasm2go.Wasm.Instr.Immediates.Plain.{skip_immediates-Consumes}

false_of : (b : Bool) → ¬ (b ≡ true) → b ≡ false
false_of b n = elim (Bool-cases b) [ inl e ↦ absurd (n e) | inr e ↦ e ]

module _ (op : ℕ) (n : (bs : List ℕ) → ¬ Immediates op bs) where
  -- No instruction with an opcode of its own.
  single : (x : ℕ) (bs : List ℕ) → Immediates x bs → (op == x) ≡ false
  single x bs i =
      false_of (op == x) λ e. n bs (subst (λ o. Immediates o bs) (sym ((==_iff op x).0 e)) i)

  not_numeric : between 0x45 op 0xc4 ≡ false
  not_numeric = false_of _ λ e. n [] (numeric (ground arith) (ground arith))

  not_memory : between 0x28 op 0x3e ≡ false
  not_memory = false_of _ λ e.
      n (uleb 0 ++ uleb 0) (memory 0 0 (ground arith) (ground arith) (omega arith) (omega arith))

  not_bare : one_of op without_operand ≡ false
  not_bare = false_of _ λ e. n [] (bare e)

  not_index : one_of op with_index ≡ false
  not_index = false_of _ λ e. n (uleb 0) (index 0 e (omega arith))

  not_block : one_of op (0x02 ∷ 0x03 ∷ 0x04 ∷ 0x06 ∷ []) ≡ false
  not_block = false_of _ λ e. n (0x40 ∷ []) (block e (final (omega arith)))

  not_one_byte : one_of op (0x3f ∷ 0x40 ∷ 0xd0 ∷ []) ≡ false
  not_one_byte = false_of _ λ e. n (0 ∷ []) (one_byte 0 e)

  skip_plain-unknown : skip_plain op ≡ fail (unknown_opcode op)
  unfolding skip_plain
  skip_plain-unknown = ground (
    arith,
    not_numeric,
    not_memory,
    not_bare,
    not_index,
    not_block,
    not_one_byte,
    single 0x11 _ (call_indirect 0 0 (omega arith) (omega arith)),
    single 0x0e _ (br_table [] 0 (omega arith) tt (omega arith)),
    single 0x1c _ (select_t [] (omega arith)),
    single 0x41 (0 ∷ []) (i32_const (final (omega arith))),
    single 0x42 (0 ∷ []) (i64_const (final (omega arith))),
    single 0x43 _ (f32_const 0 0 0 0),
    single 0x44 _ (f64_const 0 0 0 0 0 0 0 0),
  )

-- SkipImmediates rejects an opcode other than the three prefixes as unknown, wherever the reader
-- stands, exactly if `Immediates` gives no operands to it, not even none.
pub skip_immediates-unknown_iff :
    (op : ℕ)
    → op ≢ 0xfc
    → op ≢ 0xfd
    → op ≢ 0xfe
    → (skip_immediates op ≡ fail (unknown_opcode op)) ↔ ((bs : List ℕ) → ¬ Immediates op bs)
unfolding skip_immediates
skip_immediates-unknown_iff op fc fd fe = (
  λ h bs i.
      let (pos, e, _) = (skip_immediates-Consumes op bs i).on bs 0 [] (sym (append-nil bs)) in
      let same = ap (λ p. (p (at bs 0)).0) h in let ends = ap (λ p. p.0) e in cc,
  λ n. rw (skip_plain-unknown op n) (ground arith),
)
