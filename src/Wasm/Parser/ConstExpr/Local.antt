-- ===== src/Wasm/Parser/ConstExpr/Local.antt =====
-- readConstExpr rests on the bytes that it takes and on no others, whatever fuel the model gives it.
use wasm2go.Prelude.{
  ℕ, zero, suc, ◌+◌, ◌<◌, ◌≡◌, ◌≢◌, refl, sym, ap, ◌∙◌, List, [], ◌∷◌, ◌++◌, append_assoc, ◌==◌,
  length, length-append, arith, Bool-cases, inl, inr, true, false,
}
use wasm2go.Wasm.Reader.{Result, Error, ok, err, stuck, unsupported_opcode}
use wasm2go.Wasm.Reader.Local.{
  Reads, IsLocal, IsLocal-bind, IsLocal-pure, IsLocal-fail, IsLocal-if, IsLocal-read_byte,
  IsLocal-read_full, bind-eq-ok,
}
use wasm2go.Wasm.Leb128.{write_sleb, write_uleb}
use wasm2go.Wasm.Leb128.Local.{IsLocal-read_u32, IsLocal-read_s32, IsLocal-read_s64}
use wasm2go.Wasm.Parser.ConstExpr.{
  const_immediate, const_expr_loop, read_const_expr, written, extend32,
}

IsLocal-written : (r : Result (List ℕ)) → IsLocal (written r)
IsLocal-written (ok buf) = IsLocal-pure buf
IsLocal-written (err e) = IsLocal-fail e
IsLocal-written stuck = record { split = λ bs a rest h. cc }

pub IsLocal-const_immediate : (op : ℕ) (buf : List ℕ) → IsLocal (const_immediate op buf)
unfolding const_immediate
IsLocal-const_immediate op buf =
    IsLocal-if (op == 0x41)
      (IsLocal-bind IsLocal-read_s32 λ v. IsLocal-written (write_sleb buf (extend32 v)))
      (IsLocal-if (op == 0x42)
        (IsLocal-bind IsLocal-read_s64 λ v. IsLocal-written (write_sleb buf v))
        (IsLocal-if (op == 0x43) (IsLocal-bind (IsLocal-read_full 4) λ b. IsLocal-pure (buf ++ b)) (
          IsLocal-if (op == 0x44) (IsLocal-bind (IsLocal-read_full 8) λ b. IsLocal-pure (buf ++ b))
            (IsLocal-if (op == 0x23)
              (IsLocal-bind IsLocal-read_u32 λ v. IsLocal-written (write_uleb buf v))
              (IsLocal-if (op == 0xd0)
                (IsLocal-bind IsLocal-read_byte λ t. IsLocal-pure (buf ++ (t ∷ [])))
                (IsLocal-if (op == 0xd2)
                  (IsLocal-bind IsLocal-read_u32 λ v. IsLocal-written (write_uleb buf v))
                  (IsLocal-fail (unsupported_opcode op))))))))

-- The bytes that a run of the loop takes, and how it runs on them with other fuel.
abbrev Splits : List ℕ → List ℕ → List ℕ → List ℕ → Type 0
Splits buf bs a rest =
    (used : List ℕ) × (bs ≡ used ++ rest)
    × ((fuel : ℕ) (more : List ℕ)
        → length used < fuel
        → const_expr_loop fuel buf (used ++ more) ≡ ok (a, more))

pub round :
    (fuel : ℕ) (op : ℕ) (buf bs buf' rest : List ℕ)
    → (op == 0x0b) ≡ false
    → const_immediate op (buf ++ (op ∷ [])) bs ≡ ok (buf', rest)
    → const_expr_loop (suc fuel) buf (op ∷ bs) ≡ const_expr_loop fuel buf' rest
unfolding const_expr_loop
round fuel op buf bs buf' rest t h = rw (t, h) refl

pub last_round :
    (fuel : ℕ) (op : ℕ) (buf bs : List ℕ)
    → (op == 0x0b) ≡ true
    → const_expr_loop (suc fuel) buf (op ∷ bs) ≡ ok (buf ++ (op ∷ []), bs)
unfolding const_expr_loop
last_round fuel op buf bs t = rw t refl

pub fails :
    (fuel : ℕ) (op : ℕ) (buf bs : List ℕ) (e : Error)
    → (op == 0x0b) ≡ false
    → const_immediate op (buf ++ (op ∷ [])) bs ≡ err e
    → const_expr_loop (suc fuel) buf (op ∷ bs) ≡ err e
unfolding const_expr_loop
fails fuel op buf bs e t h = rw (t, h) refl

const_expr_loop-round :
    (fuel : ℕ) (op : ℕ) (buf bs a rest : List ℕ)
    → (op == 0x0b) ≡ false
    → const_expr_loop (suc fuel) buf (op ∷ bs) ≡ ok (a, rest)
    → (mid : List ℕ × List ℕ) × (const_immediate op (buf ++ (op ∷ [])) bs ≡ ok mid)
      × (const_expr_loop fuel mid.0 mid.1 ≡ ok (a, rest))
unfolding const_expr_loop
const_expr_loop-round fuel op buf bs a rest t h =
    bind-eq-ok (const_immediate op (buf ++ (op ∷ [])) bs)
      (λ (buf', rest'). const_expr_loop fuel buf' rest') (a, rest) (rw t at h)

last-Splits :
    (op : ℕ) (buf bs a rest : List ℕ)
    → (op == 0x0b) ≡ true
    → ◌≡◌ {A = Result (List ℕ × List ℕ)} (ok (buf ++ (op ∷ []), bs)) (ok (a, rest))
    → Splits buf (op ∷ bs) a rest
last-Splits op buf bs a rest t h = (op ∷ [], ground arith, again)
  where
    same : buf ++ (op ∷ []) ≡ a
    same = ground arith

    again :
        (fuel : ℕ) (more : List ℕ) → 1 < fuel → const_expr_loop fuel buf (op ∷ more) ≡ ok (a, more)
    again zero more len = elim len [ ]
    again (suc fuel) more len = rw (← same) (last_round fuel op buf more t)

more_fuel :
    (op : ℕ) (buf buf' used later a : List ℕ) (fuel : ℕ) (more : List ℕ)
    → (op == 0x0b) ≡ false
    → Reads (const_immediate op (buf ++ (op ∷ []))) used buf'
    → ((n : ℕ) (rest : List ℕ)
        → length later < n
        → const_expr_loop n buf' (later ++ rest) ≡ ok (a, rest))
    → length (op ∷ (used ++ later)) < fuel
    → const_expr_loop fuel buf (op ∷ (used ++ later) ++ more) ≡ ok (a, more)
more_fuel op buf buf' used later a zero more t reads again len = elim len [ ]
more_fuel op buf buf' used later a (suc fuel) more t reads again len =
    round fuel op buf ((used ++ later) ++ more) buf' (later ++ more) t
      (rw (append_assoc used later more) (reads.on (later ++ more)))
    ∙ again fuel more (omega (arith, length-append used later))

out_of_fuel : (buf bs a rest : List ℕ) → const_expr_loop 0 buf bs ≢ ok (a, rest)
unfolding const_expr_loop
out_of_fuel buf bs a rest h = cc

out_of_input : (fuel : ℕ) (buf a rest : List ℕ) → const_expr_loop (suc fuel) buf [] ≢ ok (a, rest)
unfolding const_expr_loop
out_of_input fuel buf a rest h = cc

const_expr_loop-Splits :
    (fuel : ℕ) (buf bs a rest : List ℕ)
    → const_expr_loop fuel buf bs ≡ ok (a, rest)
    → Splits buf bs a rest
const_expr_loop-Splits zero buf bs a rest h = absurd (out_of_fuel buf bs a rest h)
const_expr_loop-Splits (suc fuel) buf [] a rest h = absurd (out_of_input fuel buf a rest h)
const_expr_loop-Splits (suc fuel) buf (op ∷ bs) a rest h = elim (Bool-cases (op == 0x0b)) [
  | inl t ↦ last-Splits op buf bs a rest t (sym (last_round fuel op buf bs t) ∙ h)
  | inr t ↦
      let ((buf', mid), e, k) = const_expr_loop-round fuel op buf bs a rest t h in
      let (used, split, reads) =
        (IsLocal-const_immediate op (buf ++ (op ∷ []))).split bs buf' mid e in
      let (later, split', again) = const_expr_loop-Splits fuel buf' mid a rest k in
      (
        op ∷ (used ++ later),
        ap (λ l. op ∷ l) (split ∙ ap (λ l. used ++ l) split' ∙ sym (append_assoc used later rest)),
        λ n more len. more_fuel op buf buf' used later a n more t reads again len,
      )
]

pub IsLocal-read_const_expr : IsLocal read_const_expr
unfolding read_const_expr
IsLocal-read_const_expr = record {
  split = λ bs a rest h.
      let (used, split, again) = const_expr_loop-Splits (length bs + 1) [] bs a rest h in
      (
        used,
        split,
        record {
          on = λ more.
              again (length (used ++ more) + 1) more (omega (arith, length-append used more));
        },
      );
}
