-- ===== src/Ssa/Pass/ConstProp/Args.antt =====
-- foldValue by the arguments of the value: what it leaves is the constant that the value computes.
use wasm2go.Prelude.{
  ℕ, ◌%◌, ◌^◌, ◌<◌, ◌≡◌, refl, sym, ap, ◌∙◌, Bool, true, false, ◌||◌, ◌&&◌, Bool-cases, ◌==◌, inl,
  inr, Option, none, some, List, [], ◌∷◌, All, arith, ltb,
}
use mathlib.Core.Path.{subst}
use wasm2go.Ssa.Types.{ValueType, i32, i64, bool, same_type}
use wasm2go.Ssa.Op.{Op, const32, const64, extend32_to64_s, extend32_to64_u, trunc64_to32}
use wasm2go.Ssa.Func.{Value}
use wasm2go.Ssa.Meaning.{unary, binary, apply1, apply2, denote, signed, pattern_of}
use wasm2go.Ssa.Pass.ConstProp.{
  int32, uint32, constant, const_of, int_const, fold_binary, fold_unary, fold_args, folded_value,
  with_const, with_consts,
}
use wasm2go.Ssa.Pass.ConstProp.Words.{int32-low, int32-lt}
use wasm2go.Ssa.Pass.ConstProp.Folds.{binary_type, Means, fold_binary-32, fold_binary-64}
use wasm2go.Ssa.Pass.ConstProp.Typing.{width, operand_width, result_type, IsTyped, HasOperands}
use wasm2go.Ssa.Pass.ConstProp.Single.{
  const_number, Consts, const-cases, fold_binary-cases, operand_width-binary, denote-combine,
  binary-not-const, Becomes, settle-32, settle-64,
}

abbrev is_32 : (ℕ → Value) → Value → ℕ → Bool
is_32 values v a = same_type v.typ i32 || (same_type v.typ bool && same_type (values a).typ i32)

is_32-type : (values : ℕ → Value) (v : Value) (a : ℕ) → v.typ ≡ i32 → is_32 values v a ≡ true
unfolding same_type
is_32-type values v a e = rw e refl

is_32-wide : (values : ℕ → Value) (v : Value) (a : ℕ) → v.typ ≡ i64 → is_32 values v a ≡ false
unfolding same_type
is_32-wide values v a e = rw e refl

-- What intConst gives for an operand of width 32, and of width 64.
const_32 :
    (values : ℕ → Value) (env : ℕ → ℕ) (a c : ℕ)
    → IsTyped values
    → Consts values env
    → width (values a).typ ≡ 32
    → int_const (values a) ≡ some c
    → (c ≡ int32 (values a).aux_int) × (env a ≡ (values a).aux_int % 2 ^ 32)
unfolding int_const
const_32 values env a c typed consts w e = elim (const-cases (values a).op (values a).aux_int) [
  | inl p ↦ cc
  | inr (inl (o, p, q)) ↦ (cc, consts a _ q)
  | inr (inr (o, p, q)) ↦ let bad = typed.const_64 a o in absurd (omega arith)
]

const_64 :
    (values : ℕ → Value) (env : ℕ → ℕ) (a c : ℕ)
    → IsTyped values
    → Consts values env
    → width (values a).typ ≡ 64
    → int_const (values a) ≡ some c
    → (c ≡ (values a).aux_int) × (env a ≡ c)
unfolding int_const
const_64 values env a c typed consts w e = elim (const-cases (values a).op (values a).aux_int) [
  | inl p ↦ cc
  | inr (inl (o, p, q)) ↦ let bad = typed.const_32 a o in absurd (omega arith)
  | inr (inr (o, p, q)) ↦ (cc, consts a _ q ∙ cc)
]

extend_low : (n : ℕ) → int32 (int32 n) ≡ pattern_of 64 (signed 32 (n % 2 ^ 32))
extend_low n = elim (Bool-cases (ltb (n % 2 ^ 32) (2 ^ 31))) [
  | inl e ↦ ground arith
  | inr e ↦ ground arith
]

-- One argument.
pub fold_unary-Becomes :
    (op : Op) (values : ℕ → Value) (env : ℕ → ℕ) (v v' : Value) (a c : ℕ)
    → IsTyped values
    → Consts values env
    → ((w : ℕ) → operand_width op ≡ w → 0 < w → width (values a).typ ≡ w)
    → ((t : ValueType) → result_type op ≡ some t → v.typ ≡ t)
    → int_const (values a) ≡ some c
    → fold_unary op c v ≡ some v'
    → (x : ℕ) × (apply1 (unary op) (env a) ≡ some x)
      × Becomes v v' x
      × ((n : ℕ) → const_of op n ≡ none)
unfolding fold_unary unary operand_width result_type const_number const_of
fold_unary-Becomes extend32_to64_s values env v v' a c typed consts ops res e h =
    let k = const_32 values env a c typed consts (ops 32 refl (omega arith)) e in
    let q : constant const64 i64 (int32 c) v ≡ v' = cc in
    (
      pattern_of 64 (signed 32 (env a)),
      refl,
      subst (λ u. Becomes v u (pattern_of 64 (signed 32 (env a)))) q
          (record {
            constant_op = inr (refl, refl);
            number = ap some (rw (k.0, k.1) (extend_low (values a).aux_int));
            typ = sym (res i64 refl);
            args = refl;
            fits = int32-lt c;
          }),
      λ n. refl,
    )
fold_unary-Becomes extend32_to64_u values env v v' a c typed consts ops res e h =
    let k = const_32 values env a c typed consts (ops 32 refl (omega arith)) e in
    let q : constant const64 i64 (uint32 c) v ≡ v' = cc in
    (
      env a,
      refl,
      subst (λ u. Becomes v u (env a)) q
          (record {
            constant_op = inr (refl, refl);
            number = ap some (rw (k.0, k.1) (int32-low (values a).aux_int));
            typ = sym (res i64 refl);
            args = refl;
            fits = omega arith;
          }),
      λ n. refl,
    )
fold_unary-Becomes trunc64_to32 values env v v' a c typed consts ops res e h =
    let k = const_64 values env a c typed consts (ops 64 refl (omega arith)) e in
    let q : constant const32 i32 (int32 c) v ≡ v' = cc in
    (
      env a % 2 ^ 32,
      refl,
      subst (λ u. Becomes v u (env a % 2 ^ 32)) q
          (record {
            constant_op = inl (refl, refl);
            number = ap some (rw (k.1) (int32-low c));
            typ = sym (res i32 refl);
            args = refl;
            fits = int32-lt c;
          }),
      λ n. refl,
    )
fold_unary-Becomes _ values env v v' a c typed consts ops res e h = cc

not_const : (op : Op) (n : ℕ) → const_of op n ≡ none → const_number op n ≡ none
unfolding const_of const_number
not_const const32 n h = cc
not_const const64 n h = cc
not_const _ n h = refl

-- Two arguments.
two :
    (values : ℕ → Value) (env : ℕ → ℕ) (v v' : Value) (a b c d : ℕ)
    → IsTyped values
    → Consts values env
    → ((w : ℕ)
        → operand_width v.op ≡ w
        → 0 < w
        → (width (values a).typ ≡ w) × (width (values b).typ ≡ w))
    → ((t : ValueType) → result_type v.op ≡ some t → v.typ ≡ t)
    → int_const (values a) ≡ some c
    → int_const (values b) ≡ some d
    → folded_value (is_32 values v a) (fold_binary v.op c d) v ≡ some v'
    → (x : ℕ) × (apply2 (binary v.op) (env a) (env b) ≡ some x)
      × Becomes v v' x
      × ((n : ℕ) → const_of v.op n ≡ none)
two values env v v' a b c d typed consts ops res ea eb h = elim (fold_binary-cases v.op c d) [
  | inl w ↦
      let o = operand_width-binary v.op (omega arith) in
      let ws = ops 32 (o.0 ∙ w) (omega arith) in
      let p = const_32 values env a c typed consts (ws.0) ea in
      let q = const_32 values env b d typed consts (ws.1) eb in
      let m = fold_binary-32 v.op (values a).aux_int (values b).aux_int w in
      let m' = rw (sym (p.0), sym (q.0), sym (p.1), sym (q.1)) at m in
      let r =
        settle-32 _ _ _ (is_32 values v a) v v' m' (λ t e. res t (o.1 ∙ e)) (is_32-type values v a)
          h in
      (r.0, r.1, r.2, λ n. binary-not-const v.op n (omega arith))
  | inr (inl w) ↦
      let o = operand_width-binary v.op (omega arith) in
      let ws = ops 64 (o.0 ∙ w) (omega arith) in
      let p = const_64 values env a c typed consts (ws.0) ea in
      let q = const_64 values env b d typed consts (ws.1) eb in
      let m = fold_binary-64 v.op c d w (rw (p.0) (typed.words a)) (rw (q.0) (typed.words b)) in
      let m' : Means 64 (binary_type v.op) (fold_binary v.op c d)
          (apply2 (binary v.op) (env a) (env b)) =
        rw (p.1, q.1) m in
      let r =
        settle-64 _ _ _ (is_32 values v a) v v' m' (λ t e. res t (o.1 ∙ e)) (is_32-wide values v a)
          h in
      (r.0, r.1, r.2, λ n. binary-not-const v.op n (omega arith))
  | inr (inr w) ↦ cc
]

-- foldValue on a typed value whose operands agree with `env`.
pub fold_args-Becomes :
    (values : ℕ → Value) (env : ℕ → ℕ) (v v' : Value)
    → IsTyped values
    → Consts values env
    → HasOperands values v
    → ((t : ValueType) → result_type v.op ≡ some t → v.typ ≡ t)
    → fold_args values v v.args ≡ some v'
    → (x : ℕ) × (denote v.op v.aux_int env v.args ≡ some x)
      × Becomes v v' x
      × (const_number v.op v.aux_int ≡ none)
unfolding fold_args
fold_args-Becomes values env v v' typed consts ops res h = go v.args h ops
  where
    one :
        (a : ℕ) (c : Option ℕ)
        → int_const (values a) ≡ c
        → ((w : ℕ) → operand_width v.op ≡ w → 0 < w → width (values a).typ ≡ w)
        → with_const v.op v c ≡ some v'
        → (x : ℕ) × (denote v.op v.aux_int env (a ∷ []) ≡ some x)
          × Becomes v v' x
          × (const_number v.op v.aux_int ≡ none)
    one a none e o k = cc
    one a (some c) e o k =
        let r = fold_unary-Becomes v.op values env v v' a c typed consts o res e k in
        (
          r.0,
          denote-combine v.op v.aux_int env (a ∷ []) (r.3 v.aux_int) ∙ r.1,
          r.2,
          not_const v.op v.aux_int (r.3 v.aux_int),
        )

    both :
        (a b : ℕ) (c d : Option ℕ)
        → int_const (values a) ≡ c
        → int_const (values b) ≡ d
        → ((w : ℕ)
            → operand_width v.op ≡ w
            → 0 < w
            → (width (values a).typ ≡ w) × (width (values b).typ ≡ w))
        → with_consts (is_32 values v a) v c d ≡ some v'
        → (x : ℕ) × (denote v.op v.aux_int env (a ∷ b ∷ []) ≡ some x)
          × Becomes v v' x
          × (const_number v.op v.aux_int ≡ none)
    both a b none d ea eb o k = cc
    both a b (some c) none ea eb o k = cc
    both a b (some c) (some d) ea eb o k =
        let r = two values env v v' a b c d typed consts o res ea eb k in
        (
          r.0,
          denote-combine v.op v.aux_int env (a ∷ b ∷ []) (r.3 v.aux_int) ∙ r.1,
          r.2,
          not_const v.op v.aux_int (r.3 v.aux_int),
        )

    go :
        (args : List ℕ)
        → fold_args values v args ≡ some v'
        → ((w : ℕ) → operand_width v.op ≡ w → 0 < w → All (λ a. width (values a).typ ≡ w) args)
        → (x : ℕ) × (denote v.op v.aux_int env args ≡ some x)
          × Becomes v v' x
          × (const_number v.op v.aux_int ≡ none)
    go [] k o = cc
    go (a ∷ []) k o = elim (Bool-cases (a == 0)) [
      | inl z ↦ cc
      | inr z ↦ one a (int_const (values a)) refl (λ w p q. (o w p q).0) (rw z at k)
    ]
    go (a ∷ b ∷ []) k o = elim (Bool-cases ((a == 0) || (b == 0))) [
      | inl z ↦ cc
      | inr z ↦
          both a b (int_const (values a)) (int_const (values b)) refl refl
            (λ w p q. let r = o w p q in (r.0, r.1.0)) (rw z at k)
    ]
    go (a ∷ b ∷ c ∷ rest) k o = cc
