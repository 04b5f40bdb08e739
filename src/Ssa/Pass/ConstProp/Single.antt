-- ===== src/Ssa/Pass/ConstProp/Single.antt =====
-- One call of foldValue: what the constant that it leaves has in common with the value it replaces.
use wasm2go.Prelude.{
  ℕ, ◌%◌, ◌^◌, ◌<◌, ◌≡◌, refl, sym, ap, ◌∙◌, Bool, true, false, if◌then◌else◌, inl, inr, ◌⊎◌,
  Option, none, some, List, [], arith,
}
use mathlib.Core.Path.{subst}
use wasm2go.Ssa.Types.{ValueType, i32, i64, bool}
use wasm2go.Ssa.Op.{
  Op, const32, const64, add32, add64, sub32, sub64, mul32, mul64, and32, and64, or32, or64, xor32,
  xor64, shl32, shl64, shr_s32, shr_s64, shr_u32, shr_u64, eq32, eq64, ne32, ne64, lt_s32, lt_s64,
  lt_u32, lt_u64, le_s32, le_s64, le_u32, le_u64, extend32_to64_s, extend32_to64_u, trunc64_to32,
}
use wasm2go.Ssa.Func.{Value}
use wasm2go.Ssa.Meaning.{number, combine, denote}
use wasm2go.Ssa.Pass.ConstProp.{
  int32, constant, const_of, fold_binary, Folded, word, truth, unknown, folded_value,
}
use wasm2go.Ssa.Pass.ConstProp.Words.{int32-low, int32-lt}
use wasm2go.Ssa.Pass.ConstProp.Folds.{binary_width, binary_type, Means}
use wasm2go.Ssa.Pass.ConstProp.Typing.{width, operand_width, result_type}

-- The number of a constant.
unfoldable pub const_number : Op → ℕ → Option ℕ
const_number const32 n = some (n % 2 ^ 32)
const_number const64 n = some n
const_number _ n = none

abbrev pub Consts : (ℕ → Value) → (ℕ → ℕ) → Type 0
Consts values env = (a x : ℕ) → const_number (values a).op (values a).aux_int ≡ some x → env a ≡ x

pub const-cases :
    (op : Op) (n : ℕ)
    → (const_of op n ≡ none)
      ⊎ ((op ≡ const32)
          × (const_of op n ≡ some (int32 n))
          × (const_number op n ≡ some (n % 2 ^ 32)))
      ⊎ ((op ≡ const64) × (const_of op n ≡ some n) × (const_number op n ≡ some n))
unfolding const_of const_number
const-cases const32 n = inr (inl (refl, refl, refl))
const-cases const64 n = inr (inr (refl, refl, refl))
const-cases _ n = inl refl

pub denote-const :
    (op : Op) (n : ℕ) (env : ℕ → ℕ) (args : List ℕ) (x : ℕ)
    → const_number op n ≡ some x
    → denote op n env args ≡ some x
unfolding const_number denote
denote-const const32 n env args x h = h
denote-const const64 n env args x h = h
denote-const _ n env args x h = cc

pub fold_binary-cases :
    (op : Op) (x y : ℕ)
    → (binary_width op ≡ 32) ⊎ (binary_width op ≡ 64) ⊎ (fold_binary op x y ≡ unknown)
unfolding binary_width fold_binary
fold_binary-cases add32 x y = inl refl
fold_binary-cases sub32 x y = inl refl
fold_binary-cases mul32 x y = inl refl
fold_binary-cases and32 x y = inl refl
fold_binary-cases or32 x y = inl refl
fold_binary-cases xor32 x y = inl refl
fold_binary-cases shl32 x y = inl refl
fold_binary-cases shr_s32 x y = inl refl
fold_binary-cases shr_u32 x y = inl refl
fold_binary-cases eq32 x y = inl refl
fold_binary-cases ne32 x y = inl refl
fold_binary-cases lt_s32 x y = inl refl
fold_binary-cases lt_u32 x y = inl refl
fold_binary-cases le_s32 x y = inl refl
fold_binary-cases le_u32 x y = inl refl
fold_binary-cases add64 x y = inr (inl refl)
fold_binary-cases sub64 x y = inr (inl refl)
fold_binary-cases mul64 x y = inr (inl refl)
fold_binary-cases and64 x y = inr (inl refl)
fold_binary-cases or64 x y = inr (inl refl)
fold_binary-cases xor64 x y = inr (inl refl)
fold_binary-cases shl64 x y = inr (inl refl)
fold_binary-cases shr_s64 x y = inr (inl refl)
fold_binary-cases shr_u64 x y = inr (inl refl)
fold_binary-cases eq64 x y = inr (inl refl)
fold_binary-cases ne64 x y = inr (inl refl)
fold_binary-cases lt_s64 x y = inr (inl refl)
fold_binary-cases lt_u64 x y = inr (inl refl)
fold_binary-cases le_s64 x y = inr (inl refl)
fold_binary-cases le_u64 x y = inr (inl refl)
fold_binary-cases _ x y = inr (inr refl)

pub operand_width-binary :
    (op : Op)
    → 0 < binary_width op
    → (operand_width op ≡ binary_width op) × (result_type op ≡ binary_type op)
unfolding binary_width operand_width result_type
operand_width-binary extend32_to64_s h = absurd (omega arith)
operand_width-binary extend32_to64_u h = absurd (omega arith)
operand_width-binary trunc64_to32 h = absurd (omega arith)
operand_width-binary _ h = (refl, refl)

pub denote-combine :
    (op : Op) (n : ℕ) (env : ℕ → ℕ) (args : List ℕ)
    → const_of op n ≡ none
    → denote op n env args ≡ combine op env args
unfolding const_of denote
denote-combine const32 n env args h = cc
denote-combine const64 n env args h = cc
denote-combine _ n env args h = refl

pub binary-not-const : (op : Op) (n : ℕ) → 0 < binary_width op → const_of op n ≡ none
unfolding binary_width const_of
binary-not-const const32 n h = absurd (omega arith)
binary-not-const const64 n h = absurd (omega arith)
binary-not-const _ n h = refl

-- `v'` is the constant `x`, in the place and of the type of `v`.
pub record Becomes (v v' : Value) (x : ℕ) : Type 0 where
  pub constant_op :
      ((v'.op ≡ const32) × (width v'.typ ≡ 32)) ⊎ ((v'.op ≡ const64) × (width v'.typ ≡ 64))
  pub number : const_number v'.op v'.aux_int ≡ some x
  pub typ : v'.typ ≡ v.typ
  pub args : v'.args ≡ []
  pub fits : v'.aux_int < 2 ^ 64

pub settle-32 :
    (F : Folded) (m : Option ℕ) (t : Option ValueType) (is32 : Bool) (v v' : Value)
    → Means 32 t F m
    → ((u : ValueType) → t ≡ some u → v.typ ≡ u)
    → (v.typ ≡ i32 → is32 ≡ true)
    → folded_value is32 F v ≡ some v'
    → (x : ℕ) × (m ≡ some x) × Becomes v v' x
unfolding const_number
settle-32 (word n) (some x) t true v v' h typed test e =
    let q : constant const32 i32 (int32 n) v ≡ v' = cc in
    (
      x,
      refl,
      subst (λ u. Becomes v u x) q
          (record {
            constant_op = inl (refl, refl);
            number = ap some (int32-low n ∙ h.0);
            typ = sym (typed i32 h.2);
            args = refl;
            fits = int32-lt n;
          }),
    )
settle-32 (word n) (some x) t false v v' h typed test e = cc (test (typed i32 h.2))
settle-32 (word n) none t is32 v v' h typed test e = elim h [ ]
settle-32 (truth b) (some x) t is32 v v' h typed test e =
    let q : constant const32 bool (if b then 1 else 0) v ≡ v' = cc in
    (
      x,
      refl,
      subst (λ u. Becomes v u x) q
          (record {
            constant_op = inl (refl, refl);
            number = ap some (bit b ∙ h.0);
            typ = sym (typed bool h.1);
            args = refl;
            fits = ground arith;
          }),
    )
  where
    bit : (b : Bool) → (if b then 1 else 0) % 2 ^ 32 ≡ number b
    bit true = refl
    bit false = refl
settle-32 (truth b) none t is32 v v' h typed test e = elim h [ ]
settle-32 unknown m t is32 v v' h typed test e = elim h [ ]

pub settle-64 :
    (F : Folded) (m : Option ℕ) (t : Option ValueType) (is32 : Bool) (v v' : Value)
    → Means 64 t F m
    → ((u : ValueType) → t ≡ some u → v.typ ≡ u)
    → (v.typ ≡ i64 → is32 ≡ false)
    → folded_value is32 F v ≡ some v'
    → (x : ℕ) × (m ≡ some x) × Becomes v v' x
unfolding const_number
settle-64 (word n) (some x) t false v v' h typed test e =
    let q : constant const64 i64 n v ≡ v' = cc in
    (
      x,
      refl,
      subst (λ u. Becomes v u x) q
          (record {
            constant_op = inr (refl, refl);
            number = ap some (omega (arith, h.0, h.1));
            typ = sym (typed i64 h.2);
            args = refl;
            fits = h.1;
          }),
    )
settle-64 (word n) (some x) t true v v' h typed test e = cc (test (typed i64 h.2))
settle-64 (word n) none t is32 v v' h typed test e = elim h [ ]
settle-64 (truth b) (some x) t is32 v v' h typed test e =
    settle-32 (truth b) (some x) t is32 v v' h typed (λ p. cc (typed bool h.1)) e
settle-64 (truth b) none t is32 v v' h typed test e = elim h [ ]
settle-64 unknown m t is32 v v' h typed test e = elim h [ ]
