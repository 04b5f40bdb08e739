-- ===== src/Ssa/Pass/MemAddr/Address.antt =====
-- internal/ssa/pass/memaddr.go: the addresses of loads and stores.
use wasm2go.Prelude.{
  ℕ, zero, suc, ◌+◌, ◌-◌, ◌%◌, ◌^◌, Bool, true, false, Bool-cases, ◌||◌, ltb, ◌==◌, ==_iff,
  if◌then◌else◌, Option, none, some, List, [], ◌∷◌, ◌≡◌, refl, sym, ap, ◌∙◌, ◌⊎◌, inl, inr, arith,
}
use mathlib.Core.Path.{subst}
use mathlib.Core.Option.{some_inj}
use wasm2go.Ssa.Op.{
  Op, copy, add32, const32, load8_u, load8_s, load16_u, load16_s, load32, load32_u, load32_s,
  load64, load_f32, load_f64, store8, store16, store32, store64, store_f32, store_f64,
}
use wasm2go.Ssa.Func.{Value, Func}
use wasm2go.Ssa.Update.{update-same, update-other}
use wasm2go.Ssa.Meaning.{combine, apply1, apply2, denote, meaning, unary, binary, Agrees}
use wasm2go.Ssa.Pass.MemAddr.{
  is_linear_load, is_linear_store, peel_copy, peel_copies, is_const32, move_addend, one_constant,
  split_base, fold_access, fold_addend, put_access, fold_mem_value, fold_mem_values,
  fold_mem_blocks, fold_mem_addend,
}

-- The address of an access whose operands are the numbers `env`, as the emitted code wraps it.
abbrev pub base_number : (ℕ → ℕ) → List ℕ → ℕ
base_number env [] = 0
base_number env (a ∷ rest) = env a

abbrev pub address : (ℕ → ℕ) → Value → ℕ
address env w = (base_number env w.args + w.aux_int) % 2 ^ 32

abbrev pub is_access : Op → Bool
is_access op = is_linear_load op || is_linear_store op

is_const32-eq : (op : Op) → is_const32 op ≡ true → op ≡ const32
is_const32-eq const32 e = refl
is_const32-eq _ e = cc

-- The same operation at the same address.
pub record SameAccess (env : ℕ → ℕ) (w w' : Value) : Type 0 where
  pub op : w'.op ≡ w.op
  pub place : address env w' ≡ address env w

module _ (f : Func) (env : ℕ → ℕ) (agrees : Agrees f env) where
  copied :
      (v : ℕ) (op : Op) (args : List ℕ) (again : ℕ → ℕ)
      → (f.value_of v).op ≡ op
      → (f.value_of v).args ≡ args
      → ((a : ℕ) → env (again a) ≡ env a)
      → env (peel_copy op args v again) ≡ env v
  unfolding denote unary
  copied v copy (a ∷ []) again e k h =
      let m : meaning env (f.value_of v) ≡ some (env a) =
        λ i. denote (e i) (f.value_of v).aux_int env (k i) in
      h a ∙ sym (agrees.at v (env a) m)
  copied v copy [] again e k h = refl
  copied v copy (a ∷ b ∷ rest) again e k h = refl
  copied v _ args again e k h = refl

  peel-equal : (n v : ℕ) → env (peel_copies f.value_of n v) ≡ env v
  unfolding peel_copies
  peel-equal zero v = refl
  peel-equal (suc n) v = elim (Bool-cases (v == 0)) [
    | inl e ↦ rw e refl
    | inr e ↦ rw e (
        copied v (f.value_of v).op (f.value_of v).args (peel_copies f.value_of n) refl refl
          (peel-equal n))
  ]

  const-number :
      (c : ℕ) → is_const32 (f.value_of c).op ≡ true → env c ≡ (f.value_of c).aux_int % 2 ^ 32
  unfolding denote
  const-number c e = agrees.at c _ (λ i.
      denote (is_const32-eq (f.value_of c).op e i) (f.value_of c).aux_int env (f.value_of c).args)

  moved :
      (threshold : ℕ) (w w' : Value) (rest : List ℕ) (a x n : ℕ)
      → w.args ≡ a ∷ rest
      → env a ≡ (env x + n % 2 ^ 32) % 2 ^ 32
      → move_addend threshold w rest x n ≡ some w'
      → SameAccess env w w'
  moved threshold w w' rest a x n e k h =
      let total = (w.aux_int + n % 2 ^ 32) % 2 ^ 64 in
      let new : Value = record w { args = x ∷ rest; aux_int = total } in
      let base : base_number env w.args ≡ env a = ap (base_number env) e in
      let same : SameAccess env w new = record { op = refl; place = omega (arith, base, k) } in
      let small =
        if ltb (n % 2 ^ 32) (2 ^ 31)
        then ltb total threshold
        else ltb (2 ^ 32 - n % 2 ^ 32) threshold in
      elim (Bool-cases small) [
        | inl t ↦ let bad = rw t at h in cc
        | inr t ↦ subst (SameAccess env w) (some_inj.0 (rw t at h)) same
      ]

  one_constant-same :
      (threshold m : ℕ) (w w' : Value) (rest : List ℕ) (a x c : ℕ)
      → w.args ≡ a ∷ rest
      → env a ≡ (env x + env c) % 2 ^ 32
      → one_constant f.value_of m threshold w rest x c ≡ some w'
      → SameAccess env w w'
  one_constant-same threshold m w w' rest a x c e k h =
      elim (Bool-cases (is_const32 (f.value_of c).op)) [
        | inl t ↦ elim (Bool-cases (is_const32 (f.value_of x).op)) [
          | inl u ↦ let bad = rw (t, u) at h in cc
          | inr u ↦
              let n = const-number c t in
              moved threshold w w' rest a x (f.value_of c).aux_int e (omega (arith, k, n))
                (rw (t, u) at h)
        ]
        | inr t ↦ elim (Bool-cases (is_const32 (f.value_of x).op)) [
          | inl u ↦
              let n = const-number x u in
              moved threshold w w' rest a c (f.value_of x).aux_int e (omega (arith, k, n))
                (rw (t, u) at h)
          | inr u ↦ let bad = rw (t, u) at h in cc
        ]
      ]

  split_base-same :
      (threshold m : ℕ) (w w' : Value) (rest : List ℕ) (a base : ℕ) (op : Op) (args : List ℕ)
      → w.args ≡ a ∷ rest
      → env a ≡ env base
      → (f.value_of base).op ≡ op
      → (f.value_of base).args ≡ args
      → split_base f.value_of m threshold w rest op args ≡ some w'
      → SameAccess env w w'
  unfolding denote binary split_base
  split_base-same threshold m w w' rest a base add32 (p ∷ q ∷ []) e k o at_args h =
      let sum : meaning env (f.value_of base) ≡ some ((env p + env q) % 2 ^ 32) =
        λ i. denote (o i) (f.value_of base).aux_int env (at_args i) in
      let number = agrees.at base ((env p + env q) % 2 ^ 32) sum in
      let x = peel_copies f.value_of m p in
      let c = peel_copies f.value_of m q in
      elim (Bool-cases ((x == 0) || (c == 0))) [
        | inl t ↦ let bad = rw t at h in cc
        | inr t ↦
            one_constant-same threshold m w w' rest a x c e
              (omega (arith, k, number, peel-equal m p, peel-equal m q)) (rw t at h)
      ]
  split_base-same threshold m w w' rest a base add32 [] e k o at_args h = cc
  split_base-same threshold m w w' rest a base add32 (p ∷ []) e k o at_args h = cc
  split_base-same threshold m w w' rest a base add32 (p ∷ q ∷ r ∷ more) e k o at_args h = cc
  split_base-same threshold m w w' rest a base _ args e k o at_args h = cc

  fold_addend-same :
      (threshold m : ℕ) (w w' : Value)
      → fold_addend f.value_of m threshold w ≡ some w'
      → SameAccess env w w' × (is_access w.op ≡ true)
  unfolding fold_addend fold_access
  fold_addend-same threshold m w w' h = elim (Bool-cases (is_access w.op)) [
    | inl t ↦ (go w.args refl (rw t at h), t)
    | inr t ↦ let bad = rw t at h in cc
  ]
    where
      go :
          (args : List ℕ)
          → w.args ≡ args
          → fold_access f.value_of m threshold w args ≡ some w'
          → SameAccess env w w'
      go [] e k = cc
      go (a ∷ rest) e k =
          let base = peel_copies f.value_of m a in
          elim (Bool-cases ((a == 0) || (base == 0))) [
            | inl t ↦ let bad = rw t at k in cc
            | inr t ↦
                split_base-same threshold m w w' rest a base (f.value_of base).op
                  (f.value_of base).args e (sym (peel-equal m a)) refl refl (rw t at k)
          ]

-- An access has no number of its own.
access-plain :
    (op : Op)
    → is_access op ≡ true
    → (unary op ≡ none)
      × (binary op ≡ none)
      × ((n : ℕ) (env : ℕ → ℕ) (args : List ℕ) → denote op n env args ≡ combine op env args)
unfolding unary binary denote
access-plain load8_u e = (refl, refl, λ n env args. refl)
access-plain load8_s e = (refl, refl, λ n env args. refl)
access-plain load16_u e = (refl, refl, λ n env args. refl)
access-plain load16_s e = (refl, refl, λ n env args. refl)
access-plain load32 e = (refl, refl, λ n env args. refl)
access-plain load32_u e = (refl, refl, λ n env args. refl)
access-plain load32_s e = (refl, refl, λ n env args. refl)
access-plain load64 e = (refl, refl, λ n env args. refl)
access-plain load_f32 e = (refl, refl, λ n env args. refl)
access-plain load_f64 e = (refl, refl, λ n env args. refl)
access-plain store8 e = (refl, refl, λ n env args. refl)
access-plain store16 e = (refl, refl, λ n env args. refl)
access-plain store32 e = (refl, refl, λ n env args. refl)
access-plain store64 e = (refl, refl, λ n env args. refl)
access-plain store_f32 e = (refl, refl, λ n env args. refl)
access-plain store_f64 e = (refl, refl, λ n env args. refl)
access-plain _ e = cc

access-denote :
    (op : Op) (n : ℕ) (env : ℕ → ℕ) (args : List ℕ)
    → is_access op ≡ true
    → denote op n env args ≡ none
access-denote op n env [] e = (access-plain op e).2 n env []
access-denote op n env (a ∷ []) e =
    (access-plain op e).2 n env (a ∷ []) ∙ ap (λ g. apply1 g (env a)) ((access-plain op e).0)
access-denote op n env (a ∷ b ∷ []) e =
    (access-plain op e).2 n env (a ∷ b ∷ [])
    ∙ ap (λ g. apply2 g (env a) (env b)) ((access-plain op e).1)
access-denote op n env (a ∷ b ∷ c ∷ rest) e = (access-plain op e).2 n env (a ∷ b ∷ c ∷ rest)

-- What a run of the pass leaves of every value.
abbrev pub Moved : (ℕ → ℕ) → Func → Func → Type 0
Moved env f g =
    (v : ℕ)
    → (g.value_of v ≡ f.value_of v)
      ⊎ ((is_access (f.value_of v).op ≡ true) × SameAccess env (f.value_of v) (g.value_of v))

Moved-Agrees : (env : ℕ → ℕ) (f g : Func) → Agrees f env → Moved env f g → Agrees g env
Moved-Agrees env f g h m = record {
  at = λ v x e. elim (m v) [
    | inl k ↦ h.at v x (ap (meaning env) (sym k) ∙ e)
    | inr (t, s) ↦
        let none_here =
          access-denote (g.value_of v).op (g.value_of v).aux_int env (g.value_of v).args
            (ap is_access s.op ∙ t) in
        cc
  ];
}

Moved-trans : (env : ℕ → ℕ) (f g h : Func) → Moved env f g → Moved env g h → Moved env f h
Moved-trans env f g h p q v = elim (q v) [
  | inl k ↦ elim (p v) [
    | inl e ↦ inl (k ∙ e)
    | inr (t, s) ↦ inr (t, subst (SameAccess env (f.value_of v)) (sym k) s)
  ]
  | inr (t, s) ↦ elim (p v) [
    | inl e ↦
        inr (
          subst (λ (w : Value). (is_access w.op ≡ true) × SameAccess env w (h.value_of v)) e (t, s))
    | inr (t', s') ↦ inr (t', record { op = s.op ∙ s'.op; place = s.place ∙ s'.place })
  ]
]

fold_mem_value-Moved :
    (threshold id : ℕ) (f : Func) (env : ℕ → ℕ)
    → Agrees f env
    → Moved env f (fold_mem_value threshold id f).0
unfolding fold_mem_value
fold_mem_value-Moved threshold id f env h =
    go (fold_addend f.value_of f.next_value_id threshold (f.value_of id)) refl
  where
    go :
        (r : Option Value)
        → fold_addend f.value_of f.next_value_id threshold (f.value_of id) ≡ r
        → Moved env f (put_access id f r).0
    go none e v = inl refl
    go (some w) e v =
        let s = fold_addend-same f env h threshold f.next_value_id (f.value_of id) w e in
        elim (Bool-cases (v == id)) [
          | inl k ↦
              let same = (==_iff v id).0 k in
              inr (rw (update-same f.value_of id w v k, same) (s.1, s.0))
          | inr k ↦ inl (update-other f.value_of id w v k)
        ]

fold_mem_values-Moved :
    (threshold : ℕ) (vs : List ℕ) (f : Func) (c : Bool) (env : ℕ → ℕ)
    → Agrees f env
    → Moved env f (fold_mem_values threshold vs (f, c)).0
unfolding fold_mem_values
fold_mem_values-Moved threshold [] f c env h = λ v. inl refl
fold_mem_values-Moved threshold (v ∷ vs) f c env h =
    let g = (fold_mem_value threshold v f).0 in
    let p = fold_mem_value-Moved threshold v f env h in
    Moved-trans env f g (fold_mem_values threshold (v ∷ vs) (f, c)).0 p (
      fold_mem_values-Moved threshold vs g ((fold_mem_value threshold v f).1 || c) env
        (Moved-Agrees env f g h p))

fold_mem_blocks-Moved :
    (threshold : ℕ) (bs : List ℕ) (f : Func) (c : Bool) (env : ℕ → ℕ)
    → Agrees f env
    → Moved env f (fold_mem_blocks threshold bs (f, c)).0
unfolding fold_mem_blocks
fold_mem_blocks-Moved threshold [] f c env h = λ v. inl refl
fold_mem_blocks-Moved threshold (b ∷ bs) f c env h =
    let s = fold_mem_values threshold (f.block_of b).values (f, c) in
    let p = fold_mem_values-Moved threshold (f.block_of b).values f c env h in
    Moved-trans env f (s.0) (fold_mem_blocks threshold (b ∷ bs) (f, c)).0 p
      (fold_mem_blocks-Moved threshold bs (s.0) (s.1) env (Moved-Agrees env f (s.0) h p))

-- For numbers that agree with the operations of a function, they agree with those that
-- FoldMemAddend leaves too, and each value is unchanged or is a load or store of the same
-- operation whose base and offset add up to the same address modulo 2^32.
pub fold_mem_addend-Moved :
    (threshold : ℕ) (f : Func) (env : ℕ → ℕ)
    → Agrees f env
    → Agrees (fold_mem_addend threshold f).0 env × Moved env f (fold_mem_addend threshold f).0
unfolding fold_mem_addend
fold_mem_addend-Moved threshold f env h =
    let m = fold_mem_blocks-Moved threshold f.order f false env h in
    (Moved-Agrees env f (fold_mem_blocks threshold f.order (f, false)).0 h m, m)
