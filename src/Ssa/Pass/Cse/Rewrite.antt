-- ===== src/Ssa/Pass/Cse/Rewrite.antt =====
-- The references that CSE rewrites, and the values that it buries.
use wasm2go.Prelude.{
  ℕ, Bool, true, false, not, ◌&&◌, Bool-cases, ◌==◌, ==_iff, Option, some, Option-cases, List, [],
  ◌∷◌, ◌≡◌, refl, sym, ap, ◌∙◌, ◌⊎◌, inl, inr, arith,
}
use mathlib.Core.List.{map}
use wasm2go.Ssa.Op.{Op}
use wasm2go.Ssa.Func.{Value, Block, Func}
use wasm2go.Ssa.Update.{update-at, update-other, update-related}
use wasm2go.Ssa.Compact.{is_invalid}
use wasm2go.Ssa.Pass.Cse.{
  Key, cse_eligible, resolve, numbering, forward, forward_args, forward_value, forward_values,
  forward_control, forward_blocks, merged, buried_value, bury_value, bury_values, bury_blocks, cse,
}
use wasm2go.Ssa.Pass.Cse.Merges.{
  PrintsApart, HasForms, Interpretation, Computes, numbering-equal, resolve-equal,
}

module _ {ℓ} {X : Type ℓ} (env : ℕ → X) where
  -- The same operation on operands that are equal under `env`.
  pub record SameValue (w w' : Value) : Type ℓ where
    pub op : w'.op ≡ w.op
    pub typ : w'.typ ≡ w.typ
    pub aux_int : w'.aux_int ≡ w.aux_int
    pub aux : w'.aux ≡ w.aux
    pub block : w'.block ≡ w.block
    pub args : map env w'.args ≡ map env w.args

  pub record SameBlock (b b' : Block) : Type ℓ where
    pub values : b'.values ≡ b.values
    pub kind : b'.kind ≡ b.kind
    pub edges : (b'.preds ≡ b.preds) × (b'.succs ≡ b.succs)
    pub control : env b'.control ≡ env b.control

  SameValue-refl : (w : Value) → SameValue w w
  SameValue-refl w = record {
    op = refl;
    typ = refl;
    aux_int = refl;
    aux = refl;
    block = refl;
    args = refl;
  }

  SameValue-trans : (u v w : Value) → SameValue u v → SameValue v w → SameValue u w
  SameValue-trans u v w p q = record {
    op = q.op ∙ p.op;
    typ = q.typ ∙ p.typ;
    aux_int = q.aux_int ∙ p.aux_int;
    aux = q.aux ∙ p.aux;
    block = q.block ∙ p.block;
    args = q.args ∙ p.args;
  }

  SameBlock-refl : (b : Block) → SameBlock b b
  SameBlock-refl b = record { values = refl; kind = refl; edges = (refl, refl); control = refl }

  SameBlock-trans : (a b c : Block) → SameBlock a b → SameBlock b c → SameBlock a c
  SameBlock-trans a b c p q = record {
    values = q.values ∙ p.values;
    kind = q.kind ∙ p.kind;
    edges = (q.edges.0 ∙ p.edges.0, q.edges.1 ∙ p.edges.1);
    control = q.control ∙ p.control;
  }

  pub record Forwarded (f g : Func) : Type ℓ where
    pub value : (v : ℕ) → SameValue (f.value_of v) (g.value_of v)
    pub block : (b : ℕ) → SameBlock (f.block_of b) (g.block_of b)
    pub order : g.order ≡ f.order

  pub Forwarded-refl : (f : Func) → Forwarded f f
  Forwarded-refl f = record {
    value = λ v. SameValue-refl (f.value_of v);
    block = λ b. SameBlock-refl (f.block_of b);
    order = refl;
  }

  pub Forwarded-trans : (f g h : Func) → Forwarded f g → Forwarded g h → Forwarded f h
  Forwarded-trans f g h p q = record {
    value =
        λ v. SameValue-trans (f.value_of v) (g.value_of v) (h.value_of v) (p.value v) (q.value v);
    block =
        λ b. SameBlock-trans (f.block_of b) (g.block_of b) (h.block_of b) (p.block b) (q.block b);
    order = q.order ∙ p.order;
  }

  module _ (find : ℕ → ℕ) (faithful : (a : ℕ) → env (find a) ≡ env a) where
    forward-equal : (a : ℕ) → env (forward find a) ≡ env a
    forward-equal a = elim (Bool-cases (a == 0)) [
      | inl e ↦ rw (e, (==_iff a 0).0 e) refl
      | inr e ↦ rw e (faithful a)
    ]

    map-forward : (args : List ℕ) → map env (map (forward find) args) ≡ map env args
    map-forward [] = refl
    map-forward (a ∷ args) = λ i. forward-equal a i ∷ map-forward args i

    pub forward_value-Forwarded : (v : ℕ) (f : Func) → Forwarded f (forward_value find v f)
    forward_value-Forwarded v f = elim (Bool-cases (is_invalid (f.value_of v).op)) [
      | inl e ↦ rw e (Forwarded-refl f)
      | inr e ↦ rw e (record {
        value =
            update-related f.value_of v (forward_args find (f.value_of v)) SameValue SameValue-refl
              (record {
                op = refl;
                typ = refl;
                aux_int = refl;
                aux = refl;
                block = refl;
                args = map-forward (f.value_of v).args;
              });
        block = λ b. SameBlock-refl (f.block_of b);
        order = refl;
      })
    ]

    pub forward_values-Forwarded : (vs : List ℕ) (f : Func) → Forwarded f (forward_values find vs f)
    unfolding forward_values
    forward_values-Forwarded [] f = Forwarded-refl f
    forward_values-Forwarded (v ∷ vs) f =
        let g = forward_value find v f in
        Forwarded-trans f g _ (forward_value-Forwarded v f) (forward_values-Forwarded vs g)

    pub forward_control-Forwarded : (b : ℕ) (f : Func) → Forwarded f (forward_control find b f)
    forward_control-Forwarded b f = record {
      value = λ v. SameValue-refl (f.value_of v);
      block =
          update-related f.block_of b
            (record (f.block_of b) { control = forward find (f.block_of b).control }) SameBlock
            SameBlock-refl
            (record {
              values = refl;
              kind = refl;
              edges = (refl, refl);
              control = forward-equal (f.block_of b).control;
            });
      order = refl;
    }

    pub forward_blocks-Forwarded : (bs : List ℕ) (f : Func) → Forwarded f (forward_blocks find bs f)
    unfolding forward_blocks
    forward_blocks-Forwarded [] f = Forwarded-refl f
    forward_blocks-Forwarded (b ∷ bs) f =
        let g = forward_values find (f.block_of b).values f in
        let h = forward_control find b g in
        Forwarded-trans f g _ (forward_values-Forwarded (f.block_of b).values f)
          (Forwarded-trans g h _ (forward_control-Forwarded b g) (forward_blocks-Forwarded bs h))

-- What the last loop leaves of one value.
unfoldable pub Buried : (ℕ → Option ℕ) → Func → Func → Type 0
Buried canon f g =
    ((v : ℕ)
      → (g.value_of v ≡ f.value_of v)
        ⊎ ((merged canon v ≡ true) × (g.value_of v ≡ buried_value (f.value_of v))))
    × (g.block_of ≡ f.block_of)
    × (g.order ≡ f.order)

Buried-trans :
    (canon : ℕ → Option ℕ) (f g h : Func) → Buried canon f g → Buried canon g h → Buried canon f h
unfolding Buried
Buried-trans canon f g h p q = (
  λ v. elim (q.0 v) [
    | inl e ↦ elim (p.0 v) [ inl k ↦ inl (e ∙ k) | inr (m, k) ↦ inr (m, e ∙ k) ]
    | inr (m, e) ↦ elim (p.0 v) [
      | inl k ↦ inr (m, e ∙ ap buried_value k)
      | inr (n, k) ↦ inr (m, e ∙ ap buried_value k)
    ]
  ],
  q.1 ∙ p.1,
  q.2 ∙ p.2,
)

bury_value-Buried :
    (canon : ℕ → Option ℕ) (v : ℕ) (f : Func) → Buried canon f (bury_value canon v f)
unfolding Buried
bury_value-Buried canon v f =
    elim (Bool-cases (not (is_invalid (f.value_of v).op) && merged canon v)) [
      | inl e ↦ rw e (
        λ u. elim (Bool-cases (u == v)) [
          | inl k ↦
              let same = (==_iff u v).0 k in
              inr (
                rw same (ground arith),
                rw same (update-at f.value_of v (buried_value (f.value_of v))),
              )
          | inr k ↦ inl (update-other f.value_of v (buried_value (f.value_of v)) u k)
        ],
        refl,
        refl,
      )
      | inr e ↦ rw e (λ u. inl refl, refl, refl)
    ]

bury_values-Buried :
    (canon : ℕ → Option ℕ) (vs : List ℕ) (f : Func) → Buried canon f (bury_values canon vs f)
unfolding bury_values Buried
bury_values-Buried canon [] f = (λ u. inl refl, refl, refl)
bury_values-Buried canon (v ∷ vs) f =
    let g = bury_value canon v f in
    Buried-trans canon f g (bury_values canon vs g) (bury_value-Buried canon v f)
      (bury_values-Buried canon vs g)

pub bury_blocks-Buried :
    (canon : ℕ → Option ℕ) (bs : List ℕ) (f : Func) → Buried canon f (bury_blocks canon bs f)
unfolding bury_blocks Buried
bury_blocks-Buried canon [] f = (λ u. inl refl, refl, refl)
bury_blocks-Buried canon (b ∷ bs) f =
    let g = bury_values canon (f.block_of b).values f in
    Buried-trans canon f g (bury_blocks canon bs g)
      (bury_values-Buried canon (f.block_of b).values f) (bury_blocks-Buried canon bs g)

module _ {ℓ} {X : Type ℓ} (I : Interpretation X) (env : ℕ → X) (alike : Key → Key → Bool) (f : Func)
    (computes : Computes I f env) (apart : PrintsApart alike) (forms : HasForms f) where
  -- A value is the same as before, or it was merged into an equal one and is dead.
  abbrev pub Rewritten : Func → ℕ → Type ℓ
  Rewritten g v =
      SameValue env (f.value_of v) (g.value_of v)
      ⊎ (((g.value_of v).op ≡ Op.invalid)
          × ((p : ℕ) × ((numbering alike f).canon v ≡ some p) × (env v ≡ env p)))

  -- Under the hypotheses of the refinement by CSE, each value keeps its operation, type,
  -- immediates and block, with operands of equal value, or is dead and was merged into one of
  -- equal value; each block keeps its kind, values and edges, with a condition of equal value.
  pub cse-SameValue :
      ((v : ℕ) → Rewritten (cse alike f).0 v)
      × ((b : ℕ) → SameBlock env (f.block_of b) ((cse alike f).0.block_of b))
  unfolding cse Buried
  cse-SameValue =
      let s = numbering alike f in
      let find = resolve s.canon f.next_value_id in
      let g = forward_blocks find f.order f in
      let p =
        forward_blocks-Forwarded env find
          (resolve-equal I env f computes alike apart forms f.next_value_id) f.order f in
      let q = bury_blocks-Buried s.canon f.order g in
      elim (Bool-cases s.changed) [
        | inl e ↦ rw e (
          λ v. elim (q.0 v) [
            | inl k ↦ inl (rw k (p.value v))
            | inr (m, k) ↦ elim (Option-cases (s.canon v)) [
              | inl c ↦ let bad = rw c at m in cc
              | inr (r, c) ↦
                  inr (rw k refl, (r, c, numbering-equal I env f computes alike apart forms v r c))
            ]
          ],
          λ b. rw (q.1) (p.block b),
        )
        | inr e ↦
            rw e
              (λ v. inl (SameValue-refl env (f.value_of v)), λ b. SameBlock-refl env (f.block_of b))
      ]

  eligible-valid :
      (w : Value) → cse_eligible w ≡ true → (e : w.op ≡ Op.invalid) → is_invalid w.op ≡ false → ⊥
  eligible-valid w h e v = let q = rw e at v in cc

  -- Where keys that print alike have equal fields and the immediate of an operation has one form,
  -- values that the eligible operations compute are computed by those that CSE leaves too, for any
  -- meaning of the operations that ignores the operands' order where IsCommutative holds.
  pub cse-Computes : Computes I (cse alike f).0 env
  unfolding cse_eligible
  cse-Computes = record {
    at = λ v (valid, el). elim (cse-SameValue.0 v) [
      | inl r ↦
          let w = f.value_of v in
          let was : cse_eligible w ≡ true = rw (sym r.op, sym r.aux) el in
          computes.at v (rw (sym r.op) valid, was)
          ∙ sym (λ i. I.apply (r.op i) (r.typ i) (r.aux_int i) (r.aux i) (r.args i))
      | inr (dead, p) ↦ absurd (eligible-valid ((cse alike f).0.value_of v) el dead valid)
    ];
  }
