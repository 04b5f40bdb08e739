-- ===== src/Wasm/Reader/Yields.antt =====
-- Rules for what a reader's values satisfy.
use wasm2go.Prelude.{
  ℕ, zero, suc, ◌+◌, ◌≡◌, refl, ap, Bool, true, false, List, if◌then◌else◌, length,
}
use wasm2go.Wasm.Reader.{Error, ok, Reader, pure, fail, ◌>>=◌, ◌>>◌, refuse_if, read_each}
use wasm2go.Wasm.Reader.Local.{bind-eq-ok}
use mathlib.Core.Path.{subst}

pub record Yields {ℓ κ} {A : Type ℓ} (p : Reader A) (P : A → Type κ) : Type (ℓ ⊔ κ) where
  pub post : (bs : List ℕ) (a : A) (rest : List ℕ) → p bs ≡ ok (a, rest) → P a

module _ {ℓ κ ι} {A : Type ℓ} {B : Type κ} {Q : B → Type ι} where
  pub Yields-bind :
      (p : Reader A) {f : A → Reader B} → ((a : A) → Yields (f a) Q) → Yields (p >>= f) Q
  Yields-bind p {f} h = record {
    post = λ bs b rest e.
        let ((a, mid), q, k) = bind-eq-ok (p bs) (λ (x, r). f x r) (b, rest) e in
        (h a).post mid b rest k;
  }

  pub Yields-bind_of {μ} :
      {P : A → Type μ} {p : Reader A} {f : A → Reader B}
      → Yields p P
      → ((a : A) → P a → Yields (f a) Q)
      → Yields (p >>= f) Q
  Yields-bind_of {p} {f} hp h = record {
    post = λ bs b rest e.
        let ((a, mid), q, k) = bind-eq-ok (p bs) (λ (x, r). f x r) (b, rest) e in
        (h a (hp.post bs a mid q)).post mid b rest k;
  }

module _ {ℓ κ} {A : Type ℓ} {P : A → Type κ} where
  pub Yields-pure : {a : A} → P a → Yields (pure a) P
  Yields-pure {a} h = record { post = λ bs b rest e. subst P (cc) h }

  pub Yields-fail : (e : Error) → Yields (fail {A = A} e) P
  Yields-fail e = record { post = λ bs b rest q. cc }

  pub Yields-if :
      (test : Bool) {p q : Reader A} → Yields p P → Yields q P → Yields (if test then p else q) P
  Yields-if true hp hq = hp
  Yields-if false hp hq = hq

  -- What stands behind a guard may use that the guard was passed.
  pub Yields-guard :
      (test : Bool) (e : Error) {q : Reader A}
      → (test ≡ false → Yields q P)
      → Yields (refuse_if test e >> q) P
  Yields-guard true e h = record { post = λ bs b rest k. cc }
  Yields-guard false e {q} h = record { post = λ bs b rest k. (h refl).post bs b rest k }

module _ {ℓ} {A : Type ℓ} where
  pub length-read_each :
      (i n : ℕ) (p : ℕ → Reader A) → Yields (read_each i n p) (λ xs. length xs ≡ n)
  unfolding read_each
  length-read_each i zero p = Yields-pure refl
  length-read_each i (suc n) p =
      Yields-bind (p i)
        λ x. Yields-bind_of (length-read_each (i + 1) n p) λ xs e. Yields-pure (ap suc e)
