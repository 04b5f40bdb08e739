-- ===== src/Wasm/Reader/Total.antt =====
-- Rules for readers whose loops never run out of fuel.
use wasm2go.Prelude.{
  ℕ, zero, suc, ◌+◌, ◌≡◌, ◌≢◌, refl, Bool, true, false, List, [], ◌∷◌, if◌then◌else◌,
}
use wasm2go.Wasm.Reader.{
  Error, Result, ok, err, stuck, bind, wrap, Reader, pure, fail, ◌>>=◌, wrapped, refuse_if,
  read_byte, read_more, read_full, read_each,
}

pub record Total {ℓ} {A : Type ℓ} (p : Reader A) : Type ℓ where
  pub on : (bs : List ℕ) → p bs ≢ stuck

module _ {ℓ κ} {A : Type ℓ} {B : Type κ} where
  pub bind-ne-stuck :
      (r : Result A) (f : A → Result B)
      → r ≢ stuck
      → ((a : A) → r ≡ ok a → f a ≢ stuck)
      → bind r f ≢ stuck
  bind-ne-stuck (ok a) f hr hf = hf a refl
  bind-ne-stuck (err e) f hr hf = λ q. cc
  bind-ne-stuck stuck f hr hf = λ q. hr refl

module _ {ℓ κ} {A : Type ℓ} {B : Type κ} where
  pub Total-bind :
      {p : Reader A} {f : A → Reader B} → Total p → ((a : A) → Total (f a)) → Total (p >>= f)
  Total-bind {p} {f} hp hf = record {
    on = λ bs. bind-ne-stuck (p bs) (λ (a, r). f a r) (hp.on bs) (λ (a, r) e. (hf a).on r);
  }

module _ {ℓ} {A : Type ℓ} where
  pub Total-pure : (a : A) → Total (pure a)
  Total-pure a = record { on = λ bs h. cc }

  pub Total-fail : (e : Error) → Total (fail {A = A} e)
  Total-fail e = record { on = λ bs h. cc }

  pub Total-if : (test : Bool) {p q : Reader A} → Total p → Total q → Total (if test then p else q)
  Total-if true hp hq = hp
  Total-if false hp hq = hq

  pub wrap-ne-stuck : (w : Error → Error) (r : Result A) → r ≢ stuck → wrap w r ≢ stuck
  wrap-ne-stuck w (ok a) h = λ q. cc
  wrap-ne-stuck w (err e) h = λ q. cc
  wrap-ne-stuck w stuck h = λ q. h refl

module _ {ℓ} {A : Type ℓ} where
  pub Total-wrapped : (w : Error → Error) {p : Reader A} → Total p → Total (wrapped w p)
  Total-wrapped w {p} hp = record { on = λ bs. wrap-ne-stuck w (p bs) (hp.on bs) }

  pub Total-read_each :
      (i n : ℕ) {p : ℕ → Reader A} → ((k : ℕ) → Total (p k)) → Total (read_each i n p)
  unfolding read_each
  Total-read_each i zero hp = Total-pure []
  Total-read_each i (suc n) hp =
      Total-bind (hp i) λ x. Total-bind (Total-read_each (i + 1) n hp) λ xs. Total-pure (x ∷ xs)

pub Total-refuse_if : (test : Bool) (e : Error) → Total (refuse_if test e)
Total-refuse_if true e = Total-fail e
Total-refuse_if false e = Total-pure tt

pub Total-read_byte : Total read_byte
unfolding read_byte
Total-read_byte = record { on = go }
  where
    go : (bs : List ℕ) → read_byte bs ≢ stuck
    go [] h = cc
    go (b ∷ bs) h = cc

read_more-ne-stuck : (n : ℕ) (bs : List ℕ) → read_more n bs ≢ stuck
unfolding read_more
read_more-ne-stuck zero bs = λ h. cc
read_more-ne-stuck (suc n) [] = λ h. cc
read_more-ne-stuck (suc n) (b ∷ bs) =
    bind-ne-stuck (read_more n bs) _ (read_more-ne-stuck n bs) (λ a e h. cc)

pub Total-read_full : (n : ℕ) → Total (read_full n)
unfolding read_full
Total-read_full zero = record { on = λ bs h. cc }
Total-read_full (suc n) = record { on = go }
  where
    go : (bs : List ℕ) → read_full (suc n) bs ≢ stuck
    go [] h = cc
    go (b ∷ bs) h = read_more-ne-stuck (suc n) (b ∷ bs) h
