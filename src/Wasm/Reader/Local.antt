-- ===== src/Wasm/Reader/Local.antt =====
-- Rules for readers. `Reads p used a`: on input that begins with `used`, `p` returns `a` and leaves
-- what follows. `IsLocal p`: whatever `p` returns rests on the bytes that it takes and on no others.
use wasm2go.Prelude.{
  ℕ, zero, suc, ◌+◌, ◌≡◌, refl, sym, ap, ◌∙◌, Bool, true, false, List, [], ◌∷◌, ◌++◌, append_assoc,
  if◌then◌else◌, length, arith,
}
use wasm2go.Wasm.Reader.{
  Error, Result, ok, err, stuck, bind, wrap, Reader, pure, fail, ◌>>=◌, wrapped, refuse_if,
  read_byte, read_more, read_full, read_each,
}

pub record Reads {ℓ} {A : Type ℓ} (p : Reader A) (used : List ℕ) (a : A) : Type ℓ where
  pub on : (rest : List ℕ) → p (used ++ rest) ≡ ok (a, rest)

pub record IsLocal {ℓ} {A : Type ℓ} (p : Reader A) : Type ℓ where
  pub split :
      (bs : List ℕ) (a : A) (rest : List ℕ)
      → p bs ≡ ok (a, rest)
      → (used : List ℕ) × (bs ≡ used ++ rest) × Reads p used a

module _ {ℓ κ} {A : Type ℓ} {B : Type κ} where
  pub Reads-bind :
      (f : A → Reader B) {p : Reader A} {used more : List ℕ} {a : A} {b : B}
      → Reads p used a
      → Reads (f a) more b
      → Reads (p >>= f) (used ++ more) b
  Reads-bind f {used} {more} h k = record {
    on = λ rest. rw (append_assoc used more rest, h.on (more ++ rest)) (k.on rest);
  }

  pub Reads-last :
      (f : A → Reader B) {p : Reader A} {used : List ℕ} {a : A} {b : B}
      → Reads p used a
      → Reads (f a) [] b
      → Reads (p >>= f) used b
  Reads-last f h k = record { on = λ rest. rw (h.on rest) (k.on rest) }

  pub bind-eq-ok :
      (r : Result A) (f : A → Result B) (b : B)
      → bind r f ≡ ok b
      → (a : A) × (r ≡ ok a) × (f a ≡ ok b)
  bind-eq-ok (ok a) f b h = (a, refl, h)
  bind-eq-ok (err e) f b h = cc
  bind-eq-ok stuck f b h = cc

module _ {ℓ κ} {A : Type ℓ} {B : Type κ} where
  pub IsLocal-bind :
      {p : Reader A} {f : A → Reader B} → IsLocal p → ((a : A) → IsLocal (f a)) → IsLocal (p >>= f)
  IsLocal-bind {p} {f} hp hf = record {
    split = λ bs b rest h.
        let ((a, mid), e, k) = bind-eq-ok (p bs) (λ (a, r). f a r) (b, rest) h in
        let (used, split, reads) = hp.split bs a mid e in
        let (more, split', reads') = (hf a).split mid b rest k in
        (
          used ++ more,
          split ∙ ap (λ t. used ++ t) split' ∙ sym (append_assoc used more rest),
          Reads-bind f reads reads',
        );
  }

module _ {ℓ} {A : Type ℓ} where
  pub Reads-pure : (a : A) → Reads (pure a) [] a
  Reads-pure a = record { on = λ rest. refl }

  pub IsLocal-pure : (a : A) → IsLocal (pure a)
  IsLocal-pure a = record { split = λ bs b rest h. ([], cc, record { on = λ more. cc }) }

  pub IsLocal-fail : (e : Error) → IsLocal (fail {A = A} e)
  IsLocal-fail e = record { split = λ bs b rest h. cc }

  pub IsLocal-if :
      (test : Bool) {p q : Reader A} → IsLocal p → IsLocal q → IsLocal (if test then p else q)
  IsLocal-if true hp hq = hp
  IsLocal-if false hp hq = hq

  pub wrap-eq-ok : (w : Error → Error) (r : Result A) (a : A) → wrap w r ≡ ok a → r ≡ ok a
  wrap-eq-ok w (ok b) a h = h
  wrap-eq-ok w (err e) a h = cc
  wrap-eq-ok w stuck a h = cc

module _ {ℓ} {A : Type ℓ} where
  pub Reads-wrapped :
      (w : Error → Error) {p : Reader A} {used : List ℕ} {a : A}
      → Reads p used a
      → Reads (wrapped w p) used a
  Reads-wrapped w h = record { on = λ rest. ap (wrap w) (h.on rest) }

  pub IsLocal-wrapped : (w : Error → Error) {p : Reader A} → IsLocal p → IsLocal (wrapped w p)
  IsLocal-wrapped w {p} hp = record {
    split = λ bs a rest h.
        let (used, e, reads) = hp.split bs a rest (wrap-eq-ok w (p bs) (a, rest) h) in
        (used, e, Reads-wrapped w reads);
  }

pub IsLocal-refuse_if : (test : Bool) (e : Error) → IsLocal (refuse_if test e)
IsLocal-refuse_if true e = IsLocal-fail e
IsLocal-refuse_if false e = IsLocal-pure tt

pub Reads-refuse_if : {test : Bool} (e : Error) → test ≡ false → Reads (refuse_if test e) [] tt
Reads-refuse_if {test} e h = record { on = λ rest. rw h refl }

pub Reads-read_byte : (b : ℕ) → Reads read_byte (b ∷ []) b
unfolding read_byte
Reads-read_byte b = record { on = λ rest. refl }

pub IsLocal-read_byte : IsLocal read_byte
unfolding read_byte
IsLocal-read_byte = record { split = go }
  where
    go :
        (bs : List ℕ) (a : ℕ) (rest : List ℕ)
        → read_byte bs ≡ ok (a, rest)
        → (used : List ℕ) × (bs ≡ used ++ rest) × Reads read_byte used a
    go [] a rest h = cc
    go (b ∷ bs) a rest h = (a ∷ [], cc, Reads-read_byte a)

Reads-read_more : (xs : List ℕ) → Reads (read_more (length xs)) xs xs
unfolding read_more
Reads-read_more [] = record { on = λ rest. refl }
Reads-read_more (x ∷ xs) = record { on = λ rest. rw ((Reads-read_more xs).on rest) refl }

pub Reads-read_full : (xs : List ℕ) → Reads (read_full (length xs)) xs xs
unfolding read_full
Reads-read_full [] = record { on = λ rest. refl }
Reads-read_full (x ∷ xs) = record { on = λ rest. (Reads-read_more (x ∷ xs)).on rest }

read_more-eq-ok :
    (n : ℕ) (bs a rest : List ℕ) → read_more n bs ≡ ok (a, rest) → (n ≡ length a) × (bs ≡ a ++ rest)
unfolding read_more
read_more-eq-ok zero bs a rest h = ground arith
read_more-eq-ok (suc n) [] a rest h = cc
read_more-eq-ok (suc n) (b ∷ bs) a rest h =
    let ((xs, r), e, k) = bind-eq-ok (read_more n bs) (λ (ys, r). ok (b ∷ ys, r)) (a, rest) h in
    ground (arith, read_more-eq-ok n bs xs r e)

pub IsLocal-read_full : (n : ℕ) → IsLocal (read_full n)
unfolding read_full
IsLocal-read_full n = record { split = go n }
  where
    go :
        (n : ℕ) (bs a rest : List ℕ)
        → read_full n bs ≡ ok (a, rest)
        → (used : List ℕ) × (bs ≡ used ++ rest) × Reads (read_full n) used a
    go zero bs a rest h = ([], cc, record { on = λ more. cc })
    go (suc n) [] a rest h = cc
    go (suc n) (b ∷ bs) a rest h =
        let (e, q) = read_more-eq-ok (suc n) (b ∷ bs) a rest h in (a, q, rw e (Reads-read_full a))

module _ {ℓ} {A : Type ℓ} where
  pub IsLocal-read_each :
      (i n : ℕ) {p : ℕ → Reader A} → ((k : ℕ) → IsLocal (p k)) → IsLocal (read_each i n p)
  unfolding read_each
  IsLocal-read_each i zero hp = IsLocal-pure []
  IsLocal-read_each i (suc n) hp =
      IsLocal-bind (hp i)
        λ x. IsLocal-bind (IsLocal-read_each (i + 1) n hp) λ xs. IsLocal-pure (x ∷ xs)
