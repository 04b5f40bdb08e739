-- ===== src/Wasm/Instr/Consumes.antt =====
-- What the methods of InstrReader return on bytes that are known: the value, and a position just
-- after the bytes. ReadU64 is compared with readU64 of internal/wasm/leb128.go.
use wasm2go.Prelude.{
  ℕ, zero, suc, ◌+◌, ◌≡◌, refl, ap, ◌∙◌, Bool, true, false, ◌&&◌, some, List, [], ◌∷◌, ◌++◌,
  append_assoc, get_elem?, drop, ltb, leb, ◌==◌, if◌then◌else◌, arith, bit_and, bit_or, Bool-cases,
  le→ltb, inl, inr,
}
use wasm2go.Wasm.Reader
use wasm2go.Wasm.Reader.{Result, ok, err, IsU32, IsU64, leb128_overflow}
use wasm2go.Wasm.Leb128
use wasm2go.Wasm.Leb128.Encoding.{uleb, Reads-read_u64}
use wasm2go.Wasm.Instr.{
  InstrReader, Outcome, done, Method, pure, ◌>>=◌, at, read_byte, read_u64_loop, read_u64, read_u32,
}

drop-suc :
    (src : List ℕ) (pos b : ℕ) (bs : List ℕ)
    → drop pos src ≡ b ∷ bs
    → (get_elem? src pos ≡ some b) × (drop (suc pos) src ≡ bs)
drop-suc [] zero b bs h = cc
drop-suc [] (suc pos) b bs h = cc
drop-suc (x ∷ src) zero b bs h = (cc, cc)
drop-suc (x ∷ src) (suc pos) b bs h = drop-suc src pos b bs h

pub get_elem?-drop :
    (src : List ℕ) (pos b : ℕ) (bs : List ℕ)
    → drop pos src ≡ b ∷ bs
    → (get_elem? src pos ≡ some b) × (drop (pos + 1) src ≡ bs)
get_elem?-drop src pos b bs h =
    let e : pos + 1 ≡ suc pos = omega arith in rw e (drop-suc src pos b bs h)

-- The outcome `v`, with the reader just before `rest`.
abbrev pub Leaves {ℓ} : {A : Type ℓ} → Outcome A × InstrReader → List ℕ → ℕ → A → List ℕ → Type ℓ
Leaves out src pos v rest = (pos' : ℕ) × (out ≡ (done v, at src pos')) × (drop pos' src ≡ rest)

read_byte-Leaves :
    (src : List ℕ) (pos b : ℕ) (bs : List ℕ)
    → drop pos src ≡ b ∷ bs
    → read_byte (at src pos) ≡ (done b, at src (pos + 1))
unfolding read_byte
read_byte-Leaves src pos b bs h = rw ((get_elem?-drop src pos b bs h).0) refl

guard-ok :
    (t : Bool) (x w : ℕ) (bs rest : List ℕ)
    → (if t then Reader.fail leb128_overflow else Reader.pure x) bs ≡ ok (w, rest)
    → (x ≡ w) × (bs ≡ rest)
guard-ok true x w bs rest h = cc
guard-ok false x w bs rest h = (cc, cc)

read_u64_loop-agrees :
    (n i s v : ℕ) (bs : List ℕ) (w : ℕ) (rest src : List ℕ) (pos : ℕ)
    → Leb128.read_u64_loop n i s v bs ≡ ok (w, rest)
    → drop pos src ≡ bs
    → Leaves (read_u64_loop n v s (at src pos)) src pos w rest
unfolding Leb128.read_u64_loop Leb128.leb128_byte read_u64_loop
read_u64_loop-agrees zero i s v bs w rest src pos h e = cc
read_u64_loop-agrees (suc n) i s v [] w rest src pos h e = cc
read_u64_loop-agrees (suc n) i s v (b ∷ bs) w rest src pos h e =
    rw (read_byte-Leaves src pos b bs e) elim (Bool-cases (leb 64 s)) [
      | inl over ↦ absurd (ground (arith, over))
      | inr fits ↦ elim (Bool-cases (bit_and b 0x80 == 0)) [
        | inl last ↦
            (let (x≡w, bs≡rest) =
                guard-ok ((i == 9) && ltb 1 b) (bit_or v (Leb128.shl64 (bit_and b 0x7f) s)) w bs
                  rest (simp (fits, last) at h) in
              rw last (
                pos + 1,
                ap (λ (t : ℕ). (done t, at src (pos + 1))) x≡w,
                (get_elem?-drop src pos b bs e).1 ∙ bs≡rest,
              ))
        | inr more ↦ rw more (
            read_u64_loop-agrees n (i + 1) (s + 7) (bit_or v (Leb128.shl64 (bit_and b 0x7f) s)) bs w
              rest src (pos + 1) (simp (fits, more) at h) ((get_elem?-drop src pos b bs e).1))
      ]
    ]

-- Where readU64 of leb128.go accepts the bytes at the reader's position, InstrReader.ReadU64 returns
-- the same value and leaves the reader just before the same remaining bytes.
pub read_u64-agrees :
    (src : List ℕ) (pos w : ℕ) (rest : List ℕ)
    → Leb128.read_u64 (drop pos src) ≡ ok (w, rest)
    → Leaves (read_u64 (at src pos)) src pos w rest
unfolding Leb128.read_u64 read_u64
read_u64-agrees src pos w rest h =
    read_u64_loop-agrees 10 0 0 0 (drop pos src) w rest src pos h refl

-- At bytes that begin with `used`, `p` returns `a` and leaves the reader just after them.
pub record Consumes {ℓ} {A : Type ℓ} (p : Method A) (used : List ℕ) (a : A) : Type ℓ where
  pub on :
      (src : List ℕ) (pos : ℕ) (post : List ℕ)
      → drop pos src ≡ used ++ post
      → Leaves (p (at src pos)) src pos a post

module _ {ℓ κ} {A : Type ℓ} {B : Type κ} where
  pub Consumes-bind :
      (f : A → Method B) {p : Method A} {used more : List ℕ} {a : A} {b : B}
      → Consumes p used a
      → Consumes (f a) more b
      → Consumes (p >>= f) (used ++ more) b
  Consumes-bind f {used} {more} h k = record {
    on = λ src pos post e.
        let (mid, q, e') = h.on src pos (more ++ post) (e ∙ append_assoc used more post) in
        rw q (k.on src mid post e');
  }

module _ {ℓ} {A : Type ℓ} where
  pub Consumes-pure : (a : A) → Consumes (pure a) [] a
  Consumes-pure a = record { on = λ src pos post e. (pos, refl, e) }

module _ {ℓ κ} {A : Type ℓ} {B : Type κ} where
  pub Consumes-last :
      (f : A → Method B) {p : Method A} {used : List ℕ} {a : A} {b : B}
      → Consumes p used a
      → Consumes (f a) [] b
      → Consumes (p >>= f) used b
  Consumes-last f h k = record {
    on = λ src pos post e. let (mid, q, e') = h.on src pos post e in rw q (k.on src mid post e');
  }

pub Consumes-read_byte : (b : ℕ) → Consumes read_byte (b ∷ []) b
Consumes-read_byte b = record {
  on = λ src pos post e.
      (pos + 1, read_byte-Leaves src pos b post e, (get_elem?-drop src pos b post e).1);
}

pub Consumes-read_u64 : {v : ℕ} → IsU64 v → Consumes read_u64 (uleb v) v
Consumes-read_u64 {v} h = record {
  on = λ src pos post e. read_u64-agrees src pos v post (rw e ((Reads-read_u64 {v = v} h).on post));
}

pub Consumes-read_u32 : {v : ℕ} → IsU32 v → Consumes read_u32 (uleb v) v
unfolding read_u32
Consumes-read_u32 {v} h =
    Consumes-last _ (Consumes-read_u64 {v = v} (omega (arith, h)))
      (rw (le→ltb 0xffffffff v (omega (arith, h))) (Consumes-pure v))
