-- ===== src/Wasm/Instr/Immediates/Shapes.antt =====
-- The immediate operands of the instructions, as the WebAssembly binary format gives them, and
-- SkipImmediates on them.
use wasm2go.Prelude.{
  ℕ, zero, suc, ◌+◌, ◌≤◌, ◌<◌, ◌≡◌, refl, List, [], ◌∷◌, ◌++◌, length, length-append, drop, All,
  arith, le→ltb,
}
use wasm2go.Wasm.Reader.{IsU32, IsU64}
use wasm2go.Wasm.Leb128.Encoding.{uleb}
use wasm2go.Wasm.Format.Vectors.{flat}
use wasm2go.Wasm.Instr.{Method, ◌>>◌, read_f32, read_f64, read_u32s, read_vec_u32, little_endian}
use wasm2go.Wasm.Instr.Skip.{skip, skip_bytes, skip_memarg}
use wasm2go.Wasm.Instr.Consumes.{
  get_elem?-drop, Consumes, Consumes-bind, Consumes-last, Consumes-pure, Consumes-read_byte,
  Consumes-read_u64, Consumes-read_u32,
}

pub skip-one {ℓ} :
    {A : Type ℓ} {p : Method A} {bs : List ℕ} {a : A} → Consumes p bs a → Consumes (skip p) bs tt
skip-one h = Consumes-last _ h (Consumes-pure tt)

pub skip-two {ℓ κ} :
    {A : Type ℓ} {B : Type κ} {p : Method A} {q : Method B} {xs ys : List ℕ} {a : A} {b : B}
    → Consumes p xs a
    → Consumes q ys b
    → Consumes (p >> skip q) (xs ++ ys) tt
skip-two h k = Consumes-bind _ h (skip-one k)

pub Consumes-read_u32s :
    (vs : List ℕ) → All IsU32 vs → Consumes (read_u32s (length vs)) (flat uleb vs) vs
unfolding read_u32s
Consumes-read_u32s [] h = Consumes-pure []
Consumes-read_u32s (v ∷ vs) h =
    Consumes-bind _ (Consumes-read_u32 {v = v} h.0)
      (Consumes-last _ (Consumes-read_u32s vs h.1) (Consumes-pure (v ∷ vs)))

pub Consumes-read_vec_u32 :
    (vs : List ℕ)
    → IsU32 (length vs)
    → All IsU32 vs
    → Consumes read_vec_u32 (uleb (length vs) ++ flat uleb vs) vs
unfolding read_vec_u32
Consumes-read_vec_u32 vs h k =
    Consumes-bind _ (Consumes-read_u32 {v = length vs} h) (Consumes-read_u32s vs k)

pub Consumes-skip_bytes : (bs : List ℕ) → Consumes (skip_bytes (length bs)) bs tt
unfolding skip_bytes
Consumes-skip_bytes [] = Consumes-pure tt
Consumes-skip_bytes (b ∷ bs) = Consumes-bind _ (Consumes-read_byte b) (Consumes-skip_bytes bs)

-- A run of bytes in the stream ends inside it.
length-drop :
    (src : List ℕ) (pos : ℕ) → 0 < length (drop pos src) → pos + length (drop pos src) ≡ length src
length-drop src zero h = omega arith
length-drop [] (suc pos) h = absurd (omega arith)
length-drop (x ∷ src) (suc pos) h = omega (arith, length-drop src pos h)

drop-run :
    (used src : List ℕ) (pos : ℕ) (post : List ℕ)
    → drop pos src ≡ used ++ post
    → drop (pos + length used) src ≡ post
drop-run [] src pos post e = let q : pos + 0 ≡ pos = omega arith in rw q e
drop-run (b ∷ used) src pos post e =
    let q : pos + suc (length used) ≡ pos + 1 + length used = omega arith in
    rw q (drop-run used src (pos + 1) post ((get_elem?-drop src pos b (used ++ post) e).1))

room :
    (used src : List ℕ) (pos : ℕ) (post : List ℕ)
    → 0 < length used
    → drop pos src ≡ used ++ post
    → pos + length used ≤ length src
room used src pos post h e =
    let q : length (drop pos src) ≡ length used + length post = rw e (length-append used post) in
    omega (arith, q, length-drop src pos (omega (arith, q)))

-- A float is any four or eight bytes.
pub Consumes-read_f32 :
    (a b c d : ℕ) → Consumes read_f32 (a ∷ b ∷ c ∷ d ∷ []) (little_endian 4 (a ∷ b ∷ c ∷ d ∷ []))
unfolding read_f32
Consumes-read_f32 a b c d = record {
  on = λ src pos post e.
      let used = a ∷ b ∷ c ∷ d ∷ [] in
      rw (le→ltb (length src) (pos + 4) (room used src pos post (omega arith) e), e)
        (pos + 4, refl, drop-run used src pos post e);
}

pub Consumes-read_f64 :
    (a b c d e f g h : ℕ)
    → let bs = a ∷ b ∷ c ∷ d ∷ e ∷ f ∷ g ∷ h ∷ [] in Consumes read_f64 bs (little_endian 8 bs)
unfolding read_f64
Consumes-read_f64 a b c d e f g h = record {
  on = λ src pos post q.
      let used = a ∷ b ∷ c ∷ d ∷ e ∷ f ∷ g ∷ h ∷ [] in
      rw (le→ltb (length src) (pos + 8) (room used src pos post (omega arith) q), q)
        (pos + 8, refl, drop-run used src pos post q);
}

pub Consumes-skip_memarg :
    (a o : ℕ) → IsU32 a → IsU64 o → Consumes skip_memarg (uleb a ++ uleb o) tt
unfolding skip_memarg
Consumes-skip_memarg a o h k = skip-two (Consumes-read_u32 {v = a} h) (Consumes-read_u64 {v = o} k)
