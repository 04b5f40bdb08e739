-- ===== src/Wasm/Format/Vectors.antt =====
-- vec(x): a count and that many items; and the loops of the parser that read one.
use wasm2go.Prelude.{
  ℕ, ◌+◌, ◌^◌, ◌≤◌, refl, List, [], ◌∷◌, ◌++◌, append_assoc, length, All, arith, le→ltb,
}
use mathlib.Core.List.{map}
use wasm2go.Wasm.Reader.{Reader, read_byte, read_each}
use wasm2go.Wasm.Reader.Local.{Reads}
use wasm2go.Wasm.Leb128.Encoding.{uleb, Reads-read_u32}
use wasm2go.Wasm.Parser.Sections.{read_count, max_vector_len}

module _ {ℓ} {S : Type ℓ} where
  abbrev pub flat : (S → List ℕ) → List S → List ℕ
  flat enc [] = []
  flat enc (x ∷ xs) = enc x ++ flat enc xs

module _ {ℓ} {S : Type ℓ} where
  abbrev pub vec : (S → List ℕ) → List S → List ℕ
  vec enc xs = uleb (length xs) ++ flat enc xs

pub Reads-read_count : (n : ℕ) → n ≤ 2 ^ 28 → Reads read_count (uleb n) n
unfolding read_count
Reads-read_count n h = record {
  on = λ rest. simp ((Reads-read_u32 {v = n} (omega arith)).on, le→ltb max_vector_len n h);
}

-- A loop that reads what was encoded item by item.
module _ {ℓ κ μ} {S : Type ℓ} {A : Type κ} (p : ℕ → Reader A) (enc : S → List ℕ) (val : S → A)
    (Fits : S → Type μ) (each : (i : ℕ) (x : S) → Fits x → Reads (p i) (enc x) (val x)) where
  pub Reads-read_each :
      (i : ℕ) (xs : List S)
      → All Fits xs
      → Reads (read_each i (length xs) p) (flat enc xs) (map val xs)
  unfolding read_each
  Reads-read_each i [] h = record { on = λ rest. refl }
  Reads-read_each i (x ∷ xs) h = record {
    on = λ rest. simp (append_assoc, (each i x h.0).on, (Reads-read_each (i + 1) xs h.1).on);
  }

pub Reads-read_bytes :
    (i : ℕ) (xs : List ℕ) → Reads (read_each i (length xs) (λ j. read_byte)) xs xs
unfolding read_each read_byte
Reads-read_bytes i [] = record { on = λ rest. refl }
Reads-read_bytes i (x ∷ xs) = record {
  on = λ rest. rw ((Reads-read_bytes (i + 1) xs).on rest) refl;
}
