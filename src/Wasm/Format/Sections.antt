-- ===== src/Wasm/Format/Sections.antt =====
-- Whole sections: their payloads, and the section parsers of internal/wasm/parser.go on them.
use wasm2go.Prelude.{
  ℕ, ◌+◌, ◌^◌, ◌≤◌, ◌<◌, ◌≡◌, refl, List, [], ◌∷◌, append_assoc, length, All, arith, le→ltb, ==_iff,
}
use wasm2go.Wasm.Reader.{entry, part, attribute, type_index, IsU32, Reader, pure, ◌>>=◌, read_each}
use wasm2go.Wasm.Reader.Local.{Reads, Reads-bind, Reads-pure, Reads-read_full}
use wasm2go.Wasm.Leb128.Encoding.{uleb, Reads-read_u32}
use wasm2go.Wasm.Leb128.Local.{vec_bytes}
use wasm2go.Wasm.Module.{Module, FuncType, Limits, TableType, Tag, Export, Function}
use wasm2go.Wasm.Parser.Sections.{
  read_memory_type, read_function, read_count, parse_type_section, parse_function_section,
  parse_table_section, parse_memory_section, parse_export_section, parse_tag_section,
}
use wasm2go.Wasm.Parser.Segments.{read_body, read_bodies, parse_code_section, max_function_body}
use wasm2go.Wasm.Format.Items.{
  func_type_bytes, FitsFuncType, Reads-read_type, table_bytes, Reads-read_table_type, FitsLimits,
  limits_bytes, memory_of, Reads-read_memory_type, tag_bytes, Reads-read_tag, Reads-read_function,
  export_bytes, FitsExport, Reads-read_export,
}
use wasm2go.Wasm.Format.Vectors.{flat, vec, Reads-read_count, Reads-read_each}
use mathlib.Core.List.{map, map-id}

-- A vector, read by a loop, and what is made of it.
module _ {ℓ κ μ ν} {S : Type ℓ} {A : Type κ} {B : Type ν} (p : ℕ → Reader A) (enc : S → List ℕ)
    (val : S → A) (Fits : S → Type μ)
    (each : (i : ℕ) (x : S) → Fits x → Reads (p i) (enc x) (val x)) where
  pub Reads-vec :
      (f : List A → B) (xs : List S)
      → length xs ≤ 2 ^ 28
      → All Fits xs
      → Reads
          (read_count >>= λ n. read_each 0 n p >>= λ ys. pure (f ys))
          (vec enc xs)
          (f (map val xs))
  Reads-vec f xs few h =
      Reads-bind _ (Reads-read_count (length xs) few)
        (record { on = λ rest. rw ((Reads-read_each p enc val Fits each 0 xs h).on rest) refl })

-- The same where the loop gives back what was encoded.
module _ {ℓ μ ν} {A : Type ℓ} {B : Type ν} {p : ℕ → Reader A} {enc : A → List ℕ} {Fits : A → Type μ}
    (each : (i : ℕ) (x : A) → Fits x → Reads (p i) (enc x) x) where
  Reads-list :
      (f : List A → B) (xs : List A)
      → length xs ≤ 2 ^ 28
      → All Fits xs
      → Reads (read_count >>= λ n. read_each 0 n p >>= λ ys. pure (f ys)) (vec enc xs) (f xs)
  Reads-list f xs few h =
      let r = Reads-vec p enc (λ t. t) Fits each f xs few h in rw (map-id xs) at r

pub Reads-type_section :
    (m : Module) (ts : List FuncType)
    → length ts ≤ 2 ^ 28
    → All FitsFuncType ts
    → Reads (parse_type_section m) (vec func_type_bytes ts) (record m { types = ts })
unfolding parse_type_section
Reads-type_section m ts few h = Reads-list Reads-read_type (λ ys. record m { types = ys }) ts few h

abbrev pub declared : ℕ → Function
declared ti = record { type_idx = ti; body = [] }

pub Reads-function_section :
    (m : Module) (tis : List ℕ)
    → length tis ≤ 2 ^ 28
    → All IsU32 tis
    → Reads (parse_function_section m) (vec uleb tis) (record m { functions = map declared tis })
unfolding parse_function_section
Reads-function_section m tis few h =
    Reads-vec read_function uleb declared IsU32 Reads-read_function
      (λ ys. record m { functions = ys }) tis few h

abbrev pub FitsTable : TableType → Type 0
FitsTable t = FitsLimits t.limits

pub Reads-table_section :
    (m : Module) (ts : List TableType)
    → length ts ≤ 2 ^ 28
    → All FitsTable ts
    → Reads (parse_table_section m) (vec table_bytes ts) (record m { tables = ts })
unfolding parse_table_section
Reads-table_section m ts few h =
    Reads-list (λ i. Reads-read_table_type) (λ ys. record m { tables = ys }) ts few h

pub Reads-memory_section :
    (m : Module) (ls : List Limits)
    → length ls ≤ 2 ^ 28
    → All FitsLimits ls
    → Reads
        (parse_memory_section m)
        (vec limits_bytes ls)
        (record m { memories = map memory_of ls })
unfolding parse_memory_section
Reads-memory_section m ls few h =
    Reads-vec (λ i. read_memory_type) limits_bytes memory_of FitsLimits
      (λ i. Reads-read_memory_type) (λ ys. record m { memories = ys }) ls few h

pub Reads-export_section :
    (m : Module) (es : List Export)
    → length es ≤ 2 ^ 28
    → All FitsExport es
    → Reads (parse_export_section m) (vec export_bytes es) (record m { exports = es })
unfolding parse_export_section
Reads-export_section m es few h =
    Reads-list Reads-read_export (λ ys. record m { exports = ys }) es few h

abbrev pub FitsTag : Tag → Type 0
FitsTag t = IsU32 t.type_idx

pub Reads-tag_section :
    (m : Module) (ts : List Tag)
    → length ts ≤ 2 ^ 28
    → All FitsTag ts
    → Reads (parse_tag_section m) (vec tag_bytes ts) (record m { tags = ts })
unfolding parse_tag_section
Reads-tag_section m ts few h =
    Reads-list
      (λ i. Reads-read_tag (λ e. entry i (part attribute e)) (λ e. entry i (part type_index e)))
      (λ ys. record m { tags = ys }) ts few h

-- Code: one body for each declared function.
abbrev pub with_bodies : List Function → List (List ℕ) → List Function
with_bodies [] bodies = []
with_bodies (f ∷ fs) [] = f ∷ fs
with_bodies (f ∷ fs) (b ∷ bodies) = record f { body = b } ∷ with_bodies fs bodies

abbrev pub FitsBody : List ℕ → Type 0
FitsBody b = length b ≤ 2 ^ 25

read_bodies-Reads :
    (i : ℕ) (fs : List Function) (bodies : List (List ℕ))
    → length bodies ≡ length fs
    → All FitsBody bodies
    → Reads (read_bodies i fs) (flat vec_bytes bodies) (with_bodies fs bodies)
unfolding read_bodies read_body vec_bytes
read_bodies-Reads i [] [] n h = Reads-pure []
read_bodies-Reads i [] (b ∷ bodies) n h = absurd (omega arith)
read_bodies-Reads i (f ∷ fs) [] n h = absurd (omega arith)
read_bodies-Reads i (f ∷ fs) (b ∷ bodies) n h = record {
  on = λ rest. simp (
    append_assoc,
    (Reads-read_u32 {v = length b} (omega (arith, h.0))).on,
    le→ltb max_function_body (length b) h.0,
    (Reads-read_full b).on,
    (read_bodies-Reads (i + 1) fs bodies (omega arith) h.1).on,
  );
}

pub Reads-code_section :
    (m : Module) (bodies : List (List ℕ))
    → length bodies ≡ length m.functions
    → length bodies < 2 ^ 32
    → All FitsBody bodies
    → Reads
        (parse_code_section m)
        (vec vec_bytes bodies)
        (record m { functions = with_bodies m.functions bodies })
unfolding parse_code_section
Reads-code_section m bodies n few h = record {
  on = λ rest. simp (
    append_assoc,
    (Reads-read_u32 {v = length bodies} few).on,
    (==_iff (length bodies) (length m.functions)).1 n,
    (read_bodies-Reads 0 m.functions bodies n h).on,
  );
}
