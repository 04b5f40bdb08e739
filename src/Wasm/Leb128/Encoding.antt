-- ===== src/Wasm/Leb128/Encoding.antt =====
-- The unsigned encodings that writeULEB produces, and how the readers take them back.
use wasm2go.Prelude.{
  ℕ, zero, suc, ◌+◌, ◌*◌, ◌/◌, ◌%◌, ◌^◌, ◌≤◌, ◌<◌, ◌≡◌, refl, ap, ◌∙◌, List, [], ◌∷◌, ◌++◌,
  append_assoc, ltb, if◌then◌else◌, length, All, arith, Bool-cases, inl, inr,
}
use wasm2go.Wasm.Reader.{ok, IsByte, IsU32, IsU64}
use wasm2go.Wasm.Reader.Local.{Reads}
use wasm2go.Wasm.Leb128.{read_u64, read_u32, write_uleb_loop, write_uleb}
use wasm2go.Wasm.Leb128.Bytes.{low_seven, set_top_bit}
use native.Mathlib.Nat.{pow-suc}
use wasm2go.Wasm.Leb128.Unsigned.{Uleb, last, more, read_u64_loop-Uleb}

-- The shortest encoding, for a value below 128 ^ (k + 1).
unfoldable pub groups : ℕ → ℕ → List ℕ
groups zero v = v ∷ []
groups (suc k) v = if ltb v 128 then v ∷ [] else ((v % 128 + 128) ∷ groups k (v / 128))

unfoldable pub uleb : ℕ → List ℕ
uleb v = groups 9 v

groups-Uleb : (k v : ℕ) → v < 128 ^ suc k → Uleb (groups k v) v
unfolding groups
groups-Uleb zero v h = last (omega arith)
groups-Uleb (suc k) v h = elim (Bool-cases (ltb v 128)) [
  | inl t ↦ rw t (last (ground arith))
  | inr t ↦
      let e : v ≡ v % 128 + 128 * (v / 128) = omega arith in
      rw t (
        rw (← e) at (
          more {b = v % 128} (omega arith)
            (groups-Uleb k (v / 128) (omega (arith, pow-suc 128 (suc k))))))
]

length-groups : (k v : ℕ) → length (groups k v) ≤ k + 1
unfolding groups
length-groups zero v = omega arith
length-groups (suc k) v = ground (arith, length-groups k (v / 128))

groups-IsByte : (k v : ℕ) → v < 128 ^ suc k → All IsByte (groups k v)
unfolding groups
groups-IsByte zero v h = omega arith
groups-IsByte (suc k) v h =
    ground (arith, groups-IsByte k (v / 128) (omega (arith, pow-suc 128 (suc k))))

pub uleb-Uleb : (v : ℕ) → IsU64 v → Uleb (uleb v) v
unfolding uleb
uleb-Uleb v h = groups-Uleb 9 v (omega arith)

pub uleb-IsByte : (v : ℕ) → IsU64 v → All IsByte (uleb v)
unfolding uleb
uleb-IsByte v h = groups-IsByte 9 v (omega arith)

write_uleb_loop-groups :
    (k : ℕ) (buf : List ℕ) (v : ℕ)
    → v < 128 ^ suc k
    → write_uleb_loop (suc k) buf v ≡ ok (buf ++ groups k v)
unfolding write_uleb_loop groups
write_uleb_loop-groups zero buf v h = ground (arith, low_seven v)
write_uleb_loop-groups (suc k) buf v h =
    let head : List ℕ = (v % 128 + 128) ∷ [] in
    ground (
      arith,
      low_seven v,
      set_top_bit (v % 128),
      write_uleb_loop-groups k (buf ++ head) (v / 128) (omega (arith, pow-suc 128 (suc k))),
      append_assoc buf head (groups k (v / 128)),
    )

-- writeULEB terminates within its ten rounds on every uint64: it appends the shortest encoding.
pub write_uleb-uleb : (buf : List ℕ) (v : ℕ) → IsU64 v → write_uleb buf v ≡ ok (buf ++ uleb v)
unfolding write_uleb uleb
write_uleb-uleb buf v h = write_uleb_loop-groups 9 buf v (omega arith)

pub Reads-read_u64 : {v : ℕ} → IsU64 v → Reads read_u64 (uleb v) v
unfolding read_u64 uleb
Reads-read_u64 {v} h = record {
  on = λ rest.
      read_u64_loop-Uleb 10 0 0 0 rest (uleb-Uleb v h) (length-groups 9 v) refl refl (omega arith)
        (omega arith)
      ∙ ap (λ (t : ℕ). ok (t, rest)) (omega arith);
}

pub Reads-read_u32 : {v : ℕ} → IsU32 v → Reads read_u32 (uleb v) v
unfolding read_u32
Reads-read_u32 {v} h = record {
  on = λ rest. rw ((Reads-read_u64 {v = v} (omega arith)).on rest) (ground arith);
}
