-- ===== src/Wasm/Reader.antt =====
-- The byte source that internal/wasm reads a module from, with Go's (value, error) pairs as `Result`.
-- A reader is the list of bytes still to come; at its end ReadByte answers io.EOF.
pub mod Local
pub mod Total
pub mod Yields
use wasm2go.Prelude.{ℕ, zero, suc, ◌+◌, ◌^◌, ◌<◌, Bool, List, [], ◌∷◌, if◌then◌else◌}

-- What a failing read or parse step returns. `section`, `entry` and `part` are the `fmt.Errorf`
-- wrappers around an inner error: by a section id, by an index, and by a word for the place.
pub data Place : Type 0 where
  size payload header module_name import_name offset init attribute type_index : Place

pub data Error : Type 0 where
  eof unexpected_eof : Error
  leb128_overflow leb128_truncated : Error
  too_long : ℕ → Error
  bad_magic bad_version : Error
  unknown_section : ℕ → Error
  bad_tag : ℕ → ℕ → Error
  unknown_flags : ℕ → Error
  unknown_kind : ℕ → ℕ → Error
  unsupported_flag : ℕ → ℕ → Error
  unsupported_elemkind : ℕ → ℕ → Error
  unsupported_opcode : ℕ → Error
  count_mismatch : ℕ → ℕ → Error
  section : ℕ → Error → Error
  entry : ℕ → Error → Error
  part : Place → Error → Error

-- `stuck` is no Go value: a loop of the model ran out of fuel.
pub data Result {ℓ} (A : Type ℓ) : Type ℓ where
  ok : A → Result A
  err : Error → Result A
  stuck : Result A

abbrev pub bind {ℓ κ} : {A : Type ℓ} {B : Type κ} → Result A → (A → Result B) → Result B
bind (ok a) f = f a
bind (err e) f = err e
bind stuck f = stuck

-- `return fmt.Errorf("...: %w", err)`
abbrev pub wrap {ℓ} : {A : Type ℓ} → (Error → Error) → Result A → Result A
wrap w (ok a) = ok a
wrap w (err e) = err (w e)
wrap w stuck = stuck

abbrev pub Reader {ℓ} : Type ℓ → Type ℓ
Reader A = List ℕ → Result (A × List ℕ)

abbrev pub pure {ℓ} : {A : Type ℓ} → A → Reader A
pure a bs = ok (a, bs)

abbrev pub fail {ℓ} : {A : Type ℓ} → Error → Reader A
fail e bs = err e

infixl 5 ◌>>=◌ ◌>>◌
abbrev pub ◌>>=◌ {ℓ κ} : {A : Type ℓ} {B : Type κ} → Reader A → (A → Reader B) → Reader B
◌>>=◌ p f bs = bind (p bs) λ (a, rest). f a rest

abbrev pub ◌>>◌ {ℓ κ} : {A : Type ℓ} {B : Type κ} → Reader A → Reader B → Reader B
p >> q = p >>= λ _. q

abbrev pub wrapped {ℓ} : {A : Type ℓ} → (Error → Error) → Reader A → Reader A
wrapped w p bs = wrap w (p bs)

-- `if test { return error }`
abbrev pub refuse_if : Bool → Error → Reader (Unit {0})
refuse_if test e = if test then fail e else pure tt

unfoldable pub read_byte : Reader ℕ
read_byte [] = err eof
read_byte (b ∷ bs) = ok (b, bs)

-- io.ReadFull after its first byte: a short read is io.ErrUnexpectedEOF.
unfoldable pub read_more : ℕ → Reader (List ℕ)
read_more zero bs = ok ([], bs)
read_more (suc n) [] = err unexpected_eof
read_more (suc n) (b ∷ bs) = bind (read_more n bs) λ (xs, rest). ok (b ∷ xs, rest)

-- io.ReadFull into a buffer of `n` bytes: io.EOF if there is no byte at all.
unfoldable pub read_full : ℕ → Reader (List ℕ)
unfolding read_more
read_full zero bs = ok ([], bs)
read_full (suc n) [] = err eof
read_full (suc n) (b ∷ bs) = read_more (suc n) (b ∷ bs)

-- `for i := 0; i < n; i++`: one reader for each element, given the index.
module _ {ℓ} {A : Type ℓ} where
  unfoldable pub read_each : ℕ → ℕ → (ℕ → Reader A) → Reader (List A)
  read_each i zero p bs = ok ([], bs)
  read_each i (suc n) p bs =
      bind (p i bs) λ (x, rest). bind (read_each (i + 1) n p rest) λ (xs, r). ok (x ∷ xs, r)

-- The ranges of byte, uint32 and uint64.
abbrev pub IsByte : ℕ → Type 0
IsByte b = b < 256

abbrev pub IsU32 : ℕ → Type 0
IsU32 v = v < 2 ^ 32

abbrev pub IsU64 : ℕ → Type 0
IsU64 v = v < 2 ^ 64
