-- ===== src/Wasm/Leb128/Local.antt =====
-- The LEB128 readers rest on the bytes that they take and on no others.
use wasm2go.Prelude.{
  ◌+◌, ◌^◌, ◌%◌, ◌&&◌, ℕ, zero, suc, ltb, leb, ◌==◌, bit_and, List, [], ◌∷◌, ◌++◌, ◌≡◌, refl,
  length, arith, ◌≤◌, le→ltb, append_assoc,
}
use wasm2go.Wasm.Reader.{ok, leb128_overflow, too_long}
use wasm2go.Wasm.Reader.Local.{
  Reads, IsLocal, IsLocal-bind, IsLocal-pure, IsLocal-fail, IsLocal-if, IsLocal-refuse_if,
  IsLocal-read_full, Reads-read_full,
}
use wasm2go.Wasm.Leb128.{
  read_u64_loop, read_u64, read_u32, read_s64_bits_loop, read_s64, read_s32, read_byte_vec,
  read_byte_vec_cap, read_name, leb128_byte, bad_sign_bits,
}
use wasm2go.Wasm.Leb128.Encoding.{uleb, Reads-read_u32}

IsLocal-leb128_byte : IsLocal leb128_byte
unfolding leb128_byte
IsLocal-leb128_byte = record { split = go }
  where
    go :
        (bs : List ℕ) (a : ℕ) (rest : List ℕ)
        → leb128_byte bs ≡ ok (a, rest)
        → (used : List ℕ) × (bs ≡ used ++ rest) × Reads leb128_byte used a
    go [] a rest h = cc
    go (b ∷ bs) a rest h = (a ∷ [], cc, record { on = λ more. refl })

IsLocal-read_u64_loop : (n i s result : ℕ) → IsLocal (read_u64_loop n i s result)
unfolding read_u64_loop
IsLocal-read_u64_loop zero i s result = IsLocal-fail leb128_overflow
IsLocal-read_u64_loop (suc n) i s result = IsLocal-bind IsLocal-leb128_byte λ b.
    IsLocal-bind (IsLocal-refuse_if (leb 64 s) leb128_overflow) λ _.
      IsLocal-if (bit_and b 0x80 == 0)
        (IsLocal-if ((i == 9) && ltb 1 b) (IsLocal-fail leb128_overflow) (IsLocal-pure _))
        (IsLocal-read_u64_loop n (i + 1) (s + 7) _)

pub IsLocal-read_u64 : IsLocal read_u64
unfolding read_u64
IsLocal-read_u64 = IsLocal-read_u64_loop 10 0 0 0

pub IsLocal-read_u32 : IsLocal read_u32
unfolding read_u32
IsLocal-read_u32 =
    IsLocal-bind IsLocal-read_u64
      λ v. IsLocal-bind (IsLocal-refuse_if (ltb 0xffffffff v) leb128_overflow) λ _. IsLocal-pure v

IsLocal-read_s64_bits_loop : (bits n s result : ℕ) → IsLocal (read_s64_bits_loop bits n s result)
unfolding read_s64_bits_loop
IsLocal-read_s64_bits_loop bits zero s result = IsLocal-fail leb128_overflow
IsLocal-read_s64_bits_loop bits (suc n) s result = IsLocal-bind IsLocal-leb128_byte λ b.
    IsLocal-bind (IsLocal-refuse_if (ltb bits (s + 7) && bad_sign_bits bits s _ b) leb128_overflow)
      λ _.
        IsLocal-if (bit_and b 0x80 == 0) (IsLocal-pure _)
          (IsLocal-read_s64_bits_loop bits n (s + 7) _)

pub IsLocal-read_s64 : IsLocal read_s64
unfolding read_s64
IsLocal-read_s64 = IsLocal-read_s64_bits_loop 64 10 0 0

pub IsLocal-read_s32 : IsLocal read_s32
unfolding read_s32
IsLocal-read_s32 =
    IsLocal-bind (IsLocal-read_s64_bits_loop 32 10 0 0) λ v. IsLocal-pure (v % 2 ^ 32)

pub IsLocal-read_byte_vec : IsLocal read_byte_vec
unfolding read_byte_vec
IsLocal-read_byte_vec = IsLocal-bind IsLocal-read_u32 λ n.
    IsLocal-bind (IsLocal-refuse_if (ltb read_byte_vec_cap n) (too_long n)) λ _. IsLocal-read_full n

pub IsLocal-read_name : IsLocal read_name
unfolding read_name
IsLocal-read_name = IsLocal-bind IsLocal-read_byte_vec λ b. IsLocal-pure b

-- A byte vector is its length and its bytes.
unfoldable pub vec_bytes : List ℕ → List ℕ
vec_bytes xs = uleb (length xs) ++ xs

pub Reads-read_byte_vec :
    (xs : List ℕ) → length xs ≤ read_byte_vec_cap → Reads read_byte_vec (vec_bytes xs) xs
unfolding read_byte_vec vec_bytes
Reads-read_byte_vec xs h = record {
  on = λ rest. simp (
    append_assoc,
    (Reads-read_u32 {v = length xs} (omega arith)).on,
    le→ltb read_byte_vec_cap (length xs) h,
    (Reads-read_full xs).on,
  );
}

pub Reads-read_name :
    (xs : List ℕ) → length xs ≤ read_byte_vec_cap → Reads read_name (vec_bytes xs) xs
unfolding read_name
Reads-read_name xs h = record { on = λ rest. rw ((Reads-read_byte_vec xs h).on rest) refl }
