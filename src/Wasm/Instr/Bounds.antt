-- ===== src/Wasm/Instr/Bounds.antt =====
-- What every method of InstrReader does to the reader: it never touches the bytes, it moves only
-- forward, and it stays inside the stream, on an error too.
use wasm2go.Prelude.{
  ℕ, zero, suc, ◌+◌, ◌*◌, ◌≤◌, ◌<◌, ◌≡◌, ◌≢◌, refl, Bool, true, false, Option, none, some, List, [],
  ◌∷◌, length, get_elem?, ltb, ◌==◌, lt→ltb, bit_and, if◌then◌else◌, arith,
}
use wasm2go.Wasm.Instr.{
  InstrReader, InstrError, Outcome, done, failed, stuck, Method, pure, fail, next, ◌>>=◌, read_byte,
  read_u64_loop, read_u64, read_u32, read_sn_loop, read_sn, read_s32, read_s33, read_s64, read_f32,
  read_f64, read_mem_arg, read_u32s, read_vec_u32, sn_overflow, u64_overflow,
}
use wasm2go.Wasm.Instr.Skip.{
  skip_bytes, skip_memarg, skip_fe, skip_fe_sub, skip_fd, skip_fd_sub, skip_fc, skip_fc_sub,
  skip_plain, skip_immediates,
}

-- The reader stands in its stream.
abbrev pub InBounds : InstrReader → Type 0
InBounds r = r.pos ≤ length r.src

-- The model's loop has ended, on the same bytes, not before `r` and not after the end.
abbrev pub Advances {ℓ} : {A : Type ℓ} → InstrReader → Outcome A × InstrReader → Type ℓ
Advances r (out, r') = (out ≢ stuck) × (r'.src ≡ r.src) × (r.pos ≤ r'.pos) × InBounds r'

pub record Moves {ℓ} {A : Type ℓ} (p : Method A) : Type ℓ where
  pub on : (r : InstrReader) → InBounds r → Advances r (p r)

module _ {ℓ κ} {A : Type ℓ} {B : Type κ} where
  Advances-next :
      (r : InstrReader) (out : Outcome A × InstrReader) (f : A → Method B)
      → Advances r out
      → ((a : A) → Moves (f a))
      → Advances r (next f out)
  Advances-next r (done a, r') f (h, e, le, inside) hf =
      let (h', e', le', inside') = (hf a).on r' inside in
      (h', rw e' e, omega (arith, le, le'), inside')
  Advances-next r (failed x, r') f (h, e, le, inside) hf = ((λ q. cc), e, le, inside)
  Advances-next r (stuck, r') f (h, e, le, inside) hf = absurd (h refl)

  Moves-bind :
      {p : Method A} {f : A → Method B} → Moves p → ((a : A) → Moves (f a)) → Moves (p >>= f)
  Moves-bind {p} {f} hp hf = record { on = λ r inside. Advances-next r (p r) f (hp.on r inside) hf }

module _ {ℓ} {A : Type ℓ} where
  Moves-pure : (a : A) → Moves (pure a)
  Moves-pure a = record { on = λ r inside. ((λ q. cc), refl, omega arith, inside) }

  Moves-fail : (e : InstrError) → Moves (fail {A = A} e)
  Moves-fail e = record { on = λ r inside. ((λ q. cc), refl, omega arith, inside) }

  Moves-if : (test : Bool) {p q : Method A} → Moves p → Moves q → Moves (if test then p else q)
  Moves-if true hp hq = hp
  Moves-if false hp hq = hq

get_elem?-some-lt :
    {A : Type 0} (xs : List A) (i : ℕ) (x : A) → get_elem? xs i ≡ some x → i < length xs
get_elem?-some-lt [] i x h = cc
get_elem?-some-lt (y ∷ xs) zero x h = omega arith
get_elem?-some-lt (y ∷ xs) (suc i) x h = omega (arith, get_elem?-some-lt xs i x h)

Moves-read_byte : Moves read_byte
unfolding read_byte
Moves-read_byte = record { on = λ r inside. go r inside (get_elem? r.src r.pos) refl }
  where
    go :
        (r : InstrReader)
        → InBounds r
        → (o : Option ℕ) → get_elem? r.src r.pos ≡ o
        → Advances r (read_byte r)
    go r inside none h = rw (read_byte, h) ((λ q. cc), refl, omega arith, inside)
    go r inside (some b) h =
        rw (read_byte, h)
          ((λ q. cc), refl, omega arith, omega (arith, get_elem?-some-lt r.src r.pos b h))

Moves-read_u64_loop : (n v s : ℕ) → Moves (read_u64_loop n v s)
unfolding read_u64_loop
Moves-read_u64_loop zero v s = Moves-fail u64_overflow
Moves-read_u64_loop (suc n) v s =
    Moves-bind Moves-read_byte
      λ b. Moves-if (bit_and b 0x80 == 0) (Moves-pure _) (Moves-read_u64_loop n _ (s + 7))

-- The fuel: `n` rounds are left of eleven.
Moves-read_sn_loop :
    (bits n v s : ℕ) → bits ≤ 64 → s + 7 * suc n ≡ 77 → Moves (read_sn_loop bits (suc n) v s)
unfolding read_sn_loop
Moves-read_sn_loop bits zero v s hb hs = Moves-bind Moves-read_byte λ b.
    Moves-if (bit_and b 0x80 == 0) (Moves-pure _)
      (rw (lt→ltb (bits + 7) (s + 7) (omega arith)) (Moves-fail sn_overflow))
Moves-read_sn_loop bits (suc n) v s hb hs = Moves-bind Moves-read_byte λ b.
    Moves-if (bit_and b 0x80 == 0) (Moves-pure _) (
      Moves-if (ltb (bits + 7) (s + 7)) (Moves-fail sn_overflow)
        (Moves-read_sn_loop bits n _ (s + 7) hb (omega arith)))

Moves-read_sn : (bits : ℕ) → bits ≤ 64 → Moves (read_sn bits)
unfolding read_sn
Moves-read_sn bits h = Moves-read_sn_loop bits 10 0 0 h refl

ruleset rules = (Moves-bind, Moves-pure, Moves-fail, Moves-if, Moves-read_byte, Moves-read_u64_loop)

Moves-read_u64 : Moves read_u64
unfolding read_u64
Moves-read_u64 = search (rules) depth 8

Moves-read_u32 : Moves read_u32
unfolding read_u32
Moves-read_u32 = search (rules, Moves-read_u64) depth 8

Moves-read_s32 : Moves read_s32
unfolding read_s32
Moves-read_s32 = search (rules, Moves-read_sn 32 (omega arith)) depth 8

Moves-read_s33 : Moves read_s33
unfolding read_s33
Moves-read_s33 = Moves-read_sn 33 (omega arith)

Moves-read_s64 : Moves read_s64
unfolding read_s64
Moves-read_s64 = Moves-read_sn 64 (omega arith)

Moves-read_f32 : Moves read_f32
unfolding read_f32
Moves-read_f32 = record { on = λ r inside. ground arith }

Moves-read_f64 : Moves read_f64
unfolding read_f64
Moves-read_f64 = record { on = λ r inside. ground arith }

pub Moves-read_mem_arg : Moves read_mem_arg
unfolding read_mem_arg
Moves-read_mem_arg = search (rules, Moves-read_u32, Moves-read_u64) depth 8

Moves-read_u32s : (n : ℕ) → Moves (read_u32s n)
unfolding read_u32s
Moves-read_u32s zero = Moves-pure []
Moves-read_u32s (suc n) =
    Moves-bind Moves-read_u32 λ v. Moves-bind (Moves-read_u32s n) λ vs. Moves-pure (v ∷ vs)

Moves-read_vec_u32 : Moves read_vec_u32
unfolding read_vec_u32
Moves-read_vec_u32 = search (rules, Moves-read_u32, Moves-read_u32s) depth 8

Moves-skip_bytes : (n : ℕ) → Moves (skip_bytes n)
unfolding skip_bytes
Moves-skip_bytes zero = Moves-pure tt
Moves-skip_bytes (suc n) = Moves-bind Moves-read_byte λ b. Moves-skip_bytes n

ruleset readers = (
  rules, Moves-read_u64, Moves-read_u32, Moves-read_s32, Moves-read_s33, Moves-read_s64,
  Moves-read_f32, Moves-read_f64, Moves-read_vec_u32, Moves-skip_bytes,
)

Moves-skip_memarg : Moves skip_memarg
unfolding skip_memarg
Moves-skip_memarg = search (readers) depth 8

Moves-skip_fe : Moves skip_fe
unfolding skip_fe skip_fe_sub
Moves-skip_fe = search (readers, Moves-skip_memarg) depth 20

Moves-skip_fd : Moves skip_fd
unfolding skip_fd skip_fd_sub
Moves-skip_fd = search (readers, Moves-skip_memarg) depth 20

Moves-skip_fc : Moves skip_fc
unfolding skip_fc skip_fc_sub
Moves-skip_fc = search (readers) depth 30

Moves-skip_plain : (op : ℕ) → Moves (skip_plain op)
unfolding skip_plain
Moves-skip_plain op = search (readers, Moves-skip_memarg) depth 40

Moves-skip_immediates : (op : ℕ) → Moves (skip_immediates op)
unfolding skip_immediates
Moves-skip_immediates op =
    search (rules, Moves-skip_fe, Moves-skip_fd, Moves-skip_fc, Moves-skip_plain) depth 12

-- On any opcode and any bytes, SkipImmediates started inside the stream ends, with a result or an
-- error, and leaves the stream's bytes as they were, the position no smaller than before and at
-- most the length of the stream.
pub skip_immediates-Advances :
    (op : ℕ) (r : InstrReader) → InBounds r → Advances r (skip_immediates op r)
skip_immediates-Advances op r h = (Moves-skip_immediates op).on r h
