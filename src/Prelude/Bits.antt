-- ===== src/Prelude/Bits.antt =====
-- `|` and `&` as arithmetic: one digit, a field below a shifted word, and a low mask.
use Prim.Native.Nat.{
  ℕ, zero, suc, ◌+◌, ◌*◌, ◌/◌, ◌%◌, ◌^◌, ◌≤◌, ◌<◌, ◌-◌, min, max, digits, bitwise, bit_and, bit_or,
  bit_xor, bit_and-bitwise, bit_or-bitwise, bit_xor-bitwise, differ,
}
use mathlib.Core.Path.{◌≡◌, refl, ap, ◌∙◌}
use native.Mathlib.Nat.{pow-suc, one-le-pow}
use native.Mathlib.Omega.{arith}

-- `digits` with more fuel than its first number is worth answers as with just that much.
module _ (rest : ℕ → ℕ) (digit : ℕ → ℕ → ℕ) where
  fuel_settles :
      (bound fuel x y : ℕ)
      → fuel ≤ bound
      → x ≤ fuel
      → digits rest digit fuel x y ≡ digits rest digit x x y
  fuel_settles bound zero zero y hb hx = refl
  fuel_settles bound (suc fuel) zero y hb hx = refl
  fuel_settles zero (suc fuel) (suc x) y hb hx = absurd (omega arith)
  fuel_settles bound zero (suc x) y hb hx = absurd (omega arith)
  fuel_settles (suc bound) (suc fuel) (suc x) y hb hx =
      let half = fuel_settles bound fuel (suc x / 2) (y / 2) (omega arith) (omega arith) in
      let same = fuel_settles bound x (suc x / 2) (y / 2) (omega arith) (omega arith) in
      omega (arith, half, same)

  lowest_digit :
      (x y : ℕ)
      → bitwise rest digit (suc x) y
        ≡ 2 * bitwise rest digit (suc x / 2) (y / 2) + digit (suc x % 2) (y % 2)
  lowest_digit x y = omega (arith, fuel_settles x x (suc x / 2) (y / 2) (omega arith) (omega arith))

or_digit : (x y : ℕ) → bit_or x y ≡ 2 * bit_or (x / 2) (y / 2) + max (x % 2) (y % 2)
or_digit zero y = simp bit_or-bitwise (omega arith)
or_digit (suc x) y = simp bit_or-bitwise (lowest_digit _ max x y)

and_digit : (x y : ℕ) → bit_and x y ≡ 2 * bit_and (x / 2) (y / 2) + min (x % 2) (y % 2)
and_digit zero y = simp bit_and-bitwise (omega arith)
and_digit (suc x) y = simp bit_and-bitwise (lowest_digit _ min x y)

-- Zero on the right: nothing is added, and nothing is kept.
or_nothing : (bound x : ℕ) → x ≤ bound → bit_or x 0 ≡ x
or_nothing bound zero h = refl
or_nothing zero (suc x) h = absurd (omega arith)
or_nothing (suc bound) (suc x) h =
    omega (arith, or_digit (suc x) 0, or_nothing bound (suc x / 2) (omega arith))

pub bit_or-zero : (x : ℕ) → bit_or x 0 ≡ x
bit_or-zero x = or_nothing x x (omega arith)

pub zero-bit_or : (y : ℕ) → bit_or 0 y ≡ y
zero-bit_or y = simp bit_or-bitwise refl

and_nothing : (bound x : ℕ) → x ≤ bound → bit_and x 0 ≡ 0
and_nothing bound zero h = refl
and_nothing zero (suc x) h = absurd (omega arith)
and_nothing (suc bound) (suc x) h =
    omega (arith, and_digit (suc x) 0, and_nothing bound (suc x / 2) (omega arith))

double_shift : (k q : ℕ) → 2 * (q * 2 ^ k) ≡ q * 2 ^ suc k
double_shift k q = omega (arith, ap (λ (t : ℕ). q * t) (pow-suc 2 k))

-- A word below `2 ^ k` and a word shifted up by `k` share no bit: `|` is the sum.
pub bit_or_fields : (k r q : ℕ) → r < 2 ^ k → bit_or r (q * 2 ^ k) ≡ r + q * 2 ^ k
bit_or_fields zero r q fits =
    let e : r ≡ 0 = omega arith in rw e (zero-bit_or (q * 1) ∙ omega arith)
bit_or_fields (suc k) r q fits = ground (
  arith,
  or_digit r (q * 2 ^ suc k),
  double_shift k q,
  bit_or_fields k (r / 2) q (omega (arith, pow-suc 2 k)),
)

bit_and_fields : (k q r : ℕ) → r < 2 ^ k → bit_and (q * 2 ^ k + r) (2 ^ k - 1) ≡ r
bit_and_fields zero q r fits = ground (arith, and_nothing (q + r) (q + r) (omega arith))
bit_and_fields (suc k) q r fits = ground (
  arith,
  and_digit (q * 2 ^ suc k + r) (2 ^ suc k - 1),
  double_shift k q,
  pow-suc 2 k,
  bit_and_fields k q (r / 2) (omega (arith, pow-suc 2 k)),
)

-- A mask of `k` low bits is the remainder by `2 ^ k`.
pub bit_and_mask : (k a : ℕ) → bit_and a (2 ^ k - 1) ≡ a % 2 ^ k
bit_and_mask k a = ground (arith, one-le-pow k 2, bit_and_fields k (a / 2 ^ k) (a % 2 ^ k))

-- `|` does not leave the width of its operands.
pub bit_or-lt : (k a b : ℕ) → a < 2 ^ k → b < 2 ^ k → bit_or a b < 2 ^ k
bit_or-lt zero a b ha hb =
    let ea : a ≡ 0 = omega arith in let eb : b ≡ 0 = omega arith in rw (ea, eb) (omega arith)
bit_or-lt (suc k) a b ha hb = omega (
  arith,
  or_digit a b,
  pow-suc 2 k,
  bit_or-lt k (a / 2) (b / 2) (omega (arith, pow-suc 2 k)) (omega (arith, pow-suc 2 k)),
)

-- An operation on words that works digit by digit splits at every field boundary, and stays in width.
module _ (op digit : ℕ → ℕ → ℕ)
    (lowest : (x y : ℕ) → op x y ≡ 2 * op (x / 2) (y / 2) + digit (x % 2) (y % 2))
    (nothing : op 0 0 ≡ 0) (bit : (x y : ℕ) → x < 2 → y < 2 → digit x y < 2) where
  op_fields :
      (k p q r s : ℕ)
      → r < 2 ^ k
      → s < 2 ^ k
      → op (p * 2 ^ k + r) (q * 2 ^ k + s) ≡ op p q * 2 ^ k + op r s
  op_fields zero p q r s hr hs =
      let er : r ≡ 0 = omega arith in
      let es : s ≡ 0 = omega arith in
      let ep : p * 1 + 0 ≡ p = omega arith in
      let eq : q * 1 + 0 ≡ q = omega arith in rw (er, es, nothing, ep, eq) (omega arith)
  op_fields (suc k) p q r s hr hs =
      let x = p * 2 ^ suc k + r in
      let y = q * 2 ^ suc k + s in
      let half_x : x / 2 ≡ p * 2 ^ k + r / 2 = omega (arith, double_shift k p) in
      let half_y : y / 2 ≡ q * 2 ^ k + s / 2 = omega (arith, double_shift k q) in
      let bit_x : x % 2 ≡ r % 2 = omega (arith, double_shift k p) in
      let bit_y : y % 2 ≡ s % 2 = omega (arith, double_shift k q) in
      let step = rw (half_x, half_y, bit_x, bit_y) at (lowest x y) in
      let fits = pow-suc 2 k in
      omega (
        arith,
        step,
        lowest r s,
        double_shift k (op p q),
        op_fields k p q (r / 2) (s / 2) (omega (arith, fits)) (omega (arith, fits)),
      )

  op-lt : (k r s : ℕ) → r < 2 ^ k → s < 2 ^ k → op r s < 2 ^ k
  op-lt zero r s hr hs =
      let er : r ≡ 0 = omega arith in
      let es : s ≡ 0 = omega arith in rw (er, es, nothing) (omega arith)
  op-lt (suc k) r s hr hs = omega (
    arith,
    lowest r s,
    pow-suc 2 k,
    bit (r % 2) (s % 2) (omega arith) (omega arith),
    op-lt k (r / 2) (s / 2) (omega (arith, pow-suc 2 k)) (omega (arith, pow-suc 2 k)),
  )

xor_digit : (x y : ℕ) → bit_xor x y ≡ 2 * bit_xor (x / 2) (y / 2) + differ (x % 2) (y % 2)
xor_digit zero y = simp bit_xor-bitwise (omega arith)
xor_digit (suc x) y = simp bit_xor-bitwise (lowest_digit _ differ x y)

min_bit : (x y : ℕ) → x < 2 → y < 2 → min x y < 2
min_bit x y hx hy = omega arith

max_bit : (x y : ℕ) → x < 2 → y < 2 → max x y < 2
max_bit x y hx hy = omega arith

differ_bit : (x y : ℕ) → x < 2 → y < 2 → differ x y < 2
differ_bit zero y hx hy = hy
differ_bit (suc x) zero hx hy = hx
differ_bit (suc zero) (suc zero) hx hy = omega arith
differ_bit (suc zero) (suc (suc y)) hx hy = absurd (omega arith)
differ_bit (suc (suc x)) (suc y) hx hy = absurd (omega arith)

pub and_fields :
    (k p q r s : ℕ)
    → r < 2 ^ k
    → s < 2 ^ k
    → bit_and (p * 2 ^ k + r) (q * 2 ^ k + s) ≡ bit_and p q * 2 ^ k + bit_and r s
and_fields = op_fields bit_and min and_digit refl min_bit

pub or_fields :
    (k p q r s : ℕ)
    → r < 2 ^ k
    → s < 2 ^ k
    → bit_or (p * 2 ^ k + r) (q * 2 ^ k + s) ≡ bit_or p q * 2 ^ k + bit_or r s
or_fields = op_fields bit_or max or_digit refl max_bit

pub xor_fields :
    (k p q r s : ℕ)
    → r < 2 ^ k
    → s < 2 ^ k
    → bit_xor (p * 2 ^ k + r) (q * 2 ^ k + s) ≡ bit_xor p q * 2 ^ k + bit_xor r s
xor_fields = op_fields bit_xor differ xor_digit refl differ_bit

pub bit_and-lt : (k r s : ℕ) → r < 2 ^ k → s < 2 ^ k → bit_and r s < 2 ^ k
bit_and-lt = op-lt bit_and min and_digit refl min_bit

pub bit_xor-lt : (k r s : ℕ) → r < 2 ^ k → s < 2 ^ k → bit_xor r s < 2 ^ k
bit_xor-lt = op-lt bit_xor differ xor_digit refl differ_bit

-- An operation that works digit by digit commutes where it does on digits.
module _ (op digit : ℕ → ℕ → ℕ)
    (by_digits : (x y : ℕ) → op x y ≡ 2 * op (x / 2) (y / 2) + digit (x % 2) (y % 2))
    (swap : (x y : ℕ) → digit x y ≡ digit y x) where
  digits_comm : (bound x y : ℕ) → x ≤ bound → y ≤ bound → op x y ≡ op y x
  digits_comm zero zero zero h k = refl
  digits_comm zero (suc x) y h k = absurd (omega arith)
  digits_comm zero zero (suc y) h k = absurd (omega arith)
  digits_comm (suc bound) x y h k = omega (
    arith,
    by_digits x y,
    by_digits y x,
    swap (x % 2) (y % 2),
    digits_comm bound (x / 2) (y / 2) (omega arith) (omega arith),
  )

pub bit_and_comm : (x y : ℕ) → bit_and x y ≡ bit_and y x
bit_and_comm x y =
    digits_comm bit_and min and_digit (λ a b. omega arith) (x + y) x y (omega arith) (omega arith)

pub bit_or_comm : (x y : ℕ) → bit_or x y ≡ bit_or y x
bit_or_comm x y =
    digits_comm bit_or max or_digit (λ a b. omega arith) (x + y) x y (omega arith) (omega arith)

differ_comm : (x y : ℕ) → differ x y ≡ differ y x
differ_comm zero zero = refl
differ_comm zero (suc y) = refl
differ_comm (suc x) zero = refl
differ_comm (suc x) (suc y) = differ_comm x y

pub bit_xor_comm : (x y : ℕ) → bit_xor x y ≡ bit_xor y x
bit_xor_comm x y =
    digits_comm bit_xor differ xor_digit differ_comm (x + y) x y (omega arith) (omega arith)
