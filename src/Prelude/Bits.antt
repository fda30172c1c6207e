-- ===== src/Prelude/Bits.antt =====
-- `|` on disjoint bits is a sum, at every width.
use Prim.Native.Nat.{max, bit_or, digits, bit_or-bitwise}
use ramix.Prelude.{ℕ, zero, suc, ◌+◌, ◌*◌, ◌/◌, ◌%◌, ◌^◌, ◌≤◌, ◌<◌, ◌≡◌, refl, ap, arith}
use native.Mathlib.Nat.{pow-suc}

abbrev or_digits : ℕ → ℕ → ℕ → ℕ
or_digits n x y = digits (λ y. y) max n x y

or_digits_fuel : (n m x y : ℕ) → x ≤ n → x ≤ m → or_digits n x y ≡ or_digits m x y
or_digits_fuel zero zero x y p q = refl
or_digits_fuel zero (suc m) zero y p q = refl
or_digits_fuel zero (suc m) (suc x) y p q = absurd (omega arith)
or_digits_fuel (suc n) zero zero y p q = refl
or_digits_fuel (suc n) zero (suc x) y p q = absurd (omega arith)
or_digits_fuel (suc n) (suc m) zero y p q = refl
or_digits_fuel (suc n) (suc m) (suc x) y p q =
    omega (arith, or_digits_fuel n m (suc x / 2) (y / 2) (omega arith) (omega arith))

zero-bit_or : (y : ℕ) → bit_or 0 y ≡ y
zero-bit_or y = bit_or-bitwise 0 y

bit_or_halve : (x y : ℕ) → bit_or x y ≡ bit_or (x / 2) (y / 2) * 2 + max (x % 2) (y % 2)
bit_or_halve zero y = omega (arith, zero-bit_or y, zero-bit_or (y / 2))
bit_or_halve (suc x) y = omega (
  arith,
  bit_or-bitwise (suc x) y,
  bit_or-bitwise (suc x / 2) (y / 2),
  or_digits_fuel x (suc x / 2) (suc x / 2) (y / 2) (omega arith) (omega arith),
)

-- Bits below `k` on the left, x multiple of `2 ^ k` on the right.
pub bit_or_disjoint : (k x y : ℕ) → x < 2 ^ k → bit_or x (y * 2 ^ k) ≡ x + y * 2 ^ k
bit_or_disjoint zero x y h =
    let e : x ≡ 0 = omega arith in rw e (omega (arith, zero-bit_or (y * 2 ^ 0)))
bit_or_disjoint (suc k) x y h = omega (
  arith,
  bit_or_halve x (y * 2 ^ suc k),
  ap (λ (t : ℕ). y * t) (pow-suc 2 k),
  pow-suc 2 k,
  ap (bit_or (x / 2)) half,
  bit_or_disjoint k (x / 2) y (omega (arith, pow-suc 2 k)),
)
  where
    half : y * 2 ^ suc k / 2 ≡ y * 2 ^ k
    half = omega (arith, ap (λ (t : ℕ). y * t) (pow-suc 2 k))
