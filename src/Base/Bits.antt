-- ===== src/Base/Bits.antt =====
-- `|` of native numbers as arithmetic.
use Prim.Native.Nat.{max, bit_or, digits, bit_or-bitwise}
use mathlib.Core.Path.{ap}
use native.Mathlib.Nat.{pow-suc}
use max_mind_db_reader_pytho.Base.{
  ℕ, zero, suc, ◌+◌, ◌*◌, ◌/◌, ◌%◌, ◌^◌, ◌≤◌, ◌<◌, ◌≡◌, refl, arith,
}

abbrev or_digits : ℕ → ℕ → ℕ → ℕ
or_digits fuel a b = digits (λ b. b) max fuel a b

-- The digits do not depend on the fuel, once it reaches the first number.
or_digits_enough : (m n a b : ℕ) → a ≤ m → a ≤ n → or_digits m a b ≡ or_digits n a b
or_digits_enough zero zero a b p q = refl
or_digits_enough zero (suc n) zero b p q = refl
or_digits_enough zero (suc n) (suc a) b p q = absurd (omega arith)
or_digits_enough (suc m) zero zero b p q = refl
or_digits_enough (suc m) zero (suc a) b p q = absurd (omega arith)
or_digits_enough (suc m) (suc n) zero b p q = refl
or_digits_enough (suc m) (suc n) (suc a) b p q =
    omega (arith, or_digits_enough m n (suc a / 2) (b / 2) (omega arith) (omega arith))

pub bit_or_digit : (a b : ℕ) → bit_or a b ≡ bit_or (a / 2) (b / 2) * 2 + max (a % 2) (b % 2)
bit_or_digit zero b = omega (arith, bit_or-bitwise 0 b, bit_or-bitwise 0 (b / 2))
bit_or_digit (suc a) b = omega (
  arith,
  bit_or-bitwise (suc a) b,
  bit_or-bitwise (suc a / 2) (b / 2),
  or_digits_enough a (suc a / 2) (suc a / 2) (b / 2) (omega arith) (omega arith),
)

bit_or-zero_below : (bound a : ℕ) → a ≤ bound → bit_or a 0 ≡ a
bit_or-zero_below bound zero h = bit_or-bitwise 0 0
bit_or-zero_below zero (suc a) h = absurd (omega arith)
bit_or-zero_below (suc bound) (suc a) h =
    omega (arith, bit_or_digit (suc a) 0, bit_or-zero_below bound (suc a / 2) (omega arith))

pub bit_or-zero : (a : ℕ) → bit_or a 0 ≡ a
bit_or-zero a = bit_or-zero_below a a (omega arith)

pub zero-bit_or : (b : ℕ) → bit_or 0 b ≡ b
zero-bit_or b = bit_or-bitwise 0 b

-- `|` into k bits that are clear is a sum.
pub bit_or_low : (k a b : ℕ) → b < 2 ^ k → bit_or (a * 2 ^ k) b ≡ a * 2 ^ k + b
bit_or_low zero a b h = ground (arith, bit_or-zero a)
bit_or_low (suc k) a b h = ground (
  arith,
  bit_or_digit (a * 2 ^ suc k) b,
  bit_or_low k a (b / 2) (omega arith),
  pow-suc 2 k,
  ap (λ (t : ℕ). a * t) (pow-suc 2 k),
)

bit_or_is_zero_below : (n a b : ℕ) → a ≤ n → bit_or a b ≡ 0 → (a ≡ 0) × (b ≡ 0)
bit_or_is_zero_below zero zero b h e = (refl, omega (arith, zero-bit_or b))
bit_or_is_zero_below zero (suc a) b h e = absurd (omega arith)
bit_or_is_zero_below (suc n) a b h e =
    let digit : bit_or a b ≡ bit_or (a / 2) (b / 2) * 2 + max (a % 2) (b % 2) = bit_or_digit a b in
    let (p, q) = bit_or_is_zero_below n (a / 2) (b / 2) (omega arith) (omega arith) in
    (omega arith, omega arith)

pub bit_or_is_zero : (a b : ℕ) → bit_or a b ≡ 0 → (a ≡ 0) × (b ≡ 0)
bit_or_is_zero a b e = bit_or_is_zero_below a a b (omega arith) e
