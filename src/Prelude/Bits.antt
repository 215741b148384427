-- ===== src/Prelude/Bits.antt =====
-- The laws of `&` and `|` that flags, masks and disjoint fields need, at every width, and tables
-- of such facts on one byte.
use Prim.Native.Nat.{ℕ, zero, suc, ◌+◌, ◌*◌, ◌/◌, ◌%◌, ◌^◌, ◌-◌, ◌<◌, ◌≤◌, min, max}
use Prim.Native.Nat.{bit_and, bit_or, digits, bit_and-bitwise, bit_or-bitwise}
use mathlib.Core.Path.{◌≡◌, refl, ap}
use native.Mathlib.Nat.{pow-suc, one-le-pow, mul_comm, div-div-eq-div-mul, div-add-mod}
use native.Mathlib.Omega.{arith}

-- Fuel beyond the first number's value changes nothing, whatever the digit operation.
module _ (z : ℕ → ℕ) (f : ℕ → ℕ → ℕ) where
  digits_fuel : (n m a b : ℕ) → a ≤ n → a ≤ m → digits z f n a b ≡ digits z f m a b
  digits_fuel n m zero b p q = end n m
    where
      end : (n m : ℕ) → digits z f n zero b ≡ digits z f m zero b
      end zero zero = refl
      end zero (suc m) = refl
      end (suc n) zero = refl
      end (suc n) (suc m) = refl
  digits_fuel zero m (suc a) b p q = absurd (omega arith)
  digits_fuel (suc n) zero (suc a) b p q = absurd (omega arith)
  digits_fuel (suc n) (suc m) (suc a) b p q =
      ap (λ (t : ℕ). t * 2 + f (suc a % 2) (b % 2))
        (digits_fuel n m (suc a / 2) (b / 2) (omega arith) (omega arith))

-- The lowest digit, and the rest.
pub and_split : (a b : ℕ) → bit_and a b ≡ bit_and (a / 2) (b / 2) * 2 + min (a % 2) (b % 2)
and_split zero b = omega (arith, bit_and-bitwise 0 b, bit_and-bitwise 0 (b / 2))
and_split (suc a) b = omega (
  arith,
  bit_and-bitwise (suc a) b,
  bit_and-bitwise (suc a / 2) (b / 2),
  digits_fuel (λ b. zero) min a (suc a / 2) (suc a / 2) (b / 2) (omega arith) (omega arith),
)

pub or_split : (a b : ℕ) → bit_or a b ≡ bit_or (a / 2) (b / 2) * 2 + max (a % 2) (b % 2)
or_split zero b = omega (arith, bit_or-bitwise 0 b, bit_or-bitwise 0 (b / 2))
or_split (suc a) b = omega (
  arith,
  bit_or-bitwise (suc a) b,
  bit_or-bitwise (suc a / 2) (b / 2),
  digits_fuel (λ b. b) max a (suc a / 2) (suc a / 2) (b / 2) (omega arith) (omega arith),
)

and-zero : (a : ℕ) → bit_and a 0 ≡ 0
and-zero a = below a a (omega arith)
  where
    below : (n a : ℕ) → a ≤ n → bit_and a 0 ≡ 0
    below n zero h = refl
    below zero (suc a) h = absurd (omega arith)
    below (suc n) (suc a) h = omega (arith, and_split (suc a) 0, below n (suc a / 2) (omega arith))

mul-pow-suc : (q k : ℕ) → q * 2 ^ suc k ≡ 2 * (q * 2 ^ k)
mul-pow-suc q k = omega (arith, ap (λ (t : ℕ). q * t) (pow-suc 2 k))

div-pow-suc : (a k : ℕ) → a / 2 ^ suc k ≡ a / 2 / 2 ^ k
div-pow-suc a k = rw (pow-suc, mul_comm, ← div-div-eq-div-mul)

mod-pow-suc : (a k : ℕ) → a % 2 ^ suc k ≡ a / 2 % 2 ^ k * 2 + a % 2
mod-pow-suc a k = omega (
  arith,
  div-add-mod a (2 ^ suc k),
  div-add-mod (a / 2) (2 ^ k),
  mul-pow-suc (a / 2 ^ suc k) k,
  ap (λ (t : ℕ). 2 ^ k * t) (div-pow-suc a k),
)

-- `&` with the mask `m << k` is `&` with `m` on the number shifted down.
pub and_shifted : (k a m : ℕ) → bit_and a (m * 2 ^ k) ≡ bit_and (a / 2 ^ k) m * 2 ^ k
and_shifted zero a m = ground (arith)
and_shifted (suc k) a m = ground (
  arith,
  and_split a (m * 2 ^ suc k),
  mul-pow-suc m k,
  mul-pow-suc (bit_and (a / 2 / 2 ^ k) m) k,
  div-pow-suc a k,
  and_shifted k (a / 2) m,
)

-- `&` with `k` ones is the remainder by `2 ^ k`.
pub and_mask : (k a : ℕ) → bit_and a (2 ^ k - 1) ≡ a % 2 ^ k
and_mask zero a = rw (and-zero a) (omega arith)
and_mask (suc k) a = ground (
  arith,
  and_split a (2 ^ suc k - 1),
  pow-suc 2 k,
  one-le-pow k 2,
  mod-pow-suc a k,
  and_mask k (a / 2),
)

-- `|` of a number with a higher field is their sum.
pub or_field : (k r q : ℕ) → r < 2 ^ k → bit_or r (q * 2 ^ k) ≡ r + q * 2 ^ k
or_field zero zero q h = omega (arith, bit_or-bitwise 0 (q * 1))
or_field zero (suc r) q h = absurd (omega arith)
or_field (suc k) r q h =
    ground (arith, or_split r (q * 2 ^ suc k), mul-pow-suc q k, pow-suc 2 k, or_field k (r / 2) q)

or-zero : (a : ℕ) → bit_or a 0 ≡ a
or-zero a = below a a (omega arith)
  where
    below : (n a : ℕ) → a ≤ n → bit_or a 0 ≡ a
    below n zero h = refl
    below zero (suc a) h = absurd (omega arith)
    below (suc n) (suc a) h = omega (arith, or_split (suc a) 0, below n (suc a / 2) (omega arith))

-- `|` of a field with lower bits is their sum.
pub or_low : (k q r : ℕ) → r < 2 ^ k → bit_or (q * 2 ^ k) r ≡ q * 2 ^ k + r
or_low zero q zero h = omega (arith, or-zero (q * 1))
or_low zero q (suc r) h = absurd (omega arith)
or_low (suc k) q r h =
    ground (arith, or_split (q * 2 ^ suc k) r, mul-pow-suc q k, pow-suc 2 k, or_low k q (r / 2))

-- `&` with one bit keeps that bit.
pub and_flag : (k a : ℕ) → bit_and a (2 ^ k) ≡ a / 2 ^ k % 2 * 2 ^ k
and_flag k a = ground (arith, and_shifted k a 1, and_mask 1 (a / 2 ^ k))

-- `|` sets a bit that is clear.
pub or_flag : (k a : ℕ) → a / 2 ^ k % 2 ≡ 0 → bit_or a (2 ^ k) ≡ a + 2 ^ k
or_flag zero a h = ground (arith, or_split a 1, or-zero (a / 2))
or_flag (suc k) a h =
    ground (arith, or_split a (2 ^ suc k), pow-suc 2 k, div-pow-suc a k, or_flag k (a / 2))
