-- ===== src/Prelude/Bits/Step.antt =====
-- One equation for the lowest digit of `&` and `|`: the native operations are defined by a
-- recursion on binary digits with fuel, and the fuel drops out.
use Prim.Native.Nat.{ℕ, zero, suc, ◌+◌, ◌*◌, ◌/◌, ◌%◌, ◌≤◌, min, max, bit_and, bit_or}
use Prim.Native.Nat.{digits, bitwise, bit_and-bitwise, bit_or-bitwise}
use mathlib.Core.Path.{◌≡◌, refl}
use mathlib.Core.Logic.{◌⊎◌}
use native.Mathlib.Omega.{arith}

module _ (z : ℕ → ℕ) (f : ℕ → ℕ → ℕ) where
  -- Any fuel from the first operand on gives the same digits.
  enough_fuel : (m n a b : ℕ) → a ≤ m → a ≤ n → digits z f m a b ≡ digits z f n a b
  enough_fuel zero zero a b p q = refl
  enough_fuel zero (suc n) zero b p q = refl
  enough_fuel zero (suc n) (suc a) b p q = absurd (omega arith)
  enough_fuel (suc m) zero zero b p q = refl
  enough_fuel (suc m) zero (suc a) b p q = absurd (omega arith)
  enough_fuel (suc m) (suc n) zero b p q = refl
  enough_fuel (suc m) (suc n) (suc a) b p q =
      omega (arith, enough_fuel m n (suc a / 2) (b / 2) (omega arith) (omega arith))

  lowest_digit :
      (n b : ℕ)
      → f (suc n % 2) (b % 2) + 2 * bitwise z f (suc n / 2) (b / 2) ≡ bitwise z f (suc n) b
  lowest_digit n b =
      let half = suc n / 2 in
      omega (arith, enough_fuel half n half (b / 2) (omega arith) (omega arith))

pub digit-bit_and : (x y : ℕ) → min (x % 2) (y % 2) + 2 * bit_and (x / 2) (y / 2) ≡ bit_and x y
digit-bit_and zero y = simp bit_and-bitwise (omega arith)
digit-bit_and (suc n) y = simp bit_and-bitwise (lowest_digit (λ t. 0) min n y)

pub digit-bit_or : (x y : ℕ) → max (x % 2) (y % 2) + 2 * bit_or (x / 2) (y / 2) ≡ bit_or x y
digit-bit_or zero y = simp bit_or-bitwise (omega arith)
digit-bit_or (suc n) y = simp bit_or-bitwise (lowest_digit (λ t. t) max n y)

pub bit_cases : (a : ℕ) → (a % 2 ≡ 0) ⊎ (a % 2 ≡ 1)
bit_cases a = omega arith

pub zero-bit_and : (b : ℕ) → bit_and 0 b ≡ 0
zero-bit_and b = bit_and-bitwise 0 b
