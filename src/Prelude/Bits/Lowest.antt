-- ===== src/Prelude/Bits/Lowest.antt =====
-- LOWEST_BIT of common/include/utils.h, as its loop, and the mask without its lowest one.
use embed_template.Prelude.Tests.{◌==◌, if◌then◌else◌, Bool-cases, ==_iff}
use Prim.Native.Nat.{ℕ, zero, suc, ◌-◌, ◌/◌, ◌%◌, ◌^◌, ◌<◌, bit_and}
use mathlib.Core.Path.{◌≡◌, ◌∙◌}
use mathlib.Core.Logic.{inl, inr}
use mathlib.Core.Bool.{true, false, not, ◌&&◌}
use native.Mathlib.Nat.{two-pow-succ}
use native.Mathlib.Omega.{arith}
use embed_template.Prelude.Bits.{bit, bit-and, bit_and_mask}
use embed_template.Prelude.Bits.Step.{digit-bit_and, bit_cases}

-- The zeros below the lowest one of a mask, with the rounds left.
unfoldable pub lowest_bit : ℕ → ℕ → ℕ
lowest_bit zero mask = 0
lowest_bit (suc n) mask = if bit_and mask 1 == 0 then suc (lowest_bit n (mask / 2)) else 0

below_even :
    (n mask k : ℕ)
    → mask % 2 ≡ 0
    → ((j : ℕ) → j < n → bit (mask / 2) j ≡ false)
    → k < suc n
    → bit mask k ≡ false
unfolding bit
below_even n mask zero even below lt = ground arith
below_even n mask (suc k) even below lt = below k (omega arith)

-- The lowest one is a one, and there is none below it.
pub lowest_bit_lem :
    (w mask : ℕ)
    → mask < 2 ^ w
    → 0 < mask
    → (bit mask (lowest_bit w mask) ≡ true) × ((k : ℕ) → k < lowest_bit w mask → bit mask k ≡ false)
unfolding lowest_bit bit
lowest_bit_lem zero mask h pos = absurd (omega arith)
lowest_bit_lem (suc w) mask h pos = elim (Bool-cases (bit_and mask 1 == 0)) [
  | inl even ↦
      let zero_digit : mask % 2 ≡ 0 =
        omega (arith, bit_and_mask 1 mask, (==_iff (bit_and mask 1) 0).0 even) in
      let (here, below) =
        lowest_bit_lem w (mask / 2) (omega (arith, two-pow-succ w)) (omega arith) in
      rw even (here, λ k lt. below_even (lowest_bit w (mask / 2)) mask k zero_digit below lt)
  | inr odd ↦ rw odd (ground (arith, bit_and_mask 1 mask), λ k lt. absurd (omega arith))
]

-- `mask & (mask - 1)` clears the lowest one.
pub bit-clear :
    (w mask k : ℕ)
    → mask < 2 ^ w
    → 0 < mask
    → bit (bit_and mask (mask - 1)) k ≡ (bit mask k && not (k == lowest_bit w mask))
unfolding lowest_bit bit
bit-clear zero mask k h pos = absurd (omega arith)
bit-clear (suc w) mask zero h pos =
    ground (arith, digit-bit_and mask (mask - 1), bit_and_mask 1 mask)
bit-clear (suc w) mask (suc k) h pos =
    let half : bit_and mask (mask - 1) / 2 ≡ bit_and (mask / 2) ((mask - 1) / 2) =
      omega (arith, digit-bit_and mask (mask - 1), bit_cases mask) in
    elim (Bool-cases (bit_and mask 1 == 0)) [
      | inl even ↦
          let zero_digit : mask % 2 ≡ 0 =
            omega (arith, bit_and_mask 1 mask, (==_iff (bit_and mask 1) 0).0 even) in
          let less : (mask - 1) / 2 ≡ mask / 2 - 1 = omega arith in
          let rest = bit-clear w (mask / 2) k (omega (arith, two-pow-succ w)) (omega arith) in
          rw (even, half, less) (rest ∙ ground arith)
      | inr odd ↦
          let one_digit : mask % 2 ≡ 1 = ground (arith, bit_and_mask 1 mask) in
          let same : (mask - 1) / 2 ≡ mask / 2 = omega arith in
          rw (odd, half, same, bit-and (mask / 2) (mask / 2) k) (ground arith)
    ]
