-- ===== src/Prelude/Bits/Fields.antt =====
-- Fields of a word that lie side by side: `|` puts them together, and a mask of high ones clears
-- the low field.
use embed_template.Prelude.Bits.Step.{digit-bit_or, digit-bit_and}
use embed_template.Prelude.Bits.{mod_half, bit_and_mask}
use Prim.Native.Nat.{ℕ, zero, suc, ◌+◌, ◌-◌, ◌*◌, ◌/◌, ◌%◌, ◌^◌, ◌≤◌, ◌<◌, bit_and, bit_or}
use mathlib.Core.Path.{◌≡◌, refl, sym, ◌∙◌, ap}
use native.Mathlib.Nat.{two-pow-succ, pow-succ', div-div-eq-div-mul}
use native.Mathlib.Omega.{arith}

or_zero_below : (n a : ℕ) → a ≤ n → bit_or a 0 ≡ a
or_zero_below n zero h = refl
or_zero_below zero (suc a) h = absurd (omega arith)
or_zero_below (suc n) (suc a) h =
    omega (arith, digit-bit_or (suc a) 0, or_zero_below n (suc a / 2) (omega arith))

pub bit_or-zero : (a : ℕ) → bit_or a 0 ≡ a
bit_or-zero a = or_zero_below a a (omega arith)

mul_twice : (q p : ℕ) → q * (p + p) ≡ 2 * (q * p)
mul_twice q p = grind arith

mul-two_pow-suc : (q k : ℕ) → q * 2 ^ suc k ≡ 2 * (q * 2 ^ k)
mul-two_pow-suc q k = ap (λ t. q * t) (two-pow-succ k) ∙ mul_twice q (2 ^ k)

-- `(x << k) | y` for a `y` of `k` bits.
pub bit_or_fields : (k x y : ℕ) → y < 2 ^ k → bit_or (x * 2 ^ k) y ≡ x * 2 ^ k + y
bit_or_fields zero x y h = ap (bit_or (x * 1)) (omega arith) ∙ bit_or-zero (x * 1) ∙ omega arith
bit_or_fields (suc k) x y h =
    let double : x * 2 ^ suc k ≡ 2 * (x * 2 ^ k) = mul-two_pow-suc x k in
    let half : bit_or (x * 2 ^ suc k / 2) (y / 2) ≡ bit_or (x * 2 ^ k) (y / 2) =
      ap (λ t. bit_or t (y / 2)) (omega arith) in
    omega (
      arith,
      two-pow-succ k,
      digit-bit_or (x * 2 ^ suc k) y,
      bit_or_fields k x (y / 2) (omega (arith, two-pow-succ k)),
    )

-- `x & ~(2 ^ k - 1)` on `w` bits.
pub bit_and_high : (w k x : ℕ) → k ≤ w → bit_and x (2 ^ w - 2 ^ k) ≡ x % 2 ^ w / 2 ^ k * 2 ^ k
bit_and_high w zero x h = bit_and_mask w x ∙ omega arith
bit_and_high zero (suc k) x h = absurd (omega arith)
bit_and_high (suc w) (suc k) x h =
    let half : bit_and (x / 2) ((2 ^ suc w - 2 ^ suc k) / 2) ≡ bit_and (x / 2) (2 ^ w - 2 ^ k) =
      ap (bit_and (x / 2)) (omega (arith, two-pow-succ w, two-pow-succ k)) in
    let field : x % 2 ^ suc w / 2 ^ suc k ≡ x / 2 % 2 ^ w / 2 ^ k =
      ap (λ t. x % 2 ^ suc w / t) (pow-succ' 2 k)
      ∙ sym (div-div-eq-div-mul (x % 2 ^ suc w) 2 (2 ^ k))
      ∙ ap (λ t. t / 2 ^ k) (mod_half x w).0 in
    let double : x % 2 ^ suc w / 2 ^ suc k * 2 ^ suc k ≡ 2 * (x / 2 % 2 ^ w / 2 ^ k * 2 ^ k) =
      ap (λ t. t * 2 ^ suc k) field ∙ mul-two_pow-suc _ k in
    omega (
      arith,
      two-pow-succ w,
      two-pow-succ k,
      digit-bit_and x (2 ^ suc w - 2 ^ suc k),
      bit_and_high w k (x / 2) (omega arith),
    )
