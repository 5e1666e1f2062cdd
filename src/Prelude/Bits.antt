-- ===== src/Prelude/Bits.antt =====
-- The bits of a number, and what `&`, `|`, `~`, `<<` and the casts do to each of them.
mod Step
pub mod Fields
pub mod Lowest
use Step.{digit-bit_or, digit-bit_and, bit_cases, zero-bit_and}
use embed_template.Prelude.Tests.{ltb, ◌==◌, if◌then◌else◌, Bool-cases}
use Prim.Native.Nat.{ℕ, zero, suc, ◌+◌, ◌-◌, ◌*◌, ◌/◌, ◌%◌, ◌^◌, ◌≤◌, ◌<◌, bit_and, bit_or}
use mathlib.Core.Path.{◌≡◌, refl, sym, ◌∙◌, ap}
use mathlib.Core.Bool.{Bool, true, false, not, ◌&&◌, ◌||◌}
use native.Mathlib.Nat.{
  pow-succ', div-div-eq-div-mul, two-pow-succ, one-le-pow, mod-lt, mod-eq_of_lt, div-add-mod',
  mul-add-mod_self_right,
}
use native.Mathlib.Omega.{arith}

-- Bit `k` of `a`.
unfoldable pub bit : ℕ → ℕ → Bool
bit a zero = a % 2 == 1
bit a (suc k) = bit (a / 2) k

-- `~a` on `w` bits.
abbrev pub bit_not : ℕ → ℕ → ℕ
bit_not w a = 2 ^ w - 1 - a

pub bit-zero : (k : ℕ) → bit 0 k ≡ false
unfolding bit
bit-zero zero = refl
bit-zero (suc k) = bit-zero k

pub bit-or : (a b k : ℕ) → bit (bit_or a b) k ≡ (bit a k || bit b k)
unfolding bit
bit-or a b zero = ground (arith, digit-bit_or a b, bit_cases a, bit_cases b)
bit-or a b (suc k) = ap (λ t. bit t k) (omega (arith, digit-bit_or a b)) ∙ bit-or (a / 2) (b / 2) k

pub bit-and : (a b k : ℕ) → bit (bit_and a b) k ≡ (bit a k && bit b k)
unfolding bit
bit-and a b zero = ground (arith, digit-bit_and a b, bit_cases a, bit_cases b)
bit-and a b (suc k) =
    ap (λ t. bit t k) (omega (arith, digit-bit_and a b)) ∙ bit-and (a / 2) (b / 2) k

-- `1 << p`
pub bit-two_pow : (p k : ℕ) → bit (2 ^ p) k ≡ (p == k)
unfolding bit
bit-two_pow zero zero = refl
bit-two_pow zero (suc k) = bit-zero k ∙ ground arith
bit-two_pow (suc p) zero = ground (arith, two-pow-succ p)
bit-two_pow (suc p) (suc k) =
    ap (λ t. bit t k) (omega (arith, two-pow-succ p)) ∙ bit-two_pow p k ∙ ground arith

double_pos : (w : ℕ) → 0 < 2 ^ w + 2 ^ w
double_pos w = omega (arith, one-le-pow w 2 (omega arith))

pub mod_half : (a w : ℕ) → (a % 2 ^ suc w / 2 ≡ a / 2 % 2 ^ w) × (a % 2 ^ suc w % 2 ≡ a % 2)
mod_half a w =
    let e : a / 2 ≡ a / (2 ^ w + 2 ^ w) * 2 ^ w + a % (2 ^ w + 2 ^ w) / 2 = grind arith in
    let lt : a % (2 ^ w + 2 ^ w) / 2 < 2 ^ w = omega (arith, mod-lt a (double_pos w)) in
    (
      rw two-pow-succ
          (sym (ap (λ t. t % 2 ^ w) e ∙ mul-add-mod_self_right _ (2 ^ w) _ ∙ mod-eq_of_lt lt)),
      rw two-pow-succ (grind (arith, div-add-mod' a (2 ^ w + 2 ^ w))),
    )

-- A cast to `w` bits keeps the bits below `w`.
pub bit-mod : (a w k : ℕ) → bit (a % 2 ^ w) k ≡ (ltb k w && bit a k)
unfolding bit
bit-mod a zero zero = ground arith
bit-mod a zero (suc k) = ap (λ t. bit t k) (omega arith) ∙ bit-zero k ∙ ground arith
bit-mod a (suc w) zero = ground (arith, mod_half a w)
bit-mod a (suc w) (suc k) = ap (λ t. bit t k) (mod_half a w).0 ∙ bit-mod (a / 2) w k ∙ ground arith

pub bit-not : (w a k : ℕ) → a < 2 ^ w → bit (bit_not w a) k ≡ (ltb k w && not (bit a k))
unfolding bit
bit-not zero a k h = ap (λ t. bit t k) (omega arith) ∙ bit-zero k ∙ ground arith
bit-not (suc w) a zero h = ground (arith, two-pow-succ w)
bit-not (suc w) a (suc k) h =
    ap (λ t. bit t k) (omega (arith, two-pow-succ w))
    ∙ bit-not w (a / 2) k (omega (arith, two-pow-succ w))
    ∙ ground arith

pub bit_of_lt : (w a k : ℕ) → a < 2 ^ w → w ≤ k → bit a k ≡ false
unfolding bit
bit_of_lt zero a k h le = ap (λ t. bit t k) (omega arith) ∙ bit-zero k
bit_of_lt (suc w) a zero h le = absurd (omega arith)
bit_of_lt (suc w) a (suc k) h le =
    bit_of_lt w (a / 2) k (omega (arith, two-pow-succ w)) (omega arith)

-- Two words of `w` bits with the same bits are equal.
pub bit_ext : (w a b : ℕ) → a < 2 ^ w → b < 2 ^ w → ((k : ℕ) → k < w → bit a k ≡ bit b k) → a ≡ b
unfolding bit
bit_ext zero a b ha hb h = omega arith
bit_ext (suc w) a b ha hb h =
    let halves =
      bit_ext w (a / 2) (b / 2) (omega (arith, two-pow-succ w)) (omega (arith, two-pow-succ w))
        (λ k lt. h (suc k) (omega arith)) in
    ground (arith, h 0 (omega arith), halves)

pub bit_or-lt : (w a b : ℕ) → a < 2 ^ w → b < 2 ^ w → bit_or a b < 2 ^ w
bit_or-lt zero zero zero ha hb = omega arith
bit_or-lt zero zero (suc b) ha hb = absurd (omega arith)
bit_or-lt zero (suc a) b ha hb = absurd (omega arith)
bit_or-lt (suc w) a b ha hb = omega (
  arith,
  two-pow-succ w,
  digit-bit_or a b,
  bit_or-lt w (a / 2) (b / 2) (omega (arith, two-pow-succ w)) (omega (arith, two-pow-succ w)),
)

pub bit_and-le : (w a b : ℕ) → a < 2 ^ w → bit_and a b ≤ a
bit_and-le zero zero b ha = rw zero-bit_and (omega arith)
bit_and-le zero (suc a) b ha = absurd (omega arith)
bit_and-le (suc w) a b ha = omega (
  arith,
  two-pow-succ w,
  digit-bit_and a b,
  bit_and-le w (a / 2) (b / 2) (omega (arith, two-pow-succ w)),
)

no_bits : (w a : ℕ) → a < 2 ^ w → bit_and a 0 ≡ 0
no_bits zero zero h = zero-bit_and 0
no_bits zero (suc a) h = absurd (omega arith)
no_bits (suc w) a h =
    let rest = no_bits w (a / 2) (omega (arith, two-pow-succ w)) in
    omega (arith, digit-bit_and a 0, rest)

below_two_pow : (a : ℕ) → a < 2 ^ a
below_two_pow zero = omega arith
below_two_pow (suc a) = omega (arith, below_two_pow a, two-pow-succ a)

pub bit_and-zero : (a : ℕ) → bit_and a 0 ≡ 0
bit_and-zero a = no_bits a a (below_two_pow a)

-- A mask of `k` ones is the remainder by `2 ^ k`.
pub bit_and_mask : (k a : ℕ) → bit_and a (2 ^ k - 1) ≡ a % 2 ^ k
bit_and_mask zero a = bit_and-zero a ∙ omega arith
bit_and_mask (suc k) a = omega (
  arith,
  two-pow-succ k,
  one-le-pow k 2 (omega arith),
  digit-bit_and a (2 ^ suc k - 1),
  bit_and_mask_half k a,
  mod_half a k,
  bit_and_mask k (a / 2),
)
  where
    bit_and_mask_half :
        (k a : ℕ) → bit_and (a / 2) ((2 ^ suc k - 1) / 2) ≡ bit_and (a / 2) (2 ^ k - 1)
    bit_and_mask_half k a =
        ap (bit_and (a / 2)) (omega (arith, two-pow-succ k, one-le-pow k 2 (omega arith)))

-- `x & (1 << p)` tests bit `p`.
pub bit_and_test : (p a : ℕ) → (bit_and a (2 ^ p) == 0) ≡ not (bit a p)
unfolding bit
bit_and_test zero a = ground (arith, bit_and_mask 1 a, bit_cases a)
bit_and_test (suc p) a =
    let half : bit_and (a / 2) (2 ^ suc p / 2) ≡ bit_and (a / 2) (2 ^ p) =
      ap (bit_and (a / 2)) (omega (arith, two-pow-succ p)) in
    ground (
      arith,
      digit-bit_and a (2 ^ suc p),
      half,
      two-pow-succ p,
      one-le-pow p 2 (omega arith),
      bit_and_test p (a / 2),
    )

-- `r` with its low `w` bits replaced by those of `v`: a store to a bit-field at position 0.
unfoldable pub put_low : ℕ → ℕ → ℕ → ℕ
put_low w v r = r / 2 ^ w * 2 ^ w + v % 2 ^ w

put_low-suc :
    (w v r : ℕ)
    → (put_low (suc w) v r / 2 ≡ put_low w (v / 2) (r / 2)) × (put_low (suc w) v r % 2 ≡ v % 2)
unfolding put_low
put_low-suc w v r =
    let q = r / 2 / 2 ^ w in
    let e : r / 2 ^ suc w ≡ q =
      ap (λ t. r / t) (pow-succ' 2 w) ∙ sym (div-div-eq-div-mul r 2 (2 ^ w)) in
    let f = ap (λ t. q * t) (two-pow-succ w) in
    let g : put_low (suc w) v r ≡ q * 2 ^ suc w + v % 2 ^ suc w =
      ap (λ t. t * 2 ^ suc w + v % 2 ^ suc w) e in
    (omega (arith, f, g, mod_half v w), omega (arith, f, g, mod_half v w))

put_low-zero : (v r : ℕ) → put_low 0 v r ≡ r
unfolding put_low
put_low-zero v r = omega arith

pub bit-put_low : (w v r k : ℕ) → bit (put_low w v r) k ≡ (if ltb k w then bit v k else bit r k)
unfolding bit
bit-put_low zero v r k = ap (λ t. bit t k) (put_low-zero v r) ∙ ground arith
bit-put_low (suc w) v r zero = ground (arith, put_low-suc w v r)
bit-put_low (suc w) v r (suc k) =
    ap (λ t. bit t k) (put_low-suc w v r).0 ∙ bit-put_low w (v / 2) (r / 2) k ∙ ground arith
