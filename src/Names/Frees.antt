-- ===== src/Names/Frees.antt =====
-- The empty slots of a map.
use embed_template.Prelude.{
  ℕ, zero, suc, ◌≤◌, ◌<◌, ◌≡◌, refl, arith, true, false, ◌==◌, if◌then◌else◌, Bool-cases, inl, inr,
}
use embed_template.Names.{map_empty}

-- The number of empty slots below `n`.
unfoldable pub frees : ℕ → (ℕ → ℕ) → ℕ
frees zero map = 0
frees (suc n) map = if map n == map_empty then suc (frees n map) else frees n map

frees-ne :
    (n s v : ℕ) (map : ℕ → ℕ) → n ≤ s → frees n (λ i. if s == i then v else map i) ≡ frees n map
unfolding frees
frees-ne zero s v map h = refl
frees-ne (suc n) s v map h =
    let other : s == n ≡ false = ground arith in rw (other, frees-ne n s v map (omega arith)) refl

-- A store takes one empty slot at most.
pub frees-store :
    (n s v : ℕ) (map : ℕ → ℕ) → frees n map ≤ suc (frees n (λ i. if s == i then v else map i))
unfolding frees
frees-store zero s v map = omega arith
frees-store (suc n) s v map = elim (Bool-cases (s == n)) [
  | inl here ↦ let rest = frees-ne n s v map (ground arith) in ground (arith, rest)
  | inr other ↦ rw other (ground (arith, frees-store n s v map))
]

-- Where there is room, there is an empty slot.
pub some_free :
    (n : ℕ) (map : ℕ → ℕ) → 0 < frees n map → (s : ℕ) × (s < n) × ((map s == map_empty) ≡ true)
unfolding frees
some_free zero map h = absurd (omega arith)
some_free (suc n) map h = elim (Bool-cases (map n == map_empty)) [
  | inl empty ↦ (n, omega arith, empty)
  | inr full ↦ let (s, lt, empty) = some_free n map (ground arith) in (s, omega arith, empty)
]
