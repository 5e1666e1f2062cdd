-- ===== src/Pci/Utils/Window.antt =====
-- The bridge's window covers the registers of the device behind it.
use embed_template.Prelude.{ℕ, zero, suc, ◌+◌, ◌*◌, ◌/◌, ◌^◌, ◌≤◌, ◌<◌, ◌≡◌, arith, ap, ℕ_discrete}
use embed_template.Prelude.Bits.Fields.{bit_and_high}
use embed_template.Pci.Data.{Device}
use embed_template.Pci.Alloc.{size_at, address_at}
use embed_template.Pci.Utils.{widen, window_from, bridge_window, window_word}

widen_covers :
    (d : Device) (i b l : ℕ)
    → 0 < size_at d i
    → 0 < address_at d i
    → address_at d i + size_at d i ≤ 2 ^ 32
    → let w = widen d i (b, l) in (w.0 ≤ address_at d i) × (address_at d i + size_at d i ≤ w.1 + 1)
unfolding widen
widen_covers d i b l pos there fits = ground arith

widen_grows : (d : Device) (i b l : ℕ) → let w = widen d i (b, l) in (w.0 ≤ b) × (l ≤ w.1)
unfolding widen
widen_grows d i b l = ground arith

window_grows :
    (d : Device) (n i b l : ℕ) → let w = window_from d n i (b, l) in (w.0 ≤ b) × (l ≤ w.1)
unfolding window_from
window_grows d zero i b l = omega arith
window_grows d (suc n) i b l =
    let w = widen d i (b, l) in omega (arith, widen_grows d i b l, window_grows d n (suc i) w.0 w.1)

window_covers :
    (d : Device) (n i j b l : ℕ)
    → i ≤ j
    → j < i + n
    → 0 < size_at d j
    → 0 < address_at d j
    → address_at d j + size_at d j ≤ 2 ^ 32
    → let w = window_from d n i (b, l) in
      (w.0 ≤ address_at d j) × (address_at d j + size_at d j ≤ w.1 + 1)
unfolding window_from
window_covers d zero i j b l le lt pos there fits = absurd (omega arith)
window_covers d (suc n) i j b l le lt pos there fits =
    let w = widen d i (b, l) in
    elim (ℕ_discrete i j) [
      | yes e ↦
          let covered = widen_covers d j b l pos there fits in
          let same : widen d i (b, l) ≡ widen d j (b, l) = ap (λ t. widen d t (b, l)) e in
          omega (
            arith,
            covered,
            ap (λ p. p.0) same,
            ap (λ p. p.1) same,
            window_grows d n (suc i) w.0 w.1,
          )
      | no ne ↦ window_covers d n (suc i) j w.0 w.1 (omega arith) (omega arith) pos there fits
    ]

widen_narrow : (d : Device) (i b l : ℕ) → l < 2 ^ 32 → (widen d i (b, l)).1 < 2 ^ 32
unfolding widen
widen_narrow d i b l h = ground arith

window_narrow : (d : Device) (n i b l : ℕ) → l < 2 ^ 32 → (window_from d n i (b, l)).1 < 2 ^ 32
unfolding window_from
window_narrow d zero i b l h = h
window_narrow d (suc n) i b l h =
    let w = widen d i (b, l) in window_narrow d n (suc i) w.0 w.1 (widen_narrow d i b l h)

window_word_lem : (x : ℕ) → x < 2 ^ 32 → window_word x ≡ x / 2 ^ 20 * 16
unfolding window_word
window_word_lem x h = omega (arith, bit_and_high 32 20 x (omega arith))

-- The window programmed into the bridge, from its base word up to the last byte of the megabyte
-- of its limit word, holds every register's whole range that ends within 32 bits.
pub bridge_window_covers :
    (d : Device) (i : ℕ)
    → i < 6
    → 0 < size_at d i
    → 0 < address_at d i
    → address_at d i + size_at d i ≤ 2 ^ 32
    → let (base, limit) = bridge_window d in
      (window_word base * 2 ^ 16 ≤ address_at d i)
      × (address_at d i + size_at d i ≤ window_word limit * 2 ^ 16 + 2 ^ 20)
unfolding bridge_window
bridge_window_covers d i h pos there fits =
    let w = window_from d 6 0 (0xFFFFFFFF, 0) in
    let narrow = window_narrow d 6 0 0xFFFFFFFF 0 (omega arith) in
    let grows = window_grows d 6 0 0xFFFFFFFF 0 in
    let covers = window_covers d 6 0 i 0xFFFFFFFF 0 (omega arith) (omega arith) pos there fits in
    omega (arith, covers, window_word_lem w.0 (omega (arith, grows)), window_word_lem w.1 narrow)
