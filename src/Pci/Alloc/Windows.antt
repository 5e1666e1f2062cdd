-- ===== src/Pci/Alloc/Windows.antt =====
-- The windows that pci_alloc gives out lie one behind the other.
use embed_template.Prelude.{
  ℕ, zero, suc, ◌+◌, ◌-◌, ◌*◌, ◌/◌, ◌%◌, ◌^◌, ◌≤◌, ◌<◌, ◌≡◌, ◌⊎◌, inl, inr, ◌∙◌, ap, ap₂, refl,
  arith, List, [], ◌∷◌, get_or, set, ◌==◌, if◌then◌else◌, length, bit_and, get_or-set_self,
  get_or-set_ne, length-set,
}
use embed_template.Prelude.Bits.Fields.{bit_and_high}
use native.Mathlib.Nat.{
  one-le-pow, div-add-mod', mod-lt, mul-mod_left, mod-eq_of_lt, pow-le-pow_right,
}
use embed_template.Pci.Data.{Ecam}
use embed_template.Pci.Alloc.{align_up, Alloc, size_at, address_at, alloc_bar, alloc_bars}

-- The next multiple of a power of two, where the sum fits 32 bits.
align_up_lem :
    (free k : ℕ)
    → k ≤ 32
    → free + 2 ^ k ≤ 2 ^ 32
    → align_up free (2 ^ k) ≡ (free + (2 ^ k - 1)) / 2 ^ k * 2 ^ k
unfolding align_up
align_up_lem free k h fits =
    let sum = free + (2 ^ k - 1) in
    ap₂ bit_and (mod-eq_of_lt (omega (arith, one-le-pow k 2 (omega arith))))
      (omega (arith, one-le-pow k 2 (omega arith), pow-le-pow_right {n = 2} (omega arith) h))
    ∙ bit_and_high 32 k sum h
    ∙ ap (λ t. t / 2 ^ k * 2 ^ k) (mod-eq_of_lt (omega (arith, one-le-pow k 2 (omega arith))))

align_up_bounds :
    (free k : ℕ)
    → k ≤ 32
    → free + 2 ^ k ≤ 2 ^ 32
    → (free ≤ align_up free (2 ^ k))
      × (align_up free (2 ^ k) < free + 2 ^ k)
      × (align_up free (2 ^ k) % 2 ^ k ≡ 0)
align_up_bounds free k h fits =
    let sum = free + (2 ^ k - 1) in
    let pos = one-le-pow k 2 (omega arith) in
    let e = align_up_lem free k h fits in
    (
      omega (arith, e, div-add-mod' sum (2 ^ k), mod-lt sum pos),
      omega (arith, e, div-add-mod' sum (2 ^ k), mod-lt sum pos),
      ap (λ t. t % 2 ^ k) e ∙ mul-mod_left (sum / 2 ^ k) (2 ^ k),
    )

-- A register that is not there, or a power of two of bytes.
abbrev pub IsSize : ℕ → Type 0
IsSize n = (n ≡ 0) ⊎ ((k : ℕ) × (k ≤ 32) × (n ≡ 2 ^ k))

-- Windows of an address and a size, each aligned to its size and behind the one before it, from
-- `lo` up to `hi`.
abbrev pub Stacked : ℕ → List (ℕ × ℕ) → ℕ → Type 0
Stacked lo [] hi = lo ≤ hi
Stacked lo ((address, size) ∷ rest) hi =
    (lo ≤ address) × (address % size ≡ 0) × Stacked (address + size) rest hi

-- The windows of `n` registers from `i` on, of their sizes and addresses.
pub windows_from : ℕ → ℕ → List ℕ → List ℕ → List (ℕ × ℕ)
windows_from zero i sizes addresses = []
windows_from (suc n) i sizes addresses =
    if get_or sizes i 0 == 0
    then windows_from n (suc i) sizes addresses
    else (get_or addresses i 0, get_or sizes i 0) ∷ windows_from n (suc i) sizes addresses

-- Twice the sizes: room for each window and for its alignment.
unfoldable pub room_from : ℕ → ℕ → List ℕ → ℕ
room_from zero i sizes = 0
room_from (suc n) i sizes = 2 * get_or sizes i 0 + room_from n (suc i) sizes

-- What giving addresses to `n` registers from `i` on makes of the device.
pub record Given {S : Type 0} (n i : ℕ) (a b : Alloc S) : Type 0 where
  pub stacked :
      Stacked a.free_mmio (windows_from n i a.pci_dev.bar_size b.pci_dev.bar_address) b.free_mmio
  pub bounded : b.free_mmio ≤ a.free_mmio + room_from n i a.pci_dev.bar_size
  pub same : b.pci_dev ≡ (record a.pci_dev { bar_address = b.pci_dev.bar_address })
  pub slots : length b.pci_dev.bar_address ≡ length a.pci_dev.bar_address
  pub below : (j : ℕ) → j < i → address_at b.pci_dev j ≡ address_at a.pci_dev j

skip_Given :
    {S : Type 0} (n i : ℕ) (a b : Alloc S)
    → size_at a.pci_dev i ≡ 0
    → Given n (suc i) a b
    → Given (suc n) i a b
unfolding windows_from room_from
skip_Given n i a b e g = record {
  stacked = rw e g.stacked;
  bounded = omega (arith, g.bounded);
  same = g.same;
  slots = g.slots;
  below = λ j lt. g.below j (omega arith);
}

window_lem :
    (n i : ℕ) (sizes addresses : List ℕ) (size base : ℕ)
    → get_or sizes i 0 ≡ size
    → 0 < size
    → get_or addresses i 0 ≡ base
    → windows_from (suc n) i sizes addresses ≡ (base, size) ∷ windows_from n (suc i) sizes addresses
unfolding windows_from
window_lem n i sizes addresses size base e pos f = ground arith

take_Given :
    {S : Type 0} (n i base size : ℕ) (a : Alloc S) (hw : S) (b : Alloc S)
    → size_at a.pci_dev i ≡ size
    → 0 < size
    → i < length a.pci_dev.bar_address
    → a.free_mmio ≤ base
    → base < a.free_mmio + size
    → base % size ≡ 0
    → let d = a.pci_dev in
      let a' : Alloc S = record {
        hw = hw;
        free_mmio = base + size;
        pci_dev = record d { bar_address = set d.bar_address i base };
      } in
      Given n (suc i) a' b → Given (suc n) i a b
unfolding windows_from room_from
take_Given n i base size a hw b e pos slot low high aligned g = record {
  stacked =
      rw
        (window_lem n i a.pci_dev.bar_size b.pci_dev.bar_address size base e pos
          (g.below i (omega arith) ∙ get_or-set_self a.pci_dev.bar_address i base 0 slot))
        (low, aligned, g.stacked);
  bounded = omega (arith, e, g.bounded);
  same = g.same;
  slots = g.slots ∙ length-set a.pci_dev.bar_address i base;
  below = λ j lt.
      g.below j (omega arith) ∙ get_or-set_ne a.pci_dev.bar_address i j base 0 (λ e. omega arith);
}

module _ {S : Type 0} (ecam : Ecam S) where
  alloc_bar_skips : (i : ℕ) (a : Alloc S) → size_at a.pci_dev i ≡ 0 → alloc_bar ecam i a ≡ a
  unfolding alloc_bar
  alloc_bar_skips i a e = ground arith

  -- A round that gives a window away.
  alloc_bar_takes :
      (i : ℕ) (a : Alloc S) (size : ℕ)
      → size_at a.pci_dev i ≡ size
      → 0 < size
      → align_up a.free_mmio size + size < 2 ^ 32
      → alloc_bar ecam i a ≡ (
          let base = align_up a.free_mmio size in
          let d = a.pci_dev in
          record {
            hw = (alloc_bar ecam i a).hw;
            free_mmio = base + size;
            pci_dev = record d { bar_address = set d.bar_address i base };
          })
  unfolding alloc_bar
  alloc_bar_takes i a size e pos fits = ground arith

  pub alloc_bars-Given :
      (n i : ℕ) (a : Alloc S)
      → i + n ≤ 6
      → length a.pci_dev.bar_address ≡ 6
      → ((j : ℕ) → IsSize (size_at a.pci_dev j))
      → a.free_mmio + room_from n i a.pci_dev.bar_size ≤ 2 ^ 32
      → Given n i a (alloc_bars ecam n i a)
  unfolding alloc_bars windows_from room_from
  alloc_bars-Given zero i a top slots ok room = record {
    stacked = omega arith;
    bounded = omega arith;
    same = refl;
    slots = refl;
    below = λ j lt. refl;
  }
  alloc_bars-Given (suc n) i a top slots ok room = elim (ok i) [
    | inl none_here ↦ rw (alloc_bar_skips i a none_here) (
        skip_Given n i a _ none_here
          (alloc_bars-Given n (suc i) a (omega arith) slots ok (omega arith)))
    | inr (k, small, e) ↦
        let pos = one-le-pow k 2 (omega arith) in
        let base = align_up a.free_mmio (2 ^ k) in
        let (low, high, aligned) = align_up_bounds a.free_mmio k small (omega (arith, e)) in
        let hw = (alloc_bar ecam i a).hw in
        let d = a.pci_dev in
        let a' : Alloc S = record {
          hw = hw;
          free_mmio = base + 2 ^ k;
          pci_dev = record d { bar_address = set d.bar_address i base };
        } in
        rw (alloc_bar_takes i a (2 ^ k) e pos (omega (arith, e))) (
          take_Given n i base (2 ^ k) a hw _ e pos (omega arith) low high aligned (
            alloc_bars-Given n (suc i) a' (omega arith) (length-set d.bar_address i base ∙ slots) ok
              (omega (arith, e))))
  ]
