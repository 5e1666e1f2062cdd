-- ===== src/Pci/Alloc/Devices.antt =====
-- The windows of all devices together, after pci_alloc.
use embed_template.Prelude.{
  ℕ, zero, suc, ◌+◌, ◌^◌, ◌≤◌, ◌<◌, ◌≡◌, ◌∙◌, ap, sym, refl, arith, List, [], ◌∷◌, ◌++◌, get_or,
  set, ◌==◌, ◌&&◌, if◌then◌else◌, length, Bool-cases, inl, inr, ==_iff, if_intro, true, false,
  get_or-set_self, get_or-set_ne, length-set,
}
use mathlib.Core.Path.{subst}
use embed_template.Pci.Data.{Ecam, Pci, Device, device_at, no_device}
use embed_template.Pci.Caps.{MsiPort}
use embed_template.Pci.Scan.Invariant.{every_set}
use embed_template.Pci.Alloc.{
  Alloc, size_at, alloc_bars, is_root, alloc_device, alloc_endpoint, alloc_bridge, alloc_entry,
  alloc_entries, pci_alloc,
}
use embed_template.Pci.Alloc.Windows.{IsSize, Stacked, windows_from, room_from, alloc_bars-Given}

-- The windows of a device that pci_alloc gives addresses to.
device_windows : Device → List (ℕ × ℕ)
device_windows d =
    if d.bus == 0 && d.dev == 0 && d.func == 0
    then []
    else if d.header_type == 0
    then windows_from 6 0 d.bar_size d.bar_address
    else []

pub windows : ℕ → ℕ → List Device → List (ℕ × ℕ)
windows zero i devices = []
windows (suc n) i devices = device_windows (get_or devices i no_device) ++ windows n (suc i) devices

unfoldable pub room : ℕ → ℕ → List Device → ℕ
room zero i devices = 0
room (suc n) i devices =
    room_from 6 0 (get_or devices i no_device).bar_size + room n (suc i) devices

-- Six registers, whose sizes are 0 or powers of two.
pub record IsSized (d : Device) : Type 0 where
  pub slots : length d.bar_address ≡ 6
  pub sizes : (j : ℕ) → IsSize (size_at d j)

record DeviceGiven {S : Type 0} (a b : Alloc S) : Type 0 where
  stacked : Stacked a.free_mmio (device_windows b.pci_dev) b.free_mmio
  bounded : b.free_mmio ≤ a.free_mmio + room_from 6 0 a.pci_dev.bar_size
  sized : IsSized b.pci_dev

Stacked-append :
    (lo mid hi : ℕ) (xs ys : List (ℕ × ℕ))
    → Stacked lo xs mid
    → Stacked mid ys hi
    → Stacked lo (xs ++ ys) hi
Stacked-append lo mid hi [] [] h k = omega arith
Stacked-append lo mid hi [] ((a, n) ∷ ys) h (low, whole, rest) = (omega arith, whole, rest)
Stacked-append lo mid hi ((a, n) ∷ xs) ys (low, whole, rest) k =
    (low, whole, Stacked-append (a + n) mid hi xs ys rest k)

room-set :
    (n i j : ℕ) (devices : List Device) (d : Device)
    → i < j
    → room n j (set devices i d) ≡ room n j devices
unfolding room
room-set zero i j devices d h = refl
room-set (suc n) i j devices d h =
    let other = get_or-set_ne devices i j d no_device (λ e. omega arith) in
    omega (
      arith,
      ap (λ t. room_from 6 0 t.bar_size) other,
      room-set n i (suc j) devices d (omega arith),
    )

module _ {S : Type 0} (ecam : Ecam S) (port : MsiPort S) where
  endpoint_windows :
      (d : Device)
      → is_root ecam d ≡ false
      → d.header_type ≡ 0
      → device_windows d ≡ windows_from 6 0 d.bar_size d.bar_address
  unfolding is_root device_windows
  endpoint_windows d root leaf = ground arith

  root_windows : (d : Device) → is_root ecam d ≡ true → device_windows d ≡ []
  unfolding is_root device_windows
  root_windows d root = ground arith

  other_windows : (d : Device) → (d.header_type == 0) ≡ false → device_windows d ≡ []
  unfolding device_windows
  other_windows d other = ground arith

  endpoint_given :
      (a : Alloc S)
      → is_root ecam a.pci_dev ≡ false
      → a.pci_dev.header_type ≡ 0
      → IsSized a.pci_dev
      → a.free_mmio + room_from 6 0 a.pci_dev.bar_size ≤ 2 ^ 32
      → DeviceGiven a (alloc_endpoint ecam port a)
  unfolding alloc_endpoint is_root
  endpoint_given a root leaf z fits =
      let g = alloc_bars-Given ecam 6 0 a (omega arith) z.slots z.sizes fits in
      let b = alloc_bars ecam 6 0 a in
      let d' = record a.pci_dev { bar_address = b.pci_dev.bar_address } in
      let found = ap device_windows g.same ∙ endpoint_windows d' root leaf in
      record {
        stacked = subst (λ t. Stacked a.free_mmio t b.free_mmio) (sym found) g.stacked;
        bounded = g.bounded;
        sized = record {
          slots = g.slots ∙ z.slots;
          sizes = λ j. subst (λ d. IsSize (size_at d j)) (sym g.same) (z.sizes j);
        };
      }

  unchanged_given :
      (a : Alloc S) (hw : S)
      → IsSized a.pci_dev
      → device_windows a.pci_dev ≡ []
      → DeviceGiven a (record a { hw = hw })
  unchanged_given a hw z e = record {
    stacked = rw e (omega arith);
    bounded = omega arith;
    sized = z;
  }

  alloc_device-DeviceGiven :
      (a : Alloc S)
      → IsSized a.pci_dev
      → a.free_mmio + room_from 6 0 a.pci_dev.bar_size ≤ 2 ^ 32
      → DeviceGiven a (alloc_device ecam port a)
  unfolding alloc_device alloc_bridge
  alloc_device-DeviceGiven a z fits = elim (Bool-cases (is_root ecam a.pci_dev)) [
    | inl root ↦ rw root (unchanged_given a a.hw z (root_windows a.pci_dev root))
    | inr behind ↦ rw behind (elim (Bool-cases (a.pci_dev.header_type == 0)) [
      | inl leaf ↦
          rw leaf (endpoint_given a behind ((==_iff a.pci_dev.header_type 0).0 leaf) z fits)
      | inr other ↦
          let same = λ (hw : S). unchanged_given a hw z (other_windows a.pci_dev other) in
          rw other (
            if_intro (a.pci_dev.header_type == 1) (DeviceGiven a)
              (same (alloc_bridge ecam port a).hw) (same a.hw))
    ])
  ]

  record AllGiven (n i : ℕ) (s t : Pci S) : Type 0 where
    stacked : Stacked s.free_mmio (windows n i t.db.device_info) t.free_mmio
    below : (j : ℕ) → j < i → device_at t.db j ≡ device_at s.db j

  alloc_entries-AllGiven :
      (n i : ℕ) (s : Pci S)
      → i + n ≤ length s.db.device_info
      → ((j : ℕ) → IsSized (device_at s.db j))
      → s.free_mmio + room n i s.db.device_info ≤ 2 ^ 32
      → AllGiven n i s (alloc_entries ecam port n i s)
  unfolding alloc_entries windows room alloc_entry
  alloc_entries-AllGiven zero i s top z fits = record {
    stacked = omega arith;
    below = λ j lt. refl;
  }
  alloc_entries-AllGiven (suc n) i s top z fits =
      let here = device_at s.db i in
      let a : Alloc S = record { hw = s.hw; free_mmio = s.free_mmio; pci_dev = here } in
      let b = alloc_device ecam port a in
      let g = alloc_device-DeviceGiven a (z i) (omega arith) in
      let t = alloc_entry ecam port i s in
      let devices = s.db.device_info in
      let later = room-set n i (suc i) devices b.pci_dev (omega arith) in
      let rest =
        alloc_entries-AllGiven n (suc i) t (omega (arith, length-set devices i b.pci_dev))
          (every_set IsSized devices i b.pci_dev no_device g.sized z)
          (omega (arith, later, g.bounded)) in
      let at_i =
        rest.below i (omega arith) ∙ get_or-set_self devices i b.pci_dev no_device (omega arith) in
      record {
        stacked =
            Stacked-append s.free_mmio b.free_mmio _ _ _
              (subst (λ d. Stacked s.free_mmio (device_windows d) b.free_mmio) (sym at_i) g.stacked)
              rest.stacked;
        below = λ j lt.
            rest.below j (omega arith)
            ∙ get_or-set_ne devices i j b.pci_dev no_device (λ e. omega arith);
      }

  -- The sizes being powers of two, and free memory enough for twice their sum below 4 GB, all
  -- windows given out are aligned to their sizes and lie one behind the other, from the first free
  -- address up to the new one: no two devices overlap.
  pub pci_alloc-Stacked :
      (s : Pci S)
      → s.db.device_count ≤ length s.db.device_info
      → ((j : ℕ) → IsSized (device_at s.db j))
      → s.free_mmio + room s.db.device_count 0 s.db.device_info ≤ 2 ^ 32
      → let t = pci_alloc ecam port s in
        Stacked s.free_mmio (windows s.db.device_count 0 t.db.device_info) t.free_mmio
  unfolding pci_alloc
  pci_alloc-Stacked s top z fits =
      (alloc_entries-AllGiven s.db.device_count 0 s (omega arith) z fits).stacked
