-- ===== src/Pci/Tests.antt =====
-- The theorems on the PCI root complex at concrete hardware and databases.
use embed_template.Prelude.{
  ℕ, zero, suc, ◌+◌, ◌-◌, ◌*◌, ◌/◌, ◌%◌, ◌^◌, ◌≤◌, ◌<◌, ◌≡◌, refl, arith, [], ◌∷◌, replicate,
  get_or, ◌==◌, ◌||◌, ltb, leb, if◌then◌else◌, inl, inr,
}
use embed_template.Pci.Data.{Ecam, Pci, Device, empty_database, no_device, device_at}
use embed_template.Pci.Config.{address_offset, pcie_read_config_dword}
use embed_template.Pci.Config.Offset.{address_offset_lem}
use embed_template.Pci.Bars.{Bars, bar_offset, read_bar, write_bar, all_ones}
use embed_template.Pci.Bars.Restore.{BarLaws, Same}
use embed_template.Pci.Scan.{pci_scan}
use embed_template.Pci.Scan.Rule.{Ends}
use embed_template.Pci.Scan.Invariant.{IsDatabase, pci_scan-IsDatabase}
use embed_template.Pci.Scan.Restores.{EndpointBars, pci_scan-Same}
use embed_template.Pci.Caps.{
  MsiPort, pcie_find_capability, cap_id, next_cap, cap_header, first_cap_ptr, has_list,
}
use embed_template.Pci.Caps.Walk.{first_cap, pcie_find_capability_lem}
use embed_template.Pci.Alloc.{pci_alloc, size_at}
use embed_template.Pci.Alloc.Windows.{IsSize, Stacked, room_from}
use embed_template.Pci.Alloc.Devices.{IsSized, windows, room, pci_alloc-Stacked}

-- One endpoint, 00:01.0, whose first register is a 32-bit window of 4 KB at a page, the state.
abbrev one_device : Ecam ℕ
one_device = record {
  load32 = λ page a.
      if a == 2 ^ 15 + 16
      then page % 2 ^ 20 * 2 ^ 12
      else if a == 2 ^ 15
      then 0x12348086
      else if ltb a (2 ^ 15) || leb (2 ^ 16) a
      then 0xFFFFFFFF
      else 0;
  store32 = λ page a v. if a == 2 ^ 15 + 16 then v / 2 ^ 12 else page;
  load16 = λ page a. 0;
  store16 = λ page a v. page;
}

abbrev IsBar : ℕ → Type 0
IsBar a = (2 ^ 15 ≤ a) × (a < 2 ^ 16) × (16 ≤ a % 4096) × (a % 4096 < 40)

abbrev settle : ℕ → ℕ → ℕ
settle a v = if a == 2 ^ 15 + 16 then v / 2 ^ 12 % 2 ^ 20 * 2 ^ 12 else 0

one_device_laws : BarLaws one_device IsBar settle
one_device_laws = record {
  stored = λ hw a v h. ground arith;
  settled = λ hw a h. ground arith;
  kept = λ hw a b v h ne. ground arith;
}

one_device_layout : EndpointBars one_device IsBar
unfolding pcie_read_config_dword
one_device_layout = record {
  bars = λ hw bus dev func i leaf hd hf hi. ground (
    arith,
    address_offset_lem bus dev func 12 hd hf (omega arith),
    address_offset_lem bus dev func (bar_offset i) hd hf (omega arith),
  );
}

abbrev start : Pci ℕ
start = record { hw = 7; db = empty_database; free_mmio = 0x14000000 }

zeros : (n i : ℕ) → ◌≡◌ {A = ℕ} (get_or (replicate n 0) i 0) 0
zeros zero i = refl
zeros (suc n) zero = refl
zeros (suc n) (suc i) = zeros n i

empties : (n i : ℕ) → get_or (replicate n no_device) i no_device ≡ no_device
empties zero i = refl
empties (suc n) zero = refl
empties (suc n) (suc i) = empties n i

empty_database-IsDatabase : IsDatabase empty_database
empty_database-IsDatabase = record {
  devices = omega arith;
  bridges = omega arith;
  device_slots = refl;
  bridge_slots = refl;
  has_bars = λ i. rw (empties 32 i) (record { sizes = refl; addresses = refl });
  endpoints = λ i lt. absurd (omega arith);
  bridges_found = λ i lt. absurd (omega arith);
}

pci_scan-IsDatabase_example : Ends (λ s'. IsDatabase s'.db) (pci_scan one_device 0 start)
pci_scan-IsDatabase_example =
    pci_scan-IsDatabase one_device 0 start (omega arith) empty_database-IsDatabase

pci_scan-Same_example : Ends (λ s'. Same one_device 7 s'.hw) (pci_scan one_device 0 start)
pci_scan-Same_example =
    pci_scan-Same one_device IsBar settle one_device_laws one_device_layout 0 start (omega arith)

abbrev no_bars : Bars ℕ
no_bars = record { hw = 7; bar_size = replicate 6 0; bar_address = replicate 6 0 }

single_reads :
    read_bar one_device 0 1 0 (write_bar one_device 0 1 0 7 (bar_offset 0) all_ones) (bar_offset 0)
    ≡ 2 ^ 32 - 4096 + 0
unfolding read_bar write_bar pcie_read_config_dword address_offset
single_reads = refl

-- Every register reads as the lower half of a 64-bit window of 4 GB does, and its upper half.
abbrev wide_device : Ecam ℕ
wide_device = record {
  load32 = λ hw a. if a == 2 ^ 15 + 16 then 4 else 0xFFFFFFFF;
  store32 = λ hw a v. hw;
  load16 = λ hw a. 0;
  store16 = λ hw a v. hw;
}

lower_reads :
    read_bar wide_device 0 1 0
      (write_bar wide_device 0 1 0 7 (bar_offset 0) all_ones)
      (bar_offset 0)
    ≡ 4
unfolding read_bar write_bar address_offset
lower_reads = refl

upper_reads :
    read_bar wide_device 0 1 0
      (write_bar wide_device 0 1 0
        (write_bar wide_device 0 1 0 7 (bar_offset 0) all_ones)
        ((bar_offset 0 + 4) % 2 ^ 8)
        all_ones)
      ((bar_offset 0 + 4) % 2 ^ 8)
    ≡ 0xFFFFFFFF
unfolding read_bar write_bar address_offset
upper_reads = refl

-- Two capabilities, at 0x50 and 0x60; the second is the one for interrupts.
abbrev two_caps : Ecam ℕ
two_caps = record {
  load32 = λ hw a.
      if a == 2 ^ 15 + 4
      then 2 ^ 20
      else if a == 2 ^ 15 + 0x34
      then 0x50
      else if a == 2 ^ 15 + 0x50
      then 0x6001
      else if a == 2 ^ 15 + 0x60
      then 0x0005
      else 0;
  store32 = λ hw a v. hw;
  load16 = λ hw a. 0;
  store16 = λ hw a v. hw;
}

pcie_find_capability_lem_example : pcie_find_capability two_caps 7 0 1 0 5 ≡ 0x60
unfolding has_list cap_id next_cap cap_header first_cap_ptr first_cap pcie_read_config_dword
    address_offset
pcie_find_capability_lem_example =
    pcie_find_capability_lem two_caps 7 0 1 0 5 ((0x50, 1) ∷ (0x60, 5) ∷ [])
      (refl, omega arith, omega arith, refl, (refl, omega arith, omega arith, refl, refl))

-- A device with a window of 4 KB and one of 1 MB.
abbrev two_windows : Device
two_windows = record {
  bus = 0;
  dev = 1;
  func = 0;
  header_type = 0;
  vendor_id = 0x8086;
  device_id = 0x1234;
  bar_size = 4096 ∷ 2 ^ 20 ∷ replicate 4 0;
  bar_address = 0x14000000 ∷ 0x14100000 ∷ replicate 4 0;
}

two_windows-IsSized : IsSized two_windows
two_windows-IsSized = record { slots = refl; sizes = sizes }
  where
    sizes : (j : ℕ) → IsSize (size_at two_windows j)
    sizes zero = inr (12, omega arith, refl)
    sizes (suc zero) = inr (20, omega arith, refl)
    sizes (suc (suc j)) = inl (zeros 4 j)

abbrev one_found : Pci ℕ
one_found = record start {
  db = record empty_database { device_count = 1; device_info = two_windows ∷ [] };
}

all-IsSized : (j : ℕ) → IsSized (device_at one_found.db j)
all-IsSized zero = two_windows-IsSized
all-IsSized (suc j) = record { slots = refl; sizes = λ i. inl (zeros 6 i) }

abbrev no_vectors : MsiPort ℕ
no_vectors = record { msi_base = 0; register_vector = λ hw d. (1, 0, hw) }

pci_alloc-Stacked_example :
    let t = pci_alloc one_device no_vectors one_found in
    Stacked 0x14000000 (windows 1 0 t.db.device_info) t.free_mmio
unfolding room room_from
pci_alloc-Stacked_example =
    pci_alloc-Stacked one_device no_vectors one_found (omega arith) all-IsSized (omega arith)

-- Two bytes of one dword.
abbrev slot : ℕ
slot = 1

abbrev byte : ℕ
byte = 19

same_dword : address_offset 0xFFC 0 slot 0 byte ≡ address_offset 0xFFC 0 1 0 16
unfolding address_offset
same_dword = refl
