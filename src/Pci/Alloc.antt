-- ===== src/Pci/Alloc.antt =====
-- src/drivers/pci/pci_rc.c, pci_alloc: addresses for the registers of every device found.
pub mod Windows
pub mod Devices
use embed_template.Prelude.{
  ℕ, zero, suc, ◌+◌, ◌-◌, ◌*◌, ◌/◌, ◌^◌, ◌%◌, bit_and, bit_or, Bool, true, false, not, ◌&&◌, ◌==◌,
  if◌then◌else◌, List, get_or, set,
}
use embed_template.Prelude.Bits.{bit_not}
use embed_template.Pci.Data.{
  Ecam, Pci, Device, device_at, max_bars, header_type_endpoint, header_type_bridge,
}
use embed_template.Pci.Config.{pcie_read_config_dword, pcie_write_config_dword}
use embed_template.Pci.Caps.{MsiPort, pci_alloc_irq_vectors}

-- `(free_mmio + (alignment - 1)) & ~(alignment - 1)`
unfoldable pub align_up : ℕ → ℕ → ℕ
align_up free alignment = bit_and ((free + (alignment - 1)) % 2 ^ 32) (bit_not 32 (alignment - 1))

-- The hardware, `free_mmio` and the device that addresses are given to.
pub record Alloc (S : Type 0) : Type 0 where
  pub hw : S
  pub free_mmio : ℕ
  pub pci_dev : Device

abbrev pub size_at : Device → ℕ → ℕ
size_at d i = get_or d.bar_size i 0

abbrev pub address_at : Device → ℕ → ℕ
address_at d i = get_or d.bar_address i 0

module _ {S : Type 0} (ecam : Ecam S) where
  alloc_bar : ℕ → Alloc S → Alloc S
  alloc_bar i a =
      let d = a.pci_dev in
      let base = align_up a.free_mmio (size_at d i) in
      if size_at d i == 0 then a else record {
        hw = pcie_write_config_dword ecam a.hw d.bus d.dev d.func (0x10 + i * 4) base;
        free_mmio = (base + size_at d i) % 2 ^ 32;
        pci_dev = record d { bar_address = set d.bar_address i base };
      }

  -- The loop over `n` registers from `i` on.
  pub alloc_bars : ℕ → ℕ → Alloc S → Alloc S
  alloc_bars zero i a = a
  alloc_bars (suc n) i a = alloc_bars n (suc i) (alloc_bar i a)

  -- `cmd | 0x06`: memory space and bus mastering.
  enable_decoding : S → Device → S
  enable_decoding hw d =
      let cmd = pcie_read_config_dword ecam hw d.bus d.dev d.func 0x04 in
      pcie_write_config_dword ecam hw d.bus d.dev d.func 0x04 (bit_or cmd 0x06)

  is_root : Device → Bool
  is_root d = d.bus == 0 && d.dev == 0 && d.func == 0

  module _ (port : MsiPort S) where
    alloc_endpoint : Alloc S → Alloc S
    alloc_endpoint a =
        let b = alloc_bars max_bars 0 a in
        record b { hw = enable_decoding (pci_alloc_irq_vectors ecam port b.hw b.pci_dev) b.pci_dev }

    alloc_bridge : Alloc S → Alloc S
    alloc_bridge a =
        let d = a.pci_dev in
        let base = bit_and a.free_mmio 0xFFF00000 in
        let hw = pcie_write_config_dword ecam a.hw d.bus d.dev d.func 0x20 (base / 2 ^ 16) in
        record a { hw = enable_decoding hw d }

    alloc_device : Alloc S → Alloc S
    alloc_device a =
        if is_root a.pci_dev
        then a
        else if a.pci_dev.header_type == header_type_endpoint
        then alloc_endpoint a
        else if a.pci_dev.header_type == header_type_bridge
        then alloc_bridge a
        else a

    -- One round of the loop over the devices: the entry is changed in place.
    alloc_entry : ℕ → Pci S → Pci S
    alloc_entry i s =
        let a =
          alloc_device
            (record { hw = s.hw; free_mmio = s.free_mmio; pci_dev = device_at s.db i }) in
        record {
          hw = a.hw;
          db = record s.db { device_info = set s.db.device_info i a.pci_dev };
          free_mmio = a.free_mmio;
        }

    -- The loop over `n` devices from `i` on.
    alloc_entries : ℕ → ℕ → Pci S → Pci S
    alloc_entries zero i s = s
    alloc_entries (suc n) i s = alloc_entries n (suc i) (alloc_entry i s)

    pub pci_alloc : Pci S → Pci S
    pci_alloc s = alloc_entries s.db.device_count 0 s
