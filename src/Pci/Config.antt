-- ===== src/Pci/Config.antt =====
-- src/drivers/pci/pci_rc.c: the access to the configuration registers of a function.
pub mod Offset
use embed_template.Prelude.{ℕ, ◌*◌, ◌^◌, ◌%◌, bit_and, bit_or}
use embed_template.Pci.Data.{Ecam, Device, Bridge}

-- The offset from the ECAM base; `align` clears the low bits of the register's number.
unfoldable pub address_offset : ℕ → ℕ → ℕ → ℕ → ℕ → ℕ
address_offset align bus dev func offset =
    bit_or (bit_or (bit_or (bus * 2 ^ 20) (dev * 2 ^ 15)) (func * 2 ^ 12)) (bit_and offset align)

module _ {S : Type 0} (ecam : Ecam S) where
  unfoldable pub pcie_read_config_dword : S → ℕ → ℕ → ℕ → ℕ → ℕ
  pcie_read_config_dword hw bus dev func offset =
      ecam.load32 hw (address_offset 0xFFC bus dev func offset)

  unfoldable pub pcie_write_config_dword : S → ℕ → ℕ → ℕ → ℕ → ℕ → S
  pcie_write_config_dword hw bus dev func offset value =
      ecam.store32 hw (address_offset 0xFFC bus dev func offset) value

  unfoldable pub pcie_read_config_word : S → ℕ → ℕ → ℕ → ℕ → ℕ
  pcie_read_config_word hw bus dev func offset =
      ecam.load16 hw (address_offset 0xFFE bus dev func offset)

  unfoldable pub pcie_write_config_word : S → ℕ → ℕ → ℕ → ℕ → ℕ → S
  pcie_write_config_word hw bus dev func offset value =
      ecam.store16 hw (address_offset 0xFFE bus dev func offset) value

  unfoldable pub pci_read_config_word : S → Device → ℕ → ℕ
  unfolding pcie_read_config_word
  pci_read_config_word hw d addr = pcie_read_config_word hw d.bus d.dev d.func addr

  unfoldable pub pci_read_config_dword : S → Device → ℕ → ℕ
  unfolding pcie_read_config_dword
  pci_read_config_dword hw d addr = pcie_read_config_dword hw d.bus d.dev d.func addr

  unfoldable pub pci_write_config_word : S → Device → ℕ → ℕ → S
  unfolding pcie_write_config_word
  pci_write_config_word hw d addr value = pcie_write_config_word hw d.bus d.dev d.func addr value

  unfoldable pub pci_write_config_dword : S → Device → ℕ → ℕ → S
  unfolding pcie_write_config_dword
  pci_write_config_dword hw d addr value = pcie_write_config_dword hw d.bus d.dev d.func addr value

  unfoldable pub pcib_read_config_word : S → Bridge → ℕ → ℕ
  unfolding pcie_read_config_word
  pcib_read_config_word hw b addr = pcie_read_config_word hw b.bus b.dev b.func addr

  unfoldable pub pcib_read_config_dword : S → Bridge → ℕ → ℕ
  unfolding pcie_read_config_dword
  pcib_read_config_dword hw b addr = pcie_read_config_dword hw b.bus b.dev b.func addr

  unfoldable pub pcib_write_config_word : S → Bridge → ℕ → ℕ → S
  unfolding pcie_write_config_word
  pcib_write_config_word hw b addr value = pcie_write_config_word hw b.bus b.dev b.func addr value

  unfoldable pub pcib_write_config_dword : S → Bridge → ℕ → ℕ → S
  unfolding pcie_write_config_dword
  pcib_write_config_dword hw b addr value = pcie_write_config_dword hw b.bus b.dev b.func addr value
