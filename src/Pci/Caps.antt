-- ===== src/Pci/Caps.antt =====
-- src/drivers/pci/pci_rc.c, pcie_find_capability and pci_alloc_irq_vectors: the walk along the list
-- of capabilities, and the message-signalled interrupt (MSI) of a device.
pub mod Walk
use embed_template.Prelude.{
  ℕ, zero, suc, ◌+◌, ◌*◌, ◌/◌, ◌^◌, ◌%◌, bit_and, bit_or, Bool, true, false, not, ◌&&◌, ltb, ◌==◌,
  if◌then◌else◌,
}
use embed_template.Pci.Data.{Ecam, Device}
use embed_template.Pci.Config.{
  pcie_read_config_dword, pci_write_config_dword, pci_write_config_word, pci_read_config_word,
}

abbrev pub msi_cap_id : ℕ
msi_cap_id = 5

module _ {S : Type 0} (ecam : Ecam S) (hw : S) (bus dev func : ℕ) where
  -- The header of the capability at `cap_ptr`, shifted down from the dword it stands in.
  unfoldable pub cap_header : ℕ → ℕ
  cap_header cap_ptr =
      pcie_read_config_dword ecam hw bus dev func (bit_and cap_ptr 0xFC)
      / 2 ^ (bit_and cap_ptr 0x03 * 8)

  unfoldable pub cap_id : ℕ → ℕ
  cap_id cap_ptr = cap_header cap_ptr % 2 ^ 8

  unfoldable pub next_cap : ℕ → ℕ
  next_cap cap_ptr = cap_header cap_ptr / 2 ^ 8 % 2 ^ 8

  -- `while (cap_ptr != 0 && --timeout > 0)`
  find_from : ℕ → ℕ → ℕ → ℕ
  find_from match_cap_id zero cap_ptr = 0
  find_from match_cap_id (suc timeout) cap_ptr = elim (not (cap_ptr == 0) && ltb 0 timeout) [
    | false ↦ 0
    | true ↦ elim (cap_id cap_ptr == match_cap_id) [
      | true ↦ cap_ptr % 2 ^ 8
      | false ↦ find_from match_cap_id timeout (next_cap cap_ptr)
    ]
  ]

  -- The bit of the status register that tells whether there is a list.
  unfoldable pub has_list : Bool
  has_list =
      not
        (bit_and (pcie_read_config_dword ecam hw bus dev func 0x04 / 2 ^ 16 % 2 ^ 16) (2 ^ 4) == 0)

  unfoldable pub first_cap_ptr : ℕ
  first_cap_ptr = pcie_read_config_dword ecam hw bus dev func 0x34 % 2 ^ 8

  pub pcie_find_capability : ℕ → ℕ
  pcie_find_capability match_cap_id =
      if not has_list then 0 else find_from match_cap_id 16 first_cap_ptr

-- `pcie_register_msi_vector` of the port: its result, 0 for success, the vector and the hardware.
pub record MsiPort (S : Type 0) : Type 0 where
  pub msi_base : ℕ
  pub register_vector : S → Device → ℕ × ℕ × S

module _ {S : Type 0} (ecam : Ecam S) (port : MsiPort S) where
  program_msi : S → Device → ℕ → ℕ → S
  program_msi hw d cap vector =
      let hw₁ = pci_write_config_dword ecam hw d (cap + 0x04) (port.msi_base % 2 ^ 32) in
      let hw₂ = pci_write_config_dword ecam hw₁ d (cap + 0x08) 0 in
      let hw₃ = pci_write_config_word ecam hw₂ d (cap + 0x0C) (vector % 2 ^ 16) in
      let msg_ctrl = pci_read_config_word ecam hw₃ d (cap + 2) in
      pci_write_config_word ecam hw₃ d (cap + 2) (bit_or msg_ctrl 1)

  pub pci_alloc_irq_vectors : S → Device → S
  pci_alloc_irq_vectors hw d =
      let cap = pcie_find_capability ecam hw d.bus d.dev d.func msi_cap_id in
      let (failed, vector, hw') = port.register_vector hw d in
      if cap == 0 then hw else if not (failed == 0) then hw' else program_msi hw' d cap vector
