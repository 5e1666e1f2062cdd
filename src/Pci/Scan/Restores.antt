-- ===== src/Pci/Scan/Restores.antt =====
-- The enumeration leaves the hardware as it found it.
use embed_template.Prelude.{ℕ, ◌/◌, ◌^◌, ◌%◌, ◌<◌, ◌≡◌, ◌∙◌, refl}
use embed_template.Pci.Data.{Ecam, Pci, device_at}
use embed_template.Pci.Config.{address_offset, pcie_read_config_dword}
use embed_template.Pci.Bars.{bar_offset}
use embed_template.Pci.Bars.Restore.{BarLaws, Same, probe_bars-Same}
use embed_template.Pci.Scan.{add_endpoint, add_bridge, config_dword, pci_scan}
use embed_template.Pci.Scan.Rule.{Ends, Keeps, pci_scan-Ends}

-- The base address registers of the hardware include the six of every endpoint.
pub record EndpointBars {S : Type 0} (ecam : Ecam S) (IsBar : ℕ → Type 0) : Type 0 where
  pub bars :
      (hw : S) (bus dev func i : ℕ)
      → pcie_read_config_dword ecam hw bus dev func 0x0C / 2 ^ 16 % 2 ^ 7 ≡ 0
      → dev < 32
      → func < 8
      → i < 6
      → IsBar (address_offset 0xFFC bus dev func (bar_offset i))

module _ {S : Type 0} (ecam : Ecam S) (IsBar : ℕ → Type 0) (settle : ℕ → ℕ → ℕ)
    (laws : BarLaws ecam IsBar settle) (layout : EndpointBars ecam IsBar) where
  keeps_registers : (hw : S) → Keeps ecam (λ s. Same ecam hw s.hw)
  unfolding add_endpoint add_bridge config_dword
  keeps_registers hw = record {
    endpoint = λ bus dev func s on_bus in_slot in_dev room there leaf same.
        let entry = device_at s.db s.db.device_count in
        let probed =
          probe_bars-Same ecam IsBar settle laws bus dev func in_slot in_dev
            (λ i lt. layout.bars s.hw bus dev func i leaf in_slot in_dev lt) 6 0
            (record { hw = s.hw; bar_size = entry.bar_size; bar_address = entry.bar_address }) in
        λ a. probed a ∙ same a;
    bridge = λ bus dev func s on_bus in_slot in_dev room same. same;
  }

  -- Sizing the registers is transparent: where the base address registers of the endpoints behave
  -- as documented, an enumeration returns with every configuration register reading as before it.
  pub pci_scan-Same :
      (bus : ℕ) (s : Pci S) → bus < 256 → Ends (λ s'. Same ecam s.hw s'.hw) (pci_scan ecam bus s)
  pci_scan-Same bus s on_bus =
      pci_scan-Ends ecam (λ s'. Same ecam s.hw s'.hw) (keeps_registers s.hw) (λ s' f same. same) bus
        s on_bus (λ a. refl)
