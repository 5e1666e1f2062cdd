-- ===== src/Pci/Scan.antt =====
-- src/drivers/pci/pci_rc.c, do_pci_scan and pci_scan: the enumeration of a bus and, through its
-- bridges, of the buses behind it.
mod Rounds
pub mod Rule
pub mod Invariant
pub mod Restores
pub mod Once
use embed_template.Prelude.{
  ℕ, zero, suc, ◌+◌, ◌*◌, ◌/◌, ◌^◌, ◌%◌, bit_and, bit_or, Bool, true, false, not, ◌||◌, ltb, leb,
  ◌==◌, if◌then◌else◌, set, Option, none, some,
}
use embed_template.Pci.Data.{
  Ecam, Pci, Device, Bridge, Database, device_at, max_pci_devices, max_pci_bridges, max_functions,
  header_type_endpoint, header_type_bridge, max_bars,
}
use embed_template.Pci.Config.{pcie_read_config_dword}
use embed_template.Pci.Bars.{Bars, probe_bars}
use embed_template.Pci.Scan.Rounds.{Flow, ◌>>=◌, next, returned, stuck, finish, resume}

-- `BIT(15)`
abbrev pub pci_scanned : ℕ
pci_scanned = 2 ^ 15

-- `vendor == 0xFFFF || vendor == 0`: no function answers there.
unfoldable pub is_absent : ℕ → Bool
is_absent id_reg = id_reg % 2 ^ 16 == 0xFFFF || id_reg % 2 ^ 16 == 0

unfoldable pub vendor_of : ℕ → ℕ
vendor_of id_reg = id_reg % 2 ^ 16

unfoldable pub device_of : ℕ → ℕ
device_of id_reg = id_reg / 2 ^ 16 % 2 ^ 16

module _ {S : Type 0} (ecam : Ecam S) where
  pub config_dword : Pci S → ℕ → ℕ → ℕ → ℕ → ℕ
  unfolding pcie_read_config_dword
  config_dword s bus dev func offset = pcie_read_config_dword ecam s.hw bus dev func offset

  -- The endpoint's registers go into the next entry of the database.
  pub add_endpoint : ℕ → ℕ → ℕ → ℕ → Pci S → Pci S
  add_endpoint bus dev func id_reg s =
      let entry = device_at s.db s.db.device_count in
      let bars =
        probe_bars ecam bus dev func max_bars 0
          (record { hw = s.hw; bar_size = entry.bar_size; bar_address = entry.bar_address }) in
      let found : Device = record {
        bus = bus;
        dev = dev;
        func = func;
        header_type = header_type_endpoint;
        vendor_id = vendor_of id_reg;
        device_id = device_of id_reg;
        bar_size = bars.bar_size;
        bar_address = bars.bar_address;
      } in
      record s {
        hw = bars.hw;
        db = record s.db {
          device_info = set s.db.device_info s.db.device_count found;
          device_count = s.db.device_count + 1;
        };
      }

  pub add_bridge : ℕ → ℕ → ℕ → ℕ → Pci S → Pci S
  add_bridge bus dev func id_reg s =
      let bus_reg = config_dword s bus dev func 0x18 in
      let mem_reg = config_dword s bus dev func 0x20 in
      let found : Bridge = record {
        bus = bus;
        dev = dev;
        func = func;
        header_type = header_type_bridge;
        vendor_id = vendor_of id_reg;
        device_id = device_of id_reg;
        primary_bus = bus_reg % 2 ^ 8;
        secondary_bus = bus_reg / 2 ^ 8 % 2 ^ 8;
        subordinate_bus = bus_reg / 2 ^ 16 % 2 ^ 8;
        mem_base = bit_and mem_reg 0xFFF0 * 2 ^ 16 % 2 ^ 32;
        mem_limit = bit_and mem_reg 0xFFF00000;
      } in
      record s {
        db = record s.db {
          bridge_info = set s.db.bridge_info s.db.bridge_count found;
          bridge_count = s.db.bridge_count + 1;
        };
      }

  secondary_of : ℕ → ℕ → ℕ → Pci S → ℕ
  secondary_of bus dev func s = config_dword s bus dev func 0x18 / 2 ^ 8 % 2 ^ 8

  -- A bridge; `scan` is the call of `do_pci_scan` itself.
  scan_bridge : (ℕ → Pci S → Option (Pci S)) → ℕ → ℕ → ℕ → ℕ → Pci S → Flow (Pci S)
  scan_bridge scan bus dev func id_reg s =
      if leb max_pci_bridges s.db.bridge_count
      then returned s
      else if ltb bus (secondary_of bus dev func s)
      then resume (scan (secondary_of bus dev func s) (add_bridge bus dev func id_reg s))
      else next (add_bridge bus dev func id_reg s)

  -- One round of the loop over the functions of a device.
  scan_func : (ℕ → Pci S → Option (Pci S)) → ℕ → ℕ → ℕ → Pci S → Flow (Pci S)
  scan_func scan bus dev func s =
      let id_reg = config_dword s bus dev func 0 in
      let hdr_type = config_dword s bus dev func 0x0C / 2 ^ 16 % 2 ^ 7 in
      if is_absent id_reg
      then next s
      else if leb max_pci_devices s.db.device_count
      then returned s
      else if hdr_type == header_type_endpoint
      then next (add_endpoint bus dev func id_reg s)
      else if hdr_type == header_type_bridge
      then scan_bridge scan bus dev func id_reg s
      else next s

  -- The loop over `n` functions from `func` on.
  scan_funcs : (ℕ → Pci S → Option (Pci S)) → ℕ → ℕ → ℕ → ℕ → Pci S → Flow (Pci S)
  scan_funcs scan bus dev zero func s = next s
  scan_funcs scan bus dev (suc n) func s =
      scan_func scan bus dev func s >>= scan_funcs scan bus dev n (suc func)

  num_functions : ℕ → ℕ → Pci S → ℕ
  num_functions bus dev s =
      if bit_and (config_dword s bus dev 0 0x0C / 2 ^ 16 % 2 ^ 8) 0x80 == 0
      then 1
      else max_functions

  scan_dev : (ℕ → Pci S → Option (Pci S)) → ℕ → ℕ → Pci S → Flow (Pci S)
  scan_dev scan bus dev s =
      if is_absent (config_dword s bus dev 0 0)
      then next s
      else scan_funcs scan bus dev (num_functions bus dev s) 0 s

  -- The loop over `n` devices from `dev` on.
  scan_devs : (ℕ → Pci S → Option (Pci S)) → ℕ → ℕ → ℕ → Pci S → Flow (Pci S)
  scan_devs scan bus zero dev s = next s
  scan_devs scan bus (suc n) dev s = scan_dev scan bus dev s >>= scan_devs scan bus n (suc dev)

  -- The recursion on fuel: `none` when it runs out. A bridge is followed only to a bus of a higher
  -- number, so 256 is enough.
  pub do_pci_scan : ℕ → ℕ → Pci S → Option (Pci S)
  do_pci_scan zero bus s = none
  do_pci_scan (suc fuel) bus s = finish (scan_devs (do_pci_scan fuel) bus max_pci_devices 0 s)

  -- `pci_db.flags |= PCI_SCANNED`
  mark_scanned : Option (Pci S) → Option (Pci S)
  mark_scanned none = none
  mark_scanned (some s) =
      some (record s { db = record s.db { flags = bit_or s.db.flags pci_scanned } })

  pub pci_scan : ℕ → Pci S → Option (Pci S)
  pci_scan bus s =
      if not (bit_and s.db.flags pci_scanned == 0)
      then some s
      else mark_scanned (do_pci_scan 256 bus s)
