-- ===== src/Pci/Data.antt =====
-- src/drivers/include/pci.h and the statics of pci_rc.c: the database of the devices and bridges
-- found, and the hardware's configuration space.
use embed_template.Prelude.{ℕ, List, replicate, get_or}

abbrev pub max_pci_devices : ℕ
max_pci_devices = 32

abbrev pub max_pci_bridges : ℕ
max_pci_bridges = 2

abbrev pub max_functions : ℕ
max_functions = 8

abbrev pub max_bars : ℕ
max_bars = 6

abbrev pub header_type_endpoint : ℕ
header_type_endpoint = 0

abbrev pub header_type_bridge : ℕ
header_type_bridge = 1

-- The hardware, in state `S`: `ECAM_ADDR32` and `ECAM_ADDR16` at an offset from the base, for
-- loads and for stores. A load changes nothing.
pub record Ecam (S : Type 0) : Type 0 where
  pub load32 : S → ℕ → ℕ
  pub store32 : S → ℕ → ℕ → S
  pub load16 : S → ℕ → ℕ
  pub store16 : S → ℕ → ℕ → S

pub record Device : Type 0 where
  pub bus : ℕ
  pub dev : ℕ
  pub func : ℕ
  pub header_type : ℕ
  pub vendor_id : ℕ
  pub device_id : ℕ
  pub bar_size : List ℕ
  pub bar_address : List ℕ

pub record Bridge : Type 0 where
  pub bus : ℕ
  pub dev : ℕ
  pub func : ℕ
  pub header_type : ℕ
  pub vendor_id : ℕ
  pub device_id : ℕ
  pub primary_bus : ℕ
  pub secondary_bus : ℕ
  pub subordinate_bus : ℕ
  pub mem_base : ℕ
  pub mem_limit : ℕ

pub record Database : Type 0 where
  pub flags : ℕ
  pub device_count : ℕ
  pub bridge_count : ℕ
  pub device_info : List Device
  pub bridge_info : List Bridge

-- An entry of the zero-initialised arrays.
abbrev pub no_device : Device
no_device = record {
  bus = 0;
  dev = 0;
  func = 0;
  header_type = 0;
  vendor_id = 0;
  device_id = 0;
  bar_size = replicate max_bars 0;
  bar_address = replicate max_bars 0;
}

abbrev pub no_bridge : Bridge
no_bridge = record {
  bus = 0;
  dev = 0;
  func = 0;
  header_type = 0;
  vendor_id = 0;
  device_id = 0;
  primary_bus = 0;
  secondary_bus = 0;
  subordinate_bus = 0;
  mem_base = 0;
  mem_limit = 0;
}

-- The database before the first scan.
abbrev pub empty_database : Database
empty_database = record {
  flags = 0;
  device_count = 0;
  bridge_count = 0;
  device_info = replicate max_pci_devices no_device;
  bridge_info = replicate max_pci_bridges no_bridge;
}

-- The hardware and the statics `pci_db` and `free_mmio`.
pub record Pci (S : Type 0) : Type 0 where
  pub hw : S
  pub db : Database
  pub free_mmio : ℕ

abbrev pub device_at : Database → ℕ → Device
device_at db i = get_or db.device_info i no_device

abbrev pub bridge_at : Database → ℕ → Bridge
bridge_at db i = get_or db.bridge_info i no_bridge
