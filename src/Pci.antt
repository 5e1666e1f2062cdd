-- ===== src/Pci.antt =====
-- src/drivers/pci/pci_rc.c, pci_utils.c and src/drivers/include/pci.h: the PCI root complex. The
-- configuration space behind the ECAM window is hardware: a parameter with its loads and stores.
mod Data
pub mod Config
pub mod Bars
pub mod Scan
pub mod Caps
pub mod Alloc
pub mod Utils
mod Tests
pub use Data.*
