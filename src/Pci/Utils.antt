-- ===== src/Pci/Utils.antt =====
-- src/drivers/pci/pci_utils.c, and the searches of the database in pci_rc.c.
pub mod Find
pub mod Window
use embed_template.Prelude.{
  ℕ, zero, suc, ◌+◌, ◌-◌, ◌*◌, ◌/◌, ◌^◌, ◌%◌, bit_and, bit_or, Bool, true, false, not, ◌&&◌, ◌||◌,
  ltb, ◌==◌, if◌then◌else◌, Option, some, none, List,
}
use embed_template.Prelude.Bits.{bit_not}
use embed_template.Pci.Data.{
  Ecam, Pci, Device, Bridge, Database, device_at, bridge_at, max_bars, header_type_bridge,
}
use embed_template.Pci.Config.{
  pci_read_config_dword, pci_write_config_dword, pcib_read_config_dword, pcib_write_config_dword,
  pcib_write_config_word,
}
use embed_template.Pci.Bars.{bar_offset, no_memory, is_64bit}
use embed_template.Pci.Alloc.{size_at, address_at}

-- The index of the first of `n` devices from `i` on that passes the test, for the pointer to it.
find_device : (Device → Bool) → Database → ℕ → ℕ → Option ℕ
find_device test db zero i = none
find_device test db (suc n) i = elim (test (device_at db i)) [
  | true ↦ some i
  | false ↦ find_device test db n (suc i)
]

pub has_id : ℕ → ℕ → Device → Bool
has_id vendor_id device_id d = d.vendor_id == vendor_id && d.device_id == device_id

pub has_bdf : ℕ → ℕ → ℕ → Device → Bool
has_bdf bus dev func d = d.bus == bus && d.dev == dev && d.func == func

pub pci_find_by_id : ℕ → ℕ → Database → Option ℕ
pci_find_by_id vendor_id device_id db =
    find_device (has_id vendor_id device_id) db db.device_count 0

pub pci_find_by_bdf : ℕ → ℕ → ℕ → Database → Option ℕ
pci_find_by_bdf bus dev func db = find_device (has_bdf bus dev func) db db.device_count 0

-- The lowest start and the highest end of `n` registers from `i` on, `uint32_t` both.
abbrev end_of : Device → ℕ → ℕ
end_of d i = (address_at d i + size_at d i + (2 ^ 32 - 1)) % 2 ^ 32

widen : Device → ℕ → ℕ × ℕ → ℕ × ℕ
widen d i (base, limit) =
    if ltb 0 (size_at d i) && not (address_at d i == 0)
    then (
      if ltb (address_at d i) base then address_at d i else base,
      if ltb limit (end_of d i) then end_of d i else limit,
    )
    else (base, limit)

window_from : Device → ℕ → ℕ → ℕ × ℕ → ℕ × ℕ
window_from d zero i w = w
window_from d (suc n) i w = window_from d n (suc i) (widen d i w)

pub bridge_window : Device → ℕ × ℕ
bridge_window d = window_from d max_bars 0 (0xFFFFFFFF, 0)

-- `(uint16_t)((x & 0xFFF00000) >> 16)`
pub window_word : ℕ → ℕ
window_word x = bit_and x 0xFFF00000 / 2 ^ 16 % 2 ^ 16

module _ {S : Type 0} (ecam : Ecam S) where
  pci_enable_device : S → Device → S
  pci_enable_device hw d =
      pci_write_config_dword ecam hw d 0x04 (bit_or (pci_read_config_dword ecam hw d 0x04) 0x03)

  pci_set_master : S → Device → S
  pci_set_master hw d =
      pci_write_config_dword ecam hw d 0x04 (bit_or (pci_read_config_dword ecam hw d 0x04) 0x04)

  -- The address of a register's window, `none` for the null pointer.
  pci_ioremap_bar : S → Device → ℕ → Option ℕ
  pci_ioremap_bar hw d i =
      let value = pci_read_config_dword ecam hw d (bar_offset i) in
      let upper = pci_read_config_dword ecam hw d ((bar_offset i + 4) % 2 ^ 8) in
      let address =
        if is_64bit value && ltb i (max_bars - 1) then bit_or value (upper * 2 ^ 32) else value in
      if size_at d i == 0
      then none
      else if no_memory value
      then none
      else some (bit_and address 0xFFFFFFFFFFFFFFF0)

  -- The first of `n` bridges from `i` on whose bus below is the device's.
  parent_from : S → Database → ℕ → ℕ → ℕ → Option Bridge
  parent_from hw db bus zero i = none
  parent_from hw db bus (suc n) i =
      let b = bridge_at db i in
      elim (b.header_type == header_type_bridge
        && pcib_read_config_dword ecam hw b 0x18 / 2 ^ 8 % 2 ^ 8 == bus) [
          | true ↦ some b
          | false ↦ parent_from hw db bus n (suc i)
        ]

  open_window : S → Device → Bridge → S
  open_window hw d b =
      let (base, limit) = bridge_window d in
      if not (limit == 0)
      then pcib_write_config_word ecam (pcib_write_config_word ecam hw b 0x20 (window_word base)) b
          0x22 (window_word limit)
      else pcib_write_config_dword ecam hw b 0x20 0x0000FFFF

  set_up_parent : S → Database → Device → S
  set_up_parent hw db d =
      if ltb 0 d.bus
      then elim (parent_from hw db d.bus db.bridge_count 0) [
        | none ↦ hw
        | some b ↦ open_window hw d b
      ]
      else hw

  -- The loop over `n` registers from `i` on.
  write_bars : Device → ℕ → ℕ → S → S
  write_bars d zero i hw = hw
  write_bars d (suc n) i hw = write_bars d n (suc i) (
      if size_at d i == 0
      then hw
      else pci_write_config_dword ecam hw d (bar_offset i) (address_at d i))

  pci_config_device_resources : Database → Device → S → S
  pci_config_device_resources db d hw =
      let opened = set_up_parent hw db d in
      let old_cmd = pci_read_config_dword ecam opened d 0x04 in
      let off = pci_write_config_dword ecam opened d 0x04 (bit_and old_cmd (bit_not 32 0x3)) in
      pci_set_master (pci_enable_device (write_bars d max_bars 0 off) d) d
