-- ===== src/Pci/Bars.antt =====
-- src/drivers/pci/pci_rc.c, do_pci_scan: the loop over the base address registers (BARs) of an
-- endpoint. Each register is written with ones and read back for its size, and then restored.
pub mod Rule
pub mod Restore
pub mod Size
use embed_template.Prelude.{
  ℕ, zero, suc, ◌+◌, ◌-◌, ◌*◌, ◌^◌, ◌%◌, bit_and, bit_or, Bool, true, false, not, ◌&&◌, ◌||◌, ltb,
  ◌==◌, if◌then◌else◌, List, set,
}
use embed_template.Prelude.Bits.{bit_not}
use embed_template.Pci.Data.{Ecam, max_bars}
use embed_template.Pci.Config.{pcie_read_config_dword, pcie_write_config_dword}

-- The hardware and the two arrays of the device that is filled in.
pub record Bars (S : Type 0) : Type 0 where
  pub hw : S
  pub bar_size : List ℕ
  pub bar_address : List ℕ

abbrev pub all_ones : ℕ
all_ones = 0xFFFFFFFF

abbrev pub bar_offset : ℕ → ℕ
bar_offset i = (0x10 + i * 4) % 2 ^ 8

-- The size that the masks of a 64-bit register give, cut to 32 bits.
unfoldable pub size_of_pair : ℕ → ℕ → ℕ
size_of_pair upper_mask lower_mask =
    let total_mask = bit_or (upper_mask * 2 ^ 32) lower_mask in
    let size_64 = (bit_not 64 total_mask + 1) % 2 ^ 64 in
    if total_mask == 0 then 0 else if ltb all_ones size_64 then all_ones else size_64

-- The size that the mask of a 32-bit register gives.
unfoldable pub size_of_mask : ℕ → ℕ
size_of_mask lower_mask =
    if not (lower_mask == 0) && not (lower_mask == 0xFFFFFFF0)
    then (bit_not 32 lower_mask + 1) % 2 ^ 32
    else 0

-- `read_back == 0 || read_back == 0xFFFFFFFF || (read_back & 1) != 0`
unfoldable pub no_memory : ℕ → Bool
no_memory v = v == 0 || v == all_ones || not (bit_and v 1 == 0)

unfoldable pub is_64bit : ℕ → Bool
is_64bit v = bit_and v 6 == 4

module _ {S : Type 0} (ecam : Ecam S) (bus dev func : ℕ) where
  unfoldable pub read_bar : S → ℕ → ℕ
  unfolding pcie_read_config_dword
  read_bar hw offset = pcie_read_config_dword ecam hw bus dev func offset

  unfoldable pub write_bar : S → ℕ → ℕ → S
  unfolding pcie_write_config_dword
  write_bar hw offset value = pcie_write_config_dword ecam hw bus dev func offset value

  -- The register that ends the list: it and all after it have size 0.
  pub no_more_bars : ℕ → ℕ → ℕ → Bars S → Bars S
  no_more_bars zero original i s = s
  no_more_bars (suc n) original i s = no_more_bars n original (suc i) (record s {
    bar_size = set s.bar_size i 0;
    bar_address = set s.bar_address i (bit_and original 0xFFFFFFF0);
  })

  -- The three cases of a register; `hw` is the hardware after the ones were written. The result
  -- is the new state and the next register's index.
  skip_bar : S → ℕ → ℕ → Bars S → Bars S × ℕ
  skip_bar hw original i s =
      (record s { hw = write_bar hw (bar_offset i) original; bar_size = set s.bar_size i 0 }, suc i)

  probe_pair : S → ℕ → ℕ → ℕ → Bars S → Bars S × ℕ
  probe_pair hw original read_back i s =
      let upper_offset = (bar_offset i + 4) % 2 ^ 8 in
      let orig_upper = read_bar hw upper_offset in
      let hw₁ = write_bar hw upper_offset all_ones in
      let upper_read_back = read_bar hw₁ upper_offset in
      let hw₂ = write_bar hw₁ (bar_offset i) original in
      let hw₃ = write_bar hw₂ upper_offset orig_upper in
      let full_addr = bit_or (orig_upper * 2 ^ 32) (bit_and original 0xFFFFFFF0) in
      let size = size_of_pair upper_read_back (bit_and read_back 0xFFFFFFF0) in
      (
        record s {
          hw = hw₃;
          bar_size = set (set s.bar_size i size) (suc i) 0;
          bar_address = set s.bar_address i (full_addr % 2 ^ 32);
        },
        i + 2,
      )

  probe_single : S → ℕ → ℕ → ℕ → Bars S → Bars S × ℕ
  probe_single hw original read_back i s = (
    record s {
      hw = write_bar hw (bar_offset i) original;
      bar_size = set s.bar_size i (size_of_mask (bit_and read_back 0xFFFFFFF0));
      bar_address = set s.bar_address i (bit_and original 0xFFFFFFF0);
    },
    suc i,
  )

  pub probe_bar : ℕ → ℕ → Bars S → Bars S × ℕ
  probe_bar original i s =
      let hw = write_bar s.hw (bar_offset i) all_ones in
      let read_back = read_bar hw (bar_offset i) in
      if no_memory read_back
      then skip_bar hw original i s
      else if is_64bit read_back && ltb i (max_bars - 1)
      then probe_pair hw original read_back i s
      else probe_single hw original read_back i s

  -- `while (bar_idx < MAX_BARS)`, on fuel: every round moves on, so `max_bars` rounds are enough.
  pub probe_bars : ℕ → ℕ → Bars S → Bars S
  probe_bars zero i s = s
  probe_bars (suc fuel) i s = elim (ltb i max_bars) [
    | false ↦ s
    | true ↦
        let original = read_bar s.hw (bar_offset i) in
        elim (original == 0) [
          | true ↦ no_more_bars (max_bars - i) original i s
          | false ↦ let (s', i') = probe_bar original i s in probe_bars fuel i' s'
        ]
  ]
