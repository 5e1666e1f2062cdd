-- ===== src/Pci/Bars/Size.antt =====
-- The size of a base address register from what it reads after ones were written to it.
use embed_template.Prelude.{
  ℕ, suc, ◌+◌, ◌-◌, ◌*◌, ◌/◌, ◌%◌, ◌^◌, ◌<◌, ◌≡◌, ◌≢◌, ◌∙◌, ap, ap₂, arith, min, bit_and, bit_or,
  set, false, true, ◌&&◌, ltb, ◌==◌,
}
use embed_template.Prelude.Bits.{bit_and_mask}
use embed_template.Prelude.Bits.Fields.{bit_or_fields, bit_and_high}
use embed_template.Pci.Data.{Ecam}
use embed_template.Pci.Bars.{
  Bars, read_bar, write_bar, all_ones, bar_offset, probe_pair, probe_single, probe_bar, no_memory,
  is_64bit, size_of_mask, size_of_pair,
}

address_bits : (v : ℕ) → v < 2 ^ 32 → bit_and v 0xFFFFFFF0 ≡ v / 16 * 16
address_bits v h = bit_and_high 32 4 v (omega arith) ∙ omega arith

-- A 32-bit memory register of a size that is a multiple of 32 below 4 GB.
size_of_mask_lem :
    (size flags : ℕ)
    → 16 < size
    → size < 2 ^ 32
    → size % 16 ≡ 0
    → flags < 16
    → size_of_mask (bit_and (2 ^ 32 - size + flags) 0xFFFFFFF0) ≡ size
unfolding size_of_mask
size_of_mask_lem size flags pos small whole low =
    let mask : bit_and (2 ^ 32 - size + flags) 0xFFFFFFF0 ≡ 2 ^ 32 - size =
      address_bits _ (omega arith) ∙ omega arith in
    ground (arith, mask)

size_of_pair_lem :
    (size upper lower : ℕ)
    → 0 < size
    → size < 2 ^ 64
    → lower < 2 ^ 32
    → upper * 2 ^ 32 + lower + size ≡ 2 ^ 64
    → size_of_pair upper lower ≡ min size 0xFFFFFFFF
unfolding size_of_pair
size_of_pair_lem size upper lower pos small low e = ground (arith, bit_or_fields 32 upper lower low)

low_address :
    (v u : ℕ) → v < 2 ^ 32 → bit_or (u * 2 ^ 32) (bit_and v 0xFFFFFFF0) % 2 ^ 32 ≡ v / 16 * 16
low_address v u h =
    ap (λ t. bit_or (u * 2 ^ 32) t % 2 ^ 32) (address_bits v h)
    ∙ ap (λ t. t % 2 ^ 32) (bit_or_fields 32 u (v / 16 * 16) (omega arith))
    ∙ omega arith

module _ {S : Type 0} (ecam : Ecam S) (bus dev func i : ℕ) (s : Bars S) where
  single-kind :
      (v : ℕ)
      → v % 2 ≡ 0
      → 0 < v
      → v < all_ones
      → (no_memory v ≡ false) × (is_64bit v ≡ (v % 8 / 2 == 2))
  unfolding no_memory is_64bit
  single-kind v even pos small =
      (ground (arith, bit_and_mask 1 v), ground (arith, bit_and_high 3 1 v (omega arith)))

  -- A 32-bit memory register of `size` bytes, more than 16 of them and below 4 GB, that reads as
  -- `~(size - 1)` and its four flags after the ones: the size and the address are recorded, the
  -- flags are cut off the address, and the loop goes on with the next register.
  pub probe_bar_single :
      (original size flags : ℕ)
      → original < 2 ^ 32
      → 16 < size
      → size < 2 ^ 32
      → size % 16 ≡ 0
      → flags < 16
      → flags % 2 ≡ 0
      → flags % 8 / 2 ≢ 2
      → read_bar ecam bus dev func
          (write_bar ecam bus dev func s.hw (bar_offset i) all_ones)
          (bar_offset i)
        ≡ 2 ^ 32 - size + flags
      → let r = probe_bar ecam bus dev func original i s in
        (r.0.bar_size ≡ set s.bar_size i size)
        × (r.0.bar_address ≡ set s.bar_address i (original / 16 * 16))
        × (r.1 ≡ i + 1)
  unfolding probe_bar probe_single
  probe_bar_single original size flags narrow pos small whole low even kind e =
      let hw = write_bar ecam bus dev func s.hw (bar_offset i) all_ones in
      let v = read_bar ecam bus dev func hw (bar_offset i) in
      let (memory, width) = single-kind v (omega arith) (omega arith) (omega arith) in
      let single : is_64bit v ≡ false = width ∙ ground arith in
      rw memory (
        rw single (
          ap (λ t. set s.bar_size i (size_of_mask (bit_and t 0xFFFFFFF0))) e
              ∙ ap (set s.bar_size i) (size_of_mask_lem size flags pos small whole low),
          ap (set s.bar_address i) (address_bits original narrow),
          omega arith,
        ))

  -- A 64-bit memory register, which is not the last of the six: its size is recorded in the lower
  -- one's entry, cut to 32 bits, the size of the upper one is 0, and the loop goes past both. Of
  -- the address the low 32 bits are recorded without the flags.
  pub probe_bar_pair :
      (original size read_back upper : ℕ)
      → i < 5
      → original < 2 ^ 32
      → 0 < size
      → size < 2 ^ 64
      → read_back < all_ones
      → read_back % 8 ≡ 4
      → upper * 2 ^ 32 + read_back / 16 * 16 + size ≡ 2 ^ 64
      → let hw = write_bar ecam bus dev func s.hw (bar_offset i) all_ones in
        read_bar ecam bus dev func hw (bar_offset i) ≡ read_back
        → read_bar ecam bus dev func
            (write_bar ecam bus dev func hw ((bar_offset i + 4) % 2 ^ 8) all_ones)
            ((bar_offset i + 4) % 2 ^ 8)
          ≡ upper
        → let r = probe_bar ecam bus dev func original i s in
          (r.0.bar_size ≡ set (set s.bar_size i (min size 0xFFFFFFFF)) (suc i) 0)
          × (r.0.bar_address ≡ set s.bar_address i (original / 16 * 16))
          × (r.1 ≡ i + 2)
  unfolding probe_bar probe_pair
  probe_bar_pair original size read_back upper inside narrow pos small low kind sum e f =
      let hw = write_bar ecam bus dev func s.hw (bar_offset i) all_ones in
      let v = read_bar ecam bus dev func hw (bar_offset i) in
      let (memory, width) = single-kind v (omega arith) (omega arith) (omega arith) in
      let pair : (is_64bit v && ltb i 5) ≡ true = ground (arith, width) in
      rw memory (
        rw pair (
          ap (λ t. set (set s.bar_size i t) (suc i) 0)
              (ap₂ size_of_pair f
                  (ap (λ t. bit_and t 0xFFFFFFF0) e ∙ address_bits read_back (omega arith))
                ∙ size_of_pair_lem size upper (read_back / 16 * 16) pos small (omega arith) sum),
          ap (set s.bar_address i) (
              low_address original (read_bar ecam bus dev func hw ((bar_offset i + 4) % 2 ^ 8))
                narrow),
          omega arith,
        ))
