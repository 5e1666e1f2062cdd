-- ===== src/Log/Entry.antt =====
-- common/src/diagnostic/logging/log_infra.c: one entry of the ring, as log_dispatch writes it once
-- its place is reserved, and as log_flash reads it.
pub mod Written
pub mod Back
pub mod PastEnd
use embed_template.Prelude.{
  ℕ, ◌+◌, ◌-◌, ◌*◌, ◌/◌, ◌%◌, ◌^◌, bit_and, bit_or, Bool, true, false, ltb, leb, ◌==◌,
  if◌then◌else◌,
}
use embed_template.Log.Memory.{
  Memory, log_buf_size, log_buf_mask, move, copy_to_ring, copy_from_ring, aligned_zero_padding,
}

-- log_hdr_t, whose 12 bytes stand in this order, little-endian.
pub record Header : Type 0 where
  pub tag : ℕ
  pub lvl : ℕ
  pub dom : ℕ
  pub ent : ℕ
  pub len : ℕ
  pub pad : ℕ
  pub ts_high : ℕ
  pub ts_low : ℕ

abbrev pub hdr_size : ℕ
hdr_size = 12

abbrev pub log_tag_seal : ℕ
log_tag_seal = 0xAC

abbrev pub log_tag_free : ℕ
log_tag_free = 0xDF

-- The bytes of a header.
pub header_bytes : Header → Memory
header_bytes h k =
    if k == 0
    then h.tag
    else if k == 1
    then h.lvl
    else if k == 2
    then h.dom
    else if k == 3
    then h.ent
    else if k == 4
    then h.len
    else if k == 5
    then h.pad
    else if k == 6
    then h.ts_high % 2 ^ 8
    else if k == 7
    then h.ts_high / 2 ^ 8
    else if k == 8
    then h.ts_low % 2 ^ 8
    else if k == 9
    then h.ts_low / 2 ^ 8 % 2 ^ 8
    else if k == 10
    then h.ts_low / 2 ^ 16 % 2 ^ 8
    else h.ts_low / 2 ^ 24

pub header_of : Memory → Header
header_of b = record {
  tag = b 0;
  lvl = b 1;
  dom = b 2;
  ent = b 3;
  len = b 4;
  pad = b 5;
  ts_high = b 6 + 2 ^ 8 * b 7;
  ts_low = b 8 + 2 ^ 8 * b 9 + 2 ^ 16 * b 10 + 2 ^ 24 * b 11;
}

-- `ALIGN_UP(HDR_SIZE + len, 8)` and what it leaves behind the payload.
abbrev pub tot_size : ℕ → ℕ
tot_size len = (hdr_size + len + 7) / 8 * 8

abbrev pub pad_size : ℕ → ℕ
pad_size len = tot_size len - (hdr_size + len)

-- The header, in two words or round the end of the ring.
store_header : Memory → ℕ → Header → Memory
store_header ring start_pos h =
    let hid = bit_and start_pos log_buf_mask in
    let bytes = header_bytes h in
    if leb hid (log_buf_size - hdr_size)
    then move 4 bytes 8 (move 8 bytes 0 ring hid) (hid + 8)
    else copy_to_ring ring start_pos bytes 0 hdr_size

-- The first four bytes of the payload, which bring the rest to a multiple of 8.
store_first : Memory → ℕ → Memory → ℕ → Memory
store_first ring start_pos buf len =
    let hid = bit_and start_pos log_buf_mask in
    if leb hid (log_buf_size - tot_size len)
    then move 4 buf 0 ring (hid + hdr_size)
    else if leb hid (log_buf_size - (hdr_size + 4))
    then move 4 buf 0 ring (hid + hdr_size)
    else copy_to_ring ring (start_pos + hdr_size) buf 0 4

store_rest : Memory → ℕ → Memory → ℕ → Memory
store_rest ring start_pos buf len =
    if ltb 4 len then copy_to_ring ring (start_pos + hdr_size + 4) buf 4 (len - 4) else ring

-- The store of the tag that makes the entry visible.
seal : Memory → ℕ → Memory
seal ring start_pos i = if i == bit_and start_pos log_buf_mask then log_tag_seal else ring i

pub write_entry : Memory → ℕ → Header → Memory → Memory
write_entry ring start_pos h buf =
    let ring₁ = store_header ring start_pos h in
    let ring₂ = store_first ring₁ start_pos buf h.len in
    let ring₃ = store_rest ring₂ start_pos buf h.len in
    seal (aligned_zero_padding ring₃ (start_pos + hdr_size + h.len) h.pad) start_pos

-- The bytes of the header at the tail, in two words or round the end of the ring.
load_header : Memory → ℕ → Memory
load_header ring tail =
    let tid = bit_and tail log_buf_mask in
    let hdr : Memory = λ i. 0 in
    if leb tid (log_buf_size - hdr_size)
    then move 4 ring (tid + 8) (move 8 ring tid hdr 0) 8
    else copy_from_ring hdr 0 ring tail hdr_size

pub read_header : Memory → ℕ → Header
read_header ring tail = header_of (load_header ring tail)

-- The payload with a null byte behind it. The first four bytes are loaded without regard to the
-- end of the ring.
pub read_payload : Memory → ℕ → ℕ → Memory → Memory
read_payload ring tail len buf =
    let tid = bit_and tail log_buf_mask in
    let first = move 4 ring (tid + hdr_size) buf 0 in
    let all =
      if ltb 4 len then copy_from_ring first 4 ring (tail + hdr_size + 4) (len - 4) else first in
    λ i. if i == len then 0 else all i
