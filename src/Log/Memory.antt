-- ===== src/Log/Memory.antt =====
-- common/src/diagnostic/logging/log_infra.c: the copies into the ring and out of it, and the
-- zeros behind an entry.
pub mod Copies
pub mod Ring
pub mod Padding
use embed_template.Prelude.{
  ℕ, zero, suc, ◌+◌, ◌-◌, ◌*◌, ◌/◌, ◌%◌, bit_and, Bool, true, false, not, ◌&&◌, ltb, leb, ◌==◌,
  if◌then◌else◌,
}

abbrev pub log_buf_size : ℕ
log_buf_size = 4096

abbrev pub log_buf_mask : ℕ
log_buf_mask = 4095

-- The bytes of a buffer.
abbrev pub Memory : Type 0
Memory = ℕ → ℕ

-- One store of an `n`-byte word at `d`, loaded from `s` of `source`.
unfoldable pub move : ℕ → Memory → ℕ → Memory → ℕ → Memory
move n source s target d = λ i. if leb d i && ltb i (d + n) then source (s + (i - d)) else target i

-- One store of an `n`-byte zero at `d`.
unfoldable pub store_zero : ℕ → Memory → ℕ → Memory
store_zero n target d = λ i. if leb d i && ltb i (d + n) then 0 else target i

-- The last byte, if there is one.
copy_byte : Memory → ℕ → Memory → ℕ → ℕ → Memory
copy_byte source s target d len = if ltb 0 len then move 1 source s target d else target

-- A word of two bytes, if there is one, and the byte.
copy_half : Memory → ℕ → Memory → ℕ → ℕ → Memory
copy_half source s target d len =
    if leb 2 len
    then copy_byte source (s + 2) (move 2 source s target d) (d + 2) (len - 2)
    else copy_byte source s target d len

-- A word of four bytes, if there is one, and the rest.
copy_rest : Memory → ℕ → Memory → ℕ → ℕ → Memory
copy_rest source s target d len =
    if leb 4 len
    then copy_half source (s + 4) (move 4 source s target d) (d + 4) (len - 4)
    else copy_half source s target d len

-- `while (len >= 8)`, on fuel: `len` rounds are more than enough.
copy_words : ℕ → Memory → ℕ → Memory → ℕ → ℕ → Memory
copy_words zero source s target d len = copy_rest source s target d len
copy_words (suc fuel) source s target d len = elim (leb 8 len) [
  | true ↦ copy_words fuel source (s + 8) (move 8 source s target d) (d + 8) (len - 8)
  | false ↦ copy_rest source s target d len
]

pub copy_u64 : Memory → ℕ → Memory → ℕ → ℕ → Memory
copy_u64 source s target d len = copy_words len source s target d len

pub copy_to_ring : Memory → ℕ → Memory → ℕ → ℕ → Memory
copy_to_ring ring start_pos source s len =
    let hid = bit_and start_pos log_buf_mask in
    let space_to_end = log_buf_size - hid in
    if leb len space_to_end
    then copy_u64 source s ring hid len
    else copy_u64 source (s + space_to_end) (copy_u64 source s ring hid space_to_end) 0
        (len - space_to_end)

pub copy_from_ring : Memory → ℕ → Memory → ℕ → ℕ → Memory
copy_from_ring target d ring start_pos len =
    let tid = bit_and start_pos log_buf_mask in
    let space_to_end = log_buf_size - tid in
    if leb len space_to_end
    then copy_u64 ring tid target d len
    else copy_u64 ring 0 (copy_u64 ring tid target d space_to_end) (d + space_to_end)
        (len - space_to_end)

-- `switch (pad_len)` with its cases falling through: 3, 2 and 1 zero that many bytes, any other
-- length none.
pub zero_padding : Memory → ℕ → ℕ → Memory
zero_padding ring end_pos pad_len =
    let at = λ (k : ℕ). bit_and (end_pos + k) log_buf_mask in
    let third = if pad_len == 3 then store_zero 1 ring (at 2) else ring in
    let second = if leb 2 pad_len && leb pad_len 3 then store_zero 1 third (at 1) else third in
    if leb 1 pad_len && leb pad_len 3 then store_zero 1 second (at 0) else second

-- The same `switch` on consecutive bytes.
zero_rest : Memory → ℕ → ℕ → Memory
zero_rest ring hid pad_len =
    let third = if pad_len == 3 then store_zero 1 ring (hid + 2) else ring in
    let second = if leb 2 pad_len && leb pad_len 3 then store_zero 1 third (hid + 1) else third in
    if leb 1 pad_len && leb pad_len 3 then store_zero 1 second hid else second

-- A double word of zeros if there is room for one, and the rest.
zero_double : Memory → ℕ → ℕ → Memory
zero_double ring hid pad_len =
    if leb 4 pad_len
    then zero_rest (store_zero 4 ring hid) (hid + 4) (pad_len - 4)
    else zero_rest ring hid pad_len

-- The bytes up to the next multiple of 4: a byte if they are odd, a word if they are two or more.
zero_align : Memory → ℕ → ℕ → Memory
zero_align ring hid align_bytes =
    let odd = not (align_bytes % 2 == 0) in
    let ring₁ = if odd then store_zero 1 ring hid else ring in
    let hid₁ = if odd then hid + 1 else hid in
    if leb 2 align_bytes then store_zero 2 ring₁ hid₁ else ring₁

pub aligned_zero_padding : Memory → ℕ → ℕ → Memory
aligned_zero_padding ring end_pos pad_len =
    let hid = bit_and end_pos log_buf_mask in
    let align_bytes = bit_and (4 - bit_and hid 3) 3 in
    if ltb log_buf_size (hid + pad_len)
    then zero_padding ring end_pos pad_len
    else if leb align_bytes pad_len
    then zero_double (zero_align ring hid align_bytes) (hid + align_bytes) (pad_len - align_bytes)
    else zero_double ring hid pad_len
