-- ===== src/Log/Entry/Back.antt =====
-- An entry is read as it was written.
use embed_template.Prelude.{
  ℕ, ◌+◌, ◌-◌, ◌/◌, ◌%◌, ◌^◌, ◌<◌, ◌≡◌, ◌≢◌, ◌∙◌, arith, leb, if◌then◌else◌, bit_and,
}
use embed_template.Prelude.Bits.{bit_and_mask}
use embed_template.Log.Memory.{Memory, move}
use embed_template.Log.Memory.Ring.{behind, copy_from_ring-at}
use embed_template.Log.Entry.{
  Header, header_bytes, header_of, tot_size, pad_size, log_tag_seal, write_entry, load_header,
  read_header, read_payload,
}
use embed_template.Log.Entry.Written.{entry_byte, write_entry-at}

-- The fields fit their types.
pub record Fits (h : Header) : Type 0 where
  pub lvl : h.lvl < 2 ^ 8
  pub dom : h.dom < 2 ^ 8
  pub ent : h.ent < 2 ^ 8
  pub some_bytes : 0 < h.len
  pub len : h.len < 2 ^ 8
  pub pad : h.pad ≡ pad_size h.len
  pub ts_high : h.ts_high < 2 ^ 16
  pub ts_low : h.ts_low < 2 ^ 32

-- The ring holds an entry at a position.
abbrev pub Holds : Memory → ℕ → Header → Memory → Type 0
Holds ring pos h buf = (k : ℕ) → k < tot_size h.len → ring ((pos + k) % 4096) ≡ entry_byte h buf k

pub write_entry-Holds :
    (ring : Memory) (pos : ℕ) (h : Header) (buf : Memory)
    → pos % 8 ≡ 0
    → Fits h
    → Holds (write_entry ring pos h buf) pos h buf
write_entry-Holds ring pos h buf whole fits k lt =
    write_entry-at ring pos h buf ((pos + k) % 4096) whole fits.some_bytes fits.len fits.pad
    ∙ ground (arith, behind_self pos k (omega (arith, fits.len)))
  where
    behind_self : (pos k : ℕ) → k < 4096 → behind pos ((pos + k) % 4096) ≡ k
    behind_self pos k h = omega arith

-- The twelve bytes of the header, on both branches.
load_header-at :
    (ring : Memory) (tail k : ℕ) → k < 12 → load_header ring tail k ≡ ring ((tail + k) % 4096)
unfolding load_header move
load_header-at ring tail k h =
    ground (arith, bit_and_mask 12 tail, copy_from_ring-at (λ i. 0) 0 ring tail 12 k (omega arith))

-- The header comes back sealed, with all other fields as written.
pub read_header-eq :
    (ring : Memory) (pos : ℕ) (h : Header) (buf : Memory)
    → Fits h
    → Holds ring pos h buf
    → read_header ring pos ≡ (record h { tag = log_tag_seal })
unfolding read_header header_of entry_byte header_bytes
read_header-eq ring pos h buf fits holds =
    let byte : (k : ℕ) → k < 12 → load_header ring pos k ≡ entry_byte h buf k =
      λ k lt. load_header-at ring pos k lt ∙ holds k (omega arith) in
    let b0 : load_header ring pos 0 ≡ 0xAC = byte 0 (omega arith) in
    let b1 : load_header ring pos 1 ≡ h.lvl = byte 1 (omega arith) in
    let b2 : load_header ring pos 2 ≡ h.dom = byte 2 (omega arith) in
    let b3 : load_header ring pos 3 ≡ h.ent = byte 3 (omega arith) in
    let b4 : load_header ring pos 4 ≡ h.len = byte 4 (omega arith) in
    let b5 : load_header ring pos 5 ≡ h.pad = byte 5 (omega arith) in
    let b6 : load_header ring pos 6 ≡ h.ts_high % 2 ^ 8 = byte 6 (omega arith) in
    let b7 : load_header ring pos 7 ≡ h.ts_high / 2 ^ 8 = byte 7 (omega arith) in
    let b8 : load_header ring pos 8 ≡ h.ts_low % 2 ^ 8 = byte 8 (omega arith) in
    let b9 : load_header ring pos 9 ≡ h.ts_low / 2 ^ 8 % 2 ^ 8 = byte 9 (omega arith) in
    let b10 : load_header ring pos 10 ≡ h.ts_low / 2 ^ 16 % 2 ^ 8 = byte 10 (omega arith) in
    let b11 : load_header ring pos 11 ≡ h.ts_low / 2 ^ 24 = byte 11 (omega arith) in ground (arith)

payload_byte : (h : Header) (buf : Memory) (k : ℕ) → k < h.len → entry_byte h buf (12 + k) ≡ buf k
unfolding entry_byte
payload_byte h buf k lt = ground arith

-- The payload comes back byte by byte, except from an entry whose header is cut by the end of the
-- ring.
pub read_payload-at :
    (ring : Memory) (pos : ℕ) (h : Header) (buf into : Memory) (k : ℕ)
    → pos % 8 ≡ 0
    → pos % 4096 ≢ 4088
    → Fits h
    → Holds ring pos h buf
    → k < h.len
    → read_payload ring pos h.len into k ≡ buf k
unfolding read_payload move
read_payload-at ring pos h buf into k whole apart fits holds lt =
    let tid = bit_and pos 4095 in
    let first = move 4 ring (tid + 12) into 0 in
    let there = holds (12 + k) (omega (arith, fits.len)) ∙ payload_byte h buf k lt in
    let place : (pos + 12 + 4 + (k - 4)) % 4096
        ≡ (if leb 4 k then (pos + (12 + k)) % 4096 else (pos + 16) % 4096) =
      ground arith in
    ground (
      arith,
      bit_and_mask 12 pos,
      there,
      copy_from_ring-at first 4 ring (pos + 12 + 4) (h.len - 4) k (omega (arith, fits.len)),
    )
