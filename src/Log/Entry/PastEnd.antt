-- ===== src/Log/Entry/PastEnd.antt =====
-- The four bytes that log_flash reads past the end of the ring.
use embed_template.Prelude.{ℕ, ◌+◌, ◌-◌, ◌%◌, ◌<◌, ◌≡◌, arith, bit_and}
use embed_template.Prelude.Bits.{bit_and_mask}
use embed_template.Log.Memory.{Memory, move}
use embed_template.Log.Memory.Ring.{copy_from_ring-at}
use embed_template.Log.Entry.{Header, write_entry, read_payload}
use embed_template.Log.Entry.Written.{write_entry-at}
use embed_template.Log.Entry.Back.{Fits}

-- Where an entry starts 8 bytes before the end of the ring, its header is cut, and the first four
-- bytes of the text that is read are not those written but what lies 4 bytes past the ring's end.
pub read_payload_past_end :
    (ring : Memory) (pos : ℕ) (h : Header) (buf into : Memory) (k : ℕ)
    → pos % 4096 ≡ 4088
    → Fits h
    → k < 4
    → k < h.len
    → read_payload (write_entry ring pos h buf) pos h.len into k ≡ ring (4100 + k)
unfolding read_payload move
read_payload_past_end ring pos h buf into k cut fits few lt =
    let written = write_entry ring pos h buf in
    let first = move 4 written (bit_and pos 4095 + 12) into 0 in
    ground (
      arith,
      bit_and_mask 12 pos,
      copy_from_ring-at first 4 written (pos + 12 + 4) (h.len - 4) k (omega (arith, fits.len)),
      write_entry-at ring pos h buf (4100 + k) (omega arith) fits.some_bytes fits.len fits.pad,
    )
