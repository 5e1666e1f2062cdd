-- ===== src/Log/Dispatch.antt =====
-- common/src/diagnostic/logging/log_infra.c, log_dispatch, as it runs when no other call runs at
-- the same time: each atomic exchange succeeds at once.
use embed_template.Prelude.{
  ℕ, zero, suc, ◌+◌, ◌-◌, ◌*◌, ◌/◌, ◌%◌, ◌^◌, bit_and, Bool, true, false, ltb, ◌==◌, if◌then◌else◌,
  Option, none, some, min,
}
use embed_template.Log.Memory.{Memory, log_buf_size, log_buf_mask}
use embed_template.Log.Entry.{
  Header, hdr_size, log_tag_seal, log_tag_free, tot_size, pad_size, write_entry, read_header,
}

-- `log_ring` with its bytes, and `log_stats`.
pub record LogRing : Type 0 where
  pub bytes : Memory
  pub head : ℕ
  pub tail : ℕ
  pub dirty : Bool
  pub sum : ℕ
  pub drop_cnt : ℕ

abbrev pub tag_at : Memory → ℕ → ℕ
tag_at bytes pos = bytes (bit_and pos log_buf_mask)

abbrev pub entry_size : Header → ℕ
entry_size h = hdr_size + h.len + h.pad

-- `(head + tot_size - tail) > size`
unfoldable pub is_full : LogRing → ℕ → Bool
is_full r tot = ltb log_buf_size ((r.head + tot + (2 ^ 32 - r.tail)) % 2 ^ 32)

-- The tail moves past the oldest entry, or on by 8 where there is none.
unfoldable pub drop_oldest : LogRing → LogRing
drop_oldest r =
    if tag_at r.bytes r.tail == log_tag_seal
    then record r {
      tail = (r.tail + entry_size (read_header r.bytes r.tail)) % 2 ^ 32;
      drop_cnt = (r.drop_cnt + 1) % 2 ^ 32;
    }
    else record r { tail = (r.tail + 8 + 7) % 2 ^ 32 / 8 * 8 }

-- The loop that makes room, on fuel: `none` when it runs out.
unfoldable pub make_room : ℕ → ℕ → LogRing → Option LogRing
make_room zero tot r = none
make_room (suc fuel) tot r = elim (is_full r tot) [
  | false ↦ some r
  | true ↦ make_room fuel tot (drop_oldest r)
]

abbrev pub max_data_size : ℕ
max_data_size = 255

-- The header of a message of `len` bytes.
unfoldable pub header_for : ℕ → ℕ → ℕ → ℕ → ℕ → Header
header_for domain entity level ts len = record {
  tag = log_tag_free;
  lvl = level;
  dom = domain;
  ent = entity;
  len = len;
  pad = pad_size len;
  ts_high = ts / 2 ^ 32 % 2 ^ 16;
  ts_low = ts % 2 ^ 32;
}

-- The reservation and the entry.
unfoldable pub append : Header → Memory → LogRing → LogRing
append h buf r = record r {
  bytes = write_entry r.bytes r.head h buf;
  head = (r.head + tot_size h.len) % 2 ^ 32;
  dirty = true;
  sum = (r.sum + 1) % 2 ^ 32;
}

unfoldable pub append_to : Header → Memory → Option LogRing → Option LogRing
append_to h buf none = none
append_to h buf (some r) = some (append h buf r)

-- `printed` is what vsnprintf returns, 0 for a result that is not positive, and `buf` what it
-- stores; `ts` is get_timestamp48's. Every entry takes 16 bytes or more, so 257 rounds are enough.
unfoldable pub log_dispatch : ℕ → ℕ → ℕ → ℕ → Memory → ℕ → LogRing → Option LogRing
log_dispatch domain entity level printed buf ts r =
    let len = min printed max_data_size in
    let h = header_for domain entity level ts len in
    if printed == 0 then some r else append_to h buf (make_room 257 (tot_size len) r)
