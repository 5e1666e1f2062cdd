-- ===== src/Log/Flash.antt =====
-- common/src/diagnostic/logging/log_infra.c, log_flash, as it runs when no other call runs at the
-- same time: the tail that it loads again is the tail that it has.
use embed_template.Prelude.{
  ℕ, zero, suc, ◌+◌, ◌-◌, ◌*◌, ◌%◌, ◌^◌, bit_and, bit_or, true, false, ltb, ◌&&◌, ◌==◌,
  if◌then◌else◌, Option, none, some, List, [], ◌∷◌,
}
use embed_template.Log.Memory.{Memory, log_buf_mask}
use embed_template.Log.Entry.{Header, log_tag_seal, log_tag_free, read_header, read_payload}
use embed_template.Log.Dispatch.{LogRing, tag_at, entry_size}

-- A call of the writer.
pub record Line : Type 0 where
  pub dom : ℕ
  pub ent : ℕ
  pub lvl : ℕ
  pub ts : ℕ
  pub text : List ℕ

-- `n` bytes of a buffer from `k` on.
unfoldable pub bytes_from : ℕ → ℕ → Memory → List ℕ
bytes_from zero k buf = []
bytes_from (suc n) k buf = buf k ∷ bytes_from n (suc k) buf

unfoldable pub line_of : Header → Memory → Line
line_of h buf = record {
  dom = h.dom;
  ent = h.ent;
  lvl = h.lvl;
  ts = bit_or (h.ts_high * 2 ^ 32) h.ts_low;
  text = bytes_from h.len 0 buf;
}

-- The search for the next sealed tag at a multiple of 8: `n` is how far the head is.
unfoldable pub next_seal : ℕ → Memory → ℕ → Option ℕ
next_seal zero bytes tail = none
next_seal (suc n) bytes tail =
    let tid = bit_and tail log_buf_mask in
    elim (bytes tid == log_tag_seal && bit_and tid 7 == 0) [
      | true ↦ some tail
      | false ↦ next_seal n bytes (tail + 1)
    ]

abbrev pub free_at : Memory → ℕ → Memory
free_at bytes tail i = if i == bit_and tail log_buf_mask then log_tag_free else bytes i

-- The line of the entry at the tail, and the ring without it; `buf` is what the buffer on the
-- stack held.
unfoldable pub flash_entry : Memory → LogRing → Line × LogRing
flash_entry buf r =
    let h = read_header r.bytes r.tail in
    (
      line_of h (read_payload r.bytes r.tail h.len buf),
      record r { bytes = free_at r.bytes r.tail; tail = (r.tail + entry_size h) % 2 ^ 32 },
    )

-- Past what is not an entry: `none` if none follows.
unfoldable pub resync : LogRing → Option LogRing
resync r =
    if tag_at r.bytes r.tail == log_tag_seal
    then some r
    else elim (next_seal (r.head - r.tail) r.bytes r.tail) [
      | none ↦ none
      | some tail ↦ some (record r { tail = tail })
    ]

-- The loop over the entries, on fuel; the lines are the writer's calls in order. `none` when the
-- fuel runs out.
unfoldable pub flash_from : Memory → ℕ → LogRing → Option (List Line × LogRing)
flash_from buf zero r = none
flash_from buf (suc fuel) r = elim (ltb r.tail r.head) [
  | false ↦ some ([], r)
  | true ↦ elim (resync r) [
    | none ↦ some ([], r)
    | some s ↦
        let (line, t) = flash_entry buf s in
        elim (flash_from buf fuel t) [ none ↦ none | some (lines, u) ↦ some (line ∷ lines, u) ]
  ]
]

unfoldable pub clean : Option (List Line × LogRing) → Option (List Line × LogRing)
clean none = none
clean (some (lines, r)) = some (lines, record r { dirty = false })

-- Every entry takes 16 bytes or more of the 4096.
unfoldable pub log_flash : Memory → LogRing → Option (List Line × LogRing)
log_flash buf r = clean (flash_from buf 257 r)
