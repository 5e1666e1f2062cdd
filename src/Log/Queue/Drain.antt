-- ===== src/Log/Queue/Drain.antt =====
-- log_flash on the queue: every entry goes to the writer once, the oldest first.
use embed_template.Prelude.{
  ℕ, zero, suc, ◌+◌, ◌*◌, ◌%◌, ◌^◌, ◌≤◌, ◌<◌, ◌≡◌, ◌≢◌, ◌∙◌, refl, ap, ap₂, sym, arith, List, [],
  ◌∷◌, map, length, some, false, lt→ltb, le→ltb, bit_or,
}
use mathlib.Core.Path.{subst}
use embed_template.Prelude.Bits.{bit_and_mask}
use embed_template.Log.Memory.{Memory}
use embed_template.Log.Entry.{Header, tot_size, read_header, read_payload, log_tag_seal}
use embed_template.Log.Entry.Back.{Fits, Holds, read_header-eq, read_payload-at}
use embed_template.Log.Dispatch.{LogRing, entry_size, tag_at}
use embed_template.Log.Flash.{
  Line, bytes_from, line_of, free_at, flash_entry, resync, flash_from, clean, log_flash,
}
use embed_template.Log.Queue.{
  Entry, Entries, IsLog, Entries-total, length-le-total, Entries-frame, oldest,
}

-- No header is cut by the end of the ring.
abbrev pub Apart : ℕ → List Entry → Type 0
Apart tail [] = Unit {0}
Apart tail ((h, buf) ∷ es) = (tail % 4096 ≢ 4088) × Apart (tail + tot_size h.len) es

abbrev pub entry_line : Entry → Line
entry_line (h, buf) = line_of h buf

bytes_from-eq :
    (n k : ℕ) (a b : Memory)
    → ((i : ℕ) → k ≤ i → i < k + n → a i ≡ b i)
    → bytes_from n k a ≡ bytes_from n k b
unfolding bytes_from
bytes_from-eq zero k a b same = refl
bytes_from-eq (suc n) k a b same =
    ap₂ (λ x xs. x ∷ xs) (same k (omega arith) (omega arith))
      (bytes_from-eq n (suc k) a b (λ i le lt. same i (omega arith) (omega arith)))

-- The line of the oldest entry.
flash_line :
    (into : Memory) (r : LogRing) (h : Header) (buf : Memory)
    → r.tail % 8 ≡ 0
    → r.tail % 4096 ≢ 4088
    → Fits h
    → Holds r.bytes r.tail h buf
    → (flash_entry into r).0 ≡ line_of h buf
unfolding flash_entry line_of
flash_line into r h buf whole apart fits holds =
    let read = read_header-eq r.bytes r.tail h buf fits holds in
    let text = bytes_from-eq h.len 0 (read_payload r.bytes r.tail h.len into) buf (λ i le lt.
      read_payload-at r.bytes r.tail h buf into i whole apart fits holds (omega arith)) in
    let line : List ℕ → Line = λ t. record {
      dom = h.dom;
      ent = h.ent;
      lvl = h.lvl;
      ts = bit_or (h.ts_high * 2 ^ 32) h.ts_low;
      text = t;
    } in
    ap (λ g. line_of g (read_payload r.bytes r.tail g.len into)) read ∙ ap line text

flash_tail :
    (r : LogRing) (h : Header) (buf : Memory) (es : List Entry)
    → IsLog r ((h, buf) ∷ es)
    → (r.tail + entry_size (read_header r.bytes r.tail)) % 2 ^ 32 ≡ r.tail + tot_size h.len
flash_tail r h buf es v =
    let (whole, fits, holds, rest) = v.entries in
    let (sealed, size) = oldest r.bytes r.tail h buf fits holds in
    omega (arith, size, v.low, Entries-total r.bytes (r.tail + tot_size h.len) es r.head rest)

resync-sealed : (r : LogRing) → tag_at r.bytes r.tail ≡ log_tag_seal → resync r ≡ some r
unfolding resync
resync-sealed r e = ground arith

flash_entry-tail :
    (into : Memory) (r : LogRing)
    → (flash_entry into r).1.tail ≡ (r.tail + entry_size (read_header r.bytes r.tail)) % 2 ^ 32
unfolding flash_entry
flash_entry-tail into r = refl

flash_entry-drops : (into : Memory) (r : LogRing) → (flash_entry into r).1.drop_cnt ≡ r.drop_cnt
unfolding flash_entry
flash_entry-drops into r = refl

flash_rest :
    (into : Memory) (r : LogRing) (h : Header) (buf : Memory) (es : List Entry)
    → IsLog r ((h, buf) ∷ es)
    → IsLog (flash_entry into r).1 es
unfolding flash_entry
flash_rest into r h buf es v =
    let (whole, fits, holds, rest) = v.entries in
    let next = flash_tail r h buf es v in
    let freed = free_at r.bytes r.tail in
    let kept =
      Entries-frame r.bytes freed (r.tail + tot_size h.len) es r.head rest
        (λ q le lt. ground (arith, bit_and_mask 12 r.tail, v.span)) in
    record {
      entries = subst (λ t. Entries freed t es r.head) (sym next) kept;
      span = omega (arith, next, v.span);
      whole = v.whole;
      low = v.low;
    }

flash_from-lines :
    (fuel : ℕ) (into : Memory) (r : LogRing) (es : List Entry)
    → IsLog r es
    → Apart r.tail es
    → length es < fuel
    → (u : LogRing) × (flash_from into fuel r ≡ some (map entry_line es, u))
      × IsLog u []
      × (u.drop_cnt ≡ r.drop_cnt)
unfolding flash_from
flash_from-lines zero into r es v apart enough = absurd (omega arith)
flash_from-lines (suc fuel) into r [] v apart enough =
    rw (le→ltb r.tail r.head (omega (arith, v.entries)), flash_from) (r, refl, v, refl)
flash_from-lines (suc fuel) into r ((h, buf) ∷ es) v (here, later) enough =
    let (whole, fits, holds, rest) = v.entries in
    let (sealed, size) = oldest r.bytes r.tail h buf fits holds in
    let t = (flash_entry into r).1 in
    let reach = Entries-total r.bytes (r.tail + tot_size h.len) es r.head rest in
    let next = flash_tail r h buf es v in
    let (u, ih, valid, same) =
      flash_from-lines fuel into t es (flash_rest into r h buf es v)
        (subst (λ p. Apart p es) (sym (flash_entry-tail into r ∙ next)) later) (omega arith) in
    (
      u,
      rw (lt→ltb r.tail r.head (omega arith), flash_from)
          (rw (resync-sealed r sealed) (
            rw ih (
              ap (λ l. some (l ∷ map entry_line es, u))
                (flash_line into r h buf whole here fits holds)))),
      valid,
      same ∙ flash_entry-drops into r,
    )

-- As long as the positions of the ring have not wrapped past 2 ^ 32, and where no header is cut by
-- the end of the ring: everything in the queue goes to the writer, the oldest first, each message
-- once with its fields and its bytes, and the queue is empty after, with the flag for more output
-- cleared.
pub log_flash-lines :
    (into : Memory) (r : LogRing) (es : List Entry)
    → IsLog r es
    → Apart r.tail es
    → (u : LogRing) × (log_flash into r ≡ some (map entry_line es, u))
      × IsLog u []
      × (u.dirty ≡ false)
unfolding log_flash clean
log_flash-lines into r es v apart =
    let size = length-le-total r.bytes r.tail es r.head v.entries in
    let reach = Entries-total r.bytes r.tail es r.head v.entries in
    let (u, e, valid, _) = flash_from-lines 257 into r es v apart (omega (arith, v.span)) in
    (
      record u { dirty = false },
      ap clean e,
      record { entries = valid.entries; span = valid.span; whole = valid.whole; low = valid.low },
      refl,
    )
