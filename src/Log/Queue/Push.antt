-- ===== src/Log/Queue/Push.antt =====
-- log_dispatch on the queue: the oldest entries go until there is room, and the new one comes last.
use embed_template.Prelude.{
  ℕ, zero, suc, ◌+◌, ◌%◌, ◌^◌, ◌≤◌, ◌<◌, ◌≡◌, ◌∙◌, refl, ap, sym, arith, ltb, if◌then◌else◌, List,
  [], ◌∷◌, ◌++◌, length, some, ◌==◌, min, Bool-cases, inl, inr, true, false,
}
use mathlib.Core.Path.{subst}
use native.Mathlib.Nat.{mod-eq_of_lt}
use embed_template.Log.Memory.{Memory}
use embed_template.Log.Entry.{Header, tot_size, write_entry}
use embed_template.Log.Entry.Written.{write_entry-at}
use embed_template.Log.Entry.Back.{Fits, write_entry-Holds}
use embed_template.Log.Dispatch.{
  LogRing, is_full, drop_oldest, make_room, header_for, append, append_to, log_dispatch,
}
use embed_template.Log.Queue.{
  Entry, Entries, IsLog, total, Entries-total, length-le-total, Entries-frame, Entries-append,
  oldest,
}

-- What is left of a queue when room for `tot` bytes is made in 4096.
unfoldable pub evict : ℕ → List Entry → List Entry
evict tot [] = []
evict tot ((h, buf) ∷ es) =
    if ltb 4096 (total ((h, buf) ∷ es) + tot) then evict tot es else (h, buf) ∷ es

is_full-eq :
    (r : LogRing) (es : List Entry) (tot : ℕ)
    → IsLog r es
    → r.head + tot < 2 ^ 32
    → is_full r tot ≡ ltb 4096 (total es + tot)
unfolding is_full
is_full-eq r es tot v fits =
    let reach = Entries-total r.bytes r.tail es r.head v.entries in ap (ltb 4096) (omega arith)

drop_oldest-IsLog :
    (r : LogRing) (h : Header) (buf : Memory) (es : List Entry)
    → IsLog r ((h, buf) ∷ es)
    → IsLog (drop_oldest r) es
unfolding drop_oldest
drop_oldest-IsLog r h buf es v =
    let (whole, fits, holds, rest) = v.entries in
    let (sealed, size) = oldest r.bytes r.tail h buf fits holds in
    let reach = Entries-total r.bytes (r.tail + tot_size h.len) es r.head rest in
    let bumped = (r.drop_cnt + 1) % 2 ^ 32 in
    let step : drop_oldest r ≡ (record r { tail = r.tail + tot_size h.len; drop_cnt = bumped }) =
      ground (arith, sealed, size, reach, v.low) in
    rw step (record { entries = rest; span = omega (arith, v.span); whole = v.whole; low = v.low })

drop_oldest-head : (r : LogRing) → (drop_oldest r).head ≡ r.head
unfolding drop_oldest
drop_oldest-head r = ground arith

evict-calm :
    (tot : ℕ) (h : Header) (buf : Memory) (es : List Entry)
    → ltb 4096 (total ((h, buf) ∷ es) + tot) ≡ false
    → evict tot ((h, buf) ∷ es) ≡ (h, buf) ∷ es
unfolding evict
evict-calm tot h buf es calm = rw calm

evict-over :
    (tot : ℕ) (h : Header) (buf : Memory) (es : List Entry)
    → ltb 4096 (total ((h, buf) ∷ es) + tot) ≡ true
    → evict tot ((h, buf) ∷ es) ≡ evict tot es
unfolding evict
evict-over tot h buf es over = rw over

-- The ring after room was made for `tot` bytes.
record Made (tot : ℕ) (es : List Entry) (r r' : LogRing) : Type 0 where
  valid : IsLog r' (evict tot es)
  room : r'.head + tot ≤ r'.tail + 4096
  head : r'.head ≡ r.head

make_room-Made :
    (fuel tot : ℕ) (r : LogRing) (es : List Entry)
    → IsLog r es
    → length es < fuel
    → tot ≤ 4096
    → r.head + tot < 2 ^ 32
    → (r' : LogRing) × (make_room fuel tot r ≡ some r') × Made tot es r r'
unfolding make_room evict
make_room-Made zero tot r es v enough small fits = absurd (omega arith)
make_room-Made (suc fuel) tot r [] v enough small fits =
    let calm : is_full r tot ≡ false = is_full-eq r [] tot v fits ∙ ground arith in
    rw (calm, make_room)
      (r, refl, record { valid = v; room = omega (arith, v.entries); head = refl })
make_room-Made (suc fuel) tot r ((h, buf) ∷ es) v enough small fits =
    let es' = (h, buf) ∷ es in
    let full = is_full-eq r es' tot v fits in
    let reach = Entries-total r.bytes r.tail es' r.head v.entries in
    elim (Bool-cases (ltb 4096 (total es' + tot))) [
      | inr calm ↦
          rw (full ∙ calm, make_room)
            (
              r,
              refl,
              record {
                valid = subst (IsLog r) (sym (evict-calm tot h buf es calm)) v;
                room = ground arith;
                head = refl;
              },
            )
      | inl over ↦
          let same = drop_oldest-head r in
          let (r', e, made) =
            make_room-Made fuel tot (drop_oldest r) es (drop_oldest-IsLog r h buf es v)
              (omega arith) small (omega (arith, same)) in
          rw (full ∙ over, make_room)
            (
              r',
              e,
              record {
                valid = subst (IsLog r') (sym (evict-over tot h buf es over)) made.valid;
                room = made.room;
                head = made.head ∙ same;
              },
            )
    ]

pub append-IsLog :
    (r : LogRing) (es : List Entry) (h : Header) (buf : Memory)
    → IsLog r es
    → Fits h
    → r.head + tot_size h.len ≤ r.tail + 4096
    → r.head + tot_size h.len < 2 ^ 32
    → IsLog (append h buf r) (es ++ (h, buf) ∷ [])
unfolding append
append-IsLog r es h buf v fits room low =
    let written = write_entry r.bytes r.head h buf in
    let kept = Entries-frame r.bytes written r.tail es r.head v.entries (λ q le lt.
      write_entry-at r.bytes r.head h buf (q % 4096) v.whole fits.some_bytes fits.len fits.pad
      ∙ ground arith) in
    let longer =
      Entries-append written r.tail es r.head h buf kept v.whole fits
        (write_entry-Holds r.bytes r.head h buf v.whole fits) in
    record {
      entries =
          subst (Entries written r.tail (es ++ (h, buf) ∷ [])) (sym (mod-eq_of_lt low)) longer;
      span = omega arith;
      whole = omega (arith, v.whole);
      low = omega arith;
    }

pub header_for-Fits :
    (domain entity level ts len : ℕ)
    → domain < 256
    → entity < 256
    → level < 256
    → 0 < len
    → len < 256
    → Fits (header_for domain entity level ts len)
unfolding header_for
header_for-Fits domain entity level ts len hd he hl pos short = record {
  lvl = hl;
  dom = hd;
  ent = he;
  some_bytes = pos;
  len = short;
  pad = refl;
  ts_high = omega arith;
  ts_low = omega arith;
}

-- As long as the head is more than 4096 below 2 ^ 32, a message of 1 byte or more is stored, cut to
-- 255: after the call the queue holds what was left of it once the oldest entries made room, and
-- the message last, with its fields and its first bytes, its end at the new head.
pub log_dispatch-IsLog :
    (domain entity level printed : ℕ) (buf : Memory) (ts : ℕ) (r : LogRing) (es : List Entry)
    → IsLog r es
    → r.head + 4096 < 2 ^ 32
    → domain < 256
    → entity < 256
    → level < 256
    → 0 < printed
    → let h = header_for domain entity level ts (min printed 255) in
      (r' : LogRing) × (log_dispatch domain entity level printed buf ts r ≡ some r')
      × IsLog r' (evict (tot_size h.len) es ++ (h, buf) ∷ [])
      × (r'.head ≡ r.head + tot_size h.len)
unfolding log_dispatch header_for append_to append
log_dispatch-IsLog domain entity level printed buf ts r es v low hd he hl pos =
    let h = header_for domain entity level ts (min printed 255) in
    let tot = tot_size h.len in
    let size = length-le-total r.bytes r.tail es r.head v.entries in
    let reach = Entries-total r.bytes r.tail es r.head v.entries in
    let (r', e, made) =
      make_room-Made 257 tot r es v (omega (arith, v.span)) (omega arith) (omega arith) in
    let fits =
      header_for-Fits domain entity level ts (min printed 255) hd he hl (omega arith)
        (omega arith) in
    let some_bytes : (printed == 0) ≡ false = ground arith in
    (
      append h buf r',
      rw some_bytes (ap (append_to h buf) e),
      append-IsLog r' (evict tot es) h buf made.valid fits made.room (omega (arith, made.head)),
      omega (arith, made.head),
    )
