-- ===== src/Log/Tests.antt =====
-- The theorems on the log's ring at concrete rings and messages.
use embed_template.Prelude.Int.{pos, negsuc}
use embed_template.Log.Levels.{log_set_level, log_get_level}
use embed_template.Log.Levels.Lookup.{log_get_level-log_set_level}
use embed_template.Prelude.{
  ℕ, zero, suc, ◌<◌, List, get_or, replicate, ◌+◌, ◌%◌, ◌≡◌, refl, arith, min, [], ◌∷◌, ◌++◌, some,
  false, ltb, ◌&&◌, ◌==◌, if◌then◌else◌,
}
use embed_template.Log.Memory.{Memory, move, copy_u64}
use embed_template.Log.Memory.Copies.{copy_u64-eq}
use embed_template.Log.Memory.Ring.{behind}
use embed_template.Log.Entry.{Header, tot_size, write_entry}
use embed_template.Log.Entry.Written.{entry_byte, write_entry-at}
use embed_template.Log.Entry.Back.{Fits}
use embed_template.Log.Dispatch.{LogRing, log_dispatch, header_for, append}
use embed_template.Log.Flash.{Line, line_of, log_flash}
use embed_template.Log.Queue.{IsLog}
use embed_template.Log.Queue.Push.{evict, log_dispatch-IsLog, append-IsLog, header_for-Fits}
use embed_template.Log.Queue.Drain.{log_flash-lines}
use embed_template.Log.Queue.RoundTrip.{cut_text, log_flash-log_dispatch}

abbrev blank : Memory
blank i = 0

-- "hi"
abbrev text : Memory
text k = if k == 0 then 104 else if k == 1 then 105 else 0

abbrev empty_ring : LogRing
empty_ring = record {
  bytes = blank;
  head = 4080;
  tail = 4080;
  dirty = false;
  sum = 0;
  drop_cnt = 0;
}

empty_ring-IsLog : IsLog empty_ring []
empty_ring-IsLog = record { entries = refl; span = omega arith; whole = refl; low = omega arith }

abbrev hi : Header
hi = header_for 2 5 10 1000 2

hi-Fits : Fits hi
hi-Fits =
    header_for-Fits 2 5 10 1000 2 (omega arith) (omega arith) (omega arith) (omega arith)
      (omega arith)

-- The ring with one message.
abbrev one_message : LogRing
one_message = append hi text empty_ring

one_message-IsLog : IsLog one_message ((hi, text) ∷ [])
unfolding header_for
one_message-IsLog =
    append-IsLog empty_ring [] hi text empty_ring-IsLog hi-Fits (omega arith) (omega arith)

log_dispatch-IsLog_example :
    let h = header_for 1 4 30 2000 (min 300 255) in
    (r' : LogRing) × (log_dispatch 1 4 30 300 text 2000 one_message ≡ some r')
    × IsLog r' (evict (tot_size h.len) ((hi, text) ∷ []) ++ (h, text) ∷ [])
    × (r'.head ≡ one_message.head + tot_size h.len)
unfolding append header_for
log_dispatch-IsLog_example =
    log_dispatch-IsLog 1 4 30 300 text 2000 one_message ((hi, text) ∷ []) one_message-IsLog
      (omega arith) (omega arith) (omega arith) (omega arith) (omega arith)

log_flash-lines_example :
    (u : LogRing) × (log_flash blank one_message ≡ some (line_of hi text ∷ [], u))
    × IsLog u []
    × (u.dirty ≡ false)
unfolding append header_for
log_flash-lines_example =
    log_flash-lines blank one_message ((hi, text) ∷ []) one_message-IsLog ((λ e. omega arith), tt)

abbrev hi_text : List ℕ
hi_text = 104 ∷ 105 ∷ []

text-kept : (i : ℕ) → i < 254 → i < 2 → text i ≡ get_or hi_text i 0
text-kept zero lt short = refl
text-kept (suc zero) lt short = refl
text-kept (suc (suc i)) lt short = absurd (omega arith)

log_flash-log_dispatch_example :
    let line : Line = record {
      dom = 2;
      ent = 5;
      lvl = 10;
      ts = 1000;
      text = cut_text 254 hi_text;
    } in
    (r' : LogRing) × (log_dispatch 2 5 10 2 text 1000 empty_ring ≡ some r')
    × (u : LogRing) × (log_flash blank r' ≡ some (line ∷ [], u))
log_flash-log_dispatch_example =
    log_flash-log_dispatch 2 5 10 hi_text text blank 1000 empty_ring empty_ring-IsLog
      (λ (e : 4080 % 4096 ≡ 4088). omega arith) (omega arith) (omega arith) (omega arith)
      (omega arith) (omega arith) (record { kept = text-kept; closed = refl }) (omega arith)

write_entry-at_example :
    write_entry blank 4080 hi text 4093
    ≡ (if ltb 4093 4096 && ltb (behind 4080 4093) (tot_size 2) then entry_byte hi text 13 else 0)
unfolding header_for
write_entry-at_example =
    write_entry-at blank 4080 hi text 4093 (omega arith) (omega arith) (omega arith) refl

copy_u64-eq_example : copy_u64 text 0 blank 8 15 ≡ move 15 text 0 blank 8
copy_u64-eq_example = copy_u64-eq text 0 blank 8 15

-- Domain -3 and entity -12 have the place of domain 1 and entity 4.
log_get_level-log_set_level_example :
    log_get_level (pos 1) (pos 4) (log_set_level (negsuc 2) (negsuc 11) (pos 40) (replicate 64 30))
    ≡ pos 40
log_get_level-log_set_level_example =
    log_get_level-log_set_level (negsuc 2) (negsuc 11) (pos 1) (pos 4) (pos 40) (replicate 64 30)
      refl
