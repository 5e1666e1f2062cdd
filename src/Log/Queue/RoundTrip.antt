-- ===== src/Log/Queue/RoundTrip.antt =====
-- A message that is logged is printed.
use embed_template.Prelude.{
  ℕ, ◌+◌, ◌*◌, ◌/◌, ◌%◌, ◌^◌, ◌<◌, ◌≡◌, ◌≢◌, ◌∙◌, ap, ap₂, sym, arith, min, zero, suc, List, [],
  ◌∷◌, length, get_or, some, bit_or,
}
use embed_template.Prelude.Bits.Fields.{bit_or_fields}
use embed_template.Log.Memory.{Memory}
use embed_template.Log.Dispatch.{LogRing, log_dispatch, header_for}
use embed_template.Log.Flash.{Line, bytes_from, line_of, log_flash}
use embed_template.Log.Queue.{IsLog, Entries-total}
use embed_template.Log.Queue.Push.{evict, log_dispatch-IsLog}
use embed_template.Log.Queue.Drain.{log_flash-lines}

-- The time is cut into 16 and 32 bits and put together again.
time_parts : (ts : ℕ) → ts < 2 ^ 48 → bit_or (ts / 2 ^ 32 % 2 ^ 16 * 2 ^ 32) (ts % 2 ^ 32) ≡ ts
time_parts ts h = bit_or_fields 32 (ts / 2 ^ 32 % 2 ^ 16) (ts % 2 ^ 32) (omega arith) ∙ omega arith

-- The first `n` bytes of a text, and a null byte where it goes on.
pub cut_text : ℕ → List ℕ → List ℕ
cut_text n [] = []
cut_text zero (c ∷ cs) = 0 ∷ []
cut_text (suc n) (c ∷ cs) = c ∷ cut_text n cs

bytes_from-cut_text :
    (n k : ℕ) (str : List ℕ) (buf : Memory)
    → ((i : ℕ) → i < n → i < length str → buf (k + i) ≡ get_or str i 0)
    → (n < length str → buf (k + n) ≡ 0)
    → bytes_from (min (length str) (suc n)) k buf ≡ cut_text n str
unfolding bytes_from cut_text
bytes_from-cut_text n k [] buf kept closed =
    ap (λ m. bytes_from m k buf) {x = min 0 (suc n)} {y = 0} (omega arith)
bytes_from-cut_text zero k (c ∷ cs) buf kept closed =
    ap (λ m. bytes_from m k buf) {x = min (length (c ∷ cs)) 1} {y = 1} (omega arith)
    ∙ ap (λ b. b ∷ []) (ap buf {x = k} {y = k + 0} (omega arith) ∙ closed (omega arith))
bytes_from-cut_text (suc n) k (c ∷ cs) buf kept closed =
    let next = λ (i : ℕ). ap buf {x = suc k + i} {y = k + suc i} (omega arith) in
    let rest =
      bytes_from-cut_text n (suc k) cs buf
        (λ i lt short. next i ∙ kept (suc i) (omega arith) (omega arith))
        (λ more. next n ∙ closed (omega arith)) in
    ap (λ m. bytes_from m k buf) {x = min (length (c ∷ cs)) (suc (suc n))}
      {y = suc (min (length cs) (suc n))} (omega arith)
    ∙ ap₂ (λ b bs. b ∷ bs)
        (ap buf {x = k} {y = k + 0} (omega arith) ∙ kept 0 (omega arith) (omega arith)) rest

-- What vsnprintf stores of a text in a buffer of 255 bytes: its first 254 bytes and a null byte.
pub record Prints (str : List ℕ) (buf : Memory) : Type 0 where
  pub kept : (i : ℕ) → i < 254 → i < length str → buf i ≡ get_or str i 0
  pub closed : buf (min (length str) 254) ≡ 0

-- A message with a text of one byte or more, logged to an empty ring and then flashed, reaches the
-- writer once and alone, with its domain, entity, level and 48-bit time. A text of up to 254 bytes
-- is complete; of a longer one the writer gets the first 254 bytes and a null byte. The head is
-- more than 4096 below 2 ^ 32, and the header is not cut by the end of the ring.
pub log_flash-log_dispatch :
    (domain entity level : ℕ) (str : List ℕ) (buf into : Memory) (ts : ℕ) (r : LogRing)
    → IsLog r []
    → r.head % 4096 ≢ 4088
    → r.head + 4096 < 2 ^ 32
    → domain < 256
    → entity < 256
    → level < 256
    → 0 < length str
    → Prints str buf
    → ts < 2 ^ 48
    → let line : Line = record {
      dom = domain;
      ent = entity;
      lvl = level;
      ts = ts;
      text = cut_text 254 str;
    } in
      (r' : LogRing) × (log_dispatch domain entity level (length str) buf ts r ≡ some r')
      × (u : LogRing) × (log_flash into r' ≡ some (line ∷ [], u))
unfolding evict line_of header_for
log_flash-log_dispatch domain entity level str buf into ts r v apart low hd he hl pos prints time =
    let len = min (length str) 255 in
    let h = header_for domain entity level ts len in
    let (r', e, v', end) =
      log_dispatch-IsLog domain entity level (length str) buf ts r [] v low hd he hl pos in
    let reach = Entries-total r'.bytes r'.tail ((h, buf) ∷ []) r'.head v'.entries in
    let at : r'.tail ≡ r.head = omega (arith, reach, end) in
    let (u, f, _, _) =
      log_flash-lines into r' ((h, buf) ∷ []) v'
        ((λ c. apart (ap (λ t. t % 4096) (sym at) ∙ c)), tt) in
    let line : ℕ → List ℕ → Line =
      λ t text. record { dom = domain; ent = entity; lvl = level; ts = t; text = text } in
    let text =
      bytes_from-cut_text 254 0 str buf
        (λ i lt short. ap buf {x = 0 + i} {y = i} (omega arith) ∙ prints.kept i lt short)
        (λ more. ap buf {x = 0 + 254} {y = min (length str) 254} (omega arith) ∙ prints.closed) in
    (r', e, u, f ∙ ap₂ (λ t x. some (line t x ∷ [], u)) (time_parts ts time) text)
