-- ===== src/Log/Queue.antt =====
-- The ring as a queue of entries: what it holds between the tail and the head.
pub mod Push
pub mod Drain
pub mod RoundTrip
use embed_template.Prelude.{
  ℕ, zero, suc, ◌+◌, ◌-◌, ◌*◌, ◌/◌, ◌%◌, ◌^◌, ◌≤◌, ◌<◌, ◌≡◌, ◌∙◌, refl, ap, sym, arith, ltb,
  if◌then◌else◌, List, [], ◌∷◌, ◌++◌, length, ◌==◌, bit_and,
}
use embed_template.Prelude.Bits.{bit_and_mask}
use embed_template.Log.Memory.{Memory}
use embed_template.Log.Entry.{Header, tot_size, pad_size, read_header, log_tag_seal}
use embed_template.Log.Entry.Written.{entry_byte}
use embed_template.Log.Entry.Back.{Fits, Holds, read_header-eq}
use embed_template.Log.Dispatch.{LogRing, entry_size, tag_at}

-- A header and the buffer with its payload.
abbrev pub Entry : Type 0
Entry = Header × Memory

-- The entries lie one behind the other from the tail to the head.
abbrev pub Entries : Memory → ℕ → List Entry → ℕ → Type 0
Entries bytes tail [] head = tail ≡ head
Entries bytes tail ((h, buf) ∷ es) head =
    (tail % 8 ≡ 0) × Fits h × Holds bytes tail h buf × Entries bytes (tail + tot_size h.len) es head

-- The state of the ring that holds the entries.
pub record IsLog (r : LogRing) (es : List Entry) : Type 0 where
  pub entries : Entries r.bytes r.tail es r.head
  pub span : r.head ≤ r.tail + 4096
  pub whole : r.head % 8 ≡ 0
  pub low : r.head < 2 ^ 32

abbrev pub total : List Entry → ℕ
total [] = 0
total ((h, buf) ∷ es) = tot_size h.len + total es

pub Entries-total :
    (bytes : Memory) (tail : ℕ) (es : List Entry) (head : ℕ)
    → Entries bytes tail es head
    → tail + total es ≡ head
Entries-total bytes tail [] head e = omega (arith, e)
Entries-total bytes tail ((h, buf) ∷ es) head (_, _, _, rest) =
    omega (arith, Entries-total bytes (tail + tot_size h.len) es head rest)

-- Each entry has at least 16 bytes.
pub length-le-total :
    (bytes : Memory) (tail : ℕ) (es : List Entry) (head : ℕ)
    → Entries bytes tail es head
    → 16 * length es ≤ total es
length-le-total bytes tail [] head e = omega arith
length-le-total bytes tail ((h, buf) ∷ es) head (_, fits, _, rest) =
    omega (arith, fits.some_bytes, length-le-total bytes (tail + tot_size h.len) es head rest)

-- Bytes elsewhere do not matter.
pub Entries-frame :
    (bytes bytes' : Memory) (tail : ℕ) (es : List Entry) (head : ℕ)
    → Entries bytes tail es head
    → ((q : ℕ) → tail ≤ q → q < head → bytes' (q % 4096) ≡ bytes (q % 4096))
    → Entries bytes' tail es head
Entries-frame bytes bytes' tail [] head e same = e
Entries-frame bytes bytes' tail ((h, buf) ∷ es) head (whole, fits, holds, rest) same =
    let reach = Entries-total bytes (tail + tot_size h.len) es head rest in
    (
      whole,
      fits,
      λ k lt. same (tail + k) (omega arith) (omega arith) ∙ holds k lt,
      Entries-frame bytes bytes' (tail + tot_size h.len) es head rest
          (λ q le lt. same q (omega arith) lt),
    )

pub Entries-append :
    (bytes : Memory) (tail : ℕ) (es : List Entry) (head : ℕ) (h : Header) (buf : Memory)
    → Entries bytes tail es head
    → head % 8 ≡ 0
    → Fits h
    → Holds bytes head h buf
    → Entries bytes tail (es ++ (h, buf) ∷ []) (head + tot_size h.len)
Entries-append bytes tail [] head h buf e whole fits holds = (
  omega (arith, e),
  fits,
  λ k lt. ap (λ t. bytes ((t + k) % 4096)) e ∙ holds k lt,
  ap (λ t. t + tot_size h.len) e,
)
Entries-append bytes tail ((g, old) ∷ es) head h buf (first, ok, held, rest) whole fits holds = (
  first,
  ok,
  held,
  Entries-append bytes (tail + tot_size g.len) es head h buf rest whole fits holds,
)

-- The entry at the tail is sealed, and its header gives its size.
pub oldest :
    (bytes : Memory) (tail : ℕ) (h : Header) (buf : Memory)
    → Fits h
    → Holds bytes tail h buf
    → (tag_at bytes tail ≡ log_tag_seal) × (entry_size (read_header bytes tail) ≡ tot_size h.len)
unfolding entry_byte
oldest bytes tail h buf fits holds =
    let at : bit_and tail 4095 ≡ tail % 4096 = bit_and_mask 12 tail in
    (
      ap bytes (at ∙ omega arith) ∙ holds 0 (omega arith),
      ap entry_size (read_header-eq bytes tail h buf fits holds) ∙ omega (arith, fits.pad),
    )
