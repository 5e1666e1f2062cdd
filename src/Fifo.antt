-- ===== src/Fifo.antt =====
-- common/src/fifo.c: the single-producer, single-consumer byte FIFO.
-- `fifo_buffer`, `fifo_head` and `fifo_tail` are the fields of `Fifo`; each function of the file
-- takes the state and returns the new one. `char` is a byte. `size_t` has 32 bits; the mask makes
-- its width immaterial. `Threads` splits the two functions at their atomic accesses.
pub mod Queue
pub mod Refine
pub mod Threads
mod Tests
use embed_template.Prelude.{ℕ, ◌+◌, ◌%◌, ◌^◌, Bool, List, bit_and, ◌==◌, if◌then◌else◌}
use embed_template.Prelude.{get_or, set}
use embed_template.Prelude.Int.{ℤ, pos, negsuc}

pub record Fifo : Type 0 where
  pub buffer : List ℕ
  pub head : ℕ
  pub tail : ℕ

abbrev pub fifo_size : ℕ
fifo_size = 256

abbrev pub fifo_mask : ℕ
fifo_mask = 255

-- `(i + 1) & FIFO_MASK`
unfoldable pub next : ℕ → ℕ
next i = bit_and ((i + 1) % 2 ^ 32) fifo_mask

pub fifo_init : Fifo → Fifo
fifo_init f = record f { head = 0; tail = 0 }

-- A full FIFO drops the byte.
pub fifo_push : Fifo → ℕ → Fifo
fifo_push f c =
    if next f.head == f.tail
    then f
    else record f { buffer = set f.buffer f.head (c % 256); head = next f.head }

-- -1 when the FIFO is empty, else the oldest byte.
pub fifo_pop : Fifo → ℤ × Fifo
fifo_pop f =
    if f.tail == f.head
    then (negsuc 0, f)
    else (pos (get_or f.buffer f.tail 0 % 256), record f { tail = next f.tail })

pub fifo_is_empty : Fifo → Bool
fifo_is_empty f = f.head == f.tail
