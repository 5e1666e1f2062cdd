-- ===== src/Fifo/Threads.antt =====
-- `fifo_push` and `fifo_pop` on two threads, cut at their accesses to shared memory: each step
-- makes one atomic load or store, or one access to `fifo_buffer`. Acquire and release order the
-- buffer accesses with the index stores, so an interleaving of steps is what the threads can see.
pub mod Inv
pub mod Safety
pub mod Alone
use embed_template.Prelude.{
  ℕ, ◌+◌, ◌%◌, List, [], ◌∷◌, ◌++◌, get_or, set, ◌==◌, if◌then◌else◌, replicate,
}
use embed_template.Fifo.{Fifo, next}

-- Where `fifo_push` stands, with its locals: the byte, `head` and `tail`.
pub data Producer : Type 0 where
  idle : Producer
  head_loaded : (c head : ℕ) → Producer
  tail_loaded : (c head tail : ℕ) → Producer
  stored : (c head : ℕ) → Producer

-- Where `fifo_pop` stands, with its locals: `tail`, `head` and the byte read.
pub data Consumer : Type 0 where
  idle : Consumer
  tail_loaded : (tail : ℕ) → Consumer
  head_loaded : (tail head : ℕ) → Consumer
  taken : (tail c : ℕ) → Consumer

-- `accepted` and `delivered` record the bytes of the pushes and pops that took effect.
pub record System : Type 0 where
  pub fifo : Fifo
  pub producer : Producer
  pub consumer : Consumer
  pub accepted : List ℕ
  pub delivered : List ℕ

-- The next step of `fifo_push`; at rest it begins a push of the given byte.
producer_at : Producer → ℕ → System → System
producer_at Producer.idle c s = record s { producer = Producer.head_loaded c s.fifo.head }
producer_at (Producer.head_loaded b head) c s = record s {
  producer = Producer.tail_loaded b head s.fifo.tail;
}
producer_at (Producer.tail_loaded b head tail) c s =
    if next head == tail then record s { producer = Producer.idle } else record s {
      producer = Producer.stored b head;
      fifo = record {
        buffer = set s.fifo.buffer head (b % 256);
        head = s.fifo.head;
        tail = s.fifo.tail;
      };
    }
producer_at (Producer.stored b head) c s = record s {
  producer = Producer.idle;
  accepted = s.accepted ++ (b % 256 ∷ []);
  fifo = record { buffer = s.fifo.buffer; head = next head; tail = s.fifo.tail };
}

-- The next step of `fifo_pop`.
consumer_at : Consumer → System → System
consumer_at Consumer.idle s = record s { consumer = Consumer.tail_loaded s.fifo.tail }
consumer_at (Consumer.tail_loaded tail) s = record s {
  consumer = Consumer.head_loaded tail s.fifo.head;
}
consumer_at (Consumer.head_loaded tail head) s =
    if tail == head
    then record s { consumer = Consumer.idle }
    else record s { consumer = Consumer.taken tail (get_or s.fifo.buffer tail 0 % 256) }
consumer_at (Consumer.taken tail c) s = record s {
  consumer = Consumer.idle;
  delivered = s.delivered ++ (c ∷ []);
  fifo = record { buffer = s.fifo.buffer; head = s.fifo.head; tail = next tail };
}

-- Which thread moves next; a producer at rest begins to push the given byte.
pub data Turn : Type 0 where
  produce : ℕ → Turn
  consume : Turn

unfoldable pub turn : Turn → System → System
unfolding producer_at consumer_at
turn (produce c) s = producer_at s.producer c s
turn consume s = consumer_at s.consumer s

unfoldable pub schedule : List Turn → System → System
schedule [] s = s
schedule (t ∷ ts) s = schedule ts (turn t s)

-- Both threads at rest around a FIFO.
abbrev pub at_rest : Fifo → List ℕ → List ℕ → System
at_rest f accepted delivered = record {
  fifo = f;
  producer = Producer.idle;
  consumer = Consumer.idle;
  accepted = accepted;
  delivered = delivered;
}

-- The zeroed statics at program start.
abbrev pub boot : System
boot = at_rest (record { buffer = replicate 256 0; head = 0; tail = 0 }) [] []
