-- ===== src/Fifo/Threads/Inv.antt =====
-- What each thread knows of the FIFO, as an invariant, and the steps that write.
use embed_template.Prelude.{ℕ, ◌%◌, ◌<◌, ◌≤◌, ◌≡◌, refl, sym, ◌∙◌, ap, ap₂, [], ◌∷◌, ◌++◌, arith}
use embed_template.Prelude.{get_or, set, length-set, get_or-set_self, get_or-set_ne}
use mathlib.Core.List.{append_assoc}
use embed_template.Fifo.{Fifo, next}
use embed_template.Fifo.Refine.{
  next_lem, distance, window, window_publish, window_pop, set-bytes, window-set_outside, contents,
  IsValid,
}
use embed_template.Fifo.Threads.{Producer, Consumer, System}

-- What the producer knows: the head is its own, and the tail it saw can only have moved on.
abbrev pub ProducerKnows : Producer → Fifo → Type 0
ProducerKnows Producer.idle f = Unit {0}
ProducerKnows (Producer.head_loaded c head) f = head ≡ f.head
ProducerKnows (Producer.tail_loaded c head tail) f =
    (head ≡ f.head) × (tail < 256) × (distance f.tail f.head ≤ distance tail f.head)
ProducerKnows (Producer.stored c head) f =
    (head ≡ f.head) × (get_or f.buffer f.head 0 ≡ c % 256) × (distance f.tail f.head < 255)

-- What the consumer knows: the tail is its own, and the head it saw can only have moved on.
abbrev pub ConsumerKnows : Consumer → Fifo → Type 0
ConsumerKnows Consumer.idle f = Unit {0}
ConsumerKnows (Consumer.tail_loaded tail) f = tail ≡ f.tail
ConsumerKnows (Consumer.head_loaded tail head) f =
    (tail ≡ f.tail) × (head < 256) × (distance f.tail head ≤ distance f.tail f.head)
ConsumerKnows (Consumer.taken tail c) f =
    (tail ≡ f.tail) × (c ≡ get_or f.buffer f.tail 0) × (0 < distance f.tail f.head)

pub record Inv (s : System) : Type 0 where
  pub valid : IsValid s.fifo
  pub producer_knows : ProducerKnows s.producer s.fifo
  pub consumer_knows : ConsumerKnows s.consumer s.fifo
  pub conserved : s.accepted ≡ s.delivered ++ contents s.fifo

consumer_keeps_store :
    (k : Consumer) (f : Fifo) (b : ℕ)
    → IsValid f
    → ConsumerKnows k f
    → ConsumerKnows k (record { buffer = set f.buffer f.head b; head = f.head; tail = f.tail })
consumer_keeps_store Consumer.idle f b v h = tt
consumer_keeps_store (Consumer.tail_loaded tail) f b v h = h
consumer_keeps_store (Consumer.head_loaded tail head) f b v h = h
consumer_keeps_store (Consumer.taken tail c) f b v h =
    (h.0, h.1 ∙ sym (get_or-set_ne f.buffer f.head f.tail b 0 (omega (arith, h.2))), h.2)

consumer_keeps_publish :
    (k : Consumer) (f : Fifo)
    → IsValid f
    → distance f.tail f.head < 255
    → ConsumerKnows k f
    → ConsumerKnows k (record { buffer = f.buffer; head = next f.head; tail = f.tail })
consumer_keeps_publish Consumer.idle f v room h = tt
consumer_keeps_publish (Consumer.tail_loaded tail) f v room h = h
consumer_keeps_publish (Consumer.head_loaded tail head) f v room h =
    (h.0, h.1, omega (arith, next_lem f.head))
consumer_keeps_publish (Consumer.taken tail c) f v room h =
    (h.0, h.1, omega (arith, next_lem f.head))

producer_keeps_release :
    (p : Producer) (f : Fifo)
    → IsValid f
    → 0 < distance f.tail f.head
    → ProducerKnows p f
    → ProducerKnows p (record { buffer = f.buffer; head = f.head; tail = next f.tail })
producer_keeps_release Producer.idle f v some_left h = tt
producer_keeps_release (Producer.head_loaded c head) f v some_left h = h
producer_keeps_release (Producer.tail_loaded c head tail) f v some_left h =
    (h.0, h.1, omega (arith, next_lem f.tail))
producer_keeps_release (Producer.stored c head) f v some_left h =
    (h.0, h.1, omega (arith, next_lem f.tail))

abbrev stored_at : System → ℕ → System
stored_at s b = record s {
  producer = Producer.stored b s.fifo.head;
  fifo = record {
    buffer = set s.fifo.buffer s.fifo.head (b % 256);
    head = s.fifo.head;
    tail = s.fifo.tail;
  };
}

pub store-Inv :
    (s : System) (b : ℕ) → Inv s → distance s.fifo.tail s.fifo.head < 255 → Inv (stored_at s b)
store-Inv s b v room = record {
  valid = record {
    size = length-set buffer head (b % 256) ∙ v.valid.size;
    head_in = v.valid.head_in;
    tail_in = v.valid.tail_in;
    bytes = set-bytes buffer head (b % 256) (omega arith) v.valid.bytes;
  };
  producer_knows = (refl, get_or-set_self buffer head (b % 256) 0 (omega arith), room);
  consumer_knows = consumer_keeps_store s.consumer s.fifo (b % 256) v.valid v.consumer_knows;
  conserved =
      v.conserved
      ∙ ap (λ t. s.delivered ++ t)
          (sym (
            window-set_outside buffer tail (distance tail head) head (b % 256) (omega arith)
              (omega arith) (omega arith)));
}
  where
    open s.fifo use {buffer, head, tail}

abbrev published : System → ℕ → System
published s b = record s {
  producer = Producer.idle;
  accepted = s.accepted ++ (b % 256 ∷ []);
  fifo = record { buffer = s.fifo.buffer; head = next s.fifo.head; tail = s.fifo.tail };
}

pub publish-Inv :
    (s : System) (b : ℕ)
    → Inv s
    → ProducerKnows (Producer.stored b s.fifo.head) s.fifo
    → Inv (published s b)
publish-Inv s b v k = record {
  valid = record {
    size = v.valid.size;
    head_in = omega (arith, next_lem head);
    tail_in = v.valid.tail_in;
    bytes = v.valid.bytes;
  };
  producer_knows = tt;
  consumer_knows = consumer_keeps_publish s.consumer s.fifo v.valid k.2 v.consumer_knows;
  conserved =
      ap₂ (λ xs y. xs ++ (y ∷ [])) v.conserved (sym k.1)
      ∙ append_assoc s.delivered (contents s.fifo) (get_or buffer head 0 ∷ [])
      ∙ ap (λ t. s.delivered ++ t)
          (sym (window_publish buffer head tail (omega arith) (omega arith) k.2));
}
  where
    open s.fifo use {buffer, head, tail}

abbrev released : System → ℕ → System
released s c = record s {
  consumer = Consumer.idle;
  delivered = s.delivered ++ (c ∷ []);
  fifo = record { buffer = s.fifo.buffer; head = s.fifo.head; tail = next s.fifo.tail };
}

pub release-Inv :
    (s : System) (c : ℕ)
    → Inv s
    → ConsumerKnows (Consumer.taken s.fifo.tail c) s.fifo
    → Inv (released s c)
release-Inv s c v k = record {
  valid = record {
    size = v.valid.size;
    head_in = v.valid.head_in;
    tail_in = omega (arith, next_lem tail);
    bytes = v.valid.bytes;
  };
  producer_knows = producer_keeps_release s.producer s.fifo v.valid k.2 v.producer_knows;
  consumer_knows = tt;
  conserved =
      v.conserved
      ∙ ap (λ t. s.delivered ++ t)
          (window_pop buffer head tail (omega arith) (omega arith) (omega (arith, k.2)))
      ∙ ap (λ y. s.delivered ++ (y ∷ window buffer (next tail) (distance (next tail) head)))
          (sym k.1)
      ∙ sym (append_assoc s.delivered (c ∷ []) _);
}
  where
    open s.fifo use {buffer, head, tail}
