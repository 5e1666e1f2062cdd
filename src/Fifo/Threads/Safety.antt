-- ===== src/Fifo/Threads/Safety.antt =====
-- No interleaving of one producer and one consumer loses, repeats or reorders a byte.
use embed_template.Prelude.{ℕ, ◌%◌, ◌≡◌, refl, ◌≢◌, List, [], ◌∷◌, ◌++◌, arith}
use embed_template.Prelude.{get_or, ◌==◌, Bool-cases, inl, inr, length-replicate}
use mathlib.Core.Path.{subst}
use embed_template.Fifo.{next}
use embed_template.Fifo.Refine.{zeros-bytes, next_lem, window, contents}
use embed_template.Fifo.Threads.{
  Producer, Consumer, System, producer_at, consumer_at, turn, Turn, produce, consume, schedule,
  boot,
}
use embed_template.Fifo.Threads.Inv.{
  ProducerKnows, ConsumerKnows, Inv, store-Inv, publish-Inv, release-Inv,
}

at_producer :
    {s : System} (p : Producer) → Inv s → ProducerKnows p s.fifo → Inv (record s { producer = p })
at_producer p v k = record {
  valid = v.valid;
  producer_knows = k;
  consumer_knows = v.consumer_knows;
  conserved = v.conserved;
}

at_consumer :
    {s : System} (q : Consumer) → Inv s → ConsumerKnows q s.fifo → Inv (record s { consumer = q })
at_consumer q v k = record {
  valid = v.valid;
  producer_knows = v.producer_knows;
  consumer_knows = k;
  conserved = v.conserved;
}

producer-Inv :
    (p : Producer) (c : ℕ) (s : System) → Inv s → ProducerKnows p s.fifo → Inv (producer_at p c s)
unfolding producer_at
producer-Inv Producer.idle c s v k = at_producer (Producer.head_loaded c s.fifo.head) v refl
producer-Inv (Producer.head_loaded b head) c s v k =
    at_producer (Producer.tail_loaded b head s.fifo.tail) v (k, v.valid.tail_in, omega arith)
producer-Inv (Producer.tail_loaded b head tail) c s v k = elim (Bool-cases (next head == tail)) [
  | inl full ↦ rw full (at_producer Producer.idle v tt)
  | inr room ↦
      rw (room, k.0) (store-Inv s b v (ground (arith, next_lem s.fifo.head, k.0, k.1, k.2)))
]
producer-Inv (Producer.stored b head) c s v k = rw k.0 (publish-Inv s b v (refl, k.1, k.2))

consumer-Inv : (q : Consumer) (s : System) → Inv s → ConsumerKnows q s.fifo → Inv (consumer_at q s)
unfolding consumer_at
consumer-Inv Consumer.idle s v k = at_consumer (Consumer.tail_loaded s.fifo.tail) v refl
consumer-Inv (Consumer.tail_loaded tail) s v k =
    at_consumer (Consumer.head_loaded tail s.fifo.head) v (k, v.valid.head_in, omega arith)
consumer-Inv (Consumer.head_loaded tail head) s v k = elim (Bool-cases (tail == head)) [
  | inl none_left ↦ rw none_left (at_consumer Consumer.idle v tt)
  | inr some_left ↦ rw some_left (
      at_consumer (Consumer.taken tail (get_or s.fifo.buffer tail 0 % 256)) v
        (k.0, ground (arith, v.valid.bytes tail, k.0), ground (arith, k.0, k.1, k.2)))
]
consumer-Inv (Consumer.taken tail c) s v k = rw k.0 (release-Inv s c v (refl, k.1, k.2))

-- One step of either thread keeps the invariant.
turn-Inv : (t : Turn) {s : System} → Inv s → Inv (turn t s)
unfolding turn
turn-Inv (produce c) {s} v = producer-Inv s.producer c s v v.producer_knows
turn-Inv consume {s} v = consumer-Inv s.consumer s v v.consumer_knows

schedule-Inv : (ts : List Turn) {s : System} → Inv s → Inv (schedule ts s)
unfolding schedule
schedule-Inv [] v = v
schedule-Inv (t ∷ ts) v = schedule-Inv ts (turn-Inv t v)

boot-Inv : Inv boot
unfolding window
boot-Inv = record {
  valid = record {
    size = length-replicate {A = ℕ} 256 0;
    head_in = omega arith;
    tail_in = omega arith;
    bytes = zeros-bytes 256;
  };
  producer_knows = tt;
  consumer_knows = tt;
  conserved = refl;
}

-- From program start, under every interleaving of one pushing and one popping thread, the bytes
-- accepted so far are the bytes delivered so far followed by the bytes in the FIFO.
pub spsc_conserves :
    (ts : List Turn) → let s = schedule ts boot in s.accepted ≡ s.delivered ++ contents s.fifo
spsc_conserves ts = (schedule-Inv ts boot-Inv).conserved

producer_view : {s : System} {p : Producer} → Inv s → s.producer ≡ p → ProducerKnows p s.fifo
producer_view {s} v e = subst (λ p. ProducerKnows p s.fifo) e v.producer_knows

consumer_view : {s : System} {q : Consumer} → Inv s → s.consumer ≡ q → ConsumerKnows q s.fifo
consumer_view {s} v e = subst (λ q. ConsumerKnows q s.fifo) e v.consumer_knows

-- From program start, under every interleaving, the byte that the producer is about to write
-- (its test for room passed) is not the byte that the consumer is about to read (its test for
-- emptiness failed).
pub spsc_no_race :
    (ts : List Turn) (b head tail_seen tail head_seen : ℕ)
    → (schedule ts boot).producer ≡ Producer.tail_loaded b head tail_seen
    → next head ≢ tail_seen
    → (schedule ts boot).consumer ≡ Consumer.head_loaded tail head_seen
    → tail ≢ head_seen
    → head ≢ tail
spsc_no_race ts b head tail_seen tail head_seen p room q some_left =
    let v = schedule-Inv ts boot-Inv in
    let k = producer_view v p in
    let l = consumer_view v q in
    ground (arith, v.valid.head_in, v.valid.tail_in, k.0, l.0, l.1, l.2)
