-- ===== src/Fifo/Threads/Alone.antt =====
-- One thread at rest: the steps of the other are the sequential functions.
use embed_template.Prelude.{ℕ, ◌%◌, ◌≡◌, List, [], ◌∷◌, ◌++◌}
use embed_template.Prelude.{get_or, ◌==◌, replicate, true, false}
use embed_template.Prelude.Int.{pos}
use embed_template.Fifo.{Fifo, next, fifo_push, fifo_pop}
use embed_template.Fifo.Threads.{turn, produce, consume, schedule, at_rest}

-- Run with the other thread at rest, the steps of the producer are `fifo_push`: three steps drop
-- the byte when the FIFO is full, and four store it and record it when there is room.
pub producer_alone :
    (c : ℕ) (f : Fifo) (sent got : List ℕ)
    → ((next f.head == f.tail) ≡ true
        → schedule (replicate 3 (produce c)) (at_rest f sent got)
          ≡ at_rest (fifo_push f c) sent got)
      × ((next f.head == f.tail) ≡ false
          → schedule (replicate 4 (produce c)) (at_rest f sent got)
            ≡ at_rest (fifo_push f c) (sent ++ (c % 256 ∷ [])) got)
unfolding schedule turn fifo_push
producer_alone c f sent got = (λ full. rw full, λ room. rw room)

-- Run with the other thread at rest, the steps of the consumer are `fifo_pop`: three steps find
-- the FIFO empty, and four deliver the byte that `fifo_pop` returns.
pub consumer_alone :
    (f : Fifo) (sent got : List ℕ)
    → ((f.tail == f.head) ≡ true
        → schedule (replicate 3 consume) (at_rest f sent got) ≡ at_rest (fifo_pop f).1 sent got)
      × ((f.tail == f.head) ≡ false
          → (b : ℕ) × ((fifo_pop f).0 ≡ pos b)
            × (schedule (replicate 4 consume) (at_rest f sent got)
                ≡ at_rest (fifo_pop f).1 sent (got ++ (b ∷ []))))
unfolding schedule turn fifo_pop
consumer_alone f sent got = (
  λ none_left. rw none_left,
  λ some_left. (get_or f.buffer f.tail 0 % 256, rw some_left, rw some_left),
)
