-- ===== src/Fifo/Tests.antt =====
-- Runs of the FIFO, and the theorems at concrete inputs.
use embed_template.Prelude.{
  ℕ, ◌≡◌, ◌≢◌, refl, List, [], ◌∷◌, ◌++◌, replicate, length-replicate, arith, true, false,
}
use embed_template.Prelude.Int.{pos, negsuc}
use embed_template.Fifo.{Fifo, next}
use embed_template.Fifo.Queue
use embed_template.Fifo.Queue.{Op, push, pop, test_empty, Reply, done, value, flag}
use embed_template.Fifo.Refine.{IsValid, contents, run, run_refines, zeros-bytes}
use embed_template.Fifo.Threads.{Producer, Consumer, produce, consume, Turn, turn, schedule, boot}
use embed_template.Fifo.Threads.Safety.{spsc_conserves, spsc_no_race}

-- Empty, with the indices about to wrap.
abbrev at_end : Fifo
at_end = record { buffer = replicate 256 0; head = 255; tail = 255 }

at_end-IsValid : IsValid at_end
at_end-IsValid = record {
  size = length-replicate {A = ℕ} 256 0;
  head_in = omega arith;
  tail_in = omega arith;
  bytes = zeros-bytes 256;
}

abbrev ops : List Op
ops = push 65 ∷ push 322 ∷ pop ∷ test_empty ∷ pop ∷ pop ∷ test_empty ∷ []

run_refines_example : run at_end ops ≡ Queue.run (contents at_end) ops
run_refines_example = run_refines ops at_end-IsValid

queue_run :
    Queue.run [] ops
    ≡ done ∷ done ∷ value (pos 65) ∷ flag false ∷ value (pos 66) ∷ value (negsuc 0) ∷ flag true ∷ []
unfolding Queue.run Queue.enqueue Queue.dequeue Queue.is_empty
queue_run = refl

-- The producer starts a second byte while the consumer takes the first.
abbrev turns : List Turn
turns =
    produce 65 ∷ produce 0 ∷ produce 0 ∷ produce 0 ∷ consume ∷ produce 66 ∷ consume ∷ produce 0 ∷ []

spsc_conserves_example : let s = schedule turns boot in s.accepted ≡ s.delivered ++ contents s.fifo
spsc_conserves_example = spsc_conserves turns

both_poised :
    ((schedule turns boot).producer ≡ Producer.tail_loaded 66 1 0)
    × ((schedule turns boot).consumer ≡ Consumer.head_loaded 0 1)
unfolding schedule turn next
both_poised = (refl, refl)

spsc_no_race_example : ◌≢◌ {A = ℕ} 1 0
unfolding next
spsc_no_race_example =
    spsc_no_race turns 66 1 0 0 1 both_poised.0 (λ e. omega (arith, e)) both_poised.1
      (λ e. omega (arith, e))

-- One byte in the last place of the buffer.
abbrev one_left : Fifo
one_left = record { buffer = replicate 256 7; head = 0; tail = 255 }
