-- ===== src/Clock/Tests.antt =====
-- The theorems on the clock at concrete states.
use embed_template.Prelude.{ℕ, ◌≤◌, ◌+◌, ◌*◌, ◌%◌, ◌^◌, refl, arith, [], ◌∷◌}
use embed_template.Clock.{Clock, init_timestamp, get_timestamp}
use embed_template.Clock.Track.{Saw, no_call, next_call, calls, calls-Saw, timestamp_exact}

-- At 64 MHz a cycle is 2 ^ 26 units of 2 ^ -32 microseconds.
abbrev clock_at : ℕ → Clock
clock_at t = record {
  last_cycles = t % 2 ^ 32;
  total_cycles = t;
  ticks_to_us = 2 ^ 26;
  boot_ts = 0;
}

clock_at-Saw : (t : ℕ) → Saw t (clock_at t)
clock_at-Saw t = record { last = refl; total = refl }

calls-Saw_example :
    Saw 9000000000 (calls (4000000000 ∷ 6000000000 ∷ 9000000000 ∷ []) (clock_at 1000))
calls-Saw_example =
    calls-Saw (clock_at 1000)
      (next_call (omega arith) (omega arith) (omega arith) (
        next_call (omega arith) (omega arith) (omega arith)
          (next_call (omega arith) (omega arith) (omega arith) (no_call 9000000000))))
      (clock_at-Saw 1000)

-- At 64 MHz, 5000000000 cycles after the initialisation, with one call in between.
timestamp_exact_example :
    let c = calls (4000000000 ∷ []) (init_timestamp 64000000 1000) in
    let r = (get_timestamp ((1000 + 5000000000) % 2 ^ 32) c).0 in
    (r * 64000000 ≤ 5000000000 * 1000000 + 64000000)
    × (5000000000 * 1000000 * 2 ^ 32 ≤ ((r + 1) * 2 ^ 32 + 5000000000) * 64000000)
timestamp_exact_example =
    timestamp_exact 64000000 1000 4000000000 5000000000 (4000000000 ∷ []) (omega arith)
      (omega arith) (next_call (omega arith) (omega arith) (omega arith) (no_call 4000000000))
      (omega arith) (omega arith) (omega arith) (omega arith)
