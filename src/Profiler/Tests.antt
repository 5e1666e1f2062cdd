-- ===== src/Profiler/Tests.antt =====
-- The theorems on the profiler for two functions of a 32-bit target.
use embed_template.Prelude.{ℕ, zero, suc, ◌≡◌, refl, arith, false, List, [], ◌∷◌, some}
use embed_template.Profiler.{
  Target, Profiler, hash, mix, map_size, map_bits, bit_length, get_func_node_index,
}
use embed_template.Profiler.Seed.{null_sample, init_profiler}
use embed_template.Profiler.Seed.Perfect.{Separates, index_from, get_func_node_index-init_profiler}
use embed_template.Profiler.Hooks.Chains.{Call}
use embed_template.Profiler.Stats.{no_totals}
use embed_template.Profiler.Stats.Tally.{tally-times, times}
use embed_template.Profiler.Stats.Walk.{tally}
use embed_template.Profiler.Record.Refine.{Event, run, log_run, no_calls, run-init_profiler}

abbrev target : Target
target = record { wide = false; func_list = 0x08001200 ∷ 0x08003480 ∷ [] }

abbrev blank : Profiler
blank = record {
  next_sample = 0;
  prof_sample_pool = λ k. null_sample;
  prof_seed = 0;
  prof_table = λ i. record { func_addr = 0; head = 0; tail = 0 };
  prof_lookaside_map = λ i. 0;
  prof_inuse_map = λ i. 0;
}

hash_first : hash target 0x08001200 0 ≡ 6
unfolding hash mix map_size map_bits bit_length
hash_first = refl

hash_second : hash target 0x08003480 0 ≡ 0
unfolding hash mix map_size map_bits bit_length
hash_second = refl

target-Separates : Separates target 0
target-Separates zero zero h k = absurd (omega arith)
target-Separates zero (suc zero) h k = rw (hash_first, hash_second) (λ e. absurd (omega (arith, e)))
target-Separates zero (suc (suc j)) h k = absurd (omega arith)
target-Separates (suc i) j h k = absurd (omega arith)

run-init_profiler_example :
    (q : Profiler) × (init_profiler target blank ≡ some q)
    × ((events : List Event) → run target events q ≡ log_run target events no_calls)
run-init_profiler_example =
    run-init_profiler target blank 0 (omega arith) (omega arith) target-Separates refl

get_func_node_index-init_profiler_example :
    (q : Profiler) × (init_profiler target blank ≡ some q)
    × ((a : ℕ) → get_func_node_index target a q ≡ index_from 0 a target.func_list)
get_func_node_index-init_profiler_example =
    get_func_node_index-init_profiler target blank 0 (omega arith) (omega arith) target-Separates

-- A call that took 7, and one that has not returned.
abbrev two_calls : List Call
two_calls =
    record { func = 0; entered = 30; left = 0 } ∷ record { func = 0; entered = 3; left = 10 } ∷ []

tally-times_example : tally 0 two_calls no_totals ≡ times 0 two_calls
tally-times_example = tally-times 0 two_calls (omega arith)
