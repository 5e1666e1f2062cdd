-- ===== src/Profiler/Stats.antt =====
-- common/src/diagnostic/profiler/profiler.c: prof_get_stats.
pub mod Walk
pub mod Tally
use embed_template.Prelude.{
  ℕ, zero, suc, ◌+◌, ◌-◌, ◌*◌, ◌/◌, ◌%◌, ◌^◌, min, Bool, true, false, not, ltb, leb, ◌&&◌, ◌==◌,
  if◌then◌else◌, List, [], ◌∷◌,
}
use embed_template.Profiler.{
  Target, Sample, Profiler, num_functions, max_prof_samples, prof_null_index,
}
use embed_template.Profiler.Hooks.{prof_stop, prof_start}

pub record ProfStats : Type 0 where
  pub ts_start : ℕ
  pub ts_end : ℕ
  pub func_addr : ℕ
  pub min_duration : ℕ
  pub max_duration : ℕ
  pub avg_duration : ℕ
  pub sample_count : ℕ

-- The variables of the loop over a list.
pub record Totals : Type 0 where
  pub total_duration : ℕ
  pub max_duration : ℕ
  pub min_duration : ℕ
  pub sample_count : ℕ
  pub ts_first : ℕ
  pub ts_last : ℕ

abbrev pub no_totals : Totals
no_totals = record {
  total_duration = 0;
  max_duration = 0;
  min_duration = 2 ^ 64 - 1;
  sample_count = 0;
  ts_first = 0;
  ts_last = 0;
}

-- One sample: it counts if it has both times, in order.
unfoldable pub add_sample : Sample → Totals → Totals
add_sample s a =
    let duration = s.exit_ts - s.entry_ts in
    if not (s.entry_ts == 0) && (not (s.exit_ts == 0) && leb s.entry_ts s.exit_ts)
    then record {
      total_duration = (a.total_duration + duration) % 2 ^ 64;
      max_duration = if ltb a.max_duration duration then duration else a.max_duration;
      min_duration = if ltb duration a.min_duration then duration else a.min_duration;
      sample_count = (a.sample_count + 1) % 2 ^ 32;
      ts_first = if a.sample_count == 0 then s.entry_ts else a.ts_first;
      ts_last = s.exit_ts;
    }
    else a

-- The loop over a list, with fuel.
pub walk : ℕ → (ℕ → Sample) → ℕ → ℕ → Totals → Totals
walk zero pool total sample_idx a = a
walk (suc fuel) pool total sample_idx a =
    elim (not (sample_idx == prof_null_index) && ltb sample_idx total) [
      | true ↦ walk fuel pool total (pool sample_idx).entry_ll (add_sample (pool sample_idx) a)
      | false ↦ a
    ]

-- A list has at most 1024 samples.
pub totals_of : Profiler → ℕ → ℕ → Totals
totals_of p total i = walk 1025 p.prof_sample_pool total (p.prof_table i).head no_totals

unfoldable pub stats_of : ℕ → Totals → ProfStats
stats_of func_addr a = record {
  ts_start = a.ts_first;
  ts_end = a.ts_last;
  func_addr = func_addr;
  min_duration = a.min_duration % 2 ^ 32;
  max_duration = a.max_duration % 2 ^ 32;
  avg_duration = a.total_duration / a.sample_count % 2 ^ 32;
  sample_count = a.sample_count;
}

-- The loop over the functions, with `n` rounds left.
unfoldable pub stats_from : Profiler → ℕ → ℕ → ℕ → List ProfStats
stats_from p total zero i = []
stats_from p total (suc n) i =
    let a = totals_of p total i in
    let rest = stats_from p total n (suc i) in
    if (p.prof_table i).head == prof_null_index
    then rest
    else if ltb 0 a.sample_count
    then stats_of (p.prof_table i).func_addr a ∷ rest
    else rest

-- The entries that are stored to `buf`, of `count` places.
unfoldable pub prof_get_stats : Target → ℕ → Profiler → Profiler × List ProfStats
prof_get_stats t count p =
    let stopped = (prof_stop p).0 in
    let total = (prof_stop p).1 in
    if total == 0
    then (stopped, [])
    else (prof_start t total stopped, stats_from stopped total (min count (num_functions t)) 0)
