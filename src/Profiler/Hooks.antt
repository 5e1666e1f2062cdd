-- ===== src/Profiler/Hooks.antt =====
-- common/src/diagnostic/profiler/profiler.c: the two hooks that the compiler calls, prof_stop and
-- prof_start, without calls that interrupt them.
pub mod Chains
use embed_template.Prelude.{
  ℕ, ◌+◌, ◌%◌, ◌^◌, Bool, true, false, ltb, leb, ◌&&◌, ◌==◌, if◌then◌else◌, Option, some, none,
}
use embed_template.Profiler.{
  Target, Sample, Node, Profiler, store, num_functions, get_func_node_index, max_prof_samples,
  prof_null_index, prof_stop_mark,
}
use embed_template.Profiler.Seed.{null_sample}

-- The new sample at the end of the list of function `i`.
unfoldable pub link : ℕ → ℕ → ℕ → Profiler → Profiler
link i pool_idx ts p =
    let node = p.prof_table i in
    let sample : Sample = record (p.prof_sample_pool pool_idx) {
      entry_ll = prof_null_index;
      entry_ts = ts;
    } in
    let pool = store p.prof_sample_pool pool_idx sample in
    if node.tail == prof_null_index
    then record p {
      prof_sample_pool = pool;
      prof_table = store p.prof_table i (record node { tail = pool_idx; head = pool_idx });
    }
    else record p {
      prof_sample_pool = store pool node.tail (record (pool node.tail) { entry_ll = pool_idx });
      prof_table = store p.prof_table i (record node { tail = pool_idx });
    }

-- From the load of next_sample on.
unfoldable pub take_sample : ℕ → ℕ → Profiler → Profiler
take_sample i ts p =
    let pool_idx = p.next_sample in
    let taken = record p { next_sample = (pool_idx + 1) % 2 ^ 32 } in
    if pool_idx == prof_stop_mark
    then p
    else if leb max_prof_samples pool_idx
    then if pool_idx == max_prof_samples then record p { next_sample = prof_stop_mark } else taken
    else link i pool_idx ts taken

-- __cyg_profile_func_enter; `ts` is what get_timestamp64 gives.
unfoldable pub func_enter : Target → ℕ → ℕ → Profiler → Profiler
func_enter t func_addr ts p = elim (get_func_node_index t func_addr p) [
  | none ↦ p
  | some i ↦ take_sample i ts p
]

unfoldable pub end_sample : ℕ → ℕ → Profiler → Profiler
end_sample i ts p =
    let pool_idx = (p.prof_table i).tail in
    if p.next_sample == prof_stop_mark
    then p
    else if pool_idx == prof_null_index
    then p
    else record p {
      prof_sample_pool =
          store p.prof_sample_pool pool_idx (record (p.prof_sample_pool pool_idx) { exit_ts = ts });
    }

-- __cyg_profile_func_exit
unfoldable pub func_exit : Target → ℕ → ℕ → Profiler → Profiler
func_exit t func_addr ts p = elim (get_func_node_index t func_addr p) [
  | none ↦ p
  | some i ↦ end_sample i ts p
]

unfoldable pub prof_stop : Profiler → Profiler × ℕ
prof_stop p = (
  record p { next_sample = prof_stop_mark },
  if leb max_prof_samples p.next_sample then max_prof_samples else p.next_sample,
)

-- The loop that empties the lists.
abbrev pub reset_nodes : ℕ → (ℕ → Node) → ℕ → Node
reset_nodes n table i =
    if ltb i n then record (table i) { head = prof_null_index; tail = prof_null_index } else table i

unfoldable pub prof_start : Target → ℕ → Profiler → Profiler
prof_start t dirty_samples p =
    let cleared =
      if ltb 0 dirty_samples && ltb dirty_samples max_prof_samples
      then dirty_samples
      else max_prof_samples in
    if p.next_sample == prof_stop_mark
    then record p {
      prof_table = reset_nodes (num_functions t) p.prof_table;
      prof_sample_pool = λ k. if ltb k cleared then null_sample else p.prof_sample_pool k;
      next_sample = 0;
    }
    else p
