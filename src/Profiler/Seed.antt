-- ===== src/Profiler/Seed.antt =====
-- common/src/diagnostic/profiler/profiler.c: the search of a seed and init_profiler.
pub mod Perfect
use embed_template.Prelude.{
  ℕ, zero, suc, ◌+◌, ◌%◌, ◌^◌, Bool, true, false, ◌==◌, if◌then◌else◌, List, [], ◌∷◌, Option, some,
  none,
}
use embed_template.Profiler.{
  Target, Sample, Node, Profiler, store, hash, set_in_use, prof_null_index,
}

-- The loop over the functions, with the slots that are taken.
pub try_from : Target → ℕ → (ℕ → Bool) → List ℕ → Option ℕ
try_from t seed slot_taken [] = some seed
try_from t seed slot_taken (f ∷ fs) =
    let slot = hash t f seed in
    let rest = try_from t seed (store slot_taken slot true) fs in
    if slot_taken slot then none else rest

-- `none` for -1.
pub try_seed : Target → ℕ → Option ℕ
try_seed t seed = try_from t seed (λ slot. false) t.func_list

-- The loop, with `n` rounds left.
pub find_from : Target → ℕ → ℕ → Option ℕ
find_from t zero seed = none
find_from t (suc n) seed = elim (try_seed t seed) [
  | some s ↦ some seed
  | none ↦ find_from t n (suc seed)
]

-- `none` for -1.
unfoldable pub find_perfect_seed : Target → Option ℕ
find_perfect_seed t = find_from t 10000 0

abbrev pub null_sample : Sample
null_sample = record { entry_ts = 0; entry_ll = 0; exit_ts = 0 }

-- One round of the last loop of init_profiler.
unfoldable pub enlist : Target → ℕ → ℕ → Profiler → Profiler
enlist t i f p =
    let slot = hash t f p.prof_seed in
    record p {
      prof_lookaside_map = store p.prof_lookaside_map slot (i % 2 ^ 8);
      prof_inuse_map = set_in_use p.prof_inuse_map slot;
      prof_table =
          store p.prof_table i
            (record { func_addr = f; head = prof_null_index; tail = prof_null_index });
    }

unfoldable pub enlist_from : Target → ℕ → List ℕ → Profiler → Profiler
enlist_from t i [] p = p
enlist_from t i (f ∷ fs) p = enlist_from t (suc i) fs (enlist t i f p)

-- `none` where the assertion fails.
unfoldable pub init_profiler : Target → Profiler → Option Profiler
init_profiler t p = elim (find_perfect_seed t) [
  | none ↦ none
  | some seed ↦ some (
      enlist_from t 0 t.func_list (record p {
        prof_seed = seed;
        prof_sample_pool = λ k. null_sample;
        prof_inuse_map = λ i. 0;
      }))
]
