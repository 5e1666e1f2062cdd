-- ===== src/Profiler/Record/Invariant.antt =====
-- The state of the profiler against the calls that it stands for.
use embed_template.Prelude.{
  ℕ, suc, ◌+◌, ◌≤◌, ◌<◌, ◌≡◌, arith, if◌then◌else◌, List, [], ◌∷◌, length, get_or, some,
}
use embed_template.Profiler.{Target, Profiler, num_functions, prof_stop_mark, get_func_node_index}
use embed_template.Profiler.Seed.{null_sample}
use embed_template.Profiler.Seed.Perfect.{index_from}
use embed_template.Profiler.Hooks.Chains.{Linked, no_links, first_of, last_of}
use embed_template.Profiler.Record.{CallLog}

pub record IsProfile (t : Target) (p : Profiler) (l : CallLog) : Type 0 where
  pub size : length l.calls ≤ 1024
  pub position : p.next_sample ≡ (if l.stopped then prof_stop_mark else length l.calls)
  pub linked : Linked p.prof_sample_pool no_links l.calls
  pub unused : (k : ℕ) → length l.calls ≤ k → p.prof_sample_pool k ≡ null_sample
  pub heads : (i : ℕ) → i < num_functions t → (p.prof_table i).head ≡ first_of no_links l.calls i
  pub tails : (i : ℕ) → i < num_functions t → (p.prof_table i).tail ≡ last_of i l.calls
  pub addresses :
      (i : ℕ) → i < num_functions t → (p.prof_table i).func_addr ≡ get_or t.func_list i 0
  pub finds : (a : ℕ) → get_func_node_index t a p ≡ index_from 0 a t.func_list

-- A lookup reads the seed, the maps and the addresses only.
pub get_func_node_index_congr :
    (t : Target) (a : ℕ) (p q : Profiler)
    → q.prof_seed ≡ p.prof_seed
    → q.prof_lookaside_map ≡ p.prof_lookaside_map
    → q.prof_inuse_map ≡ p.prof_inuse_map
    → ((i : ℕ) → (q.prof_table i).func_addr ≡ (p.prof_table i).func_addr)
    → get_func_node_index t a q ≡ get_func_node_index t a p
unfolding get_func_node_index
get_func_node_index_congr t a p q seed places used addresses =
    rw (seed, places, used, addresses (p.prof_lookaside_map _))

index_from-lt_from : (k a i : ℕ) (fs : List ℕ) → index_from k a fs ≡ some i → i < k + length fs
unfolding index_from
index_from-lt_from k a i [] e = absurd (cc e)
index_from-lt_from k a i (f ∷ fs) e = ground (arith, index_from-lt_from (suc k) a i fs)

pub index_from-lt : (a i : ℕ) (fs : List ℕ) → index_from 0 a fs ≡ some i → i < length fs
index_from-lt a i fs e = omega (arith, index_from-lt_from 0 a i fs e)
