-- ===== src/Profiler/Record/Refine.antt =====
-- Any run of the profiler reports the calls that are recorded.
use embed_template.Prelude.{
  ℕ, zero, suc, ◌+◌, ◌≤◌, ◌<◌, ◌≡◌, ◌∙◌, refl, ap, ap₂, arith, false, List, [], ◌∷◌, ◌++◌, ==_ne,
  ==_iff, length, get_or, some,
}
use embed_template.Profiler.{Target, Node, Profiler, num_functions, prof_null_index}
use embed_template.Profiler.Seed.{enlist, enlist_from, init_profiler}
use embed_template.Profiler.Seed.Perfect.{Separates, cleared, init_profiler-enlisted}
use embed_template.Profiler.Hooks.{func_enter, func_exit}
use embed_template.Profiler.Hooks.Chains.{Linked, first_of, last_of}
use embed_template.Profiler.Stats.{ProfStats, prof_get_stats}
use embed_template.Profiler.Record.{CallLog, begin, finish, listed, fetch}
use embed_template.Profiler.Record.Invariant.{IsProfile}
use embed_template.Profiler.Record.Begin.{func_enter-IsProfile}
use embed_template.Profiler.Record.Finish.{func_exit-IsProfile}
use embed_template.Profiler.Record.Report.{prof_get_stats-IsProfile}

-- What can happen: a hook is called with an address at a time, or the statistics are fetched.
pub data Event : Type 0 where
  enter : ℕ → ℕ → Event
  exit : ℕ → ℕ → Event
  stats : ℕ → Event

pub on_event : Target → Event → Profiler → Profiler × List (List ProfStats)
on_event t (enter a ts) p = (func_enter t a ts p, [])
on_event t (exit a ts) p = (func_exit t a ts p, [])
on_event t (stats count) p = let (q, r) = prof_get_stats t count p in (q, r ∷ [])

pub log_event : Target → Event → CallLog → CallLog × List (List ProfStats)
log_event t (enter a ts) l = (listed t a (λ i. begin i ts) l, [])
log_event t (exit a ts) l = (listed t a (λ i. finish i ts) l, [])
log_event t (stats count) l = let (l', r) = fetch t count l in (l', r ∷ [])

-- The reports of a run.
unfoldable pub run : Target → List Event → Profiler → List (List ProfStats)
run t [] p = []
run t (e ∷ es) p = let (q, r) = on_event t e p in r ++ run t es q

unfoldable pub log_run : Target → List Event → CallLog → List (List ProfStats)
log_run t [] l = []
log_run t (e ∷ es) l = let (l', r) = log_event t e l in r ++ log_run t es l'

on_event-IsProfile :
    (t : Target) (e : Event) (p : Profiler) (l : CallLog)
    → IsProfile t p l
    → IsProfile t (on_event t e p).0 (log_event t e l).0
      × ((on_event t e p).1 ≡ (log_event t e l).1)
unfolding on_event log_event
on_event-IsProfile t (enter a ts) p l v = (func_enter-IsProfile t p a ts l v, refl)
on_event-IsProfile t (exit a ts) p l v = (func_exit-IsProfile t p a ts l v, refl)
on_event-IsProfile t (stats count) p l v =
    let (kept, same) = prof_get_stats-IsProfile t p count l.calls l.stopped v in
    (kept, ap (λ r. r ∷ []) same)

run-log_run :
    (t : Target) (es : List Event) (p : Profiler) (l : CallLog)
    → IsProfile t p l
    → run t es p ≡ log_run t es l
unfolding run log_run
run-log_run t [] p l v = refl
run-log_run t (e ∷ es) p l v =
    let (kept, same) = on_event-IsProfile t e p l v in
    ap₂ (λ a b. a ++ b) same (run-log_run t es (on_event t e p).0 (log_event t e l).0 kept)

abbrev unlinked : ℕ → Node
unlinked a = record { func_addr = a; head = prof_null_index; tail = prof_null_index }

enlist_from-kept :
    (t : Target) (i : ℕ) (fs : List ℕ) (p : Profiler)
    → ((enlist_from t i fs p).next_sample ≡ p.next_sample)
      × ((enlist_from t i fs p).prof_sample_pool ≡ p.prof_sample_pool)
      × ((j : ℕ) → j < i → (enlist_from t i fs p).prof_table j ≡ p.prof_table j)
unfolding enlist_from enlist
enlist_from-kept t i [] p = (refl, refl, λ j h. refl)
enlist_from-kept t i (f ∷ fs) p =
    let (next, pool, table) = enlist_from-kept t (suc i) fs (enlist t i f p) in
    (next, pool, λ j h. table j (omega arith) ∙ rw (==_ne i j (omega arith)))

enlist_from-placed :
    (t : Target) (i j : ℕ) (fs : List ℕ) (p : Profiler)
    → j < length fs
    → (enlist_from t i fs p).prof_table (i + j) ≡ unlinked (get_or fs j 0)
unfolding enlist_from enlist
enlist_from-placed t i j [] p h = absurd (omega arith)
enlist_from-placed t i zero (f ∷ fs) p h =
    let (next, pool, table) = enlist_from-kept t (suc i) fs (enlist t i f p) in
    table (i + 0) (omega arith) ∙ rw ((==_iff i (i + 0)).1 (omega arith))
enlist_from-placed t i (suc j) (f ∷ fs) p h =
    ap (enlist_from t (suc i) fs (enlist t i f p)).prof_table (omega arith)
    ∙ enlist_from-placed t (suc i) j fs (enlist t i f p) (omega arith)

abbrev pub no_calls : CallLog
no_calls = record { calls = []; stopped = false }

-- The profiler at the start, with next_sample still 0, and after init_profiler with at most 255
-- functions, of which a seed below 10000 gives no two one slot: the initialisation succeeds, and
-- any sequence of calls of the two hooks and of prof_get_stats gives the reports of a record that
-- is a list of at most 1024 calls. In it an exit sets the end of the newest call of its function,
-- also of one that has ended, so that of a function that calls itself the outer call is not
-- counted; a fetch reports, for the first functions as far as it was asked, those with a call that
-- has an end, and empties the record; one of an empty record also refuses all calls up to the next
-- fetch.
pub run-init_profiler :
    (t : Target) (p : Profiler) (seed : ℕ)
    → num_functions t ≤ 255
    → seed < 10000
    → Separates t seed
    → p.next_sample ≡ 0
    → (q : Profiler) × (init_profiler t p ≡ some q)
      × ((events : List Event) → run t events q ≡ log_run t events no_calls)
unfolding Linked first_of last_of
run-init_profiler t p seed small range apart start =
    let (s, done, lookups) = init_profiler-enlisted t p seed small range apart in
    let q = enlist_from t 0 t.func_list (cleared s p) in
    let (next, pool, table) = enlist_from-kept t 0 t.func_list (cleared s p) in
    let placed : (j : ℕ)
        → j < num_functions t
        → q.prof_table j ≡ unlinked (get_or t.func_list j 0) =
      λ j h. ap q.prof_table (omega arith) ∙ enlist_from-placed t 0 j t.func_list (cleared s p) h in
    let fresh : IsProfile t q no_calls = record {
      size = omega arith;
      position = next ∙ start;
      linked = tt;
      unused = λ k h. ap (λ f. f k) pool;
      heads = λ i h. ap (λ n. n.head) (placed i h);
      tails = λ i h. ap (λ n. n.tail) (placed i h);
      addresses = λ i h. ap (λ n. n.func_addr) (placed i h);
      finds = lookups;
    } in
    (q, done, λ events. run-log_run t events q no_calls fresh)
