-- ===== src/Profiler/Record/Report.antt =====
-- prof_get_stats reports the calls and starts over.
use embed_template.Prelude.{
  ℕ, zero, suc, ◌+◌, ◌≤◌, ◌<◌, ◌≡◌, ◌≢◌, ◌∙◌, refl, arith, min, Bool, true, false, ◌==◌,
  if◌then◌else◌, List, [], ◌∷◌, length, Bool-cases, inl, inr, ==_iff, ==_ne,
}
use embed_template.Profiler.{Target, Profiler, store, num_functions, prof_null_index}
use embed_template.Profiler.Hooks.{prof_stop, prof_start}
use embed_template.Profiler.Hooks.Chains.{
  Call, no_links, Linked, first_of, last_of, first_of-absent,
}
use embed_template.Profiler.Stats.{Totals, no_totals, stats_from, prof_get_stats}
use embed_template.Profiler.Stats.Walk.{tally, totals_of-eq}
use embed_template.Profiler.Record.{CallLog, report, fetch}
use embed_template.Profiler.Record.Invariant.{IsProfile, get_func_node_index_congr}

first_of-lt :
    (later : ℕ → ℕ) (i : ℕ) (cs : List Call)
    → length cs ≤ 1024
    → last_of i cs ≢ prof_null_index
    → first_of later cs i < length cs
unfolding first_of last_of
first_of-lt later i [] small ne = absurd (ne refl)
first_of-lt later i (c ∷ cs) small ne =
    let later' = store later c.func (length cs) in
    elim (Bool-cases (last_of i cs == prof_null_index)) [
      | inl first ↦
          let absent : last_of i cs ≡ prof_null_index = (==_iff _ _).0 first in
          let here : (c.func == i) ≡ true = ground arith in
          ground (arith, here, first_of-absent later' cs i (omega arith) absent)
      | inr again ↦ omega (arith, first_of-lt later' i cs (omega arith) (ground arith))
    ]

tally-absent :
    (i : ℕ) (cs : List Call) (a : Totals)
    → length cs ≤ 1024
    → last_of i cs ≡ prof_null_index
    → tally i cs a ≡ a
unfolding tally last_of
tally-absent i [] a small e = refl
tally-absent i (c ∷ cs) a small e = elim (Bool-cases (c.func == i)) [
  | inl same ↦ absurd (ground arith)
  | inr other ↦ rw (other, tally-absent i cs a (omega arith) (rw other at e))
]

module _ (t : Target) (p : Profiler) (cs : List Call) (b : Bool)
    (v : IsProfile t p (record { calls = cs; stopped = b })) where
  absent_of_empty :
      (i : ℕ)
      → i < num_functions t
      → (p.prof_table i).head ≡ prof_null_index
      → last_of i cs ≡ prof_null_index
  absent_of_empty i known empty = elim (Bool-cases (last_of i cs == prof_null_index)) [
    | inl absent ↦ (==_iff _ _).0 absent
    | inr other ↦ absurd (
        omega (
          arith,
          first_of-lt no_links i cs v.size (λ e. absurd (ground arith)),
          v.heads i known,
          v.size,
          empty,
        ))
  ]

  stats_from-report :
      (total n i : ℕ)
      → length cs ≤ total
      → total ≤ 1024
      → i + n ≤ num_functions t
      → stats_from p total n i ≡ report t cs n i
  unfolding stats_from report
  stats_from-report total zero i le small bound = refl
  stats_from-report total (suc n) i le small bound =
      let rest = stats_from-report total n (suc i) le small (omega arith) in
      let totals = totals_of-eq p total i cs le small v.linked (v.heads i (omega arith)) in
      let address = v.addresses i (omega arith) in
      elim (Bool-cases ((p.prof_table i).head == prof_null_index)) [
        | inl empty ↦
            let absent = absent_of_empty i (omega arith) ((==_iff _ _).0 empty) in
            rw (empty, rest, tally-absent i cs no_totals v.size absent)
        | inr other ↦ rw (other, rest, totals, address)
      ]

  -- The restart after a report: `dirty` covers the samples that are used.
  prof_start-IsProfile :
      (dirty : ℕ)
      → length cs ≤ dirty
      → dirty ≤ 1024
      → 0 < dirty
      → IsProfile t (prof_start t dirty (prof_stop p).0) (record { calls = []; stopped = false })
  unfolding prof_start prof_stop Linked first_of last_of
  prof_start-IsProfile dirty le small pos = record {
    size = omega arith;
    position = refl;
    linked = tt;
    unused = λ k h. ground (arith, v.unused k);
    heads = λ i h. ground arith;
    tails = λ i h. ground arith;
    addresses = λ i h. ground (arith, v.addresses i h);
    finds = λ a. get_func_node_index_congr t a p _ refl refl refl (λ j. ground arith) ∙ v.finds a;
  }

  prof_stop-total : (prof_stop p).1 ≡ (if b then 1024 else length cs)
  unfolding prof_stop
  prof_stop-total = ground (arith, v.position, v.size)

  prof_stop-IsProfile : IsProfile t (prof_stop p).0 (record { calls = cs; stopped = true })
  unfolding prof_stop
  prof_stop-IsProfile = record {
    size = v.size;
    position = refl;
    linked = v.linked;
    unused = v.unused;
    heads = v.heads;
    tails = v.tails;
    addresses = v.addresses;
    finds = λ a. get_func_node_index_congr t a p _ refl refl refl (λ j. refl) ∙ v.finds a;
  }

module _ (t : Target) (p : Profiler) (cs : List Call) (b : Bool)
    (v : IsProfile t p (record { calls = cs; stopped = b })) where
  -- A report of some total.
  reported :
      (count : ℕ)
      → 0 < (prof_stop p).1
      → length cs ≤ (prof_stop p).1
      → (prof_stop p).1 ≤ 1024
      → IsProfile t (prof_get_stats t count p).0 (record { calls = []; stopped = false })
        × ((prof_get_stats t count p).1 ≡ report t cs (min count (num_functions t)) 0)
  unfolding prof_get_stats
  reported count pos le small =
      let some_total : ((prof_stop p).1 == 0) ≡ false = ground arith in
      rw some_total (
        prof_start-IsProfile t p cs b v (prof_stop p).1 le small pos,
        stats_from-report t (prof_stop p).0 cs true (prof_stop-IsProfile t p cs b v) (prof_stop p).1
            (min count (num_functions t)) 0 le small (omega arith),
      )

-- A call of prof_get_stats reports the calls that are recorded and takes them away.
pub prof_get_stats-IsProfile :
    (t : Target) (p : Profiler) (count : ℕ) (cs : List Call) (b : Bool)
    → let l : CallLog = record { calls = cs; stopped = b } in
      IsProfile t p l
      → IsProfile t (prof_get_stats t count p).0 (fetch t count l).0
        × ((prof_get_stats t count p).1 ≡ (fetch t count l).1)
unfolding prof_get_stats
prof_get_stats-IsProfile t p count [] false v =
    let none_taken : ((prof_stop p).1 == 0) ≡ true =
      ground (arith, prof_stop-total t p [] false v) in
    rw none_taken (prof_stop-IsProfile t p [] false v, refl)
prof_get_stats-IsProfile t p count (c ∷ cs) false v =
    let total = prof_stop-total t p (c ∷ cs) false v in
    let some_call = ==_ne (suc (length cs)) 0 (omega arith) in
    rw some_call (
      reported t p (c ∷ cs) false v count (omega (arith, total)) (omega (arith, total))
        (omega (arith, total, v.size)))
prof_get_stats-IsProfile t p count cs true v =
    let total = prof_stop-total t p cs true v in
    reported t p cs true v count (omega (arith, total)) (omega (arith, total, v.size))
      (omega (arith, total))
