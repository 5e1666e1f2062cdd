-- ===== src/Profiler/Stats/Walk.antt =====
-- The loop of prof_get_stats over a list meets the calls of the function, in their order.
use embed_template.Prelude.{
  ℕ, zero, suc, ◌+◌, ◌≤◌, ◌<◌, ◌≡◌, ◌∙◌, refl, ap, arith, true, ltb, ◌==◌, if◌then◌else◌, List, [],
  ◌∷◌, length, Bool-cases, inl, inr, ==_iff, ◌-◌, not, ◌&&◌,
}
use embed_template.Profiler.{Sample, Profiler, store, prof_null_index}
use embed_template.Profiler.Hooks.Chains.{Call, Links, no_links, sample_of, Linked, first_of}
use embed_template.Profiler.Stats.{Totals, no_totals, add_sample, walk, totals_of}

-- The totals of a function: its calls are added one after the other, the oldest first.
unfoldable pub tally : ℕ → List Call → Totals → Totals
tally i [] a = a
tally i (c ∷ cs) a = if c.func == i then add_sample (sample_of 0 c) (tally i cs a) else tally i cs a

unfoldable pub count_of : ℕ → List Call → ℕ
count_of i [] = 0
count_of i (c ∷ cs) = if c.func == i then suc (count_of i cs) else count_of i cs

count_of-le : (i : ℕ) (cs : List Call) → count_of i cs ≤ length cs
unfolding count_of
count_of-le i [] = omega arith
count_of-le i (c ∷ cs) = ground (arith, count_of-le i cs)

add_sample-eq :
    (s : Sample) (ll : ℕ) (c : Call) (a : Totals)
    → s ≡ sample_of ll c
    → add_sample s a ≡ add_sample (sample_of 0 c) a
unfolding add_sample
add_sample-eq s ll c a e = ap (λ r. add_sample r a) e

walk-suc :
    (pool : ℕ → Sample) (total fuel k ll : ℕ) (c : Call) (a : Totals)
    → k < total
    → total ≤ 1024
    → pool k ≡ sample_of ll c
    → walk (suc fuel) pool total k a ≡ walk fuel pool total ll (add_sample (sample_of 0 c) a)
unfolding walk
walk-suc pool total fuel k ll c a lt small e =
    let test : (not (k == prof_null_index) && ltb k total) ≡ true = ground arith in
    rw (test, walk)
      (ap (λ s. walk fuel pool total s.entry_ll (add_sample s a)) e
        ∙ ap (walk fuel pool total ll) (add_sample-eq (sample_of ll c) ll c a refl))

walk_end :
    (pool : ℕ → Sample) (total fuel : ℕ) (a : Totals) → walk fuel pool total prof_null_index a ≡ a
unfolding walk
walk_end pool total zero a = refl
walk_end pool total (suc fuel) a = refl

walk-first_of :
    (pool : ℕ → Sample) (later : Links) (total i fuel : ℕ) (cs : List Call) (a : Totals)
    → length cs ≤ total
    → total ≤ 1024
    → Linked pool later cs
    → walk (count_of i cs + fuel) pool total (first_of later cs i) a
      ≡ walk fuel pool total (later i) (tally i cs a)
unfolding Linked first_of count_of tally
walk-first_of pool later total i fuel [] a le small l =
    ap (λ n. walk n pool total (later i) a) (omega arith)
walk-first_of pool later total i fuel (c ∷ cs) a le small (here, rest) =
    let k = length cs in
    elim (Bool-cases (c.func == i)) [
      | inl same ↦
          let step =
            walk-first_of pool (store later c.func k) total i (suc fuel) cs a (omega arith) small
              rest in
          let first = first_of (store later c.func k) cs i in
          let next : later c.func ≡ later i = ap later ((==_iff c.func i).0 same) in
          rw same (
            ap (λ n. walk n pool total first a) (omega arith)
            ∙ step
            ∙ ap (λ j. walk (suc fuel) pool total j (tally i cs a)) (rw same)
            ∙ walk-suc pool total fuel k (later i) c (tally i cs a) (omega arith) small
                (here ∙ ap (λ n. sample_of n c) next))
      | inr other ↦
          let step =
            walk-first_of pool (store later c.func k) total i fuel cs a (omega arith) small rest in
          rw other (step ∙ ap (λ j. walk fuel pool total j (tally i cs a)) (rw other))
    ]

-- The totals that prof_get_stats makes of a list are those of the calls, for a pool of at most
-- 1024 samples that holds them all: the fuel of the loop is enough.
pub totals_of-eq :
    (p : Profiler) (total i : ℕ) (cs : List Call)
    → length cs ≤ total
    → total ≤ 1024
    → Linked p.prof_sample_pool no_links cs
    → (p.prof_table i).head ≡ first_of no_links cs i
    → totals_of p total i ≡ tally i cs no_totals
unfolding totals_of
totals_of-eq p total i cs le small linked head =
    let pool = p.prof_sample_pool in
    let bound = count_of-le i cs in
    let spare = 1025 - count_of i cs in
    let fuel : 1025 ≡ count_of i cs + spare = omega (arith, bound) in
    ap (λ j. walk 1025 pool total j no_totals) head
    ∙ ap (λ n. walk n pool total (first_of no_links cs i) no_totals) fuel
    ∙ walk-first_of pool no_links total i spare cs no_totals le small linked
    ∙ walk_end pool total spare (tally i cs no_totals)
