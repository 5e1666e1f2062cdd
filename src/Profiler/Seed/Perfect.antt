-- ===== src/Profiler/Seed/Perfect.antt =====
-- The seed gives every listed function a slot of its own, and the lookup finds exactly these.
use embed_template.Prelude.{
  ℕ, zero, suc, ◌+◌, ◌/◌, ◌%◌, ◌^◌, ◌≤◌, ◌<◌, ◌≡◌, ◌≢◌, ◌∙◌, refl, ap, sym, arith, Bool, true,
  false, ◌||◌, ◌==◌, if◌then◌else◌, List, [], ◌∷◌, length, Option, some, none, Bool-cases, inl, inr,
  ==_iff, Option-cases, get_or,
}
use embed_template.Prelude.Bits.{bit, bit-or, bit-two_pow, bit-zero, bit_and_mask, bit_and_test}
use embed_template.Profiler.{
  Target, Profiler, store, hash, is_in_use, set_in_use, num_functions, get_func_node_index,
}
use embed_template.Profiler.Seed.{
  try_from, try_seed, find_from, find_perfect_seed, enlist, enlist_from, init_profiler, null_sample,
}

-- The first place of an address in a list, counted from `i`.
unfoldable pub index_from : ℕ → ℕ → List ℕ → Option ℕ
index_from i a [] = none
index_from i a (f ∷ fs) = if f == a then some i else index_from (suc i) a fs

is_in_use-eq : (map : ℕ → ℕ) (s : ℕ) → is_in_use map s ≡ bit (map (s / 32)) (s % 32)
unfolding is_in_use
is_in_use-eq map s =
    rw (bit_and_mask 5 s, bit_and_test (s % 32) (map (s / 32)))
      (elim (Bool-cases (bit (map (s / 32)) (s % 32))) [ inl e ↦ rw e | inr e ↦ rw e ])

is_in_use-set_in_use :
    (map : ℕ → ℕ) (s s' : ℕ) → is_in_use (set_in_use map s) s' ≡ (s == s' || is_in_use map s')
unfolding set_in_use
is_in_use-set_in_use map s s' =
    rw (is_in_use-eq, is_in_use-eq, bit_and_mask 5 s)
      (elim (Bool-cases (s / 32 == s' / 32)) [
        | inl e ↦
            let same : bit (map (s / 32)) (s' % 32) ≡ bit (map (s' / 32)) (s' % 32) =
              ap (λ q. bit (map q) (s' % 32)) ((==_iff _ _).0 e) in
            rw e (
              ground (
                arith,
                same,
                bit-or (map (s / 32)) (2 ^ (s % 32)) (s' % 32),
                bit-two_pow (s % 32) (s' % 32),
              ))
        | inr e ↦ rw e (ground arith)
      ])

-- A listed function in a free slot is found at its place, and every other address as before.
get_func_node_index-enlist :
    (t : Target) (i f a : ℕ) (p : Profiler)
    → i < 256
    → is_in_use p.prof_inuse_map (hash t f p.prof_seed) ≡ false
    → (is_in_use p.prof_inuse_map (hash t a p.prof_seed) ≡ true
        → p.prof_lookaside_map (hash t a p.prof_seed) < i)
    → get_func_node_index t a (enlist t i f p)
      ≡ (if f == a then some i else get_func_node_index t a p)
unfolding get_func_node_index enlist
get_func_node_index-enlist t i f a p small free old =
    let same : f ≡ a → hash t f p.prof_seed ≡ hash t a p.prof_seed =
      λ e. ap (λ x. hash t x p.prof_seed) e in
    rw (is_in_use-set_in_use p.prof_inuse_map (hash t f p.prof_seed) (hash t a p.prof_seed))
      (elim (Bool-cases (hash t f p.prof_seed == hash t a p.prof_seed)) [
        | inl e ↦ rw e (ground (arith, ap (is_in_use p.prof_inuse_map) ((==_iff _ _).0 e)))
        | inr e ↦ rw e (ground arith)
      ])

-- The slots taken by the functions before place `i`.
record IsFilled (t : Target) (i : ℕ) (taken : ℕ → Bool) (p : Profiler) : Type 0 where
  slots : (s : ℕ) → is_in_use p.prof_inuse_map s ≡ taken s
  places : (s : ℕ) → taken s ≡ true → p.prof_lookaside_map s < i

enlist-IsFilled :
    (t : Target) (i f : ℕ) (taken : ℕ → Bool) (p : Profiler)
    → i < 256
    → IsFilled t i taken p
    → IsFilled t (suc i) (store taken (hash t f p.prof_seed) true) (enlist t i f p)
unfolding enlist
enlist-IsFilled t i f taken p small v =
    let h = hash t f p.prof_seed in
    record {
      slots = λ s. is_in_use-set_in_use p.prof_inuse_map h s ∙ ground (arith, v.slots s);
      places = λ s o. ground (arith, v.places s);
    }

-- A seed that is accepted gives the remaining functions free slots.
taken_absent :
    (t : Target) (seed a i s : ℕ) (taken : ℕ → Bool) (fs : List ℕ)
    → try_from t seed taken fs ≡ some s
    → taken (hash t a seed) ≡ true
    → index_from i a fs ≡ none
unfolding try_from index_from
taken_absent t seed a i s taken [] e o = refl
taken_absent t seed a i s taken (f ∷ fs) e o =
    let same : f ≡ a → taken (hash t f seed) ≡ taken (hash t a seed) =
      λ h. ap (λ x. taken (hash t x seed)) h in
    let kept = store taken (hash t f seed) true in
    let rest = taken_absent t seed a (suc i) s kept fs in
    elim (Bool-cases (taken (hash t f seed))) [
      | inl busy ↦ absurd (cc (rw busy at e))
      | inr free ↦
          let e' : try_from t seed kept fs ≡ some s = rw free at e in
          let next = rest e' (ground arith) in ground arith
    ]

abbrev or_before : Option ℕ → Option ℕ → Option ℕ
or_before (some j) before = some j
or_before none before = before

-- The lookup after the loop: the listed functions at their places, the others as before.
enlist_from-lookup :
    (t : Target) (i s a : ℕ) (taken : ℕ → Bool) (fs : List ℕ) (p : Profiler)
    → i + length fs ≤ 256
    → try_from t p.prof_seed taken fs ≡ some s
    → IsFilled t i taken p
    → get_func_node_index t a (enlist_from t i fs p)
      ≡ or_before (index_from i a fs) (get_func_node_index t a p)
unfolding enlist_from index_from try_from enlist
enlist_from-lookup t i s a taken [] p small e v = refl
enlist_from-lookup t i s a taken (f ∷ fs) p small e v =
    let slot = hash t f p.prof_seed in
    let kept = store taken slot true in
    elim (Bool-cases (taken slot)) [
      | inl busy ↦ absurd (cc (rw busy at e))
      | inr free ↦
          let e' : try_from t p.prof_seed kept fs ≡ some s = rw free at e in
          let filled = enlist-IsFilled t i f taken p (omega arith) v in
          let unused : is_in_use p.prof_inuse_map slot ≡ false = v.slots slot ∙ free in
          let here =
            get_func_node_index-enlist t i f a p (omega arith) unused
              (λ o. v.places (hash t a p.prof_seed) (sym (v.slots _) ∙ o)) in
          rw
            (
              enlist_from-lookup t (suc i) s a kept fs (enlist t i f p) (omega arith) e' filled,
              here,
            )
            (elim (Bool-cases (f == a)) [
              | inl same ↦
                  let taken_here : kept (hash t a p.prof_seed) ≡ true =
                    ground (arith, ap (λ x. hash t x p.prof_seed) ((==_iff f a).0 same)) in
                  rw (same, taken_absent t p.prof_seed a (suc i) s kept fs e' taken_here)
              | inr other ↦ rw other
            ])
    ]

-- The seed gives no two functions one slot.
abbrev pub Separates : Target → ℕ → Type 0
Separates t seed =
    (i j : ℕ)
    → i < j
    → j < num_functions t
    → hash t (get_or t.func_list i 0) seed ≢ hash t (get_or t.func_list j 0) seed

try_from-accepts :
    (t : Target) (seed : ℕ) (taken : ℕ → Bool) (fs : List ℕ)
    → ((i : ℕ) → i < length fs → taken (hash t (get_or fs i 0) seed) ≡ false)
    → ((i j : ℕ)
        → i < j
        → j < length fs
        → hash t (get_or fs i 0) seed ≢ hash t (get_or fs j 0) seed)
    → try_from t seed taken fs ≡ some seed
unfolding try_from
try_from-accepts t seed taken [] free apart = refl
try_from-accepts t seed taken (f ∷ fs) free apart = rw (free 0 (omega arith)) (
    try_from-accepts t seed (store taken (hash t f seed) true) fs
      (λ i h.
        ground (arith, free (suc i) (omega arith), apart 0 (suc i) (omega arith) (omega arith)))
      (λ i j h k. apart (suc i) (suc j) (omega arith) (omega arith)))

-- The search ends at a seed that is accepted, if there is one in its range.
find_from-accepts :
    (t : Target) (n k s r : ℕ)
    → k ≤ s
    → s < k + n
    → try_seed t s ≡ some r
    → (s' r' : ℕ) × (find_from t n k ≡ some s') × (try_seed t s' ≡ some r')
unfolding find_from
find_from-accepts t zero k s r le lt e = absurd (omega arith)
find_from-accepts t (suc n) k s r le lt e = elim (Option-cases (try_seed t k)) [
  | inr (r', here) ↦ (k, r', rw (here, find_from), here)
  | inl failed ↦
      let ne : k ≢ s = λ h. cc (ap (try_seed t) h) in
      let (s', r', found, accepted) =
        find_from-accepts t n (suc k) s r (omega arith) (omega arith) e in
      (s', r', rw (failed, find_from) found, accepted)
]

-- The state in which init_profiler enlists the functions.
abbrev pub cleared : ℕ → Profiler → Profiler
cleared seed p = record p {
  prof_seed = seed;
  prof_sample_pool = λ k. null_sample;
  prof_inuse_map = λ i. 0;
}

cleared-IsFilled :
    (t : Target) (seed : ℕ) (p : Profiler) → IsFilled t 0 (λ s. false) (cleared seed p)
cleared-IsFilled t seed p = record {
  slots = λ s. is_in_use-eq (λ i. 0) s ∙ bit-zero (s % 32);
  places = λ s o. absurd (cc o);
}

lookup-cleared :
    (t : Target) (seed a : ℕ) (p : Profiler) → get_func_node_index t a (cleared seed p) ≡ none
unfolding get_func_node_index
lookup-cleared t seed a p =
    let slot = hash t a seed in rw (is_in_use-eq (λ i. 0) slot ∙ bit-zero (slot % 32))

or_before-none : (o : Option ℕ) → or_before o none ≡ o
or_before-none none = refl
or_before-none (some j) = refl

-- What init_profiler leaves, with the lookups.
pub init_profiler-enlisted :
    (t : Target) (p : Profiler) (seed : ℕ)
    → num_functions t ≤ 255
    → seed < 10000
    → Separates t seed
    → (s : ℕ) × (init_profiler t p ≡ some (enlist_from t 0 t.func_list (cleared s p)))
      × ((func_addr : ℕ)
          → get_func_node_index t func_addr (enlist_from t 0 t.func_list (cleared s p))
            ≡ index_from 0 func_addr t.func_list)
unfolding init_profiler find_perfect_seed try_seed
init_profiler-enlisted t p seed small range apart =
    let accepts = try_from-accepts t seed (λ slot. false) t.func_list (λ i h. refl) apart in
    let (s, r, found, accepted) =
      find_from-accepts t 10000 0 seed seed (omega arith) (omega arith) accepts in
    (
      s,
      rw (found, init_profiler),
      λ a.
          enlist_from-lookup t 0 r a (λ slot. false) t.func_list (cleared s p) (omega arith)
            accepted (cleared-IsFilled t s p)
          ∙ ap (or_before (index_from 0 a t.func_list)) (lookup-cleared t s a p)
          ∙ or_before-none (index_from 0 a t.func_list),
    )

-- If a seed below 10000 gives no two of the at most 255 functions one slot, then init_profiler
-- succeeds, and afterwards the lookup of an address finds the place of the function in the list,
-- and nothing for an address that is not in it.
pub get_func_node_index-init_profiler :
    (t : Target) (p : Profiler) (seed : ℕ)
    → num_functions t ≤ 255
    → seed < 10000
    → Separates t seed
    → (q : Profiler) × (init_profiler t p ≡ some q)
      × ((func_addr : ℕ) → get_func_node_index t func_addr q ≡ index_from 0 func_addr t.func_list)
get_func_node_index-init_profiler t p seed small range apart =
    let (s, done, lookups) = init_profiler-enlisted t p seed small range apart in
    (enlist_from t 0 t.func_list (cleared s p), done, lookups)
