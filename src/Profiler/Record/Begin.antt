-- ===== src/Profiler/Record/Begin.antt =====
-- __cyg_profile_func_enter records a call.
use embed_template.Prelude.{
  ℕ, ◌+◌, ◌%◌, ◌^◌, ◌<◌, ◌≡◌, ◌≢◌, ◌∙◌, refl, sym, arith, Bool, true, false, ltb, leb, ◌==◌, List,
  ◌∷◌, length, Bool-cases, inl, inr, ==_iff, Option-cases, ==_ne, ltb→lt,
}
use mathlib.Core.Path.{subst}
use embed_template.Profiler.{
  Target, Sample, Profiler, store, num_functions, prof_null_index, prof_stop_mark, max_prof_samples,
}
use embed_template.Profiler.Seed.Perfect.{index_from}
use embed_template.Profiler.Hooks.{link, take_sample, func_enter}
use embed_template.Profiler.Hooks.Chains.{
  Call, Linked, no_links, first_of, last_of, sample_of, Linked-congr, first_of_congr,
  first_of-absent, first_of-present, last_of-lt, Linked-relink, Linked-unlinked,
}
use embed_template.Profiler.Record.{CallLog, begin, listed}
use embed_template.Profiler.Record.Invariant.{IsProfile, get_func_node_index_congr, index_from-lt}

module _ (t : Target) (p : Profiler) (cs : List Call) (i ts : ℕ) where
  abbrev new_call : Call
  new_call = record { func = i; entered = ts; left = 0 }

  abbrev running : List Call → CallLog
  running calls = record { calls = calls; stopped = false }

  -- next_sample has moved on.
  abbrev moved : Profiler
  moved = record p { next_sample = (p.next_sample + 1) % 2 ^ 32 }

  module _ (v : IsProfile t p (running cs)) (room : length cs < 1024)
      (known : i < num_functions t) where
    link-IsProfile : IsProfile t (link i (length cs) ts moved) (running (new_call ∷ cs))
    unfolding link Linked first_of last_of
    link-IsProfile =
        let n = length cs in
        let s : Sample = record (p.prof_sample_pool n) {
          entry_ll = prof_null_index;
          entry_ts = ts;
        } in
        let pool = store p.prof_sample_pool n s in
        let fresh : s ≡ sample_of prof_null_index new_call =
          ground (arith, v.unused n (omega arith)) in
        let older =
          Linked-congr p.prof_sample_pool pool no_links no_links cs (λ k h. ground arith)
            (λ j. refl) v.linked in
        elim (Bool-cases ((p.prof_table i).tail == prof_null_index)) [
          | inl empty ↦
              let absent : last_of i cs ≡ prof_null_index =
                sym (v.tails i known) ∙ (==_iff _ _).0 empty in
              rw empty (record {
                size = omega arith;
                position = omega (arith, v.position);
                linked = (
                  ground (arith, fresh),
                  Linked-unlinked pool no_links i n cs v.size absent older,
                );
                unused = λ k h. ground (arith, v.unused k);
                heads = λ j h. ground (
                  arith,
                  v.heads j h,
                  first_of-absent (store no_links i n) cs i v.size absent,
                  first_of_congr no_links (store no_links i n) cs j,
                );
                tails = λ j h. ground (arith, v.tails j h);
                addresses = λ j h. ground (arith, v.addresses j h);
                finds = λ a.
                    get_func_node_index_congr t a p _ refl refl refl (λ j. ground arith)
                    ∙ v.finds a;
              })
          | inr other ↦
              let present : last_of i cs ≢ prof_null_index =
                λ e. absurd (ground (arith, v.tails i known)) in
              let below = last_of-lt i cs present in
              rw (other, v.tails i known)
                (record {
                  size = omega arith;
                  position = omega (arith, v.position);
                  linked = (
                    ground (arith, fresh, below),
                    Linked-relink pool no_links i n cs v.size refl present older,
                  );
                  unused = λ k h. ground (arith, v.unused k, below);
                  heads = λ j h. ground (
                    arith,
                    v.heads j h,
                    first_of-present no_links (store no_links i n) cs i present,
                    first_of_congr no_links (store no_links i n) cs j,
                  );
                  tails = λ j h. ground (arith, v.tails j h);
                  addresses = λ j h. ground (arith, v.addresses j h);
                  finds = λ a.
                      get_func_node_index_congr t a p _ refl refl refl (λ j. ground arith)
                      ∙ v.finds a;
                })
        ]

  module _ (v : IsProfile t p (running cs)) where
    next : p.next_sample ≡ length cs
    next = v.position

    -- The call that finds the pool full.
    full-IsProfile :
        length cs ≡ 1024
        → IsProfile t
            (record p { next_sample = prof_stop_mark })
            (record { calls = cs; stopped = true })
    full-IsProfile full = record {
      size = v.size;
      position = refl;
      linked = v.linked;
      unused = v.unused;
      heads = v.heads;
      tails = v.tails;
      addresses = v.addresses;
      finds = λ a. get_func_node_index_congr t a p _ refl refl refl (λ j. refl) ∙ v.finds a;
    }

    take_sample-running :
        i < num_functions t → IsProfile t (take_sample i ts p) (begin i ts (running cs))
    unfolding take_sample
    take_sample-running known =
        let going = ==_ne p.next_sample prof_stop_mark (omega (arith, next, v.size)) in
        rw going (elim (Bool-cases (ltb (length cs) 1024)) [
          | inl room ↦
              let fits : leb max_prof_samples p.next_sample ≡ false = ground (arith, next) in
              rw (room, fits)
                (subst (λ k. IsProfile t (link i k ts moved) (running (new_call ∷ cs))) (sym next)
                  (link-IsProfile v (ltb→lt _ _ room) known))
          | inr full ↦
              let over : leb max_prof_samples p.next_sample ≡ true = ground (arith, next) in
              let exact : (p.next_sample == max_prof_samples) ≡ true =
                ground (arith, next, v.size) in
              rw (full, over, exact) (full-IsProfile (ground (arith, v.size)))
        ])

take_sample-IsProfile :
    (t : Target) (p : Profiler) (i ts : ℕ) (cs : List Call) (b : Bool)
    → i < num_functions t
    → IsProfile t p (record { calls = cs; stopped = b })
    → IsProfile t (take_sample i ts p) (begin i ts (record { calls = cs; stopped = b }))
unfolding take_sample
take_sample-IsProfile t p i ts cs false known v = take_sample-running t p cs i ts v known
take_sample-IsProfile t p i ts cs true known v =
    let at_mark : (p.next_sample == prof_stop_mark) ≡ true = ground (arith, v.position) in
    rw at_mark v

-- A call of the hook records the call.
pub func_enter-IsProfile :
    (t : Target) (p : Profiler) (func_addr ts : ℕ) (l : CallLog)
    → IsProfile t p l
    → IsProfile t (func_enter t func_addr ts p) (listed t func_addr (λ i. begin i ts) l)
unfolding func_enter
func_enter-IsProfile t p func_addr ts l v =
    elim (Option-cases (index_from 0 func_addr t.func_list)) [
      | inl unknown ↦ rw (v.finds func_addr ∙ unknown, func_enter, unknown, listed) v
      | inr (i, found) ↦
          rw (v.finds func_addr ∙ found, func_enter, found, listed)
            (take_sample-IsProfile t p i ts l.calls l.stopped
              (index_from-lt func_addr i t.func_list found) v)
    ]
