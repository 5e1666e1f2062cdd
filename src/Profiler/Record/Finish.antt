-- ===== src/Profiler/Record/Finish.antt =====
-- __cyg_profile_func_exit records the return of the newest call.
use embed_template.Prelude.{
  ℕ, ◌≤◌, ◌<◌, ◌≡◌, ◌≢◌, ◌∙◌, refl, ap, sym, arith, Bool, true, false, ◌==◌, List, [], ◌∷◌, length,
  Bool-cases, inl, inr, ==_iff, Option-cases, ==_ne,
}
use embed_template.Profiler.{
  Target, Profiler, store, num_functions, prof_null_index, prof_stop_mark,
}
use embed_template.Profiler.Seed.Perfect.{index_from}
use embed_template.Profiler.Hooks.{end_sample, func_exit}
use embed_template.Profiler.Hooks.Chains.{
  Call, Links, no_links, first_of, last_of, last_of-lt, leave, length-leave, Linked-leave,
}
use embed_template.Profiler.Record.{CallLog, finish, listed}
use embed_template.Profiler.Record.Invariant.{IsProfile, get_func_node_index_congr, index_from-lt}

first_of-leave :
    (later : Links) (i ts j : ℕ) (cs : List Call)
    → first_of later (leave i ts cs) j ≡ first_of later cs j
unfolding first_of leave
first_of-leave later i ts j [] = refl
first_of-leave later i ts j (c ∷ cs) = elim (Bool-cases (c.func == i)) [
  | inl same ↦ rw same
  | inr other ↦ rw other (
      ap (λ n. first_of (store later c.func n) (leave i ts cs) j) (length-leave i ts cs)
      ∙ first_of-leave (store later c.func (length cs)) i ts j cs)
]

last_of-leave : (i ts j : ℕ) (cs : List Call) → last_of j (leave i ts cs) ≡ last_of j cs
unfolding last_of leave
last_of-leave i ts j [] = refl
last_of-leave i ts j (c ∷ cs) = elim (Bool-cases (c.func == i)) [
  | inl same ↦ rw same
  | inr other ↦ rw (other, length-leave i ts cs, last_of-leave i ts j cs)
]

leave-absent :
    (i ts : ℕ) (cs : List Call)
    → length cs ≤ 1024
    → last_of i cs ≡ prof_null_index
    → leave i ts cs ≡ cs
unfolding last_of leave
leave-absent i ts [] small e = refl
leave-absent i ts (c ∷ cs) small e = elim (Bool-cases (c.func == i)) [
  | inl same ↦ absurd (ground arith)
  | inr other ↦ rw (other, leave-absent i ts cs (omega arith) (rw other at e))
]

end_sample-IsProfile :
    (t : Target) (p : Profiler) (i ts : ℕ) (cs : List Call) (b : Bool)
    → i < num_functions t
    → IsProfile t p (record { calls = cs; stopped = b })
    → IsProfile t (end_sample i ts p) (finish i ts (record { calls = cs; stopped = b }))
unfolding end_sample
end_sample-IsProfile t p i ts cs true known v =
    let at_mark : (p.next_sample == prof_stop_mark) ≡ true = ground (arith, v.position) in
    rw at_mark v
end_sample-IsProfile t p i ts cs false known v =
    let going = ==_ne p.next_sample prof_stop_mark (omega (arith, v.position, v.size)) in
    rw going (elim (Bool-cases ((p.prof_table i).tail == prof_null_index)) [
      | inl empty ↦
          rw (empty, leave-absent i ts cs v.size (sym (v.tails i known) ∙ (==_iff _ _).0 empty)) v
      | inr other ↦
          let present : last_of i cs ≢ prof_null_index =
            λ e. absurd (ground (arith, v.tails i known)) in
          let below = last_of-lt i cs present in
          let same = length-leave i ts cs in
          rw (other, v.tails i known)
            (record {
              size = omega (arith, same, v.size);
              position = v.position ∙ sym same;
              linked = Linked-leave p.prof_sample_pool no_links i ts cs present v.linked;
              unused = λ k h. ground (arith, v.unused k, below, same);
              heads = λ j h. v.heads j h ∙ sym (first_of-leave no_links i ts j cs);
              tails = λ j h. v.tails j h ∙ sym (last_of-leave i ts j cs);
              addresses = v.addresses;
              finds = λ a. get_func_node_index_congr t a p _ refl refl refl (λ j. refl) ∙ v.finds a;
            })
    ])

-- A call of the hook records the return.
pub func_exit-IsProfile :
    (t : Target) (p : Profiler) (func_addr ts : ℕ) (l : CallLog)
    → IsProfile t p l
    → IsProfile t (func_exit t func_addr ts p) (listed t func_addr (λ i. finish i ts) l)
unfolding func_exit
func_exit-IsProfile t p func_addr ts l v =
    elim (Option-cases (index_from 0 func_addr t.func_list)) [
      | inl unknown ↦ rw (v.finds func_addr ∙ unknown, func_exit, unknown, listed) v
      | inr (i, found) ↦
          rw (v.finds func_addr ∙ found, func_exit, found, listed)
            (end_sample-IsProfile t p i ts l.calls l.stopped
              (index_from-lt func_addr i t.func_list found) v)
    ]
