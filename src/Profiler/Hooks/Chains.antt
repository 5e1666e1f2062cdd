-- ===== src/Profiler/Hooks/Chains.antt =====
-- The calls behind the samples: the lists of the functions thread the calls in their order.
use embed_template.Prelude.{
  ℕ, ◌≤◌, ◌<◌, ◌≡◌, ◌≢◌, ◌∙◌, refl, ap, sym, arith, ◌==◌, if◌then◌else◌, List, [], ◌∷◌, length,
  Bool-cases, inl, inr,
}
use embed_template.Profiler.{Sample, store, prof_null_index}

-- A call of the function at place `func`, with its times; `left` is 0 until it returns.
pub record Call : Type 0 where
  pub func : ℕ
  pub entered : ℕ
  pub left : ℕ

abbrev pub Links : Type 0
Links = ℕ → ℕ

abbrev pub no_links : Links
no_links i = prof_null_index

abbrev pub sample_of : ℕ → Call → Sample
sample_of ll c = record { entry_ts = c.entered; entry_ll = ll; exit_ts = c.left }

-- The pool holds the calls, the newest one first, where `later` gives for each function the index
-- of its first call after these: the link of a sample leads to the next call of its function.
unfoldable pub Linked : (ℕ → Sample) → Links → List Call → Type 0
Linked pool later [] = Unit {0}
Linked pool later (c ∷ cs) =
    (pool (length cs) ≡ sample_of (later c.func) c)
    × Linked pool (store later c.func (length cs)) cs

-- The index of the first call of each function, or of its first later one.
unfoldable pub first_of : Links → List Call → Links
first_of later [] = later
first_of later (c ∷ cs) = first_of (store later c.func (length cs)) cs

-- The index of the last call of a function.
unfoldable pub last_of : ℕ → List Call → ℕ
last_of i [] = prof_null_index
last_of i (c ∷ cs) = if c.func == i then length cs else last_of i cs

-- The newest call of a function returns.
unfoldable pub leave : ℕ → ℕ → List Call → List Call
leave i ts [] = []
leave i ts (c ∷ cs) = if c.func == i then record c { left = ts } ∷ cs else c ∷ leave i ts cs

pub Linked-congr :
    (pool pool' : ℕ → Sample) (later later' : Links) (cs : List Call)
    → ((k : ℕ) → k < length cs → pool' k ≡ pool k)
    → ((i : ℕ) → later' i ≡ later i)
    → Linked pool later cs
    → Linked pool' later' cs
unfolding Linked
Linked-congr pool pool' later later' [] same agree l = tt
Linked-congr pool pool' later later' (c ∷ cs) same agree (here, rest) = (
  same (length cs) (omega arith) ∙ here ∙ ap (λ n. sample_of n c) (sym (agree c.func)),
  Linked-congr pool pool' (store later c.func (length cs)) (store later' c.func (length cs)) cs
      (λ k h. same k (omega arith)) (λ i. ground (arith, agree i)) rest,
)

pub first_of_congr :
    (later later' : Links) (cs : List Call) (i : ℕ)
    → later i ≡ later' i
    → first_of later cs i ≡ first_of later' cs i
unfolding first_of
first_of_congr later later' [] i e = e
first_of_congr later later' (c ∷ cs) i e =
    first_of_congr (store later c.func (length cs)) (store later' c.func (length cs)) cs i
      (ground arith)

-- A function without a call has only its later ones.
pub first_of-absent :
    (later : Links) (cs : List Call) (i : ℕ)
    → length cs ≤ 1024
    → last_of i cs ≡ prof_null_index
    → first_of later cs i ≡ later i
unfolding first_of last_of
first_of-absent later [] i small e = refl
first_of-absent later (c ∷ cs) i small e = elim (Bool-cases (c.func == i)) [
  | inl here ↦ absurd (ground arith)
  | inr other ↦
      first_of-absent (store later c.func (length cs)) cs i (omega arith) (ground arith) ∙ rw other
]

-- A function with a call starts with it, whatever comes later.
pub first_of-present :
    (later later' : Links) (cs : List Call) (i : ℕ)
    → last_of i cs ≢ prof_null_index
    → first_of later cs i ≡ first_of later' cs i
unfolding first_of last_of
first_of-present later later' [] i ne = absurd (ne refl)
first_of-present later later' (c ∷ cs) i ne = elim (Bool-cases (c.func == i)) [
  | inl here ↦
      first_of_congr (store later c.func (length cs)) (store later' c.func (length cs)) cs i
        (rw here)
  | inr other ↦
      first_of-present (store later c.func (length cs)) (store later' c.func (length cs)) cs i
        (ground arith)
]

pub last_of-lt :
    (i : ℕ) (cs : List Call) → last_of i cs ≢ prof_null_index → last_of i cs < length cs
unfolding last_of
last_of-lt i [] ne = absurd (ne refl)
last_of-lt i (c ∷ cs) ne = ground (arith, last_of-lt i cs)

-- A link to a new call at index `n`: the last sample of its function changes.
abbrev pub relink : (ℕ → Sample) → ℕ → ℕ → ℕ → Sample
relink pool last n = store pool last (record (pool last) { entry_ll = n })

pub Linked-relink :
    (pool : ℕ → Sample) (later : Links) (i n : ℕ) (cs : List Call)
    → length cs ≤ 1024
    → later i ≡ prof_null_index
    → last_of i cs ≢ prof_null_index
    → Linked pool later cs
    → Linked (relink pool (last_of i cs) n) (store later i n) cs
unfolding Linked last_of
Linked-relink pool later i n [] small e ne l = tt
Linked-relink pool later i n (c ∷ cs) small e ne (here, rest) =
    let k = length cs in
    elim (Bool-cases (c.func == i)) [
      | inl same ↦ (
        ground (arith, here),
        Linked-congr pool (relink pool (last_of i (c ∷ cs)) n) (store later c.func k)
            (store (store later i n) c.func k) cs (λ j h. ground arith) (λ j. ground arith) rest,
      )
      | inr other ↦
          let apart = last_of-lt i cs (rw other at ne) in
          let linked =
            Linked-relink pool (store later c.func k) i n cs (omega arith) (ground arith)
              (rw other at ne) rest in
          (
            ground (arith, here, apart),
            Linked-congr (relink pool (last_of i cs) n) (relink pool (last_of i (c ∷ cs)) n)
                (store (store later c.func k) i n) (store (store later i n) c.func k) cs
                (λ j h. ground arith) (λ j. ground arith) linked,
          )
    ]

-- Where the function has no call, a later one changes no link.
pub Linked-unlinked :
    (pool : ℕ → Sample) (later : Links) (i n : ℕ) (cs : List Call)
    → length cs ≤ 1024
    → last_of i cs ≡ prof_null_index
    → Linked pool later cs
    → Linked pool (store later i n) cs
unfolding Linked last_of
Linked-unlinked pool later i n [] small e l = tt
Linked-unlinked pool later i n (c ∷ cs) small e (here, rest) =
    let k = length cs in
    elim (Bool-cases (c.func == i)) [
      | inl same ↦ absurd (ground arith)
      | inr other ↦
          let linked =
            Linked-unlinked pool (store later c.func k) i n cs (omega arith) (rw other at e) rest in
          (
            ground (arith, here),
            Linked-congr pool pool (store (store later c.func k) i n)
                (store (store later i n) c.func k) cs (λ j h. refl) (λ j. ground arith) linked,
          )
    ]

pub length-leave : (i ts : ℕ) (cs : List Call) → length (leave i ts cs) ≡ length cs
unfolding leave
length-leave i ts [] = refl
length-leave i ts (c ∷ cs) = ground (arith, length-leave i ts cs)

-- The newest call of the function returns.
pub Linked-leave :
    (pool : ℕ → Sample) (later : Links) (i ts : ℕ) (cs : List Call)
    → last_of i cs ≢ prof_null_index
    → Linked pool later cs
    → Linked
        (store pool (last_of i cs) (record (pool (last_of i cs)) { exit_ts = ts }))
        later
        (leave i ts cs)
unfolding Linked last_of leave
Linked-leave pool later i ts [] ne l = tt
Linked-leave pool later i ts (c ∷ cs) ne (here, rest) =
    let k = length cs in
    elim (Bool-cases (c.func == i)) [
      | inl same ↦ rw same (
        ground (arith, here),
        Linked-congr pool (store pool k (record (pool k) { exit_ts = ts })) (store later c.func k)
            (store later c.func k) cs (λ j h. ground arith) (λ j. refl) rest,
      )
      | inr other ↦
          let apart = last_of-lt i cs (rw other at ne) in
          rw (other, length-leave i ts cs)
            (
              ground (arith, here, apart),
              Linked-leave pool (store later c.func k) i ts cs (rw other at ne) rest,
            )
    ]
