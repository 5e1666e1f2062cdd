-- ===== src/Names/Stored.antt =====
-- What an insertion leaves in a map.
use embed_template.Prelude.{
  ℕ, suc, ◌%◌, ◌^◌, ◌≤◌, ◌<◌, ◌≡◌, ◌≢◌, ◌∙◌, refl, ap, sym, arith, true, false, not, ◌==◌,
  if◌then◌else◌, Option, some, Bool-cases, inl, inr, ==_iff,
}
use mathlib.Core.Path.{subst}
use embed_template.Names.{NameMap, map_empty}
use embed_template.Names.Slots.{slot_at, slot_at-lt}
use embed_template.Names.Frees.{frees-store}
use embed_template.Names.Lookup.{IsNameMap, IsFirst, used, hash_at, home_of, absent, stop-hash}

-- The map with row `n` at a slot, and what it then holds.
abbrev pub stored : ℕ → ℕ → NameMap → NameMap
stored n s m = record m { map = λ i. if s == i then n % 2 ^ 8 else m.map i }

abbrev pub holds : ℕ → ℕ → (ℕ → Option ℕ) → ℕ → Option ℕ
holds hash id found x = if hash == x then some id else found x

-- The first stop of row `n`, which is above the rows of the map.
module _ (bits rows room n e : ℕ) (m : NameMap) (found : ℕ → Option ℕ)
    (v : IsNameMap (2 ^ bits) rows (suc room) m found) (above : rows ≤ n) (fits : n < 255)
    (first : IsFirst bits (m.table n).hash ((m.table n).hash % 2 ^ bits) e m) where
  abbrev hash : ℕ
  hash = (m.table n).hash

  abbrev home : ℕ
  home = hash % 2 ^ bits

  abbrev here : ℕ
  here = slot_at (2 ^ bits) home e

  abbrev pub now : NameMap
  now = stored n here m

  kept : (s : ℕ) → (here == s) ≡ false → now.map s ≡ m.map s
  kept s other = rw other refl

  changed : now.map here ≡ n
  changed = ground (arith, fits)

  here_lt : here < 2 ^ bits
  here_lt = slot_at-lt (2 ^ bits) home e (home_of bits hash) first.within

  -- No other slot has the hash.
  others : (s : ℕ) → s < 2 ^ bits → used m s ≡ true → (here == s) ≡ false → hash_at m s ≢ hash
  others s lt filled other same = elim (Bool-cases (used m here)) [
    | inl filled' ↦
        let e' : here ≡ s =
          v.unique here s here_lt lt filled' filled
            (stop-hash m hash here first.stop filled' ∙ sym same) in
        absurd (ground (arith, e', other))
    | inr empty ↦
        let gone = absent bits rows (suc room) hash e m found v first empty in
        absurd (cc (gone, sym (ap found same) ∙ v.sound s lt filled))
  ]

  still_used : (s : ℕ) → used m s ≡ true → used now s ≡ true
  still_used s filled = elim (Bool-cases (here == s)) [
    | inl at ↦ ground (arith, at, fits)
    | inr other ↦ ap (λ r. not (r == map_empty)) (kept s other) ∙ filled
  ]

  was_used : (s : ℕ) → used now s ≡ true → (here == s) ≡ false → used m s ≡ true
  was_used s filled other = ap (λ r. not (r == map_empty)) (sym (kept s other)) ∙ filled

  row_here : (s : ℕ) → (here == s) ≡ true → now.map s ≡ n
  row_here s at = ap now.map (sym ((==_iff here s).0 at)) ∙ changed

  abbrev pub held : ℕ → Option ℕ
  held = holds hash (m.table n).id found

  sound_now :
      (s : ℕ)
      → s < 2 ^ bits
      → used now s ≡ true
      → held (hash_at now s) ≡ some (m.table (now.map s)).id
  sound_now s lt filled = elim (Bool-cases (here == s)) [
    | inl at ↦ rw (row_here s at) (rw ((==_iff hash hash).1 refl) refl)
    | inr other ↦
        let was = was_used s filled other in
        let apart : (hash == hash_at m s) ≡ false = ground (arith, others s lt was other) in
        rw (kept s other) (rw apart (v.sound s lt was))
  ]

  unique_now :
      (s t : ℕ)
      → s < 2 ^ bits
      → t < 2 ^ bits
      → used now s ≡ true
      → used now t ≡ true
      → hash_at now s ≡ hash_at now t
      → s ≡ t
  unique_now s t ls lt fs ft same = elim (Bool-cases (here == s)) [
    | inl at ↦ elim (Bool-cases (here == t)) [
      | inl at' ↦ ground (arith, at, at')
      | inr other' ↦ absurd (
          others t lt (was_used t ft other') other' (
            ap (λ r. (m.table r).hash) (sym (kept t other'))
            ∙ sym same
            ∙ ap (λ r. (m.table r).hash) (row_here s at)))
    ]
    | inr other ↦ elim (Bool-cases (here == t)) [
      | inl at' ↦ absurd (
          others s ls (was_used s fs other) other (
            ap (λ r. (m.table r).hash) (sym (kept s other))
            ∙ same
            ∙ ap (λ r. (m.table r).hash) (row_here t at')))
      | inr other' ↦ v.unique s t ls lt (was_used s fs other) (was_used t ft other') (
          ap (λ r. (m.table r).hash) (sym (kept s other))
          ∙ same
          ∙ ap (λ r. (m.table r).hash) (kept t other'))
    ]
  ]

  -- The way to a slot from its home.
  abbrev Way : ℕ → ℕ → Type 0
  Way x from =
      (d : ℕ) × (d < 2 ^ bits)
      × (used now (slot_at (2 ^ bits) from d) ≡ true)
      × (hash_at now (slot_at (2 ^ bits) from d) ≡ x)
      × ((k : ℕ) → k < d → used now (slot_at (2 ^ bits) from k) ≡ true)

  reached_here : Way hash home
  reached_here = (
    e,
    first.within,
    ground (arith, changed, fits),
    ap (λ r. (m.table r).hash) changed,
    λ k lt. still_used (slot_at (2 ^ bits) home k) (ground (arith, first.before k lt)),
  )

  reached_now :
      (x from id : ℕ) → from < 2 ^ bits → from ≡ x % 2 ^ bits → held x ≡ some id → Way x from
  reached_now x from id lf fe there = elim (Bool-cases (hash == x)) [
    | inl same ↦
        let eq : hash ≡ x = (==_iff hash x).0 same in
        subst (λ f. Way x f) (ap (λ h. h % 2 ^ bits) eq ∙ sym fe)
          (subst (λ h. Way h home) eq reached_here)
    | inr apart ↦
        let (d, lt, filled, at, path) = v.reached x from id lf fe (sym (unheld apart) ∙ there) in
        let s = slot_at (2 ^ bits) from d in
        let other : (here == s) ≡ false = elsewhere s filled at apart in
        (
          d,
          lt,
          still_used s filled,
          ap (λ r. (m.table r).hash) (kept s other) ∙ at,
          λ k less. still_used (slot_at (2 ^ bits) from k) (path k less),
        )
  ]
    where
      unheld : (hash == x) ≡ false → held x ≡ found x
      unheld apart = rw apart refl

      elsewhere :
          (s : ℕ) → used m s ≡ true → hash_at m s ≡ x → (hash == x) ≡ false → (here == s) ≡ false
      elsewhere s filled at apart = elim (Bool-cases (here == s)) [
        | inr other ↦ other
        | inl there ↦
            let e' : here ≡ s = (==_iff here s).0 there in
            let same = stop-hash m hash here first.stop (ap (used m) e' ∙ filled) in
            absurd (ground (arith, apart, sym same ∙ ap (hash_at m) e' ∙ at))
      ]

  pub now-IsNameMap : IsNameMap (2 ^ bits) (suc n) room now held
  now-IsNameMap = record {
    free = omega (arith, v.free, frees-store (2 ^ bits) here (n % 2 ^ 8) m.map);
    row_below = λ s lt filled. elim (Bool-cases (here == s)) [
      | inl at ↦ omega (arith, row_here s at)
      | inr other ↦ omega (arith, kept s other, v.row_below s lt (was_used s filled other))
    ];
    sound = sound_now;
    unique = unique_now;
    reached = reached_now;
  }
