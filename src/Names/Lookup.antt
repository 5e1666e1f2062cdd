-- ===== src/Names/Lookup.antt =====
-- A map finds what was inserted last.
use embed_template.Prelude.{
  ℕ, suc, ◌%◌, ◌^◌, ◌≤◌, ◌<◌, ◌≡◌, ◌∙◌, refl, ap, sym, arith, Bool, true, false, not, ◌==◌, List,
  Option, some, none, Bool-cases, Option-cases, inl, inr,
}
use embed_template.Prelude.Bits.{bit_and_mask}
use native.Mathlib.Nat.{mod-lt}
use embed_template.Names.{NameMap, map_empty, cli_hash, probe, find_row}
use embed_template.Names.Slots.{
  slot_at, slot_at-lt, slot_at-onto, size_pos, stops, least, outcome, loops-first,
}
use embed_template.Names.Frees.{frees, some_free}

abbrev pub used : NameMap → ℕ → Bool
used m s = not (m.map s == map_empty)

abbrev pub hash_at : NameMap → ℕ → ℕ
hash_at m s = (m.table (m.map s)).hash

-- A map of `size` slots whose rows are below `rows`, with `room` empty slots, that holds what
-- `found` gives for each hash: it is at a slot behind its home with no empty one between.
pub record IsNameMap (size rows room : ℕ) (m : NameMap) (found : ℕ → Option ℕ) : Type 0 where
  pub free : room ≤ frees size m.map
  pub row_below : (s : ℕ) → s < size → used m s ≡ true → m.map s < rows
  pub sound :
      (s : ℕ) → s < size → used m s ≡ true → found (hash_at m s) ≡ some (m.table (m.map s)).id
  pub unique :
      (s t : ℕ)
      → s < size
      → t < size
      → used m s ≡ true
      → used m t ≡ true
      → hash_at m s ≡ hash_at m t
      → s ≡ t
  pub reached :
      (hash home id : ℕ)
      → home < size
      → home ≡ hash % size
      → found hash ≡ some id
      → (d : ℕ) × (d < size)
        × (used m (slot_at size home d) ≡ true)
        × (hash_at m (slot_at size home d) ≡ hash)
        × ((k : ℕ) → k < d → used m (slot_at size home k) ≡ true)

pub home_of : (bits hash : ℕ) → hash % 2 ^ bits < 2 ^ bits
home_of bits hash = mod-lt hash (size_pos bits)

-- The loops stop, and at a first slot.
pub record IsFirst (bits hash home e : ℕ) (m : NameMap) : Type 0 where
  pub within : e < 2 ^ bits
  pub stop : stops m hash (slot_at (2 ^ bits) home e) ≡ true
  pub before : (k : ℕ) → k < e → stops m hash (slot_at (2 ^ bits) home k) ≡ false

pub some_stop :
    (bits hash home room : ℕ) (m : NameMap)
    → home < 2 ^ bits
    → suc room ≤ frees (2 ^ bits) m.map
    → (e : ℕ) × IsFirst bits hash home e m
some_stop bits hash home room m small free =
    let (s, lt, empty) = some_free (2 ^ bits) m.map (omega arith) in
    let (d, within, there) = slot_at-onto (2 ^ bits) home s small lt in
    let stop : stops m hash (slot_at (2 ^ bits) home d) ≡ true =
      ap (stops m hash) there ∙ ground (arith, empty) in
    let (e, le, at, before) = least (λ k. stops m hash (slot_at (2 ^ bits) home k)) d stop in
    (e, record { within = omega arith; stop = at; before = before })

-- Where the first stop is an empty slot, the hash is not in the map.
pub absent :
    (bits rows room hash e : ℕ) (m : NameMap) (found : ℕ → Option ℕ)
    → IsNameMap (2 ^ bits) rows room m found
    → IsFirst bits hash (hash % 2 ^ bits) e m
    → used m (slot_at (2 ^ bits) (hash % 2 ^ bits) e) ≡ false
    → found hash ≡ none
absent bits rows room hash e m found v first empty = elim (Option-cases (found hash)) [
  | inl missing ↦ missing
  | inr there ↦
      let (id, held) = there in
      let home = hash % 2 ^ bits in
      let (d, lt, filled, same, path) = v.reached hash home id (home_of bits hash) refl held in
      absurd (
        ground (
          arith,
          filled,
          same,
          first.before d,
          path e,
          empty,
          λ (h : d ≡ e). ap (λ k. used m (slot_at (2 ^ bits) home k)) h,
        ))
]

pub filled_at : (m : NameMap) (s : ℕ) → used m s ≡ true → (m.map s == map_empty) ≡ false
filled_at m s filled = ground (arith, filled)

-- The hash at the first stop, where it is in use.
pub stop-hash :
    (m : NameMap) (hash s : ℕ) → stops m hash s ≡ true → used m s ≡ true → hash_at m s ≡ hash
stop-hash m hash s stop filled = ground (arith, stop, filled)

outcome-found :
    (bits rows room hash e : ℕ) (m : NameMap) (found : ℕ → Option ℕ)
    → IsNameMap (2 ^ bits) rows room m found
    → IsFirst bits hash (hash % 2 ^ bits) e m
    → outcome m (slot_at (2 ^ bits) (hash % 2 ^ bits) e) ≡ found hash
outcome-found bits rows room hash e m found v first =
    let home = hash % 2 ^ bits in
    let s = slot_at (2 ^ bits) home e in
    elim (Bool-cases (used m s)) [
      | inl filled ↦
          let same = stop-hash m hash s first.stop filled in
          rw (filled_at m s filled) (
            sym (v.sound s (slot_at-lt (2 ^ bits) home e (home_of bits hash) first.within) filled)
            ∙ ap found same)
      | inr empty ↦
          let gone : m.map s == map_empty ≡ true = ground (arith, empty) in
          rw gone (sym (absent bits rows room hash e m found v first empty))
    ]

-- find_row gives what the map holds for the hash of the name.
pub find_row-found :
    (bits rows room : ℕ) (name : List ℕ) (m : NameMap) (found : ℕ → Option ℕ)
    → IsNameMap (2 ^ bits) rows (suc room) m found
    → find_row bits name m ≡ some (found (cli_hash name))
unfolding find_row
find_row-found bits rows room name m found v =
    let hash = cli_hash name in
    let home = hash % 2 ^ bits in
    let small = home_of bits hash in
    let (e, first) = some_stop bits hash home room m small v.free in
    let (_, probed) =
      loops-first bits hash home m small (2 ^ bits) 0 e (omega arith) (omega (arith, first.within))
        first.within first.stop first.before in
    let start : slot_at (2 ^ bits) home 0 ≡ home = ground arith in
    rw (bit_and_mask bits hash) (
      ap (probe (2 ^ bits) bits m hash home) (sym start)
      ∙ probed
      ∙ ap some (outcome-found bits rows (suc room) hash e m found v first))
