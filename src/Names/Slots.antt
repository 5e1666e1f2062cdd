-- ===== src/Names/Slots.antt =====
-- The way of the two loops through the slots of a map.
use embed_template.Prelude.{
  ℕ, zero, suc, ◌+◌, ◌-◌, ◌^◌, ◌≤◌, ◌<◌, ◌≡◌, ◌∙◌, refl, ap, arith, Bool, true, false, ltb, ◌||◌,
  ◌==◌, if◌then◌else◌, Option, some, none, Bool-cases, inl, inr, ==_iff,
}
use embed_template.Prelude.Bits.{bit_and_mask}
use native.Mathlib.Nat.{mod_self, mod-eq_of_lt, one-le-pow}
use embed_template.Names.{NameMap, map_empty, next_slot, find_slot, probe}

-- The slot `d` steps behind `h`.
abbrev pub slot_at : ℕ → ℕ → ℕ → ℕ
slot_at size h d = if ltb (h + d) size then h + d else h + d - size

pub size_pos : (bits : ℕ) → 0 < 2 ^ bits
size_pos bits = omega (arith, one-le-pow bits 2 (omega arith))

pub next_slot-eq :
    (bits s : ℕ) → s < 2 ^ bits → next_slot bits s ≡ (if s + 1 == 2 ^ bits then 0 else s + 1)
next_slot-eq bits s h = bit_and_mask bits (s + 1) ∙ elim (Bool-cases (s + 1 == 2 ^ bits)) [
  | inl last ↦ rw (last, (==_iff (s + 1) (2 ^ bits)).0 last) (mod_self (2 ^ bits))
  | inr inner ↦ rw inner (mod-eq_of_lt (ground (arith, inner)))
]

-- A step goes to the next slot, and comes back to the first one after all others only.
pub next_slot-slot_at :
    (bits h d : ℕ)
    → h < 2 ^ bits
    → suc d < 2 ^ bits
    → (next_slot bits (slot_at (2 ^ bits) h d) ≡ slot_at (2 ^ bits) h (suc d))
      × ((slot_at (2 ^ bits) h (suc d) == h) ≡ false)
next_slot-slot_at bits h d small lt =
    (next_slot-eq bits (slot_at (2 ^ bits) h d) (ground arith) ∙ ground arith, ground arith)

pub slot_at-lt : (size h d : ℕ) → h < size → d < size → slot_at size h d < size
slot_at-lt size h d small lt = ground arith

pub slot_at-inj :
    (size h d e : ℕ) → h < size → d < size → e < size → slot_at size h d ≡ slot_at size h e → d ≡ e
slot_at-inj size h d e small a b same = ground arith

-- Every slot is on the way.
pub slot_at-onto :
    (size h i : ℕ) → h < size → i < size → (d : ℕ) × (d < size) × (slot_at size h d ≡ i)
slot_at-onto size h i small lt = elim (Bool-cases (ltb i h)) [
  | inl before ↦ (i + size - h, ground arith, ground arith)
  | inr behind ↦ (i - h, ground arith, ground arith)
]

-- Where both loops stop.
abbrev pub stops : NameMap → ℕ → ℕ → Bool
stops m hash s = m.map s == map_empty || (m.table (m.map s)).hash == hash

-- The least number that passes a test.
pub least :
    (P : ℕ → Bool) (n : ℕ)
    → P n ≡ true
    → (e : ℕ) × (e ≤ n) × (P e ≡ true) × ((d : ℕ) → d < e → P d ≡ false)
least P zero p = (0, omega arith, p, λ d lt. absurd (omega arith))
least P (suc n) p = elim (Bool-cases (P 0)) [
  | inl here ↦ (0, omega arith, here, λ d lt. absurd (omega arith))
  | inr later ↦
      let (e, le, there, before) = least (λ k. P (suc k)) n p in
      (suc e, omega arith, there, below e later before)
]
  where
    below :
        (e : ℕ)
        → P 0 ≡ false
        → ((d : ℕ) → d < e → P (suc d) ≡ false)
        → (d : ℕ) → d < suc e
        → P d ≡ false
    below e first before zero lt = first
    below e first before (suc d) lt = before d (omega arith)

-- The row of a slot, if there is one.
abbrev pub outcome : NameMap → ℕ → Option ℕ
outcome m s = if m.map s == map_empty then none else some (m.table (m.map s)).id

find_slot-stop :
    (n bits hash s : ℕ) (m : NameMap)
    → stops m hash s ≡ true
    → find_slot (suc n) bits m hash s ≡ some s
unfolding find_slot
find_slot-stop n bits hash s m stop = elim (Bool-cases (m.map s == map_empty)) [
  | inl empty ↦ rw empty refl
  | inr used ↦
      let same : (m.table (m.map s)).hash == hash ≡ true = ground (arith, stop, used) in
      rw (used, same) refl
]

find_slot-pass :
    (n bits hash s : ℕ) (m : NameMap)
    → stops m hash s ≡ false
    → find_slot (suc n) bits m hash s ≡ find_slot n bits m hash (next_slot bits s)
unfolding find_slot
find_slot-pass n bits hash s m pass =
    let used : m.map s == map_empty ≡ false = ground (arith, pass) in
    let other : (m.table (m.map s)).hash == hash ≡ false = ground (arith, pass) in
    rw (used, other) refl

probe-stop :
    (n bits hash start s : ℕ) (m : NameMap)
    → stops m hash s ≡ true
    → probe (suc n) bits m hash start s ≡ some (outcome m s)
unfolding probe
probe-stop n bits hash start s m stop = elim (Bool-cases (m.map s == map_empty)) [
  | inl empty ↦ rw empty refl
  | inr used ↦
      let same : (m.table (m.map s)).hash == hash ≡ true = ground (arith, stop, used) in
      rw (used, same) refl
]

probe-pass :
    (n bits hash start s : ℕ) (m : NameMap)
    → stops m hash s ≡ false
    → (next_slot bits s == start) ≡ false
    → probe (suc n) bits m hash start s ≡ probe n bits m hash start (next_slot bits s)
unfolding probe
probe-pass n bits hash start s m pass inner =
    let used : m.map s == map_empty ≡ false = ground (arith, pass) in
    let other : (m.table (m.map s)).hash == hash ≡ false = ground (arith, pass) in
    rw (used, other, inner) refl

-- Both loops end at the first slot on their way that stops them.
module _ (bits hash h : ℕ) (m : NameMap) (small : h < 2 ^ bits) where
  pub loops-first :
      (n d e : ℕ)
      → d ≤ e
      → e < d + n
      → e < 2 ^ bits
      → stops m hash (slot_at (2 ^ bits) h e) ≡ true
      → ((k : ℕ) → k < e → stops m hash (slot_at (2 ^ bits) h k) ≡ false)
      → (find_slot n bits m hash (slot_at (2 ^ bits) h d) ≡ some (slot_at (2 ^ bits) h e))
        × (probe n bits m hash h (slot_at (2 ^ bits) h d)
            ≡ some (outcome m (slot_at (2 ^ bits) h e)))
  loops-first zero d e le fuel lt stop before = absurd (omega arith)
  loops-first (suc n) d e le fuel lt stop before = elim (Bool-cases (d == e)) [
    | inl here ↦
        rw ((==_iff d e).0 here)
          (find_slot-stop n bits hash _ m stop, probe-stop n bits hash h _ m stop)
    | inr later ↦
        let s = slot_at (2 ^ bits) h d in
        let (step, inner) = next_slot-slot_at bits h d small (ground arith) in
        let (found, probed) = loops-first n (suc d) e (ground arith) (omega arith) lt stop before in
        (
          find_slot-pass n bits hash s m (before d (ground arith))
              ∙ ap (find_slot n bits m hash) step
              ∙ found,
          probe-pass n bits hash h s m (before d (ground arith)) (ap (λ t. t == h) step ∙ inner)
              ∙ ap (probe n bits m hash h) step
              ∙ probed,
        )
  ]
