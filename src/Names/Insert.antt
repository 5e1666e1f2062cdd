-- ===== src/Names/Insert.antt =====
-- What any insertions leave in a map, and what is found in it.
use embed_template.Prelude.{
  ℕ, zero, suc, ◌+◌, ◌-◌, ◌%◌, ◌^◌, ◌≤◌, ◌<◌, ◌≡◌, ◌∙◌, refl, ap, sym, arith, bit_and, true, false,
  ◌==◌, if◌then◌else◌, List, [], ◌∷◌, length, Option, some, none, ==_iff,
}
use embed_template.Prelude.Bits.{bit_and_mask}
use mathlib.Core.Path.{subst}
use embed_template.Names.{
  NameId, NameMap, map_empty, cli_hash, find_slot, do_insert, insert_row, find_row, cleared,
}
use embed_template.Names.Slots.{slot_at, slot_at-lt, loops-first}
use embed_template.Names.Frees.{frees}
use embed_template.Names.Lookup.{IsNameMap, used, home_of, some_stop, find_row-found}
use embed_template.Names.Stored.{holds, stored, now-IsNameMap}

-- A row that is not in use may change.
abbrev with_row : ℕ → NameId → NameMap → NameMap
with_row n row m = record m { table = λ i. if n == i then row else m.table i }

row_kept :
    (n : ℕ) (row : NameId) (m : NameMap) (r : ℕ) → r < n → (with_row n row m).table r ≡ m.table r
row_kept n row m r h = let other : n == r ≡ false = ground arith in rw other refl

with_row-IsNameMap :
    (size rows room n : ℕ) (row : NameId) (m : NameMap) (found : ℕ → Option ℕ)
    → rows ≤ n
    → IsNameMap size rows room m found
    → IsNameMap size rows room (with_row n row m) found
with_row-IsNameMap size rows room n row m found above v =
    let same : (s : ℕ)
        → s < size
        → used m s ≡ true
        → (with_row n row m).table (m.map s) ≡ m.table (m.map s) =
      λ s lt filled. row_kept n row m (m.map s) (omega (arith, v.row_below s lt filled)) in
    record {
      free = v.free;
      row_below = v.row_below;
      sound = λ s lt filled.
          ap (λ (r : NameId). found r.hash) (same s lt filled)
          ∙ v.sound s lt filled
          ∙ ap (λ (r : NameId). some r.id) (sym (same s lt filled));
      unique = λ s t ls lt fs ft e. v.unique s t ls lt fs ft (
          sym (ap (λ (r : NameId). r.hash) (same s ls fs))
          ∙ e
          ∙ ap (λ (r : NameId). r.hash) (same t lt ft));
      reached = λ hash home id lf fe held.
          let (d, lt, filled, at, path) = v.reached hash home id lf fe held in
          (
            d,
            lt,
            filled,
            ap (λ (r : NameId). r.hash)
                  (same (slot_at size home d) (slot_at-lt size home d lf lt) filled)
                ∙ at,
            path,
          );
    }

do_insert-eq :
    (bits n s : ℕ) (m : NameMap)
    → find_slot (2 ^ bits) bits m (m.table n).hash (bit_and (m.table n).hash (2 ^ bits - 1))
      ≡ some s
    → do_insert bits n m ≡ some (stored n s m)
unfolding do_insert
do_insert-eq bits n s m e = rw (do_insert, e) refl

do_insert-IsNameMap :
    (bits rows room n : ℕ) (m : NameMap) (found : ℕ → Option ℕ)
    → IsNameMap (2 ^ bits) rows (suc room) m found
    → rows ≤ n
    → n < 255
    → (m' : NameMap) × (do_insert bits n m ≡ some m')
      × IsNameMap (2 ^ bits) (suc n) room m' (holds (m.table n).hash (m.table n).id found)
do_insert-IsNameMap bits rows room n m found v above fits =
    let hash = (m.table n).hash in
    let home = hash % 2 ^ bits in
    let small = home_of bits hash in
    let (e, first) = some_stop bits hash home room m small v.free in
    let (slot, _) =
      loops-first bits hash home m small (2 ^ bits) 0 e (omega arith) (omega (arith, first.within))
        first.within first.stop first.before in
    let start : slot_at (2 ^ bits) home 0 ≡ home = ground arith in
    let found_slot : find_slot (2 ^ bits) bits m hash home ≡ some (slot_at (2 ^ bits) home e) =
      ap (find_slot (2 ^ bits) bits m hash) (sym start) ∙ slot in
    (
      stored n (slot_at (2 ^ bits) home e) m,
      do_insert-eq bits n (slot_at (2 ^ bits) home e) m
          (ap (find_slot (2 ^ bits) bits m hash) (bit_and_mask bits hash) ∙ found_slot),
      now-IsNameMap bits rows room n e m found v above fits first,
    )

-- A name, its number and its row.
pub record Row : Type 0 where
  pub name : List ℕ
  pub id : ℕ
  pub row : ℕ

insert_row-IsNameMap :
    (bits rows room : ℕ) (r : Row) (m : NameMap) (found : ℕ → Option ℕ)
    → IsNameMap (2 ^ bits) rows (suc room) m found
    → rows ≤ r.row
    → r.row < 255
    → (m' : NameMap) × (insert_row bits r.name r.id r.row m ≡ some m')
      × IsNameMap (2 ^ bits) (suc r.row) room m' (holds (cli_hash r.name) r.id found)
unfolding insert_row
insert_row-IsNameMap bits rows room r m found v above fits =
    let row : NameId = record { hash = cli_hash r.name; id = r.id } in
    let (m', done, kept) =
      do_insert-IsNameMap bits rows room r.row (with_row r.row row m) found
        (with_row-IsNameMap (2 ^ bits) rows (suc room) r.row row m found above v) above fits in
    let here : (with_row r.row row m).table r.row ≡ row = rw ((==_iff r.row r.row).1 refl) refl in
    (
      m',
      done,
      subst (λ (w : NameId). IsNameMap (2 ^ bits) (suc r.row) room m' (holds w.hash w.id found))
          here kept,
    )

-- Rows one after the other.
unfoldable pub insert_rows : ℕ → List Row → NameMap → Option NameMap
insert_rows bits [] m = some m
insert_rows bits (r ∷ rs) m = elim (insert_row bits r.name r.id r.row m) [
  | none ↦ none
  | some m' ↦ insert_rows bits rs m'
]

-- Each row is above those before it, from `rows` on, and fits a byte that is not MAP_EMPTY.
unfoldable pub Rising : ℕ → List Row → Type 0
Rising rows [] = Unit {0}
Rising rows (r ∷ rs) = (rows ≤ r.row) × (r.row < 255) × Rising (suc r.row) rs

-- What is found after the rows: for each hash, the last one that has it.
unfoldable pub latest : List Row → (ℕ → Option ℕ) → ℕ → Option ℕ
latest [] found = found
latest (r ∷ rs) found = latest rs (holds (cli_hash r.name) r.id found)

pub insert_rows-cons :
    (bits : ℕ) (r : Row) (rs : List Row) (m : NameMap) (o : Option NameMap)
    → insert_row bits r.name r.id r.row m ≡ o
    → insert_rows bits (r ∷ rs) m ≡ elim o [ none ↦ none | some m' ↦ insert_rows bits rs m' ]
unfolding insert_rows
insert_rows-cons bits r rs m o e = rw (insert_rows, e) refl

insert_rows-IsNameMap :
    (bits rows room : ℕ) (rs : List Row) (m : NameMap) (found : ℕ → Option ℕ)
    → IsNameMap (2 ^ bits) rows (room + length rs) m found
    → Rising rows rs
    → (end : ℕ) × (m' : NameMap) × (insert_rows bits rs m ≡ some m')
      × IsNameMap (2 ^ bits) end room m' (latest rs found)
unfolding insert_rows latest Rising
insert_rows-IsNameMap bits rows room [] m found v up = (
  rows,
  m,
  refl,
  subst (λ n. IsNameMap (2 ^ bits) rows n m found) {x = room + 0} {y = room} (omega arith) v,
)
insert_rows-IsNameMap bits rows room (r ∷ rs) m found v (above, fits, up) =
    let v' : IsNameMap (2 ^ bits) rows (suc (room + length rs)) m found =
      subst (λ n. IsNameMap (2 ^ bits) rows n m found) {x = room + suc (length rs)}
        {y = suc (room + length rs)} (omega arith) v in
    let (m₁, done, v₁) =
      insert_row-IsNameMap bits rows (room + length rs) r m found v' above fits in
    let (end, m₂, all, v₂) =
      insert_rows-IsNameMap bits (suc r.row) room rs m₁ (holds (cli_hash r.name) r.id found) v₁
        up in
    (end, m₂, insert_rows-cons bits r rs m (some m₁) done ∙ all, v₂)

frees-cleared : (n : ℕ) → frees n (λ i. map_empty) ≡ n
unfolding frees
frees-cleared zero = refl
frees-cleared (suc n) = ap suc (frees-cleared n)

cleared-IsNameMap : (size : ℕ) (m : NameMap) → IsNameMap size 0 size (cleared m) (λ h. none)
cleared-IsNameMap size m = record {
  free = omega (arith, frees-cleared size);
  row_below = λ s lt filled. absurd (cc filled);
  sound = λ s lt filled. absurd (cc filled);
  unique = λ s t ls lt fs ft e. absurd (cc fs);
  reached = λ hash home id lf fe held. absurd (cc held);
}

-- Rows with rising numbers below 255, fewer than the map has slots: every insertion ends, and
-- after them every search ends, and gives the number of the last row with the hash of the name,
-- or -1 if none has it.
pub find_row-insert_rows :
    (bits : ℕ) (rs : List Row) (m : NameMap)
    → Rising 0 rs
    → length rs < 2 ^ bits
    → (m' : NameMap) × (insert_rows bits rs (cleared m) ≡ some m')
      × ((name : List ℕ) → find_row bits name m' ≡ some (latest rs (λ h. none) (cli_hash name)))
find_row-insert_rows bits rs m up few =
    let room = 2 ^ bits - length rs - 1 in
    let v =
      subst (λ n. IsNameMap (2 ^ bits) 0 n (cleared m) (λ h. none)) {x = 2 ^ bits}
        {y = suc room + length rs} (omega arith) (cleared-IsNameMap (2 ^ bits) m) in
    let (end, m', done, v') =
      insert_rows-IsNameMap bits 0 (suc room) rs (cleared m) (λ h. none) v up in
    (m', done, λ name. find_row-found bits end room name m' (latest rs (λ h. none)) v')
