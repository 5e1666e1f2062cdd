-- ===== src/Names/Init.antt =====
-- The tables after cli_log_cmd_init.
use embed_template.Prelude.{
  ℕ, zero, suc, ◌≡◌, ◌∙◌, refl, ap, sym, Bool, true, false, if◌then◌else◌, List, [], ◌∷◌, Option,
  some, none, Bool-cases, Option-cases, inl, inr,
}
use embed_template.Names.{
  NameMap, Names, NameType, type_domain, type_entity, type_log_level, map_of, with_map, bits_of,
  insert_row, insert_name, insert_loop,
}
use embed_template.Names.Insert.{Row, insert_rows, insert_rows-cons}

-- The rows of a loop of cli_log_cmd_init.
unfoldable pub rows_of : (ℕ → Bool) → (ℕ → List ℕ) → (ℕ → ℕ) → (ℕ → ℕ) → ℕ → ℕ → List Row
rows_of enabled name id row zero i = []
rows_of enabled name id row (suc rounds) i =
    let rest = rows_of enabled name id row rounds (suc i) in
    if enabled i then record { name = name i; id = id i; row = row i } ∷ rest else rest

with_map-twice :
    (type : NameType) (m m' : NameMap) (ns : Names)
    → with_map type m (with_map type m' ns) ≡ with_map type m ns
with_map-twice type_domain m m' ns = refl
with_map-twice type_entity m m' ns = refl
with_map-twice type_log_level m m' ns = refl

pub map_of-with_map :
    (type : NameType) (m : NameMap) (ns : Names) → map_of type (with_map type m ns) ≡ m
map_of-with_map type_domain m ns = refl
map_of-with_map type_entity m ns = refl
map_of-with_map type_log_level m ns = refl

with_map-map_of : (type : NameType) (ns : Names) → with_map type (map_of type ns) ns ≡ ns
with_map-map_of type_domain ns = refl
with_map-map_of type_entity ns = refl
with_map-map_of type_log_level ns = refl

abbrev pub lift : NameType → Names → Option NameMap → Option Names
lift type ns none = none
lift type ns (some m) = some (with_map type m ns)

lift-with_map :
    (type : NameType) (m : NameMap) (ns : Names) (o : Option NameMap)
    → lift type (with_map type m ns) o ≡ lift type ns o
lift-with_map type m ns none = refl
lift-with_map type m ns (some m') = ap some (with_map-twice type m' m ns)

insert_loop-off :
    (type : NameType) (enabled : ℕ → Bool) (name : ℕ → List ℕ) (id row : ℕ → ℕ) (rounds i : ℕ)
    (ns : Names)
    → enabled i ≡ false
    → insert_loop type enabled name id row (suc rounds) i ns
      ≡ insert_loop type enabled name id row rounds (suc i) ns
unfolding insert_loop
insert_loop-off type enabled name id row rounds i ns off = rw (insert_loop, off) refl

insert_loop-on :
    (type : NameType) (enabled : ℕ → Bool) (name : ℕ → List ℕ) (id row : ℕ → ℕ) (rounds i : ℕ)
    (ns : Names) (o : Option NameMap)
    → enabled i ≡ true
    → insert_row (bits_of type) (name i) (id i) (row i) (map_of type ns) ≡ o
    → insert_loop type enabled name id row (suc rounds) i ns ≡ elim (lift type ns o) [
      | none ↦ none
      | some ns' ↦ insert_loop type enabled name id row rounds (suc i) ns'
    ]
unfolding insert_loop insert_name
insert_loop-on type enabled name id row rounds i ns none on e =
    rw (insert_loop, on, insert_name, e) refl
insert_loop-on type enabled name id row rounds i ns (some m) on e =
    rw (insert_loop, on, insert_name, e) refl

loop_over :
    (type : NameType) (enabled : ℕ → Bool) (name : ℕ → List ℕ) (id row : ℕ → ℕ) (i : ℕ) (ns : Names)
    → insert_loop type enabled name id row 0 i ns
      ≡ lift type ns (insert_rows (bits_of type) [] (map_of type ns))
unfolding insert_loop insert_rows
loop_over type enabled name id row i ns = ap some (sym (with_map-map_of type ns))

-- A loop inserts its rows.
pub insert_loop-rows :
    (type : NameType) (enabled : ℕ → Bool) (name : ℕ → List ℕ) (id row : ℕ → ℕ) (rounds i : ℕ)
    (ns : Names)
    → insert_loop type enabled name id row rounds i ns
      ≡ lift type ns
          (insert_rows (bits_of type) (rows_of enabled name id row rounds i) (map_of type ns))
unfolding rows_of
insert_loop-rows type enabled name id row zero i ns = loop_over type enabled name id row i ns
insert_loop-rows type enabled name id row (suc rounds) i ns =
    let rest = rows_of enabled name id row rounds (suc i) in
    let next = insert_loop-rows type enabled name id row rounds (suc i) in
    elim (Bool-cases (enabled i)) [
      | inr off ↦ rw off (insert_loop-off type enabled name id row rounds i ns off ∙ next ns)
      | inl on ↦
          let r : Row = record { name = name i; id = id i; row = row i } in
          let first = insert_row (bits_of type) (name i) (id i) (row i) (map_of type ns) in
          rw on (elim (Option-cases first) [
            | inl stuck ↦
                insert_loop-on type enabled name id row rounds i ns none on stuck
                ∙ sym (
                    ap (lift type ns)
                      (insert_rows-cons (bits_of type) r rest (map_of type ns) none stuck))
            | inr done ↦
                let (m, ended) = done in
                insert_loop-on type enabled name id row rounds i ns (some m) on ended
                ∙ next (with_map type m ns)
                ∙ lift-with_map type m ns _
                ∙ ap (λ m'. lift type ns (insert_rows (bits_of type) rest m'))
                    (map_of-with_map type m ns)
                ∙ sym (
                    ap (lift type ns)
                      (insert_rows-cons (bits_of type) r rest (map_of type ns) (some m) ended))
          ])
    ]
