-- ===== src/Names/Found.antt =====
-- What is found after cli_log_cmd_init.
use embed_template.Prelude.{
  ℕ, ◌+◌, ◌-◌, ◌*◌, ◌%◌, ◌^◌, ◌<◌, ◌≡◌, ◌∙◌, refl, ap, sym, arith, Bool, true, false, List, [], ◌∷◌,
  length, map, Option, some, none,
}
use embed_template.Names.{
  NameMap, Names, NameType, type_domain, type_entity, type_log_level, map_of, with_map, bits_of,
  insert_loop, find_row, find_name_id, cli_log_cmd_init, cleared, cli_hash, hash_from, all_caps,
  dom_map_en, ent_map_en, level_id, in_map,
}
use embed_template.Names.Strings.{entity_name, domain_name, level_name}
use embed_template.Names.Insert.{Row, Rising, insert_rows, latest, find_row-insert_rows}
use embed_template.Names.Init.{rows_of, lift, insert_loop-rows}

-- The rows of each table.
abbrev pub rows : Bool → Bool → NameType → List Row
rows rtos tests type_domain =
    rows_of (in_map (dom_map_en tests)) (λ d. domain_name d true) (λ d. d) (λ d. d - 1) 3 1
rows rtos tests type_entity =
    rows_of (in_map (ent_map_en rtos)) (λ e. entity_name e true) (λ e. e) (λ e. e) 9 0
rows rtos tests type_log_level =
    rows_of (λ i. true) (λ i. level_name (level_id i) true) level_id (λ i. i) 6 0

-- A predicate at every row.
unfoldable pub Each : (Row → Type 0) → List Row → Type 0
Each P [] = Unit {0}
Each P (r ∷ rs) = P r × Each P rs

rows-Rising : (rtos tests : Bool) (type : NameType) → Rising 0 (rows rtos tests type)
unfolding rows_of Rising
rows-Rising rtos true type_domain =
    (omega arith, omega arith, (omega arith, omega arith, (omega arith, omega arith, tt)))
rows-Rising rtos false type_domain = (omega arith, omega arith, (omega arith, omega arith, tt))
rows-Rising true tests type_entity = (
  omega arith,
  omega arith,
  (
    omega arith,
    omega arith,
    (
      omega arith,
      omega arith,
      (
        omega arith,
        omega arith,
        (
          omega arith,
          omega arith,
          (
            omega arith,
            omega arith,
            (omega arith, omega arith, (omega arith, omega arith, (omega arith, omega arith, tt))),
          ),
        ),
      ),
    ),
  ),
)
rows-Rising false tests type_entity = (
  omega arith,
  omega arith,
  (
    omega arith,
    omega arith,
    (
      omega arith,
      omega arith,
      (
        omega arith,
        omega arith,
        (
          omega arith,
          omega arith,
          (omega arith, omega arith, (omega arith, omega arith, (omega arith, omega arith, tt))),
        ),
      ),
    ),
  ),
)
rows-Rising rtos tests type_log_level = (
  omega arith,
  omega arith,
  (
    omega arith,
    omega arith,
    (
      omega arith,
      omega arith,
      (omega arith, omega arith, (omega arith, omega arith, (omega arith, omega arith, tt))),
    ),
  ),
)

rows-few : (rtos tests : Bool) (type : NameType) → length (rows rtos tests type) < 2 ^ bits_of type
unfolding rows_of
rows-few rtos true type_domain = omega arith
rows-few rtos false type_domain = omega arith
rows-few true tests type_entity = omega arith
rows-few false tests type_entity = omega arith
rows-few rtos tests type_log_level = omega arith

-- No two names of a table have one hash.
rows-listed :
    (rtos tests : Bool) (type : NameType)
    → Each
        (λ r. latest (rows rtos tests type) (λ h. none) (cli_hash r.name) ≡ some r.id)
        (rows rtos tests type)
unfolding rows_of Each latest cli_hash hash_from domain_name entity_name level_name
rows-listed rtos true type_domain = (refl, (refl, (refl, tt)))
rows-listed rtos false type_domain = (refl, (refl, tt))
rows-listed true tests type_entity =
    (refl, (refl, (refl, (refl, (refl, (refl, (refl, (refl, (refl, tt)))))))))
rows-listed false tests type_entity =
    (refl, (refl, (refl, (refl, (refl, (refl, (refl, (refl, tt))))))))
rows-listed rtos tests type_log_level = (refl, (refl, (refl, (refl, (refl, (refl, tt))))))

-- The hash of capitals.
hash_caps : ℕ → List ℕ → ℕ
hash_caps hash [] = hash
hash_caps hash (c ∷ str) = hash_caps ((hash * 2 ^ 5 % 2 ^ 32 + hash + c) % 2 ^ 32) str

hash_from-caps : (h : ℕ) (s : List ℕ) → hash_from h s ≡ hash_caps h (map all_caps s)
unfolding hash_from hash_caps
hash_from-caps h [] = refl
hash_from-caps h (c ∷ s) = hash_from-caps ((h * 2 ^ 5 % 2 ^ 32 + h + all_caps c) % 2 ^ 32) s

cli_hash-caps : (s t : List ℕ) → map all_caps s ≡ map all_caps t → cli_hash s ≡ cli_hash t
unfolding cli_hash
cli_hash-caps s t e = hash_from-caps 5381 s ∙ ap (hash_caps 5381) e ∙ sym (hash_from-caps 5381 t)

-- "none"
abbrev pub none_text : List ℕ
none_text = 110 ∷ 111 ∷ 110 ∷ 101 ∷ []

none_text-unknown :
    (rtos tests : Bool)
    → latest (rows rtos tests type_entity) (λ h. none) (cli_hash none_text) ≡ none
unfolding rows_of latest cli_hash hash_from domain_name entity_name level_name
none_text-unknown true tests = refl
none_text-unknown false tests = refl

weaken : {P Q : Row → Type 0} (rs : List Row) → ((r : Row) → P r → Q r) → Each P rs → Each Q rs
unfolding Each
weaken [] f ps = tt
weaken (r ∷ rs) f (p, ps) = (f r p, weaken rs f ps)

-- One table, by itself.
loop_lem :
    (type : NameType) (enabled : ℕ → Bool) (name : ℕ → List ℕ) (id row : ℕ → ℕ) (rounds i : ℕ)
    (ns : Names) (m : NameMap)
    → map_of type ns ≡ cleared m
    → Rising 0 (rows_of enabled name id row rounds i)
    → length (rows_of enabled name id row rounds i) < 2 ^ bits_of type
    → (m' : NameMap) × (insert_loop type enabled name id row rounds i ns
        ≡ some (with_map type m' ns))
      × ((text : List ℕ)
          → find_row (bits_of type) text m'
            ≡ some (latest (rows_of enabled name id row rounds i) (λ h. none) (cli_hash text)))
loop_lem type enabled name id row rounds i ns m start up few =
    let rs = rows_of enabled name id row rounds i in
    let (m', done, finds) = find_row-insert_rows (bits_of type) rs m up few in
    (
      m',
      insert_loop-rows type enabled name id row rounds i ns
          ∙ ap (λ o. lift type ns (insert_rows (bits_of type) rs o)) start
          ∙ ap (lift type ns) done,
      finds,
    )

abbrev level_loop : Names → Option Names
level_loop ns =
    insert_loop type_log_level (λ i. true) (λ i. level_name (level_id i) true) level_id (λ i. i) 6 0
      ns

abbrev after_domains : Bool → Names → Option Names
after_domains rtos ns =
    elim (insert_loop type_entity (in_map (ent_map_en rtos)) (λ e. entity_name e true) (λ e. e)
      (λ e. e) 9 0 ns) [ none ↦ none | some ns' ↦ level_loop ns' ]

-- cli_log_cmd_init ends, and so does any search after it: a text gives the last row with its hash,
-- or -1. The rows are the enabled domains, entities and levels under their names in capitals, but
-- the entity NONE under the empty text; so each enabled name but that of the entity NONE gives its
-- own number, in capitals or not, and so does the empty text for the entity NONE, while `none` gives
-- -1.
pub find_name_id-cli_log_cmd_init :
    (rtos tests : Bool) (ns : Names)
    → (ns' : Names) × (cli_log_cmd_init rtos tests ns ≡ some ns')
      × (((type : NameType)
            → ((text : List ℕ)
                → find_name_id text type ns'
                  ≡ some (latest (rows rtos tests type) (λ h. none) (cli_hash text)))
              × Each
                  (λ r.
                    (text : List ℕ)
                    → map all_caps text ≡ map all_caps r.name
                    → find_name_id text type ns' ≡ some (some r.id))
                  (rows rtos tests type))
          × (find_name_id none_text type_entity ns' ≡ some none))
unfolding cli_log_cmd_init find_name_id
find_name_id-cli_log_cmd_init rtos tests ns =
    let empty : Names = record {
      domains = cleared ns.domains;
      entities = cleared ns.entities;
      levels = cleared ns.levels;
    } in
    let (ds, done₁, found₁) =
      loop_lem type_domain (in_map (dom_map_en tests)) (λ d. domain_name d true) (λ d. d)
        (λ d. d - 1) 3 1 empty ns.domains refl (rows-Rising rtos tests type_domain)
        (rows-few rtos tests type_domain) in
    let ns₁ = with_map type_domain ds empty in
    let (es, done₂, found₂) =
      loop_lem type_entity (in_map (ent_map_en rtos)) (λ e. entity_name e true) (λ e. e) (λ e. e) 9
        0 ns₁ ns.entities refl (rows-Rising rtos tests type_entity)
        (rows-few rtos tests type_entity) in
    let ns₂ = with_map type_entity es ns₁ in
    let (ls, done₃, found₃) =
      loop_lem type_log_level (λ i. true) (λ i. level_name (level_id i) true) level_id (λ i. i) 6 0
        ns₂ ns.levels refl (rows-Rising rtos tests type_log_level)
        (rows-few rtos tests type_log_level) in
    let ns₃ = with_map type_log_level ls ns₂ in
    let texts : (type : NameType) (text : List ℕ)
        → find_row (bits_of type) text (map_of type ns₃)
          ≡ some (latest (rows rtos tests type) (λ h. none) (cli_hash text)) =
      λ type.
        elim type
          as (λ t.
            (text : List ℕ)
            → find_row (bits_of t) text (map_of t ns₃)
              ≡ some (latest (rows rtos tests t) (λ h. none) (cli_hash text))) [
                | type_domain ↦ found₁
                | type_entity ↦ found₂
                | type_log_level ↦ found₃
              ] in
    (
      ns₃,
      ap
            (λ (o : Option Names). elim o as (λ x. Option Names) [
              | none ↦ none
              | some n ↦ after_domains rtos n
            ])
            done₁
          ∙ ap
              (λ (o : Option Names). elim o as (λ x. Option Names) [
                | none ↦ none
                | some n ↦ level_loop n
              ])
              done₂
          ∙ done₃,
      (
        (λ type. (
          texts type,
          weaken (rows rtos tests type)
              (λ r listed text same.
                texts type text
                ∙ ap (λ h. some (latest (rows rtos tests type) (λ h. none) h))
                    (cli_hash-caps text r.name same)
                ∙ ap some listed)
              (rows-listed rtos tests type),
        )),
        texts type_entity none_text ∙ ap (λ o. some o) (none_text-unknown rtos tests),
      ),
    )
