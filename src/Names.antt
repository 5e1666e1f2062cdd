-- ===== src/Names.antt =====
-- common/src/cli/cli_system.c: the tables from the names of the domains, entities and levels to
-- their numbers, and `set log`; the names are those of common/src/cli/cli_main.c. A text is the
-- list of its characters.
pub mod Strings
pub mod Slots
pub mod Frees
pub mod Lookup
pub mod Stored
pub mod Insert
pub mod Init
pub mod Found
pub mod SetLog
mod Tests
use embed_template.Prelude.{
  ℕ, zero, suc, ◌+◌, ◌-◌, ◌*◌, ◌%◌, ◌^◌, bit_and, Bool, true, false, not, ltb, leb, ◌&&◌, ◌||◌,
  ◌==◌, if◌then◌else◌, List, [], ◌∷◌, get_or, Option, some, none,
}
use embed_template.Names.Strings.{entity_name, domain_name, level_name}

abbrev pub map_empty : ℕ
map_empty = 0xFF

pub record NameId : Type 0 where
  pub hash : ℕ
  pub id : ℕ

-- A map and its table, as functions of the index.
pub record NameMap : Type 0 where
  pub map : ℕ → ℕ
  pub table : ℕ → NameId

-- DOMAIN_MAP_SIZE, ENTITY_MAP_SIZE and LOG_LEVEL_MAP_SIZE are two to these powers.
abbrev pub domain_bits : ℕ
domain_bits = 3

abbrev pub entity_bits : ℕ
entity_bits = 5

abbrev pub level_bits : ℕ
level_bits = 4

abbrev pub all_caps : ℕ → ℕ
all_caps c = if leb 97 c && leb c 122 then c - 32 else c

unfoldable pub hash_from : ℕ → List ℕ → ℕ
hash_from hash [] = hash
hash_from hash (c ∷ str) = hash_from ((hash * 2 ^ 5 % 2 ^ 32 + hash + all_caps c) % 2 ^ 32) str

unfoldable pub cli_hash : List ℕ → ℕ
cli_hash str = hash_from 5381 str

abbrev pub next_slot : ℕ → ℕ → ℕ
next_slot bits slot = bit_and (slot + 1) (2 ^ bits - 1)

-- The loop of do_insert, with fuel.
unfoldable pub find_slot : ℕ → ℕ → NameMap → ℕ → ℕ → Option ℕ
find_slot zero bits m hash slot = none
find_slot (suc fuel) bits m hash slot =
    let rest = find_slot fuel bits m hash (next_slot bits slot) in
    if m.map slot == map_empty
    then some slot
    else if (m.table (m.map slot)).hash == hash
    then some slot
    else rest

-- One round for each slot is enough.
unfoldable pub do_insert : ℕ → ℕ → NameMap → Option NameMap
do_insert bits idx m =
    let hash = (m.table idx).hash in
    elim (find_slot (2 ^ bits) bits m hash (bit_and hash (2 ^ bits - 1))) [
      | none ↦ none
      | some slot ↦ some (record m { map = λ i. if slot == i then idx % 2 ^ 8 else m.map i })
    ]

-- One case of insert_name.
unfoldable pub insert_row : ℕ → List ℕ → ℕ → ℕ → NameMap → Option NameMap
insert_row bits name id n m = do_insert bits n (record m {
  table = λ i. if n == i then record { hash = cli_hash name; id = id } else m.table i;
})

-- The loop of find_name_id from `slot` on, with fuel; its result is `none` for -1.
unfoldable pub probe : ℕ → ℕ → NameMap → ℕ → ℕ → ℕ → Option (Option ℕ)
probe zero bits m hash start slot = none
probe (suc fuel) bits m hash start slot =
    let slot' = next_slot bits slot in
    let rest = probe fuel bits m hash start slot' in
    let row = m.table (m.map slot) in
    if m.map slot == map_empty
    then some none
    else if row.hash == hash
    then some (some row.id)
    else if slot' == start
    then some none
    else rest

unfoldable pub find_row : ℕ → List ℕ → NameMap → Option (Option ℕ)
find_row bits name m =
    let hash = cli_hash name in
    let slot = bit_and hash (2 ^ bits - 1) in probe (2 ^ bits) bits m hash slot slot

-- TYPE_DOMAIN, TYPE_ENTITY and TYPE_LOG_LEVEL
pub data NameType : Type 0 where
  type_domain : NameType
  type_entity : NameType
  type_log_level : NameType

pub record Names : Type 0 where
  pub domains : NameMap
  pub entities : NameMap
  pub levels : NameMap

abbrev pub map_of : NameType → Names → NameMap
map_of type_domain ns = ns.domains
map_of type_entity ns = ns.entities
map_of type_log_level ns = ns.levels

abbrev pub with_map : NameType → NameMap → Names → Names
with_map type_domain m ns = record ns { domains = m }
with_map type_entity m ns = record ns { entities = m }
with_map type_log_level m ns = record ns { levels = m }

abbrev pub bits_of : NameType → ℕ
bits_of type_domain = domain_bits
bits_of type_entity = entity_bits
bits_of type_log_level = level_bits

-- `none` where a search does not end.
unfoldable pub insert_name : List ℕ → ℕ → NameType → ℕ → Names → Option Names
insert_name name id type n ns = elim (insert_row (bits_of type) name id n (map_of type ns)) [
  | none ↦ none
  | some m ↦ some (with_map type m ns)
]

unfoldable pub find_name_id : List ℕ → NameType → Names → Option (Option ℕ)
find_name_id name type ns = find_row (bits_of type) name (map_of type ns)

-- A loop of cli_log_cmd_init from `i` on: what is enabled, and the name, number and row of each.
unfoldable pub insert_loop :
    NameType → (ℕ → Bool) → (ℕ → List ℕ) → (ℕ → ℕ) → (ℕ → ℕ) → ℕ → ℕ → Names → Option Names
insert_loop type enabled name id row zero i ns = some ns
insert_loop type enabled name id row (suc rounds) i ns =
    elim (if enabled i then insert_name (name i) (id i) type (row i) ns else some ns) [
      | none ↦ none
      | some ns' ↦ insert_loop type enabled name id row rounds (suc i) ns'
    ]

-- dom_map_en and ent_map_en: without tests there is no test domain, without the RTOS no
-- simulation.
abbrev pub dom_map_en : Bool → ℕ
dom_map_en tests = if tests then 2 ^ 4 - 1 else bit_and (2 ^ 4 - 1) (2 ^ 32 - 1 - 2 ^ 3)

abbrev pub ent_map_en : Bool → ℕ
ent_map_en rtos = if rtos then 2 ^ 9 - 1 else bit_and (2 ^ 9 - 1) (2 ^ 32 - 1 - 2 ^ 1)

abbrev pub level_id : ℕ → ℕ
level_id i = get_or (0 ∷ 10 ∷ 20 ∷ 30 ∷ 40 ∷ 50 ∷ []) i 0

abbrev pub in_map : ℕ → ℕ → Bool
in_map enabled i = not (bit_and enabled (2 ^ i) == 0)

abbrev pub cleared : NameMap → NameMap
cleared m = record m { map = λ i. map_empty }

unfoldable pub cli_log_cmd_init : Bool → Bool → Names → Option Names
cli_log_cmd_init rtos tests ns =
    let empty : Names = record {
      domains = cleared ns.domains;
      entities = cleared ns.entities;
      levels = cleared ns.levels;
    } in
    elim (insert_loop type_domain (in_map (dom_map_en tests)) (λ d. domain_name d true) (λ d. d)
      (λ d. d - 1) 3 1 empty) [
        | none ↦ none
        | some ns₁ ↦
            elim (insert_loop type_entity (in_map (ent_map_en rtos)) (λ e. entity_name e true)
              (λ e. e) (λ e. e) 9 0 ns₁) [
                | none ↦ none
                | some ns₂ ↦
                    insert_loop type_log_level (λ i. true) (λ i. level_name (level_id i) true)
                      level_id (λ i. i) 6 0 ns₂
              ]
      ]
