-- ===== src/Names/Tests.antt =====
-- Concrete inputs of the properties of the name tables.
use embed_template.Prelude.{
  ℕ, ◌<◌, ◌≡◌, refl, arith, true, false, List, [], ◌∷◌, length, map, some, none,
}
use embed_template.Prelude.Int.{pos}
use embed_template.Log.Levels.{log_get_level}
use embed_template.Names.{
  NameMap, Names, NameType, type_domain, type_entity, type_log_level, find_row, find_name_id,
  cli_hash, hash_from, all_caps, cleared, cli_log_cmd_init,
}
use embed_template.Cli.Commands.Strings.{same_text}
use embed_template.Names.Strings.{domain_name, entity_name, level_name}
use embed_template.Names.Init.{rows_of}
use embed_template.Names.Insert.{Row, Rising, insert_rows, latest, find_row-insert_rows}
use embed_template.Names.Found.{none_text, rows, Each, find_name_id-cli_log_cmd_init}
use embed_template.Names.SetLog.{on_set_log_command, all_text, level_set}
use embed_template.Names.SetLog.Words.{listed, pick, reply, new_level, on_set_log_command-levels}

abbrev no_names : NameMap
no_names = record { map = λ i. i; table = λ i. record { hash = 0; id = 0 } }

-- "AB", "CD" and "ab" again.
abbrev three_rows : List Row
three_rows =
    record { name = 65 ∷ 66 ∷ []; id = 4; row = 0 }
    ∷ record { name = 67 ∷ 68 ∷ []; id = 5; row = 1 }
    ∷ record { name = 97 ∷ 98 ∷ []; id = 6; row = 3 }
    ∷ []

three_rows-Rising : Rising 0 three_rows
unfolding Rising
three_rows-Rising =
    (omega arith, omega arith, (omega arith, omega arith, (omega arith, omega arith, tt)))

find_row-insert_rows_example :
    (m' : NameMap) × (insert_rows 2 three_rows (cleared no_names) ≡ some m')
    × ((name : List ℕ) → find_row 2 name m' ≡ some (latest three_rows (λ h. none) (cli_hash name)))
find_row-insert_rows_example =
    find_row-insert_rows 2 three_rows no_names three_rows-Rising (omega arith)

abbrev start : Names
start = record { domains = no_names; entities = no_names; levels = no_names }

find_name_id-cli_log_cmd_init_example :
    (ns' : Names) × (cli_log_cmd_init true false start ≡ some ns')
    × (((type : NameType)
          → ((text : List ℕ)
              → find_name_id text type ns'
                ≡ some (latest (rows true false type) (λ h. none) (cli_hash text)))
            × Each
                (λ r.
                  (text : List ℕ)
                  → map all_caps text ≡ map all_caps r.name
                  → find_name_id text type ns' ≡ some (some r.id))
                (rows true false type))
        × (find_name_id none_text type_entity ns' ≡ some none))
find_name_id-cli_log_cmd_init_example = find_name_id-cli_log_cmd_init true false start

on_set_log_command-levels_example :
    (ns' : Names) × (cli_log_cmd_init true true start ≡ some ns')
    × ((dom ent lvl levels : List ℕ)
        → length levels ≡ 64
        → let l = listed true true type_log_level lvl in
          let p = pick true true type_domain dom in
          let q = pick true true type_entity ent in
          (levels' : List ℕ) × (on_set_log_command dom ent lvl ns' levels
            ≡ some (reply l p q, levels'))
          × ((d e : ℕ)
              → d < 4
              → e < 9
              → log_get_level (pos d) (pos e) levels'
                ≡ new_level l p q d e (log_get_level (pos d) (pos e) levels)))
on_set_log_command-levels_example = on_set_log_command-levels true true start

-- "set log Sys all debug"
words-reply :
    reply
      (listed true true type_log_level (100 ∷ 101 ∷ 98 ∷ 117 ∷ 103 ∷ []))
      (pick true true type_domain (83 ∷ 121 ∷ 115 ∷ []))
      (pick true true type_entity all_text)
    ≡ level_set
unfolding latest cli_hash hash_from rows_of domain_name entity_name level_name same_text
words-reply = refl
