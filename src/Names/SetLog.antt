-- ===== src/Names/SetLog.antt =====
-- common/src/cli/cli_system.c: on_set_log_command.
pub mod Loops
pub mod Words
use embed_template.Prelude.{
  ℕ, zero, suc, Bool, true, false, not, ◌&&◌, ◌==◌, if◌then◌else◌, List, [], ◌∷◌, Option, some,
  none,
}
use embed_template.Prelude.Int.{pos}
use embed_template.Log.Levels.{log_set_level}
use embed_template.Cli.Commands.Strings.{same_text}
use embed_template.Names.{Names, NameType, type_domain, type_entity, type_log_level, find_name_id}

abbrev pub all_text : List ℕ
all_text = 97 ∷ 108 ∷ 108 ∷ []

-- The texts of on_set_log_command.
pub data Message : Type 0 where
  invalid_level : Message
  unknown_domain : Message
  unknown_entity : Message
  level_set : Message

-- The loop over the entities from `e` on.
unfoldable pub set_entities : Bool → ℕ → ℕ → ℕ → ℕ → ℕ → List ℕ → List ℕ
set_entities all_entities eid level d zero e levels = levels
set_entities all_entities eid level d (suc rounds) e levels =
    set_entities all_entities eid level d rounds (suc e) (
      if not all_entities && not (e == eid)
      then levels
      else log_set_level (pos d) (pos e) (pos level) levels)

-- The loop over the domains from `d` on.
unfoldable pub set_domains : Bool → ℕ → Bool → ℕ → ℕ → ℕ → ℕ → List ℕ → List ℕ
set_domains all_domains did all_entities eid level zero d levels = levels
set_domains all_domains did all_entities eid level (suc rounds) d levels =
    set_domains all_domains did all_entities eid level rounds (suc d) (
      if not all_domains && not (d == did)
      then levels
      else set_entities all_entities eid level d 9 0 levels)

abbrev pub find_or_all : List ℕ → NameType → Names → Option (Option ℕ)
find_or_all text type ns =
    if same_text text all_text then some (some 0) else find_name_id text type ns

-- The three tokens, the tables and the levels.
unfoldable pub on_set_log_command :
    List ℕ → List ℕ → List ℕ → Names → List ℕ → Option (Message × List ℕ)
on_set_log_command dom ent lvl ns levels = elim (find_name_id lvl type_log_level ns) [
  | none ↦ none
  | some none ↦ some (invalid_level, levels)
  | some (some level) ↦ elim (find_or_all dom type_domain ns) [
    | none ↦ none
    | some none ↦ some (unknown_domain, levels)
    | some (some did) ↦ elim (find_or_all ent type_entity ns) [
      | none ↦ none
      | some none ↦ some (unknown_entity, levels)
      | some (some eid) ↦ some (
        level_set,
        set_domains (same_text dom all_text) did (same_text ent all_text) eid level 3 1 levels,
      )
    ]
  ]
]
