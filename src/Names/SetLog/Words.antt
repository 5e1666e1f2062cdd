-- ===== src/Names/SetLog/Words.antt =====
-- `set log` sets the levels that its words name.
use embed_template.Prelude.{
  ℕ, ◌≤◌, ◌<◌, ◌≡◌, ◌∙◌, refl, arith, Bool, true, false, ltb, ◌&&◌, ◌==◌, if◌then◌else◌, List, [],
  ◌∷◌, length, Option, some, none, Bool-cases, if_intro, inl, inr,
}
use embed_template.Prelude.Int.{ℤ, pos}
use embed_template.Log.Levels.{log_get_level}
use embed_template.Cli.Commands.Strings.{same_text}
use embed_template.Names.{
  Names, NameType, type_domain, type_entity, type_log_level, find_name_id, cli_log_cmd_init,
  cli_hash,
}
use embed_template.Names.SetLog.{
  all_text, Message, invalid_level, unknown_domain, unknown_entity, level_set, set_domains,
  find_or_all, on_set_log_command,
}
use embed_template.Names.Insert.{Row, latest}
use embed_template.Names.Stored.{holds}
use embed_template.Names.Init.{rows_of}
use embed_template.Names.Found.{rows, Each, find_name_id-cli_log_cmd_init}
use embed_template.Names.SetLog.Loops.{get-set_domains}

-- What a word names in a table: nothing, everything (`all`), or one number.
pub data Pick : Type 0 where
  nothing : Pick
  every : Pick
  only : ℕ → Pick

abbrev pub picks : Pick → ℕ → Bool
picks nothing i = false
picks every i = true
picks (only j) i = i == j

abbrev pub listed : Bool → Bool → NameType → List ℕ → Option ℕ
listed rtos tests type text = latest (rows rtos tests type) (λ h. none) (cli_hash text)

abbrev to_pick : Option ℕ → Pick
to_pick none = nothing
to_pick (some i) = only i

abbrev pub pick : Bool → Bool → NameType → List ℕ → Pick
pick rtos tests type text =
    if same_text text all_text then every else to_pick (listed rtos tests type text)

-- The answer, by the level, the domains and the entities that are named.
abbrev pub reply : Option ℕ → Pick → Pick → Message
reply none p q = invalid_level
reply (some l) nothing q = unknown_domain
reply (some l) every nothing = unknown_entity
reply (some l) every every = level_set
reply (some l) every (only e) = level_set
reply (some l) (only d) nothing = unknown_entity
reply (some l) (only d) every = level_set
reply (some l) (only d) (only e) = level_set

abbrev chosen : Pick → Option ℕ
chosen nothing = none
chosen every = some 0
chosen (only i) = some i

abbrev is_every : Pick → Bool
is_every nothing = false
is_every every = true
is_every (only i) = false

-- The levels that the command leaves.
abbrev after : Option ℕ → Pick → Pick → List ℕ → List ℕ
after none p q levels = levels
after (some l) p q levels = elim (chosen p) [
  | none ↦ levels
  | some did ↦ elim (chosen q) [
    | none ↦ levels
    | some eid ↦ set_domains (is_every p) did (is_every q) eid l 3 1 levels
  ]
]

run_command :
    (ns : Names) (dom ent lvl : List ℕ) (levels : List ℕ) (l : Option ℕ) (p q : Pick)
    → find_name_id lvl type_log_level ns ≡ some l
    → find_or_all dom type_domain ns ≡ some (chosen p)
    → find_or_all ent type_entity ns ≡ some (chosen q)
    → same_text dom all_text ≡ is_every p
    → same_text ent all_text ≡ is_every q
    → on_set_log_command dom ent lvl ns levels ≡ some (reply l p q, after l p q levels)
unfolding on_set_log_command
run_command ns dom ent lvl levels none p q fl fd fe ed ee = rw (on_set_log_command, fl) refl
run_command ns dom ent lvl levels (some l) nothing q fl fd fe ed ee =
    rw (on_set_log_command, fl, fd) refl
run_command ns dom ent lvl levels (some l) every nothing fl fd fe ed ee =
    rw (on_set_log_command, fl, fd, fe) refl
run_command ns dom ent lvl levels (some l) (only d) nothing fl fd fe ed ee =
    rw (on_set_log_command, fl, fd, fe) refl
run_command ns dom ent lvl levels (some l) every every fl fd fe ed ee =
    rw (on_set_log_command, fl, fd, fe, ed, ee) refl
run_command ns dom ent lvl levels (some l) every (only e) fl fd fe ed ee =
    rw (on_set_log_command, fl, fd, fe, ed, ee) refl
run_command ns dom ent lvl levels (some l) (only d) every fl fd fe ed ee =
    rw (on_set_log_command, fl, fd, fe, ed, ee) refl
run_command ns dom ent lvl levels (some l) (only d) (only e) fl fd fe ed ee =
    rw (on_set_log_command, fl, fd, fe, ed, ee) refl

-- The level that is then read, given the one before.
abbrev pub new_level : Option ℕ → Pick → Pick → ℕ → ℕ → ℤ → ℤ
new_level none p q d e old = old
new_level (some l) p q d e old = if ltb 0 d && (picks p d && picks q e) then pos l else old

AtMost : ℕ → Option ℕ → Type 0
AtMost n none = Unit {0}
AtMost n (some l) = l ≤ n

get-after :
    (l : Option ℕ) (p q : Pick) (d e : ℕ) (levels : List ℕ)
    → d < 4
    → e < 9
    → AtMost 50 l
    → length levels ≡ 64
    → log_get_level (pos d) (pos e) (after l p q levels)
      ≡ new_level l p q d e (log_get_level (pos d) (pos e) levels)
unfolding AtMost
get-after none p q d e levels hd he hl size = refl
get-after (some l) nothing q d e levels hd he hl size = ground arith
get-after (some l) every nothing d e levels hd he hl size = ground arith
get-after (some l) (only i) nothing d e levels hd he hl size = ground arith
get-after (some l) every every d e levels hd he hl size =
    get-set_domains true 0 true 0 l 3 1 d e levels hd he hl size ∙ ground arith
get-after (some l) every (only j) d e levels hd he hl size =
    get-set_domains true 0 false j l 3 1 d e levels hd he hl size ∙ ground arith
get-after (some l) (only i) every d e levels hd he hl size =
    get-set_domains false i true 0 l 3 1 d e levels hd he hl size ∙ ground arith
get-after (some l) (only i) (only j) d e levels hd he hl size =
    get-set_domains false i false j l 3 1 d e levels hd he hl size ∙ ground arith

-- What is found is the number of some row.
latest-AtMost :
    (n : ℕ) (rs : List Row) (found : ℕ → Option ℕ) (h : ℕ)
    → Each (λ r. r.id ≤ n) rs
    → ((k : ℕ) → AtMost n (found k))
    → AtMost n (latest rs found h)
unfolding latest Each AtMost
latest-AtMost n [] found h low all = all h
latest-AtMost n (r ∷ rs) found h (first, low) all =
    latest-AtMost n rs (holds (cli_hash r.name) r.id found) h low
      (λ k. if_intro (cli_hash r.name == k) (AtMost n) first (all k))

none_low : AtMost 50 none
unfolding AtMost
none_low = tt

levels-low : (rtos tests : Bool) → Each (λ r. r.id ≤ 50) (rows rtos tests type_log_level)
unfolding Each rows_of
levels-low rtos tests =
    (omega arith, (omega arith, (omega arith, (omega arith, (omega arith, (omega arith, tt))))))

find_or_all-pick :
    (rtos tests : Bool) (type : NameType) (text : List ℕ) (ns : Names)
    → find_name_id text type ns ≡ some (listed rtos tests type text)
    → (find_or_all text type ns ≡ some (chosen (pick rtos tests type text)))
      × (same_text text all_text ≡ is_every (pick rtos tests type text))
find_or_all-pick rtos tests type text ns e = elim (Bool-cases (same_text text all_text)) [
  | inl all ↦ rw all (refl, refl)
  | inr one ↦ rw (one, e) (found (listed rtos tests type text))
]
  where
    found : (o : Option ℕ) → (some o ≡ some (chosen (to_pick o))) × (false ≡ is_every (to_pick o))
    found none = (refl, refl)
    found (some i) = (refl, refl)

-- After cli_log_cmd_init `set log` ends with any words: it says whether the level, the domain or
-- the entity is unknown, in this order, and sets no level then; otherwise every domain but NONE
-- that the words name has every entity that they name at the level, and no other level changes.
pub on_set_log_command-levels :
    (rtos tests : Bool) (ns : Names)
    → (ns' : Names) × (cli_log_cmd_init rtos tests ns ≡ some ns')
      × ((dom ent lvl levels : List ℕ)
          → length levels ≡ 64
          → let l = listed rtos tests type_log_level lvl in
            let p = pick rtos tests type_domain dom in
            let q = pick rtos tests type_entity ent in
            (levels' : List ℕ) × (on_set_log_command dom ent lvl ns' levels
              ≡ some (reply l p q, levels'))
            × ((d e : ℕ)
                → d < 4
                → e < 9
                → log_get_level (pos d) (pos e) levels'
                  ≡ new_level l p q d e (log_get_level (pos d) (pos e) levels)))
on_set_log_command-levels rtos tests ns =
    let (ns', init, (finds, unknown)) = find_name_id-cli_log_cmd_init rtos tests ns in
    (
      ns',
      init,
      λ dom ent lvl levels size.
          let l = listed rtos tests type_log_level lvl in
          let p = pick rtos tests type_domain dom in
          let q = pick rtos tests type_entity ent in
          let (fd, ed) =
            find_or_all-pick rtos tests type_domain dom ns' ((finds type_domain).0 dom) in
          let (fe, ee) =
            find_or_all-pick rtos tests type_entity ent ns' ((finds type_entity).0 ent) in
          (
            after l p q levels,
            run_command ns' dom ent lvl levels l p q ((finds type_log_level).0 lvl) fd fe ed ee,
            λ d e hd he.
                get-after l p q d e levels hd he
                  (latest-AtMost 50 (rows rtos tests type_log_level) (λ h. none) (cli_hash lvl)
                    (levels-low rtos tests) (λ k. none_low))
                  size,
          ),
    )
