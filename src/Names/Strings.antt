-- ===== src/Names/Strings.antt =====
-- common/src/cli/cli_main.c, the names of the entities, domains and levels.
use embed_template.Prelude.{ℕ, Bool, ◌==◌, if◌then◌else◌, List, [], ◌∷◌}

-- The names of the entities, in capitals or not.
unfoldable pub entity_name : ℕ → Bool → List ℕ
entity_name n cap =
    if n == 0
    then (if cap then [] else 110 ∷ 111 ∷ 110 ∷ 101 ∷ [])
    else if n == 1
    then (if cap then 83 ∷ 73 ∷ 77 ∷ [] else 115 ∷ 105 ∷ 109 ∷ [])
    else if n == 2
    then (if cap then 67 ∷ 76 ∷ 73 ∷ [] else 99 ∷ 108 ∷ 105 ∷ [])
    else if n == 3
    then (if cap then 76 ∷ 79 ∷ 71 ∷ [] else 108 ∷ 111 ∷ 103 ∷ [])
    else if n == 4
    then (if cap then 71 ∷ 80 ∷ 73 ∷ 79 ∷ [] else 103 ∷ 112 ∷ 105 ∷ 111 ∷ [])
    else if n == 5
    then (if cap then 80 ∷ 67 ∷ 73 ∷ [] else 112 ∷ 99 ∷ 105 ∷ [])
    else if n == 6
    then (if cap
        then 83 ∷ 89 ∷ 83 ∷ 67 ∷ 84 ∷ 82 ∷ 76 ∷ []
        else 115 ∷ 121 ∷ 115 ∷ 99 ∷ 116 ∷ 114 ∷ 108 ∷ [])
    else if n == 7
    then (if cap then 84 ∷ 73 ∷ 77 ∷ 69 ∷ 82 ∷ [] else 116 ∷ 105 ∷ 109 ∷ 101 ∷ 114 ∷ [])
    else if n == 8
    then (if cap then 85 ∷ 65 ∷ 82 ∷ 84 ∷ [] else 117 ∷ 97 ∷ 114 ∷ 116 ∷ [])
    else []

-- The names of the domains.
unfoldable pub domain_name : ℕ → Bool → List ℕ
domain_name n cap =
    if n == 1
    then (if cap then 68 ∷ 69 ∷ 86 ∷ [] else 100 ∷ 101 ∷ 118 ∷ [])
    else if n == 2
    then (if cap then 83 ∷ 89 ∷ 83 ∷ [] else 115 ∷ 121 ∷ 115 ∷ [])
    else if n == 3
    then (if cap then 84 ∷ 69 ∷ 83 ∷ 84 ∷ [] else 116 ∷ 101 ∷ 115 ∷ 116 ∷ [])
    else []

-- The names of the levels.
unfoldable pub level_name : ℕ → Bool → List ℕ
level_name n cap =
    if n == 0
    then (if cap then 78 ∷ 79 ∷ 78 ∷ 69 ∷ [] else 110 ∷ 111 ∷ 110 ∷ 101 ∷ [])
    else if n == 10
    then (if cap
        then 67 ∷ 82 ∷ 73 ∷ 84 ∷ 73 ∷ 67 ∷ 65 ∷ 76 ∷ []
        else 99 ∷ 114 ∷ 105 ∷ 116 ∷ 105 ∷ 99 ∷ 97 ∷ 108 ∷ [])
    else if n == 20
    then (if cap then 69 ∷ 82 ∷ 82 ∷ 79 ∷ 82 ∷ [] else 101 ∷ 114 ∷ 114 ∷ 111 ∷ 114 ∷ [])
    else if n == 30
    then (if cap then 87 ∷ 65 ∷ 82 ∷ 78 ∷ [] else 119 ∷ 97 ∷ 114 ∷ 110 ∷ [])
    else if n == 40
    then (if cap then 73 ∷ 78 ∷ 70 ∷ 79 ∷ [] else 105 ∷ 110 ∷ 102 ∷ 111 ∷ [])
    else if n == 50
    then (if cap then 68 ∷ 69 ∷ 66 ∷ 85 ∷ 71 ∷ [] else 100 ∷ 101 ∷ 98 ∷ 117 ∷ 103 ∷ [])
    else []
