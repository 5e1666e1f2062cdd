-- ===== src/Cli/Tokens/Words.antt =====
-- The words of a line.
use embed_template.Prelude.{
  ℕ, zero, suc, Bool, true, false, ◌==◌, if◌then◌else◌, List, [], ◌∷◌, get_or, set,
}
use embed_template.Cli.Tokens.{null_token}

-- The places of the line from `i` on, `n` of them, at which a word starts; `fresh` tells whether
-- there is a space, or nothing, before the first of them.
unfoldable pub starts : List ℕ → ℕ → ℕ → Bool → List ℕ
starts str zero i fresh = []
starts str (suc n) i fresh =
    if get_or str i 0 == 32
    then starts str n (suc i) true
    else if fresh
    then i ∷ starts str n (suc i) false
    else starts str n (suc i) false

-- The first `n` items, and NULL_TOKEN for those that are missing.
unfoldable pub pad : ℕ → List ℕ → List ℕ
pad zero ts = []
pad (suc n) [] = null_token ∷ pad n []
pad (suc n) (t ∷ ts) = t ∷ pad n ts

-- The ends of the words of the line from `i` on; `open_word` tells whether one is open there.
unfoldable pub ends : List ℕ → ℕ → ℕ → Bool → List ℕ
ends str zero i open_word = []
ends str (suc n) i open_word =
    if get_or str i 0 == 32
    then if open_word then i ∷ ends str n (suc i) false else ends str n (suc i) false
    else ends str n (suc i) true

-- The text with the first `q` of some places set to the null byte.
unfoldable pub cut : ℕ → List ℕ → List ℕ → List ℕ
cut zero es text = text
cut (suc q) [] text = text
cut (suc q) (e ∷ es) text = cut q es (set text e 0)
