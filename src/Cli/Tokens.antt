-- ===== src/Cli/Tokens.antt =====
-- common/src/cli/cli_mini.c: cli_tokenize.
pub mod Words
pub mod Scan
pub mod Found
pub mod Cut
pub mod Line
use embed_template.Prelude.{
  ℕ, zero, suc, ◌+◌, ◌-◌, ◌*◌, ◌/◌, ◌%◌, ◌^◌, bit_and, Bool, true, false, not, ◌&&◌, ltb, leb, ◌==◌,
  if◌then◌else◌, List, [], ◌∷◌, get_or, set,
}
use embed_template.Prelude.Bits.Lowest.{lowest_bit}

abbrev pub null_token : ℕ
null_token = 0xFF

-- The text, the four bytes of `tkns`, `num_tkns` and `token`.
pub record Tokens : Type 0 where
  pub str : List ℕ
  pub tkns : List ℕ
  pub num_tkns : ℕ
  pub token : ℕ

-- The space at `idx` ends a token, if there is one before it.
unfoldable pub take_space : ℕ → Tokens → Tokens
take_space idx t =
    if ltb t.token idx
    then record {
      str = set t.str idx 0;
      tkns = set t.tkns t.num_tkns (t.token % 2 ^ 8);
      num_tkns = t.num_tkns + 1;
      token = idx + 1;
    }
    else record t { token = idx + 1 }

-- The loop over the spaces of word `i`: a mask of 32 bits is zero after 32 rounds.
unfoldable pub take_spaces : ℕ → ℕ → ℕ → ℕ → Tokens → Tokens
take_spaces zero len i mask t = t
take_spaces (suc fuel) len i mask t =
    let idx = i * 32 + lowest_bit 32 mask in
    let taken = take_space idx t in
    let rest = take_spaces fuel len i (bit_and mask (mask - 1)) taken in
    if mask == 0
    then t
    else if leb len idx
    then record t { token = len }
    else if leb 4 taken.num_tkns
    then taken
    else rest

-- The loop over the four words, with `n` rounds left.
unfoldable pub take_words : ℕ → ℕ → ℕ → List ℕ → Tokens → Tokens
take_words zero len i bitmap t = t
take_words (suc n) len i bitmap t =
    let t' = take_spaces 33 len i (get_or bitmap i 0) t in
    let rest = take_words n len (suc i) bitmap t' in if leb 4 t'.num_tkns then t' else rest

-- The text and the four bytes that are returned.
unfoldable pub cli_tokenize : List ℕ → ℕ → List ℕ → List ℕ × List ℕ
cli_tokenize str len bitmap =
    let t = take_words 4 len 0 bitmap (record {
      str = str;
      tkns = null_token ∷ null_token ∷ null_token ∷ null_token ∷ [];
      num_tkns = 0;
      token = 0;
    }) in
    (
      t.str,
      if ltb t.num_tkns 4 && ltb t.token len
          then set t.tkns t.num_tkns (t.token % 2 ^ 8)
          else t.tkns,
    )
