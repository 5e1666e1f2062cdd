-- ===== src/Cli/Tokens/Line.antt =====
-- The tokens are the first four words of the line.
use embed_template.Prelude.{
  ℕ, zero, suc, ◌<◌, ◌≡◌, ◌∙◌, refl, ap, arith, Bool, true, false, leb, if◌then◌else◌, List, [],
  ◌∷◌, get_or,
}
use embed_template.Cli.{Editor}
use embed_template.Cli.Line.{IsEditor}
use embed_template.Cli.Tokens.{Tokens, null_token, take_spaces, take_words, cli_tokenize}
use embed_template.Cli.Tokens.Words.{starts, pad, ends, cut}
use embed_template.Cli.Tokens.Scan.{scan, take_spaces-none, take_spaces-scan}
use embed_template.Cli.Tokens.Found.{scan-finished}
use embed_template.Cli.Tokens.Cut.{scan-cut}

if_same : {A : Type 0} (b : Bool) (x : A) → (if b then x else x) ≡ x
if_same true x = refl
if_same false x = refl

-- The words behind the first hold nothing.
take_words-rest :
    (n len i : ℕ) (bitmap : List ℕ) (t : Tokens)
    → ((k : ℕ) → 0 < k → get_or bitmap k 0 ≡ 0)
    → 0 < i
    → take_words n len i bitmap t ≡ t
unfolding take_words
take_words-rest zero len i bitmap t others pos = refl
take_words-rest (suc n) len i bitmap t others pos =
    let none : take_spaces 33 len i (get_or bitmap i 0) t ≡ t =
      ap (λ m. take_spaces 33 len i m t) (others i pos) ∙ take_spaces-none 33 len i t in
    rw (none, take_words-rest n len (suc i) bitmap t others (omega arith))
      (if_same (leb 4 t.num_tkns) t)

-- cli_tokenize of a line in order: the bytes are the places of the first four words, with
-- NULL_TOKEN for those that are missing, and in the text the ends of these words are null bytes,
-- where a word ends at the space behind it, and everything else is as before.
pub cli_tokenize-words :
    (e : Editor)
    → IsEditor e
    → let (text, tkns) = cli_tokenize e.rx_buf e.rx_count e.rx_bitmap in
      (text ≡ cut 4 (ends e.rx_buf e.rx_count 0 false) e.rx_buf)
      × (tkns ≡ pad 4 (starts e.rx_buf e.rx_count 0 true))
unfolding cli_tokenize take_words pad
cli_tokenize-words e v =
    let start : Tokens = record {
      str = e.rx_buf;
      tkns = null_token ∷ null_token ∷ null_token ∷ null_token ∷ [];
      num_tkns = 0;
      token = 0;
    } in
    let n = e.rx_count in
    let scanned = scan e.rx_buf n 0 start in
    let first : take_spaces 33 n 0 (get_or e.rx_bitmap 0 0) start ≡ scanned =
      take_spaces-scan e.rx_buf n 33 0 n (get_or e.rx_bitmap 0 0) start (omega (arith, v.room))
        (omega arith) (omega (arith, v.room)) v.narrow (λ k h. v.spaces k h ∙ ground arith) in
    let all : take_words 4 n 0 e.rx_bitmap start ≡ scanned =
      rw (first, take_words-rest 3 n 1 e.rx_bitmap scanned v.others (omega arith))
        (if_same (leb 4 scanned.num_tkns) scanned) in
    rw all (
      scan-cut e.rx_buf n 0 3 start refl (omega arith),
      scan-finished e.rx_buf n 0 n [] start (omega arith) (omega (arith, v.room))
          (record { tokens = refl; number = refl }) (omega arith) (omega arith),
    )
