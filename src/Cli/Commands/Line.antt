-- ===== src/Cli/Commands/Line.antt =====
-- A line that the editor hands over does what its words say.
use embed_template.Prelude.{
  ℕ, zero, suc, ◌+◌, ◌-◌, ◌≤◌, ◌<◌, ◌≡◌, ◌∙◌, refl, ap, ap₂, sym, arith, Bool, true, false, leb,
  ltb, ◌==◌, List, [], ◌∷◌, get_or, set, length-set, get_or-set_self, get_or-set_ne, Bool-cases,
  inl, inr,
}
use mathlib.Core.Path.{subst}
use embed_template.Cli.{Editor, cli_process}
use embed_template.Cli.Line.{IsEditor}
use embed_template.Cli.Tokens.Words.{starts, ends, cut}
use embed_template.Cli.Tokens.Line.{cli_tokenize-words}
use embed_template.Cli.Commands.{on_help, cli_process_str, run_line}
use embed_template.Cli.Commands.Strings.{
  word_from, memory, IsRest, get_or-any, get_or-any, get_or-any, get_or-beyond, get_or-beyond,
  get_or-beyond, length-cut, length-cut, length-cut,
}
use embed_template.Cli.Commands.Spelled.{AllSpelled, starts-IsSpelled}
use embed_template.Cli.Commands.Answer.{words_at, on_words, answer, run_tokens-on_words}

-- What stands from the end of the line on is not read.
starts-set :
    (str : List ℕ) (k v n i : ℕ) (fresh : Bool)
    → i + n ≤ k
    → starts (set str k v) n i fresh ≡ starts str n i fresh
unfolding starts
starts-set str k v zero i fresh h = refl
starts-set str k v (suc n) i fresh h =
    let kept = get_or-set_ne str k i v 0 (λ e. omega arith) in
    rw (
      kept,
      starts-set str k v n (suc i) true (omega arith),
      starts-set str k v n (suc i) false (omega arith),
    )

word_from-set :
    (str : List ℕ) (k v n i : ℕ) → i + n ≤ k → word_from (set str k v) n i ≡ word_from str n i
unfolding word_from
word_from-set str k v zero i h = refl
word_from-set str k v (suc n) i h =
    rw (get_or-set_ne str k i v 0 (λ e. omega arith), word_from-set str k v n (suc i) (omega arith))

word_left : (str : List ℕ) (k v i : ℕ) → word_from (set str k v) (k - i) i ≡ word_from str (k - i) i
unfolding word_from
word_left str k v i = elim (Bool-cases (leb i k)) [
  | inl within ↦ word_from-set str k v (k - i) i (ground arith)
  | inr beyond ↦ let nothing : k - i ≡ 0 = ground arith in rw nothing
]

words_at-set :
    (str : List ℕ) (k v : ℕ) (is : List ℕ) → words_at (set str k v) k is ≡ words_at str k is
unfolding words_at
words_at-set str k v [] = refl
words_at-set str k v (i ∷ is) = ap₂ (λ w ws. w ∷ ws) (word_left str k v i) (words_at-set str k v is)

answer-empty : (str : List ℕ) → answer str 0 ≡ []
unfolding answer words_at starts
answer-empty str = refl

answer-set : (str : List ℕ) (k : ℕ) → answer (set str k 0) k ≡ answer str k
unfolding answer
answer-set str k =
    let words =
      ap (words_at (set str k 0) k) (starts-set str k 0 k 0 true (omega arith))
      ∙ words_at-set str k 0 (starts str k 0 true) in
    elim (Bool-cases (k == 1)) [
      | inl one ↦ rw (one, get_or-set_ne str k 0 0 0 (λ e. ground arith)) refl
      | inr more ↦ rw more (ap on_words words)
    ]

-- The editor with the null byte behind what is typed.
abbrev closed_line : Editor → Editor
closed_line e = record e { rx_buf = set e.rx_buf e.rx_count 0 }

closed_line-IsEditor : (e : Editor) → IsEditor e → IsEditor (closed_line e)
closed_line-IsEditor e v = record {
  room = v.room;
  buffer = length-set e.rx_buf e.rx_count 0 ∙ v.buffer;
  words = v.words;
  spaces = λ i h. ground (arith, v.spaces i h, get_or-set_ne e.rx_buf e.rx_count i 0 0);
  narrow = v.narrow;
  others = v.others;
}

closed_line-IsRest :
    (e : Editor)
    → IsEditor e
    → e.rx_count < 12
    → ((j : ℕ) → j < e.rx_count → 0 < get_or e.rx_buf j 0)
    → let l = closed_line e in IsRest l.rx_buf e.rx_count 0 l.rx_buf
closed_line-IsRest e v small plain = record {
  room = omega (arith, v.buffer, length-set e.rx_buf e.rx_count 0);
  closed = get_or-set_self e.rx_buf e.rx_count 0 0 (omega (arith, v.buffer));
  kept = λ j le lt. refl;
  plain = λ j le lt.
      ground (arith, plain j lt, get_or-set_ne e.rx_buf e.rx_count j 0 0 (λ e. omega arith));
}

cli_process_str-words :
    (behind : ℕ → ℕ) (l : Editor)
    → IsEditor l
    → behind 255 == 63 ≡ false
    → IsRest l.rx_buf l.rx_count 0 l.rx_buf
    → cli_process_str behind l.rx_buf l.rx_count l.rx_bitmap ≡ answer l.rx_buf l.rx_count
unfolding cli_process_str answer on_help
cli_process_str-words behind l v far rest =
    let n = l.rx_count in
    let str = l.rx_buf in
    let (text, tkns) = cli_tokenize-words l v in
    elim (Bool-cases (n == 1)) [
      | inl one ↦ rw (one, get_or-any str 0 (behind 0) 0 (omega (arith, rest.room))) refl
      | inr more ↦
          let mem = memory behind (cut 4 (ends str n 0 false) str) in
          let missing : mem 255 ≡ behind 255 =
            get_or-beyond (cut 4 (ends str n 0 false) str) 255 (behind 255)
              (omega (arith, v.buffer, length-cut 4 (ends str n 0 false) str)) in
          let spelled =
            subst (AllSpelled behind 4 str n 0 true str) {x = 0 + n} {y = n} (omega arith) (
              starts-IsSpelled behind 4 str n 0 true str
                (subst (λ len. IsRest str len 0 str) {x = n} {y = 0 + n} (omega arith) rest)) in
          rw (more, text, tkns)
            (run_tokens-on_words mem str n (starts str n 0 true) (omega (arith, v.room))
              (ap (λ c. c == 63) missing ∙ far) spelled)
    ]

-- A line of fewer than 12 characters and without null bytes does what its words say: one of a
-- single character leaves at q and shows the usage otherwise; one without words does nothing; a
-- first word that starts with q leaves, and one that starts with a question mark shows the usage;
-- set and show take logs or stats, and a second word that starts with a question mark shows the
-- usage of the first. The byte at rxBuf[0xFF], which is read where there is no second word, is
-- taken not to be a question mark.
pub run_line-answer :
    (behind : ℕ → ℕ) (e : Editor)
    → IsEditor e
    → e.rx_count < 12
    → ((j : ℕ) → j < e.rx_count → 0 < get_or e.rx_buf j 0)
    → behind 255 == 63 ≡ false
    → run_line behind (cli_process e).1 ≡ answer e.rx_buf e.rx_count
unfolding run_line cli_process
run_line-answer behind e v small plain far = elim (Bool-cases (ltb 0 e.rx_count)) [
  | inr empty ↦
      let nothing : e.rx_count ≡ 0 = ground arith in
      rw (empty, nothing) (sym (answer-empty e.rx_buf))
  | inl line ↦ rw line (
      cli_process_str-words behind (closed_line e) (closed_line-IsEditor e v) far
        (closed_line-IsRest e v small plain)
      ∙ answer-set e.rx_buf e.rx_count)
]
