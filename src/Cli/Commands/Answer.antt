-- ===== src/Cli/Commands/Answer.antt =====
-- What a line does, by its words.
use embed_template.Prelude.{
  ℕ, ◌-◌, ◌≤◌, ◌≡◌, ◌∙◌, refl, ap, arith, Bool, true, false, ◌||◌, ◌==◌, if◌then◌else◌, List, [],
  ◌∷◌, get_or, Bool-cases, inl, inr, lt→ltb,
}
use embed_template.Cli.Tokens.Words.{starts, pad}
use embed_template.Cli.Commands.{
  Action, Usage, quit, help, run_set_logs, run_set_stats, show_stats_log, usage_any, usage_set,
  usage_show, set_text, show_text, logs_text, stats_text, on_help, find_cmd, run_cmd, run_tokens,
}
use embed_template.Cli.Commands.Strings.{
  word_from, same_text, same_text, same_text, IsPlain, IsPlain,
}
use embed_template.Cli.Commands.Spelled.{IsSpelled, First}

-- The words of a line that start at some places.
unfoldable pub words_at : List ℕ → ℕ → List ℕ → List (List ℕ)
words_at str len [] = []
words_at str len (i ∷ is) = word_from str (len - i) i ∷ words_at str len is

-- Whether a word starts with a character.
abbrev pub begins : ℕ → List ℕ → Bool
begins c w = get_or w 0 0 == c

pub data Kind : Type 0 where
  set_kind : Kind
  show_kind : Kind
  other_kind : Kind

abbrev pub kind : List ℕ → Kind
kind w =
    if same_text w set_text
    then set_kind
    else if same_text w show_text
    then show_kind
    else other_kind

-- What a command does with its argument.
abbrev pub with_argument : Kind → List ℕ → List Action
with_argument set_kind w =
    if same_text w logs_text
    then run_set_logs ∷ []
    else if same_text w stats_text
    then run_set_stats ∷ []
    else []
with_argument show_kind w =
    if same_text w logs_text || same_text w stats_text then show_stats_log ∷ [] else []
with_argument other_kind w = []

abbrev pub usage : Kind → Usage
usage set_kind = usage_set
usage show_kind = usage_show
usage other_kind = usage_any

-- What follows the command: a question mark asks for its usage.
abbrev pub on_rest : Kind → List (List ℕ) → List Action
on_rest k [] = []
on_rest k (a ∷ ws) = if begins 63 a then help (usage k) ∷ [] else with_argument k a

-- The first word: q leaves, a question mark asks for the usage.
abbrev pub on_words : List (List ℕ) → List Action
on_words [] = []
on_words (w ∷ ws) =
    if begins 113 w
    then quit ∷ []
    else if begins 63 w
    then help usage_any ∷ []
    else on_rest (kind w) ws

-- What a line of `len` characters does: one of a single character leaves, or shows the usage.
unfoldable pub answer : List ℕ → ℕ → List Action
answer str len =
    if len == 1
    then if get_or str 0 0 == 113 then quit ∷ [] else help usage_any ∷ []
    else on_words (words_at str len (starts str len 0 true))

-- The number of a kind in the source.
abbrev number : Kind → ℕ
number set_kind = 0
number show_kind = 1
number other_kind = 255

set_text-IsPlain : IsPlain set_text
unfolding IsPlain
set_text-IsPlain = (omega arith, (omega arith, (omega arith, tt)))

show_text-IsPlain : IsPlain show_text
unfolding IsPlain
show_text-IsPlain = (omega arith, (omega arith, (omega arith, (omega arith, tt))))

logs_text-IsPlain : IsPlain logs_text
unfolding IsPlain
logs_text-IsPlain = (omega arith, (omega arith, (omega arith, (omega arith, tt))))

stats_text-IsPlain : IsPlain stats_text
unfolding IsPlain
stats_text-IsPlain = (omega arith, (omega arith, (omega arith, (omega arith, (omega arith, tt)))))

find_cmd-kind :
    (mem : ℕ → ℕ) (str : List ℕ) (len i : ℕ)
    → IsSpelled mem str len i
    → find_cmd mem i ≡ number (kind (word_from str (len - i) i))
unfolding find_cmd
find_cmd-kind mem str len i v =
    let w = word_from str (len - i) i in
    rw (v.equal set_text set_text-IsPlain, v.equal show_text show_text-IsPlain)
      (elim (Bool-cases (same_text w set_text)) [
        | inl same ↦ rw same
        | inr other ↦ elim (Bool-cases (same_text w show_text)) [
          | inl same ↦ rw (other, same)
          | inr other' ↦ rw (other, other')
        ]
      ])

on_help-number : (k : Kind) → on_help (number k) ≡ usage k
unfolding on_help
on_help-number set_kind = refl
on_help-number show_kind = refl
on_help-number other_kind = refl

logs_or_stats : (w : List ℕ) → same_text w logs_text ≡ true → same_text w stats_text ≡ false
unfolding same_text
logs_or_stats [] e = refl
logs_or_stats (c ∷ cs) e = ground arith

run_cmd-argument :
    (mem : ℕ → ℕ) (str : List ℕ) (len j : ℕ) (k : Kind)
    → IsSpelled mem str len j
    → run_cmd mem len j (number k) ≡ with_argument k (word_from str (len - j) j)
unfolding run_cmd
run_cmd-argument mem str len j other_kind v = refl
run_cmd-argument mem str len j set_kind v =
    let w = word_from str (len - j) j in
    rw
      (
        lt→ltb j len v.below,
        v.equal logs_text logs_text-IsPlain,
        v.equal stats_text stats_text-IsPlain,
      )
      (elim (Bool-cases (same_text w logs_text)) [
        | inl same ↦ rw (same, logs_or_stats w same)
        | inr other ↦ rw other
      ])
run_cmd-argument mem str len j show_kind v =
    let w = word_from str (len - j) j in
    rw
      (
        lt→ltb j len v.below,
        v.equal logs_text logs_text-IsPlain,
        v.equal stats_text stats_text-IsPlain,
      )
      (elim (Bool-cases (same_text w logs_text)) [
        | inl same ↦ rw (same, logs_or_stats w same)
        | inr other ↦ rw other
      ])

missing_argument :
    (mem : ℕ → ℕ) (len : ℕ) (k : Kind) → len ≤ 255 → run_cmd mem len 255 (number k) ≡ []
unfolding run_cmd
missing_argument mem len set_kind h = ground arith
missing_argument mem len show_kind h = ground arith
missing_argument mem len other_kind h = refl

pub run_tokens-on_words :
    (mem : ℕ → ℕ) (str : List ℕ) (len : ℕ) (is : List ℕ)
    → len ≤ 255
    → mem 255 == 63 ≡ false
    → First (IsSpelled mem str len) 4 is
    → run_tokens mem len (get_or (pad 4 is) 0 0) (get_or (pad 4 is) 1 0)
      ≡ on_words (words_at str len is)
unfolding run_tokens pad First words_at on_help
run_tokens-on_words mem str len [] h behind all = refl
run_tokens-on_words mem str len (i ∷ []) h behind (v, all) =
    let w = word_from str (len - i) i in
    let present : i == 255 ≡ false = ground (arith, v.below) in
    rw (present, v.first, behind)
      (ap
        (λ rest.
          if begins 113 w then quit ∷ [] else if begins 63 w then help usage_any ∷ [] else rest)
        (ap (run_cmd mem len 255) (find_cmd-kind mem str len i v)
          ∙ missing_argument mem len (kind w) h))
run_tokens-on_words mem str len (i ∷ j ∷ is) h behind (v, (v', all)) =
    let w = word_from str (len - i) i in
    let present : i == 255 ≡ false = ground (arith, v.below) in
    rw (present, v.first, v'.first, find_cmd-kind mem str len i v)
      (rw (on_help-number (kind w), run_cmd-argument mem str len j (kind w) v'))
