-- ===== src/Cli/Tests.antt =====
-- The theorems on the line editor at concrete keys.
use embed_template.Prelude.{ℕ, map, true, false, ◌≡◌, ◌∙◌, refl, arith, List, [], ◌∷◌}
use embed_template.Prelude.Bits.{bit-zero}
use embed_template.Cli.{
  Editor, cli_run, cli_key, cli_process, cli_receive_char, cli_clear_last_char,
}
use embed_template.Cli.Line.{IsEditor, typed}
use embed_template.Prelude.Bits.Lowest.{lowest_bit}
use embed_template.Cli.Tokens.{cli_tokenize, take_words, take_spaces, take_space}
use embed_template.Cli.Tokens.Words.{starts, pad, ends, cut}
use embed_template.Cli.Tokens.Line.{cli_tokenize-words}
use mathlib.Core.Path.{subst}
use embed_template.Cli.Commands.{
  run_line, run_set_logs, cli_process_str, run_tokens, find_cmd, equal_string, on_help, run_cmd,
}
use embed_template.Cli.Commands.Strings.{word_from, same_text}
use embed_template.Cli.Commands.Answer.{answer, words_at}
use embed_template.Cli.Commands.Line.{run_line-answer}
use embed_template.Cli.Keys.{
  no_spaces, text_of, before_end, until_exit, hand_over, run_keys, press_keys, run_keys-lines,
  cli_run-IsEditor,
}

abbrev blank : List ℕ
blank = 0 ∷ 0 ∷ 0 ∷ 0 ∷ 0 ∷ 0 ∷ 0 ∷ 0 ∷ 0 ∷ 0 ∷ 0 ∷ 0 ∷ []

-- The editor at the start.
abbrev fresh : Editor
fresh = record { rx_buf = blank; rx_count = 0; rx_bitmap = 0 ∷ 0 ∷ 0 ∷ 0 ∷ [] }

fresh-IsEditor : IsEditor fresh
fresh-IsEditor = record {
  room = omega arith;
  buffer = refl;
  words = refl;
  spaces = λ i h. bit-zero i ∙ ground arith;
  narrow = omega arith;
  others = λ k h. no_spaces k;
}

-- "a b", a backspace, "c" and return
abbrev keys : List ℕ
keys = 97 ∷ 32 ∷ 98 ∷ 127 ∷ 99 ∷ 13 ∷ []

run_keys-lines_example :
    (lines : List Editor) × (map text_of lines ≡ press_keys (before_end true keys) [])
    × (run_keys (λ i. 0) true keys fresh ≡ until_exit (λ i. 0) lines)
unfolding typed
run_keys-lines_example = run_keys-lines (λ i. 0) true keys fresh fresh-IsEditor

run_keys-keys : map text_of (run_keys (λ i. 0) true keys fresh) ≡ (99 ∷ 32 ∷ 97 ∷ []) ∷ []
unfolding run_keys hand_over run_line cli_process_str run_tokens find_cmd equal_string on_help
    run_cmd cli_tokenize take_words take_spaces take_space lowest_bit cli_run cli_key cli_process
    cli_receive_char cli_clear_last_char typed
run_keys-keys = refl

cli_run-IsEditor_example : IsEditor (cli_run true 32 fresh).0
cli_run-IsEditor_example = cli_run-IsEditor true 32 fresh fresh-IsEditor

-- The editor after some keys.
abbrev after : List ℕ → Editor → Editor
after [] e = e
after (c ∷ cs) e = after cs (cli_run true c e).0

after-IsEditor : (cs : List ℕ) (e : Editor) → IsEditor e → IsEditor (after cs e)
after-IsEditor [] e v = v
after-IsEditor (c ∷ cs) e v = after-IsEditor cs (cli_run true c e).0 (cli_run-IsEditor true c e v)

-- "set logs"
abbrev set_logs : Editor
set_logs = after (115 ∷ 101 ∷ 116 ∷ 32 ∷ 108 ∷ 111 ∷ 103 ∷ 115 ∷ []) fresh

cli_tokenize-words_example :
    let (text, tkns) = cli_tokenize set_logs.rx_buf set_logs.rx_count set_logs.rx_bitmap in
    (text ≡ cut 4 (ends set_logs.rx_buf set_logs.rx_count 0 false) set_logs.rx_buf)
    × (tkns ≡ pad 4 (starts set_logs.rx_buf set_logs.rx_count 0 true))
cli_tokenize-words_example =
    cli_tokenize-words set_logs
      (after-IsEditor (115 ∷ 101 ∷ 116 ∷ 32 ∷ 108 ∷ 111 ∷ 103 ∷ 115 ∷ []) fresh fresh-IsEditor)

cli_tokenize-set_logs :
    (cli_tokenize set_logs.rx_buf set_logs.rx_count set_logs.rx_bitmap).1 ≡ 0 ∷ 4 ∷ 255 ∷ 255 ∷ []
unfolding cli_tokenize take_words take_spaces take_space lowest_bit cli_run cli_key cli_receive_char
cli_tokenize-set_logs = refl

-- The editor with "set logs" written out.
abbrev line_set_logs : Editor
line_set_logs = record {
  rx_buf = 115 ∷ 101 ∷ 116 ∷ 32 ∷ 108 ∷ 111 ∷ 103 ∷ 115 ∷ 0 ∷ 0 ∷ 0 ∷ 0 ∷ [];
  rx_count = 8;
  rx_bitmap = 8 ∷ 0 ∷ 0 ∷ 0 ∷ [];
}

set_logs-eq : set_logs ≡ line_set_logs
unfolding cli_run cli_key cli_receive_char
set_logs-eq = refl

line_set_logs-IsEditor : IsEditor line_set_logs
line_set_logs-IsEditor =
    subst IsEditor set_logs-eq
      (after-IsEditor (115 ∷ 101 ∷ 116 ∷ 32 ∷ 108 ∷ 111 ∷ 103 ∷ 115 ∷ []) fresh fresh-IsEditor)

run_line-answer_example :
    run_line (λ i. 0) (cli_process line_set_logs).1 ≡ answer line_set_logs.rx_buf 8
run_line-answer_example =
    run_line-answer (λ i. 0) line_set_logs line_set_logs-IsEditor (omega arith)
      (λ j h. ground arith) refl

answer-set_logs : answer line_set_logs.rx_buf 8 ≡ run_set_logs ∷ []
unfolding answer words_at starts word_from same_text
answer-set_logs = refl
