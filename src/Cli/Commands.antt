-- ===== src/Cli/Commands.antt =====
-- common/src/cli/cli_mini.c: cli_process_str, which runs a line.
pub mod Strings
pub mod Spelled
pub mod Answer
pub mod Line
use embed_template.Prelude.{
  ℕ, zero, suc, Bool, ◌&&◌, ltb, ◌==◌, if◌then◌else◌, List, [], ◌∷◌, ◌++◌, get_or, Option, some,
  none,
}
use embed_template.Cli.{Editor}
use embed_template.Cli.Tokens.{null_token, cli_tokenize}

-- The texts of on_help.
pub data Usage : Type 0 where
  usage_set : Usage
  usage_show : Usage
  usage_any : Usage

-- What a line does: on_quit, a usage, the two texts of set, and show_stats_log.
pub data Action : Type 0 where
  quit : Action
  help : Usage → Action
  run_set_logs : Action
  run_set_stats : Action
  show_stats_log : Action

unfoldable pub on_help : ℕ → Usage
on_help zero = usage_set
on_help (suc zero) = usage_show
on_help (suc (suc cmd)) = usage_any

-- cmds and args
abbrev pub set_text : List ℕ
set_text = 115 ∷ 101 ∷ 116 ∷ []

abbrev pub show_text : List ℕ
show_text = 115 ∷ 104 ∷ 111 ∷ 119 ∷ []

abbrev pub logs_text : List ℕ
logs_text = 108 ∷ 111 ∷ 103 ∷ 115 ∷ []

abbrev pub stats_text : List ℕ
stats_text = 115 ∷ 116 ∷ 97 ∷ 116 ∷ 115 ∷ []

-- Whether strcmp of the string at `i` and a constant, which has no null byte, is 0.
unfoldable pub equal_string : (ℕ → ℕ) → ℕ → List ℕ → Bool
equal_string mem i [] = mem i == 0
equal_string mem i (c ∷ cs) = mem i == c && equal_string mem (suc i) cs

-- The search of the command.
unfoldable pub find_cmd : (ℕ → ℕ) → ℕ → ℕ
find_cmd mem i =
    if equal_string mem i set_text
    then 0
    else if equal_string mem i show_text
    then 1
    else null_token

-- The last switch.
unfoldable pub run_cmd : (ℕ → ℕ) → ℕ → ℕ → ℕ → List Action
run_cmd mem len i zero =
    if ltb i len
    then (if equal_string mem i logs_text then run_set_logs ∷ [] else [])
      ++ (if equal_string mem i stats_text then run_set_stats ∷ [] else [])
    else []
run_cmd mem len i (suc zero) =
    if ltb i len
    then (if equal_string mem i logs_text then show_stats_log ∷ [] else [])
      ++ (if equal_string mem i stats_text then show_stats_log ∷ [] else [])
    else []
run_cmd mem len i (suc (suc cmd)) = []

-- What follows cli_tokenize, with the first two tokens.
unfoldable pub run_tokens : (ℕ → ℕ) → ℕ → ℕ → ℕ → List Action
run_tokens mem len i j =
    let cmd = find_cmd mem i in
    if i == null_token
    then []
    else if mem i == 113
    then quit ∷ []
    else if mem i == 63
    then help (on_help null_token) ∷ []
    else if mem j == 63
    then help (on_help cmd) ∷ []
    else run_cmd mem len j cmd

-- The memory behind the text is a parameter: the token that is missing, 0xFF, is read there.
unfoldable pub cli_process_str : (ℕ → ℕ) → List ℕ → ℕ → List ℕ → List Action
cli_process_str behind str len bitmap =
    let (text, tkns) = cli_tokenize str len bitmap in
    if len == 1
    then if get_or str 0 (behind 0) == 113 then quit ∷ [] else help (on_help null_token) ∷ []
    else run_tokens (λ i. get_or text i (behind i)) len (get_or tkns 0 0) (get_or tkns 1 0)

-- The line that cli_process hands over, if there is one.
unfoldable pub run_line : (ℕ → ℕ) → Option Editor → List Action
run_line behind none = []
run_line behind (some e) = cli_process_str behind e.rx_buf e.rx_count e.rx_bitmap
