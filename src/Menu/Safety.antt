-- ===== src/Menu/Safety.antt =====
-- A line in a test menu reads no entry outside its registry, and leaves a menu in order.
use embed_template.Prelude.{◌≡◌, ◌⊎◌, Bool, true, not, ◌&&◌, if◌then◌else◌, Option, some, none}
use embed_template.Menu.{Blocks, Msg, no_msg, invalid_selection, finished_with, CliData}
use embed_template.Menu.Line.{Command, universal, is_silent, after_command}
use embed_template.Menu.Valid.{CliTest, IsValid}

-- No message is pending, but the one that was, or that of a test of the command line.
abbrev pub Left : Blocks → Msg → Msg → Type 0
Left bs pending msg =
    (msg ≡ no_msg)
    ⊎ ((msg ≡ pending) ⊎ (CliTest bs × (passed : Bool) × (msg ≡ finished_with passed)))

-- The line ends, in order, with its message shown and the output on.
abbrev pub Good : Blocks → Msg → Option CliData → Type 0
Good bs pending o =
    (s : CliData) × (o ≡ some s)
    × IsValid bs s
    × Left bs pending s.msg_buf
    × (s.write_enable ≡ true)

told : Bool → Msg → Msg
told n msg = if not n && is_silent msg then invalid_selection else msg

-- What follows a command, if it ended.
abbrev followed : Blocks → CliData → Option CliData → Option CliData
followed bs before o = elim o as (λ x. Option CliData) [
  | none ↦ none
  | some s ↦ after_command bs before s
]

-- The message that a command leaves pending.
abbrev pub pending : Command → Msg → Msg
pending universal msg = msg
pending command msg = no_msg
