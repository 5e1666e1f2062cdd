-- ===== src/Cli.antt =====
-- common/src/cli/cli_mini.c: the line editor of the small command line. What is typed goes into a
-- buffer of 12 characters, with a bitmap of where the spaces are.
pub mod Line
pub mod Keys
pub mod Tokens
pub mod Commands
mod Tests
use embed_template.Prelude.{
  ℕ, zero, suc, ◌+◌, ◌-◌, ◌/◌, ◌%◌, ◌^◌, bit_and, bit_or, Bool, true, false, ◌&&◌, ◌||◌, ltb, leb,
  ◌==◌, if◌then◌else◌, List, [], ◌∷◌, get_or, set, Option, some, none,
}
use embed_template.Prelude.Bits.{bit_not}

abbrev pub max_line : ℕ
max_line = 12

abbrev pub char_space : ℕ
char_space = 32

abbrev pub char_tilde : ℕ
char_tilde = 126

abbrev pub char_backspace : ℕ
char_backspace = 127

-- rxBuf, rxCount and rxBitmap.
pub record Editor : Type 0 where
  pub rx_buf : List ℕ
  pub rx_count : ℕ
  pub rx_bitmap : List ℕ

abbrev pub word_at : List ℕ → ℕ → ℕ
word_at bitmap n = get_or bitmap (n / 32) 0

-- `BIT(n & 31)`
abbrev pub bit_of : ℕ → ℕ
bit_of n = 2 ^ bit_and n 31

-- The result tells whether there was a character.
unfoldable pub cli_clear_last_char : Editor → Editor × Bool
cli_clear_last_char e =
    let n = e.rx_count - 1 in
    if ltb 0 e.rx_count
    then (
      record e {
        rx_count = n;
        rx_bitmap =
            set e.rx_bitmap (n / 32) (bit_and (word_at e.rx_bitmap n) (bit_not 32 (bit_of n)));
      },
      true,
    )
    else (e, false)

-- The result tells whether there was room.
unfoldable pub cli_receive_char : ℕ → Editor → Editor × Bool
cli_receive_char c e =
    let n = e.rx_count in
    let marked = set e.rx_bitmap (n / 32) (bit_or (word_at e.rx_bitmap n) (bit_of n)) in
    if ltb n max_line
    then (
      record {
        rx_buf = set e.rx_buf n c;
        rx_count = n + 1;
        rx_bitmap = if c == char_space then marked else e.rx_bitmap;
      },
      true,
    )
    else (e, false)

-- The line goes to cli_process_str as the buffer, the count and the bitmap then are, and the
-- editor starts over. The store of the null byte behind a full line is out of the buffer: here it
-- changes nothing. The null bytes that cli_process_str leaves behind the words are left out: the
-- editor reads no character that was not typed since.
unfoldable pub cli_process : Editor → Editor × Option Editor
cli_process e =
    let line = record e { rx_buf = set e.rx_buf e.rx_count 0 } in
    if ltb 0 e.rx_count
    then (record line { rx_count = 0; rx_bitmap = 0 ∷ 0 ∷ 0 ∷ 0 ∷ [] }, some line)
    else (e, none)

-- One character of cli_run, with the line that it hands over.
unfoldable pub cli_key : ℕ → Editor → Editor × Option Editor
cli_key c e =
    if c == 13 || c == 10
    then cli_process e
    else if c == char_backspace || c == 8
    then ((cli_clear_last_char e).0, none)
    else if leb char_space c && leb c char_tilde
    then ((cli_receive_char c e).0, none)
    else (e, none)

-- The byte that `(char)getchar()` has, as an unsigned number: where `char` is signed, 255 is EOF.
abbrev pub is_eof : Bool → ℕ → Bool
is_eof signed_char c = signed_char && c == 255

-- cli_run once there is a character. The result tells whether the program goes on: keep_running is
-- cleared only by on_quit, which does not return.
unfoldable pub cli_run : Bool → ℕ → Editor → Editor × Option Editor × Bool
cli_run signed_char c e =
    if is_eof signed_char c
    then (e, none, false)
    else let (e', line) = cli_key c e in (e', line, true)
