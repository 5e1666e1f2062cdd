-- ===== src/Cli/Keys.antt =====
-- The editor as a whole: any keys give the lines that a plain reading of them gives.
use embed_template.Prelude.{
  ℕ, zero, suc, Bool, true, false, map, ◌+◌, ◌-◌, ◌≡◌, ◌∙◌, refl, ap, ap₂, arith, ◌&&◌, ◌||◌, ltb,
  leb, ◌==◌, if◌then◌else◌, List, [], ◌∷◌, ◌++◌, set, length, length-set, get_or, get_or-set_self,
  Option, some, none, Bool-cases, inl, inr, lt→ltb,
}
use embed_template.Prelude.Bits.{bit-zero}
use embed_template.Cli.{
  Editor, cli_clear_last_char, cli_receive_char, cli_process, cli_key, is_eof, cli_run,
}
use embed_template.Cli.Commands.{Action, quit, run_line}
use embed_template.Cli.Line.{IsEditor, typed, typed-set, clear-IsEditor, receive-IsEditor}

-- What is typed so far, the last character first.
abbrev pub text_of : Editor → List ℕ
text_of e = typed e.rx_count e.rx_buf

abbrev drop_last : List ℕ → List ℕ
drop_last [] = []
drop_last (c ∷ t) = t

-- The end of a line: an empty one is not handed over.
abbrev finish_line : List ℕ → List ℕ × List (List ℕ)
finish_line [] = ([], [])
finish_line (c ∷ t) = ([], (c ∷ t) ∷ [])

-- One key on the text, and the lines that are handed over: a line end hands a line over, if there
-- is one, a backspace takes the last character away, a printable character is added to fewer than
-- 12, and any other key does nothing.
pub press : ℕ → List ℕ → List ℕ × List (List ℕ)
press c t =
    if c == 13 || c == 10
    then finish_line t
    else if c == 127 || c == 8
    then (drop_last t, [])
    else if leb 32 c && leb c 126
    then ((if ltb (length t) 12 then c ∷ t else t), [])
    else (t, [])

-- The lines of some keys on a text.
pub press_keys : List ℕ → List ℕ → List (List ℕ)
press_keys [] t = []
press_keys (c ∷ cs) t = let (t', lines) = press c t in lines ++ press_keys cs t'

-- The line that the editor hands over, if there is one.
abbrev pub handed : Option Editor → List (List ℕ)
handed none = []
handed (some e) = text_of e ∷ []

length-typed : (n : ℕ) (buf : List ℕ) → length (typed n buf) ≡ n
unfolding typed
length-typed zero buf = refl
length-typed (suc n) buf = ap suc (length-typed n buf)

clear-text_of :
    (n : ℕ) (buf bitmap : List ℕ)
    → let e : Editor = record { rx_buf = buf; rx_count = n; rx_bitmap = bitmap } in
      text_of (cli_clear_last_char e).0 ≡ drop_last (text_of e)
unfolding cli_clear_last_char typed
clear-text_of zero buf bitmap = refl
clear-text_of (suc n) buf bitmap =
    rw (lt→ltb 0 (suc n) (omega arith))
      (ap (λ t. typed t buf) {x = suc n - 1} {y = n} (omega arith))

clear-text : (e : Editor) → text_of (cli_clear_last_char e).0 ≡ drop_last (text_of e)
clear-text e = clear-text_of e.rx_count e.rx_buf e.rx_bitmap

receive-text :
    (c : ℕ) (e : Editor)
    → IsEditor e
    → text_of (cli_receive_char c e).0
      ≡ (if ltb (length (text_of e)) 12 then c ∷ text_of e else text_of e)
unfolding cli_receive_char typed
receive-text c e v =
    let n = e.rx_count in
    let buf = set e.rx_buf n c in
    rw (length-typed n e.rx_buf) (elim (Bool-cases (ltb n 12)) [
      | inl room ↦ rw room (
          ap (λ t. typed t buf) {x = n + 1} {y = suc n} (omega arith)
          ∙ ap₂ (λ x xs. x ∷ xs) (get_or-set_self e.rx_buf n c 0 (ground (arith, v.buffer)))
              (typed-set n n c e.rx_buf (omega arith)))
      | inr full ↦ rw full
    ])

abbrev pub no_spaces_mask : List ℕ
no_spaces_mask = 0 ∷ 0 ∷ 0 ∷ 0 ∷ []

pub no_spaces : (k : ℕ) → get_or no_spaces_mask k 0 ≡ 0
no_spaces zero = refl
no_spaces (suc zero) = refl
no_spaces (suc (suc zero)) = refl
no_spaces (suc (suc (suc zero))) = refl
no_spaces (suc (suc (suc (suc k)))) = refl

process-IsEditor : (e : Editor) → IsEditor e → IsEditor (cli_process e).0
unfolding cli_process
process-IsEditor e v = elim (Bool-cases (ltb 0 e.rx_count)) [
  | inr empty ↦ rw empty v
  | inl line ↦ rw line (record {
    room = omega arith;
    buffer = length-set e.rx_buf e.rx_count 0 ∙ v.buffer;
    words = refl;
    spaces = λ i h. bit-zero i ∙ ground arith;
    narrow = omega arith;
    others = λ k h. no_spaces k;
  })
]

process-text_of :
    (n : ℕ) (buf bitmap : List ℕ)
    → let e : Editor = record { rx_buf = buf; rx_count = n; rx_bitmap = bitmap } in
      (text_of (cli_process e).0 ≡ (finish_line (text_of e)).0)
      × (handed (cli_process e).1 ≡ (finish_line (text_of e)).1)
unfolding cli_process typed
process-text_of zero buf bitmap = (refl, refl)
process-text_of (suc n) buf bitmap =
    rw (lt→ltb 0 (suc n) (omega arith))
      ((refl, ap (λ t. t ∷ []) (typed-set (suc n) (suc n) 0 buf (omega arith))))

process-text :
    (e : Editor)
    → (text_of (cli_process e).0 ≡ (finish_line (text_of e)).0)
      × (handed (cli_process e).1 ≡ (finish_line (text_of e)).1)
process-text e = process-text_of e.rx_count e.rx_buf e.rx_bitmap

cli_key-IsEditor : (c : ℕ) (e : Editor) → IsEditor e → IsEditor (cli_key c e).0
unfolding cli_key
cli_key-IsEditor c e v = elim (Bool-cases (c == 13 || c == 10)) [
  | inl ending ↦ rw ending (process-IsEditor e v)
  | inr other ↦ rw other (elim (Bool-cases (c == 127 || c == 8)) [
    | inl back ↦ rw back (clear-IsEditor e v)
    | inr key ↦ rw key (elim (Bool-cases (leb 32 c && leb c 126)) [
      | inl printable ↦ rw printable (receive-IsEditor c e v)
      | inr ignored ↦ rw ignored v
    ])
  ])
]

-- A key of any kind keeps the editor in order: at most 12 characters, and the bitmap marks the
-- places of the typed spaces and no other, whatever was typed and taken back.
pub cli_run-IsEditor :
    (signed_char : Bool) (c : ℕ) (e : Editor) → IsEditor e → IsEditor (cli_run signed_char c e).0
unfolding cli_run
cli_run-IsEditor signed_char c e v = elim (Bool-cases (is_eof signed_char c)) [
  | inl eof ↦ rw eof v
  | inr key ↦ rw key (cli_key-IsEditor c e v)
]

cli_key-press :
    (c : ℕ) (e : Editor)
    → IsEditor e
    → (text_of (cli_key c e).0 ≡ (press c (text_of e)).0)
      × (handed (cli_key c e).1 ≡ (press c (text_of e)).1)
unfolding cli_key press
cli_key-press c e v = elim (Bool-cases (c == 13 || c == 10)) [
  | inl ending ↦ rw ending (process-text e)
  | inr other ↦ rw other (elim (Bool-cases (c == 127 || c == 8)) [
    | inl back ↦ rw back (clear-text e, refl)
    | inr key ↦ rw key (elim (Bool-cases (leb 32 c && leb c 126)) [
      | inl printable ↦ rw printable (receive-text c e v, refl)
      | inr ignored ↦ rw ignored (refl, refl)
    ])
  ])
]

-- Whether the line ends the program: `exit` is called.
abbrev pub exits : List Action → Bool
exits (quit ∷ actions) = true
exits _ = false

unfoldable pub hand_over : (ℕ → ℕ) → Option Editor → List Editor → List Editor
hand_over behind none rest = rest
hand_over behind (some l) rest = l ∷ (if exits (run_line behind (some l)) then [] else rest)

-- The lines that the loop of the program hands over for some characters, up to the end of the
-- input or of the program.
unfoldable pub run_keys : (ℕ → ℕ) → Bool → List ℕ → Editor → List Editor
run_keys behind signed_char [] e = []
run_keys behind signed_char (c ∷ cs) e =
    let (e', line, running) = cli_run signed_char c e in
    let rest = run_keys behind signed_char cs e' in
    if running then hand_over behind line rest else []

-- The characters before the end of the input.
pub before_end : Bool → List ℕ → List ℕ
before_end signed_char [] = []
before_end signed_char (c ∷ cs) =
    let rest = before_end signed_char cs in if is_eof signed_char c then [] else c ∷ rest

-- The lines up to the first that ends the program, and that one.
pub until_exit : (ℕ → ℕ) → List Editor → List Editor
until_exit behind [] = []
until_exit behind (l ∷ ls) =
    let rest = until_exit behind ls in l ∷ (if exits (run_line behind (some l)) then [] else rest)

abbrev lines_of : Option Editor → List Editor → List Editor
lines_of none ls = ls
lines_of (some l) ls = l ∷ ls

-- All lines, were no line to end the program.
all_lines : List ℕ → Editor → List Editor
all_lines [] e = []
all_lines (c ∷ cs) e = let (e', line) = cli_key c e in lines_of line (all_lines cs e')

lines_of-text :
    (line : Option Editor) (ls : List Editor)
    → map text_of (lines_of line ls) ≡ handed line ++ map text_of ls
lines_of-text none ls = refl
lines_of-text (some l) ls = refl

all_lines-texts :
    (cs : List ℕ) (e : Editor)
    → IsEditor e
    → map text_of (all_lines cs e) ≡ press_keys cs (text_of e)
unfolding all_lines press_keys
all_lines-texts [] e v = refl
all_lines-texts (c ∷ cs) e v =
    let (text, lines) = cli_key-press c e v in
    let rest = all_lines-texts cs (cli_key c e).0 (cli_key-IsEditor c e v) in
    lines_of-text (cli_key c e).1 (all_lines cs (cli_key c e).0)
    ∙ ap₂ (λ a b. a ++ b) lines (rest ∙ ap (press_keys cs) text)

hand_over-until_exit :
    (behind : ℕ → ℕ) (line : Option Editor) (ls : List Editor)
    → hand_over behind line (until_exit behind ls) ≡ until_exit behind (lines_of line ls)
unfolding hand_over until_exit
hand_over-until_exit behind none ls = refl
hand_over-until_exit behind (some l) ls = refl

run_keys-all_lines :
    (behind : ℕ → ℕ) (signed_char : Bool) (cs : List ℕ) (e : Editor)
    → run_keys behind signed_char cs e ≡ until_exit behind (all_lines (before_end signed_char cs) e)
unfolding run_keys cli_run before_end all_lines until_exit
run_keys-all_lines behind signed_char [] e = refl
run_keys-all_lines behind signed_char (c ∷ cs) e = elim (Bool-cases (is_eof signed_char c)) [
  | inl eof ↦ rw (eof, before_end) refl
  | inr key ↦
      let (e', line) = cli_key c e in
      rw (key, before_end)
        (ap (hand_over behind line) (run_keys-all_lines behind signed_char cs e')
          ∙ hand_over-until_exit behind line (all_lines (before_end signed_char cs) e'))
]

-- For any characters there are lines whose texts are a plain reading of the characters before the
-- end of the input: the printable characters between two line ends, less those taken back and
-- those behind the first 12, and no empty line. The program hands over these lines, up to the
-- first that ends it. The store of the null byte behind a line of 12 is taken to change nothing
-- else.
pub run_keys-lines :
    (behind : ℕ → ℕ) (signed_char : Bool) (cs : List ℕ) (e : Editor)
    → IsEditor e
    → (lines : List Editor) × (map text_of lines
        ≡ press_keys (before_end signed_char cs) (text_of e))
      × (run_keys behind signed_char cs e ≡ until_exit behind lines)
run_keys-lines behind signed_char cs e v = (
  all_lines (before_end signed_char cs) e,
  all_lines-texts (before_end signed_char cs) e v,
  run_keys-all_lines behind signed_char cs e,
)
