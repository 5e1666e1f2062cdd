-- ===== src/Menu/Valid.antt =====
-- Where the test menus are.
use embed_template.Prelude.{
  ℕ, ◌≤◌, ◌<◌, ◌≡◌, ◌≢◌, ◌∙◌, ◌⊎◌, refl, ap, sym, arith, Bool, true, false, not, ltb, leb,
  if◌then◌else◌, Option, some, none, Bool-cases, if_intro, inl, inr,
}
use embed_template.Prelude.Int.{ℤ, pos, leb_ℤ}
use mathlib.Core.Path.{subst}
use embed_template.Menu.{
  Mode, test_dev, test_sys, Registry, dev_test_registry, sys_test_registry, Blocks, Block, size_of,
  entry, Msg, no_msg, out_of_range, not_in_block, test_is_disabled, not_configured, finished_with,
  invalid_selection, block_disabled, CliData, TestPtr, block_at, belongs, show_test_menu,
  on_enter_tests, on_execute_test, on_number_selected, set_msg, run_test, get_max_index, same_int,
}

abbrev pub mode_of : Registry → Mode
mode_of dev_test_registry = test_dev
mode_of sys_test_registry = test_sys

-- A state of the test menu of a registry.
abbrev pub at_menu : Registry → ℤ → Bool → Bool → Bool → Msg → CliData
at_menu r t write_enable no_error cmd_run msg = record {
  msg_buf = msg;
  registry = some r;
  write_enable = write_enable;
  no_error = no_error;
  cmd_run = cmd_run;
  cli_test_run = false;
  mode = mode_of r;
  test = t;
}

-- On the list of the blocks, or inside an enabled one.
abbrev pub Within : Blocks → Registry → ℕ → Type 0
Within bs r i = (i ≡ size_of r) ⊎ ((i < size_of r) × ((entry bs r i).block_enabled ≡ true))

-- Another menu, or a test menu in order.
pub data IsValid (bs : Blocks) : CliData → Type 0 where
  inside :
      (r : Registry) (i : ℕ) (write_enable no_error cmd_run : Bool) (msg : Msg)
      → Within bs r i
      → IsValid bs (at_menu r (pos i) write_enable no_error cmd_run msg)
  elsewhere : (s : CliData) → s.mode ≢ test_dev → s.mode ≢ test_sys → IsValid bs s

-- There is a test of the command line.
abbrev pub CliTest : Blocks → Type 0
CliTest bs =
    (t : TestPtr) × (((entry bs t.of_registry t.of_block).tests t.place).is_cli_test ≡ true)

-- A command that leaves the menu and the block as they are, and one that starts the test of the
-- command line.
abbrev pub Stays : Blocks → Registry → ℕ → Option CliData → Type 0
Stays bs r i o =
    ((write_enable no_error : Bool) × (msg : Msg) × (o
        ≡ some (at_menu r (pos i) write_enable no_error false msg)))
    ⊎ (CliTest bs
        × (write_enable no_error passed : Bool) × (o
            ≡ some (record (at_menu r (pos i) write_enable no_error false (finished_with passed)) {
              cli_test_run = true;
            })))

-- A block of the registry is entered, if it is enabled.
pub on_enter_tests-at_menu :
    (bs : Blocks) (r : Registry) (index : ℕ) (t : ℤ) (w n c : Bool) (msg : Msg)
    → on_enter_tests bs index (at_menu r t w n c msg) ≡ (
        if leb (size_of r) index
        then some (at_menu r t w n c invalid_selection)
        else if not (entry bs r index).block_enabled
        then some (at_menu r t true n c block_disabled)
        else some (at_menu r (pos index) true true c no_msg))
unfolding on_enter_tests block_at
on_enter_tests-at_menu bs dev_test_registry index t w n c msg = elim (Bool-cases (leb 5 index)) [
  | inl out ↦ rw out refl
  | inr within ↦ let present : ltb index 5 ≡ true = ground arith in rw (within, present) refl
]
on_enter_tests-at_menu bs sys_test_registry index t w n c msg = elim (Bool-cases (leb 2 index)) [
  | inl out ↦ rw out refl
  | inr within ↦ let present : ltb index 2 ≡ true = ground arith in rw (within, present) refl
]

-- The menu is shown, and the message with it.
pub show_test_menu-at_menu :
    (r : Registry) (w n c : Bool) (msg : Msg)
    → show_test_menu (at_menu r (pos (size_of r)) w n c msg)
      ≡ some (at_menu r (pos (size_of r)) w n c no_msg)
unfolding show_test_menu
show_test_menu-at_menu dev_test_registry w n c msg = refl
show_test_menu-at_menu sys_test_registry w n c msg = refl

pub block_at-at_menu :
    (bs : Blocks) (r : Registry) (i : ℕ) (w n c : Bool) (msg : Msg)
    → i < size_of r
    → block_at bs (at_menu r (pos i) w n c msg) (pos i) ≡ some (entry bs r i)
unfolding block_at
block_at-at_menu bs r i w n c msg h =
    let present : ltb i (size_of r) ≡ true = ground arith in rw present refl

pub get_max_index-at_menu :
    (r : Registry) (t : ℤ) (w n c : Bool) (msg : Msg)
    → get_max_index (at_menu r t w n c msg) ≡ size_of r
get_max_index-at_menu dev_test_registry t w n c msg = refl
get_max_index-at_menu sys_test_registry t w n c msg = refl

run_desc-Stays :
    (bs : Blocks) (r : Registry) (i : ℕ) (w n : Bool) (msg : Msg) (func : Option Bool)
    (cli enabled : Bool)
    → (cli ≡ true → CliTest bs)
    → Stays bs r i (
        some (
          run_test
            (record { func = func; is_cli_test = cli; enabled = enabled })
            (at_menu r (pos i) w n false msg)))
run_desc-Stays bs r i w n msg none cli enabled test = inl (w, n, not_configured, refl)
run_desc-Stays bs r i w n msg (some passed) true enabled test = inr (test refl, w, n, passed, refl)
run_desc-Stays bs r i w n msg (some passed) false enabled test =
    inl (w, n, finished_with passed, refl)

run_test-Stays :
    (bs : Blocks) (r : Registry) (i : ℕ) (w n : Bool) (msg : Msg) (t : TestPtr)
    → let desc = (entry bs t.of_registry t.of_block).tests t.place in
      Stays bs r i (some (run_test desc (at_menu r (pos i) w n false msg)))
run_test-Stays bs r i w n msg t =
    let desc = (entry bs t.of_registry t.of_block).tests t.place in
    run_desc-Stays bs r i w n msg desc.func desc.is_cli_test desc.enabled (λ cli. (t, cli))

execute-out :
    (bs : Blocks) (s : CliData) (t : TestPtr)
    → leb_ℤ (pos (get_max_index s)) s.test ≡ true
    → on_execute_test bs t s ≡ some (set_msg out_of_range (record s { no_error = true }))
unfolding on_execute_test
execute-out bs s t h = rw (on_execute_test, h) refl

execute-in :
    (bs : Blocks) (s : CliData) (t : TestPtr) (block : Block)
    → leb_ℤ (pos (get_max_index s)) s.test ≡ false
    → block_at bs s s.test ≡ some block
    → let started = record s { no_error = true; write_enable = true } in
      let desc = (entry bs t.of_registry t.of_block).tests t.place in
      on_execute_test bs t s ≡ (
        if not (belongs s block t)
        then some (set_msg not_in_block started)
        else if not desc.enabled
        then some (set_msg test_is_disabled started)
        else some (run_test desc started))
unfolding on_execute_test
execute-in bs s t block h b = rw (on_execute_test, h, b) refl

-- A test stays in its block.
pub on_execute_test-Stays :
    (bs : Blocks) (r : Registry) (i : ℕ) (t : TestPtr) (w n : Bool) (msg : Msg)
    → i ≤ size_of r
    → Stays bs r i (on_execute_test bs t (at_menu r (pos i) w n false msg))
on_execute_test-Stays bs r i t w n msg h =
    let s = at_menu r (pos i) w n false msg in
    let max = get_max_index-at_menu r (pos i) w n false msg in
    let desc = (entry bs t.of_registry t.of_block).tests t.place in
    elim (Bool-cases (leb_ℤ (pos (size_of r)) (pos i))) [
      | inl out ↦
          inl
            (w, true, out_of_range, execute-out bs s t (ap (λ m. leb_ℤ (pos m) (pos i)) max ∙ out))
      | inr within ↦
          let block = entry bs r i in
          subst (Stays bs r i)
            (sym (
              execute-in bs s t block (ap (λ m. leb_ℤ (pos m) (pos i)) max ∙ within)
                (block_at-at_menu bs r i w n false msg (ground arith))))
            (if_intro (not (belongs s block t)) (Stays bs r i)
              (inl (true, true, not_in_block, refl))
              (if_intro (not desc.enabled) (Stays bs r i) (inl (true, true, test_is_disabled, refl))
                (run_test-Stays bs r i true true msg t)))
    ]

pub number-top :
    (bs : Blocks) (s : CliData) (index : ℕ)
    → same_int s.test (pos (get_max_index s)) ≡ true
    → on_number_selected bs index s ≡ (
        if ltb index (get_max_index s)
        then on_enter_tests bs index s
        else some (set_msg invalid_selection s))
unfolding on_number_selected
number-top bs s index h = rw (on_number_selected, h) refl

pub number-inside :
    (bs : Blocks) (r : Registry) (i index : ℕ) (w n c : Bool) (msg : Msg)
    → let s = at_menu r (pos i) w n c msg in
      same_int s.test (pos (get_max_index s)) ≡ false
      → block_at bs s (pos i) ≡ some (entry bs r i)
      → on_number_selected bs index s ≡ (
          if ltb index (entry bs r i).count
          then on_execute_test bs (record { of_registry = r; of_block = i; place = index }) s
          else some (set_msg invalid_selection s))
unfolding on_number_selected
number-inside bs r i index w n c msg h b = rw (on_number_selected, h, b) refl

pub Within-le : (bs : Blocks) (r : Registry) (i : ℕ) → Within bs r i → i ≤ size_of r
Within-le bs r i (inl top) = omega (arith, top)
Within-le bs r i (inr block) = omega (arith, block.0)
