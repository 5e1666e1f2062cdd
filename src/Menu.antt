-- ===== src/Menu.antt =====
-- common/src/cli/cli_test.c, the menus of the tests, and what common/src/cli/cli_main.c and
-- cli_system.c do to the same state: `back`, the other menus, and a line in a test menu. Which
-- command a line names is found by the library of the command line: a line is a command here.
pub mod Line
pub mod Valid
pub mod Safety
pub mod Back
mod Tests
use embed_template.Prelude.{
  ℕ, zero, suc, Bool, true, false, not, ltb, leb, ◌&&◌, ◌||◌, ◌==◌, if◌then◌else◌, Option, some,
  none,
}
use embed_template.Prelude.Int.{ℤ, pos, negsuc, leb_ℤ, ltb_ℤ}

-- cli_mode_e
pub data Mode : Type 0 where
  no_mode : Mode
  main : Mode
  pci_mode : Mode
  simulation : Mode
  system : Mode
  test_mode : Mode
  test_dev : Mode
  test_sys : Mode

-- MAX_BLOCK_INDEX and MAX_INFRA_INDEX
abbrev pub max_block_index : ℕ
max_block_index = 5

abbrev pub max_infra_index : ℕ
max_infra_index = 2

-- A test, with whether its function succeeds, if it has one, and whether it is that of the command
-- line, which sets `run` of cli_test.
pub record TestDesc : Type 0 where
  pub func : Option Bool
  pub is_cli_test : Bool
  pub enabled : Bool

pub record Block : Type 0 where
  pub tests : ℕ → TestDesc
  pub count : ℕ
  pub block_enabled : Bool

-- dev_test_registry and sys_test_registry
pub data Registry : Type 0 where
  dev_test_registry : Registry
  sys_test_registry : Registry

-- The entries of both registries.
pub record Blocks : Type 0 where
  pub dev : ℕ → Block
  pub sys : ℕ → Block

abbrev pub size_of : Registry → ℕ
size_of dev_test_registry = max_block_index
size_of sys_test_registry = max_infra_index

abbrev pub entry : Blocks → Registry → ℕ → Block
entry bs dev_test_registry i = bs.dev i
entry bs sys_test_registry i = bs.sys i

abbrev pub same_registry : Registry → Registry → Bool
same_registry dev_test_registry dev_test_registry = true
same_registry dev_test_registry sys_test_registry = false
same_registry sys_test_registry dev_test_registry = false
same_registry sys_test_registry sys_test_registry = true

-- msg_buf
pub data Msg : Type 0 where
  no_msg : Msg
  out_of_range : Msg
  not_in_block : Msg
  test_is_disabled : Msg
  not_configured : Msg
  finished_with : Bool → Msg
  invalid_selection : Msg
  block_disabled : Msg

-- cli_data, without the bindings of the library, and `run` of cli_test; a registry that is not set
-- is the null pointer.
pub record CliData : Type 0 where
  pub msg_buf : Msg
  pub registry : Option Registry
  pub write_enable : Bool
  pub no_error : Bool
  pub cmd_run : Bool
  pub cli_test_run : Bool
  pub mode : Mode
  pub test : ℤ

abbrev pub is_test_sys : Mode → Bool
is_test_sys test_sys = true
is_test_sys _ = false

abbrev pub get_max_index : CliData → ℕ
get_max_index s = if is_test_sys s.mode then max_infra_index else max_block_index

abbrev pub set_msg : Msg → CliData → CliData
set_msg msg s = record s { msg_buf = msg }

abbrev pub print_msg : CliData → CliData
print_msg s = record s { msg_buf = no_msg }

abbrev pub clear_msg : CliData → CliData
clear_msg s = record s { msg_buf = no_msg; no_error = true }

-- The entry at a place of the registry in use: `none` for an access through the null pointer or
-- outside the registry.
unfoldable pub block_at : Blocks → CliData → ℤ → Option Block
block_at bs s (negsuc i) = none
block_at bs s (pos i) = elim s.registry [
  | none ↦ none
  | some r ↦ if ltb i (size_of r) then some (entry bs r i) else none
]

-- The loop of the menu reads the entries below `test`.
unfoldable pub show_test_menu : CliData → Option CliData
show_test_menu s = elim s.test [
  | negsuc i ↦ some (print_msg s)
  | pos zero ↦ some (print_msg s)
  | pos (suc i) ↦ elim s.registry [
    | none ↦ none
    | some r ↦ if leb (suc i) (size_of r) then some (print_msg s) else none
  ]
]

abbrev pub show_test_select_menu : CliData → CliData
show_test_select_menu s = print_msg (record s { test = negsuc 0 })

unfoldable pub on_enter_tests : Blocks → ℕ → CliData → Option CliData
on_enter_tests bs index s =
    if leb (get_max_index s) index
    then some (set_msg invalid_selection s)
    else elim (block_at bs s (pos index)) [
      | none ↦ none
      | some block ↦
          if not block.block_enabled
          then some (set_msg block_disabled (record s { write_enable = true }))
          else some
              (print_msg (record s { write_enable = true; no_error = true; test = pos index }))
    ]

-- A test is its registry, its block and its place.
pub record TestPtr : Type 0 where
  pub of_registry : Registry
  pub of_block : ℕ
  pub place : ℕ

-- Whether the test is one of those of the block in use.
abbrev pub belongs : CliData → Block → TestPtr → Bool
belongs s block t = elim s.registry [
  | none ↦ false
  | some r ↦
      same_registry r t.of_registry
      && (leb_ℤ s.test (pos t.of_block) && leb_ℤ (pos t.of_block) s.test)
      && ltb t.place block.count
]

-- The test itself, if it has a function.
abbrev pub run_test : TestDesc → CliData → CliData
run_test desc s = elim desc.func [
  | none ↦ set_msg not_configured s
  | some passed ↦
      set_msg (finished_with passed)
        (if desc.is_cli_test then record s { cli_test_run = true } else s)
]

unfoldable pub on_execute_test : Blocks → TestPtr → CliData → Option CliData
on_execute_test bs t s =
    let started = record s { no_error = true; write_enable = true } in
    let desc = (entry bs t.of_registry t.of_block).tests t.place in
    if leb_ℤ (pos (get_max_index s)) s.test
    then some (set_msg out_of_range (record s { no_error = true }))
    else elim (block_at bs s s.test) [
      | none ↦ none
      | some block ↦
          if not (belongs s block t)
          then some (set_msg not_in_block started)
          else if not desc.enabled
          then some (set_msg test_is_disabled started)
          else some (run_test desc started)
    ]

abbrev pub same_int : ℤ → ℤ → Bool
same_int a b = leb_ℤ a b && leb_ℤ b a

unfoldable pub on_number_selected : Blocks → ℕ → CliData → Option CliData
on_number_selected bs index s =
    if same_int s.test (pos (get_max_index s))
    then if ltb index (get_max_index s)
      then on_enter_tests bs index s
      else some (set_msg invalid_selection s)
    else elim s.test [
      | negsuc i ↦ none
      | pos i ↦ elim s.registry [
        | none ↦ none
        | some r ↦ elim (block_at bs s (pos i)) [
          | none ↦ none
          | some block ↦
              if ltb index block.count
              then on_execute_test bs (record { of_registry = r; of_block = i; place = index }) s
              else some (set_msg invalid_selection s)
        ]
      ]
    ]

unfoldable pub on_dev_test_menu : CliData → Option CliData
on_dev_test_menu s = show_test_menu (record (clear_msg s) {
  mode = test_dev;
  test = pos max_block_index;
  write_enable = true;
  registry = some dev_test_registry;
})

unfoldable pub on_sys_test_menu : CliData → Option CliData
on_sys_test_menu s = show_test_menu (record (clear_msg s) {
  mode = test_sys;
  test = pos max_infra_index;
  write_enable = true;
  registry = some sys_test_registry;
})

abbrev pub on_test_menu : CliData → CliData
on_test_menu s =
    show_test_select_menu (record s { mode = test_mode; test = negsuc 0; write_enable = true })

-- on_system_menu, on_sim_menu and on_start_pci
abbrev pub on_menu : Mode → CliData → CliData
on_menu mode s = record (clear_msg s) {
  mode = mode;
  test = pos max_block_index;
  write_enable = true;
}

-- The main menu prints the message, the system menu does not.
unfoldable pub on_back : CliData → Option CliData
on_back s =
    let started = record s { no_error = true; write_enable = true } in
    elim s.mode [
      | test_dev ↦
          if not (same_int s.test (pos max_block_index))
          then show_test_menu (record started { test = pos max_block_index })
          else some (show_test_select_menu (record started { mode = test_mode }))
      | test_sys ↦
          if not (same_int s.test (pos max_infra_index))
          then show_test_menu (record started { test = pos max_infra_index })
          else some (show_test_select_menu (record started { mode = test_mode }))
      | pci_mode ↦ some (record started { mode = system })
      | simulation ↦ some (record started { mode = system })
      | _ ↦ some (print_msg (record started { mode = main }))
    ]
