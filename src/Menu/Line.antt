-- ===== src/Menu/Line.antt =====
-- common/src/cli/cli_main.c: a line of the command line; run_cli_tests of
-- common/src/cli/tests/test_cli.c.
use embed_template.Prelude.{
  ℕ, zero, suc, Bool, true, false, not, ◌&&◌, if◌then◌else◌, Option, some, none,
}
use embed_template.Prelude.Int.{pos, negsuc}
use embed_template.Menu.{
  Mode, no_mode, main, pci_mode, simulation, system, test_mode, test_dev, test_sys, Blocks, Msg,
  no_msg, invalid_selection, CliData, TestPtr, get_max_index, set_msg, show_test_menu,
  show_test_select_menu, on_enter_tests, on_execute_test, on_number_selected, on_dev_test_menu,
  on_sys_test_menu, on_test_menu, on_menu, on_back, same_int,
}

-- The command that a line names, if it names one: a number, a block or a test by its name, a menu,
-- `back`, or a universal command, one that calls cmd_in_test_mode and touches no more of the state.
-- `quit` ends the program, and is not one here.
pub data Command : Type 0 where
  number : ℕ → Command
  block_name : ℕ → Command
  test_name : TestPtr → Command
  dev_menu : Command
  sys_menu : Command
  test_menu : Command
  system_menu : Command
  sim_menu : Command
  pci_menu : Command
  back : Command
  universal : Command
  unknown : Command

abbrev pub is_test : Mode → Bool
is_test test_mode = true
is_test test_dev = true
is_test test_sys = true
is_test _ = false

abbrev pub cmd_in_test_mode : CliData → CliData
cmd_in_test_mode s = if is_test s.mode then record s { cmd_run = true; write_enable = true } else s

unfoldable pub run_command : Blocks → Command → CliData → Option CliData
run_command bs (number index) s = on_number_selected bs index s
run_command bs (block_name index) s = on_enter_tests bs index s
run_command bs (test_name t) s = on_execute_test bs t s
run_command bs dev_menu s = on_dev_test_menu s
run_command bs sys_menu s = on_sys_test_menu s
run_command bs test_menu s = some (on_test_menu s)
run_command bs system_menu s = some (on_menu system s)
run_command bs sim_menu s = some (on_menu simulation s)
run_command bs pci_menu s = some (on_menu pci_mode s)
run_command bs back s = on_back s
run_command bs universal s = some (cmd_in_test_mode s)
run_command bs unknown s = some s

abbrev pub same_mode : Mode → Mode → Bool
same_mode no_mode no_mode = true
same_mode main main = true
same_mode pci_mode pci_mode = true
same_mode simulation simulation = true
same_mode system system = true
same_mode test_mode test_mode = true
same_mode test_dev test_dev = true
same_mode test_sys test_sys = true
same_mode _ _ = false

abbrev pub is_silent : Msg → Bool
is_silent no_msg = true
is_silent _ = false

-- What is shown again where neither the mode nor the block has changed.
unfoldable pub show_again : Blocks → CliData → Option CliData
show_again bs s =
    let told =
      set_msg (if not s.no_error && is_silent s.msg_buf then invalid_selection else s.msg_buf) s in
    elim s.mode [
      | test_mode ↦ some (show_test_select_menu told)
      | _ ↦ if same_int s.test (pos (get_max_index s)) then show_test_menu told else elim s.test [
        | negsuc i ↦ some (set_msg invalid_selection told)
        | pos i ↦ on_enter_tests bs i told
      ]
    ]

-- The lines of cmd_list in a build with FreeRTOS. All are universal commands.
abbrev pub cli_test_num : ℕ
cli_test_num = 14

-- The lines that the test of the command line enters.
pub injected : ℕ → CliData → CliData
injected zero s = s
injected (suc n) s = injected n (cmd_in_test_mode s)

unfoldable pub run_cli_tests : CliData → CliData
unfolding injected
run_cli_tests s =
    if s.cli_test_run then record (injected cli_test_num s) { cli_test_run = false } else s

-- What follows the command.
unfoldable pub after_command : Blocks → CliData → CliData → Option CliData
after_command bs before s =
    let enabled = run_cli_tests (record s { write_enable = true }) in
    if enabled.cmd_run
    then some (record enabled { cmd_run = false })
    else if same_mode before.mode enabled.mode && same_int before.test enabled.test
    then show_again bs enabled
    else some enabled

unfoldable pub cli_run_test : Blocks → Command → CliData → Option CliData
cli_run_test bs c s =
    elim (run_command bs c (record s { cmd_run = false; no_error = false; write_enable = false })) [
      | none ↦ none
      | some s' ↦ after_command bs s s'
    ]

-- The enter key of cli_run.
unfoldable pub cli_enter : Blocks → Command → CliData → Option CliData
cli_enter bs c s =
    let enabled = record s { write_enable = true } in
    if is_test s.mode then cli_run_test bs c enabled else run_command bs c enabled
