-- ===== src/Menu/Tests.antt =====
-- Concrete inputs of the properties of the test menus.
use embed_template.Prelude.{◌≡◌, refl, true, false, some, none, inr, arith}
use embed_template.Prelude.Int.{pos, negsuc}
use embed_template.Menu.{
  Blocks, Block, dev_test_registry, no_msg, main, test_mode, block_at, on_number_selected,
  on_enter_tests,
}
use embed_template.Menu.Line.{
  number, cli_run_test, run_command, run_cli_tests, after_command, cli_enter,
}
use embed_template.Menu.Valid.{at_menu}
use embed_template.Menu.Back.{backs, main_menu, backs-main}

abbrev two_tests : Block
two_tests = record {
  tests = λ i. record { func = some true; is_cli_test = false; enabled = true };
  count = 2;
  block_enabled = true;
}

abbrev all_blocks : Blocks
all_blocks = record { dev = λ i. two_tests; sys = λ i. two_tests }

-- Block 3 by its number, and its test 1; the menu is shown after the test.
enter_block :
    cli_enter all_blocks (number 3) (at_menu dev_test_registry (pos 5) true false false no_msg)
    ≡ some (at_menu dev_test_registry (pos 3) true true false no_msg)
unfolding cli_enter cli_run_test run_command on_number_selected on_enter_tests block_at
    run_cli_tests after_command
enter_block = refl

-- A number in the main menu, before a test menu has been opened, and one in the test selection.
main_number :
    on_number_selected all_blocks 0
      (record (at_menu dev_test_registry (pos 5) true false false no_msg) {
        mode = main;
        registry = none;
      })
    ≡ none
unfolding on_number_selected on_enter_tests block_at
main_number = refl

select_number :
    on_number_selected all_blocks 0
      (record (at_menu dev_test_registry (negsuc 0) true false false no_msg) { mode = test_mode })
    ≡ none
unfolding on_number_selected
select_number = refl

backs-main_example :
    backs 3 all_blocks (some (at_menu dev_test_registry (pos 3) true true false no_msg))
    ≡ some (main_menu dev_test_registry)
backs-main_example =
    backs-main all_blocks dev_test_registry 3 true true false (inr (omega arith, refl))
