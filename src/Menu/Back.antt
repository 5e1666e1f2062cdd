-- ===== src/Menu/Back.antt =====
-- `back` leads out of the test menus.
use embed_template.Prelude.{
  ℕ, zero, suc, ◌<◌, ◌≡◌, refl, ap, sym, ◌∙◌, arith, Bool, true, false, Option, some, none, inl,
  inr,
}
use embed_template.Prelude.Int.{pos, negsuc}
use mathlib.Core.Path.{subst}
use embed_template.Menu.{
  main, test_mode, Registry, dev_test_registry, sys_test_registry, Blocks, size_of, no_msg, CliData,
  same_int, on_back, show_test_menu,
}
use embed_template.Menu.Line.{
  back, cli_run_test, run_command, run_cli_tests, after_command, cli_enter,
}
use embed_template.Menu.Valid.{at_menu, Within}

-- Lines that end, one after the other.
abbrev pub backs : ℕ → Blocks → Option CliData → Option CliData
backs zero bs o = o
backs (suc n) bs none = none
backs (suc n) bs (some s) = backs n bs (cli_enter bs back s)

-- The menu of the groups, and the main menu.
abbrev groups : Registry → CliData
groups r = record (at_menu r (negsuc 0) true true false no_msg) { mode = test_mode }

abbrev pub main_menu : Registry → CliData
main_menu r = record (groups r) { mode = main }

cli_enter-inner :
    (bs : Blocks) (r : Registry) (i : ℕ) (w n c : Bool)
    → i < size_of r
    → cli_enter bs back (at_menu r (pos i) w n c no_msg)
      ≡ some (at_menu r (pos (size_of r)) true true false no_msg)
unfolding cli_enter cli_run_test run_command after_command run_cli_tests on_back show_test_menu
cli_enter-inner bs dev_test_registry i w n c h =
    let here : same_int (pos i) (pos 5) ≡ false = ground arith in
    rw (cli_enter, cli_run_test, run_command, on_back, here, here) refl
cli_enter-inner bs sys_test_registry i w n c h =
    let here : same_int (pos i) (pos 2) ≡ false = ground arith in
    rw (cli_enter, cli_run_test, run_command, on_back, here, here) refl

cli_enter-top :
    (bs : Blocks) (r : Registry) (w n c : Bool)
    → cli_enter bs back (at_menu r (pos (size_of r)) w n c no_msg) ≡ some (groups r)
unfolding cli_enter cli_run_test run_command after_command run_cli_tests on_back
cli_enter-top bs dev_test_registry w n c = refl
cli_enter-top bs sys_test_registry w n c = refl

cli_enter-groups : (bs : Blocks) (r : Registry) → cli_enter bs back (groups r) ≡ some (main_menu r)
unfolding cli_enter cli_run_test run_command after_command run_cli_tests on_back
cli_enter-groups bs r = refl

cli_enter-main : (bs : Blocks) (r : Registry) → cli_enter bs back (main_menu r) ≡ some (main_menu r)
unfolding cli_enter run_command on_back
cli_enter-main bs r = refl

-- From a test menu with its own registry, on the list of the blocks or inside an enabled one, with
-- no message pending, three lines `back` end in the main menu, with no message, the output on, and
-- the index of the block set back to -1.
pub backs-main :
    (bs : Blocks) (r : Registry) (i : ℕ) (w n c : Bool)
    → Within bs r i
    → backs 3 bs (some (at_menu r (pos i) w n c no_msg)) ≡ some (main_menu r)
backs-main bs r i w n c (inl top) =
    subst (λ k. backs 3 bs (some (at_menu r (pos k) w n c no_msg)) ≡ some (main_menu r)) (sym top)
      (ap (backs 2 bs) (cli_enter-top bs r w n c)
        ∙ ap (backs 1 bs) (cli_enter-groups bs r)
        ∙ cli_enter-main bs r)
backs-main bs r i w n c (inr block) =
    ap (backs 2 bs) (cli_enter-inner bs r i w n c block.0)
    ∙ ap (backs 1 bs) (cli_enter-top bs r true true false)
    ∙ cli_enter-groups bs r
