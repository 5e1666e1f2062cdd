-- ===== src/Sim/Tests/Commands.antt =====
-- The theorems on the commands at concrete states.
use embed_template.Prelude.{◌≡◌, refl, true, false, List, [], ◌∷◌}
use embed_template.Sim.{has}
use embed_template.Sim.Regulation.Safety.{IsSafe}
use embed_template.Sim.Hardware.{Board, tick}
use embed_template.Sim.Modes.{
  normal, pause_ack, before_tick, paused, Event, start, suspend, request_pause, request_resume,
  hardware_runs, control_runs, sim_pause, sim_resume, pause_returns, hardware_turn, hardware_turns,
  on_events,
}
use embed_template.Sim.Modes.Handshake.{in_mode, pause_is_transparent}
use embed_template.Sim.Modes.Commands.{on_events-IsSafe}
use embed_template.Sim.Tests.{heating, heating-IsSafe}

abbrev board : Board
board = record { plant = heating; ms_counter = 0; notified = true }

abbrev events : List Event
events =
    start ∷ control_runs ∷ hardware_runs ∷ request_pause ∷ hardware_runs ∷ request_resume ∷ suspend
    ∷ []

on_events-IsSafe_example :
    IsSafe (on_events events (in_mode normal before_tick false 1 board)).board.plant
on_events-IsSafe_example =
    on_events-IsSafe events (in_mode normal before_tick false 1 board) heating-IsSafe

pause_is_transparent_example :
    let c = in_mode normal before_tick false 2 board in
    let held = hardware_turns 3 (hardware_turn (sim_pause c)) in
    (pause_returns (sim_pause c) ≡ false)
    × (pause_returns (hardware_turn (sim_pause c)) ≡ true)
    × (held ≡ in_mode pause_ack paused true 2 (tick board))
    × (hardware_turn (hardware_turn (sim_resume held)) ≡ hardware_turn (hardware_turn c))
unfolding has
pause_is_transparent_example = pause_is_transparent 3 2 false board refl
