-- ===== src/Sim/Modes/Commands.antt =====
-- The interlocks under every command.
use embed_template.Prelude.{
  Bool, true, false, not, ◌&&◌, arith, List, [], ◌∷◌, Bool-cases, inl, inr,
}
use embed_template.Sim.{TempRegCfg}
use embed_template.Sim.Config.Init.{temp_ctrl_cfg_init, reset_sim_state}
use embed_template.Sim.Regulation.Safety.{IsSafe}
use embed_template.Sim.Hardware.{Board}
use embed_template.Sim.Hardware.Physics.{tick-IsSafe}
use embed_template.Sim.System.{control}
use embed_template.Sim.System.Interlocks.{Step-IsSafe}
use embed_template.Sim.Modes.{
  Mode, normal, pause, pause_ack, Place, dormant, before_tick, paused, wakes_at, with_board,
  Control, is_sim_suspended, sim_start, sim_suspend, sim_pause, sim_resume, loop_at, hardware_turn,
  control_turn, with_statics, Event, start, suspend, request_pause, request_resume, hardware_runs,
  control_runs, on_event, on_events,
}

start-IsSafe : (c : Control) → IsSafe c.board.plant → IsSafe (sim_start c).board.plant
unfolding sim_start
start-IsSafe c v = elim (Bool-cases (is_sim_suspended c)) [ inl e ↦ rw e v | inr e ↦ rw e v ]

reset-IsSafe :
    (phy : Bool) (cfg : TempRegCfg) (b : Board)
    → IsSafe b.plant
    → IsSafe (with_statics (reset_sim_state phy b.plant.sim.ctx) cfg b).plant
unfolding reset_sim_state
reset-IsSafe phy cfg b v = record {
  critical_off = λ c. absurd (ground (arith, c));
  cooldown_off = λ c. absurd (ground (arith, c));
  exclusive = v.exclusive;
}

loop_at-IsSafe : (m : Mode) (c : Control) → IsSafe c.board.plant → IsSafe (loop_at m c).board.plant
unfolding loop_at
loop_at-IsSafe normal c v = v
loop_at-IsSafe pause c v = v
loop_at-IsSafe pause_ack c v = v

wakes_at-IsSafe : (p : Place) (b : Board) → IsSafe b.plant → IsSafe (wakes_at p b).plant
wakes_at-IsSafe dormant b v = reset-IsSafe true (temp_ctrl_cfg_init b.plant.sim.cfg) b v
wakes_at-IsSafe before_tick b v = (tick-IsSafe b v).0
wakes_at-IsSafe paused b v = v

hardware-IsSafe : (c : Control) → IsSafe c.board.plant → IsSafe (hardware_turn c).board.plant
unfolding hardware_turn
hardware-IsSafe c v = elim (Bool-cases (is_sim_suspended c)) [
  | inl e ↦ rw e v
  | inr e ↦ rw e (
      loop_at-IsSafe c.mode (with_board (wakes_at c.place c.board) c)
        (wakes_at-IsSafe c.place c.board v))
]

suspend-IsSafe : (c : Control) → IsSafe c.board.plant → IsSafe (sim_suspend c).board.plant
unfolding sim_suspend
suspend-IsSafe c v = elim (Bool-cases (is_sim_suspended c)) [
  | inl e ↦ rw e v
  | inr e ↦ rw e (reset-IsSafe false c.board.plant.sim.cfg c.board v)
]

pause-IsSafe : (c : Control) → IsSafe c.board.plant → IsSafe (sim_pause c).board.plant
unfolding sim_pause
pause-IsSafe c v = elim (Bool-cases (is_sim_suspended c)) [ inl e ↦ rw e v | inr e ↦ rw e v ]

control-IsSafe : (c : Control) → IsSafe c.board.plant → IsSafe (control_turn c).board.plant
unfolding control_turn
control-IsSafe c v = elim (Bool-cases (not (is_sim_suspended c) && c.board.notified)) [
  | inl e ↦ rw e (Step-IsSafe (control c.board (ground (arith, e))) v)
  | inr e ↦ rw e v
]

on_event-IsSafe :
    (e : Event) (c : Control) → IsSafe c.board.plant → IsSafe (on_event e c).board.plant
unfolding on_event sim_resume
on_event-IsSafe start c v = start-IsSafe c v
on_event-IsSafe suspend c v = suspend-IsSafe c v
on_event-IsSafe request_pause c v = pause-IsSafe c v
on_event-IsSafe request_resume c v = v
on_event-IsSafe hardware_runs c v = hardware-IsSafe c v
on_event-IsSafe control_runs c v = control-IsSafe c v

-- The interlocks hold after every sequence of commands (start, suspend, pause, resume), turns of
-- the hardware task and turns of the control task past its initialisation, that begins in a safe
-- state.
pub on_events-IsSafe :
    (es : List Event) (c : Control) → IsSafe c.board.plant → IsSafe (on_events es c).board.plant
unfolding on_events
on_events-IsSafe [] c v = v
on_events-IsSafe (e ∷ es) c v = on_events-IsSafe es (on_event e c) (on_event-IsSafe e c v)
