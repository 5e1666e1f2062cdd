-- ===== src/Sim/Modes.antt =====
-- Starting, suspending, pausing and resuming the simulation: the commands, the flags that they
-- share with the two tasks, and the hardware task between the places where it blocks. FreeRTOS runs
-- no turn of a suspended task. The control task is taken past its initialisation, which is
-- control_init of Sim/System.
pub mod Handshake
pub mod Commands
use embed_template.Prelude.{
  ℕ, zero, suc, Bool, true, false, not, ◌&&◌, ◌||◌, if◌then◌else◌, List, [], ◌∷◌, bit_and, ◌==◌,
}
use embed_template.Prelude.Bits.{bit_not}
use embed_template.Sim.{SimCtx, TempRegCfg, has, with_bit}
use embed_template.Sim.Config.Init.{temp_ctrl_cfg_init, reset_sim_state}
use embed_template.Sim.Regulation.{Plant}
use embed_template.Sim.Hardware.{Board, tick}
use embed_template.Sim.System.{control_pass}

-- `system_mode`
pub data Mode : Type 0 where
  normal pause pause_ack : Mode

-- Where the hardware task is blocked: in its first suspension, in the delay of 1 ms before a tick,
-- or in the delay of 100 ms of a pause.
pub data Place : Type 0 where
  dormant before_tick paused : Place

-- `suspended` has bit 0 for the simulation; `resume` is the hardware task's local variable.
pub record Control : Type 0 where
  pub board : Board
  pub mode : Mode
  pub suspended : ℕ
  pub place : Place
  pub resume : Bool

unfoldable pub is_sim_suspended : Control → Bool
is_sim_suspended c = has c.suspended 0

unfoldable pub sim_start : Control → Control
sim_start c =
    if is_sim_suspended c then record c { suspended = bit_and c.suspended (bit_not 32 1) } else c

abbrev pub with_statics : SimCtx → TempRegCfg → Board → Board
with_statics ctx cfg b = record b {
  plant = record (b.plant) { sim = record { ctx = ctx; cfg = cfg } };
}

unfoldable pub sim_suspend : Control → Control
sim_suspend c =
    if not (is_sim_suspended c)
    then record c {
      board =
          with_statics (reset_sim_state false c.board.plant.sim.ctx) c.board.plant.sim.cfg c.board;
      suspended = with_bit c.suspended 0;
    }
    else c

-- `sim_pause` up to its waiting loop; the loop ends when the mode is `pause_ack`.
unfoldable pub sim_pause : Control → Control
sim_pause c = if is_sim_suspended c then c else record c { mode = pause }

abbrev pub acknowledged : Mode → Bool
acknowledged pause_ack = true
acknowledged m = false

-- The test of the waiting loop, with the early return: `true` when `sim_pause` returns.
unfoldable pub pause_returns : Control → Bool
pause_returns c = is_sim_suspended c || acknowledged c.mode

unfoldable pub resumed : Mode → Mode
resumed pause_ack = normal
resumed m = m

unfoldable pub sim_resume : Control → Control
unfolding resumed
sim_resume c = record c { mode = resumed c.mode }

-- The loop of the hardware task from its head to the delay that blocks it.
loop_at : Mode → Control → Control
loop_at pause c = record c { mode = pause_ack; resume = true; place = paused }
loop_at pause_ack c = record c { place = paused }
loop_at normal c = record c { resume = false; place = before_tick }

abbrev pub with_board : Board → Control → Control
with_board b c = record c { board = b }

-- The configuration and the state after the start.
abbrev pub initialised : Board → Board
initialised b =
    with_statics (reset_sim_state true b.plant.sim.ctx) (temp_ctrl_cfg_init b.plant.sim.cfg) b

-- What the task does where it was blocked, up to the head of the loop.
abbrev pub wakes_at : Place → Board → Board
wakes_at dormant b = initialised b
wakes_at before_tick b = tick b
wakes_at paused b = b

-- A turn goes from one delay to the next: the tick, and then the test of the mode.
unfoldable pub hardware_turn : Control → Control
unfolding loop_at
hardware_turn c =
    if is_sim_suspended c then c else loop_at c.mode (with_board (wakes_at c.place c.board) c)

unfoldable pub control_turn : Control → Control
control_turn c =
    if not (is_sim_suspended c) && c.board.notified
    then record c { board = control_pass c.board }
    else c

pub data Event : Type 0 where
  start suspend request_pause request_resume hardware_runs control_runs : Event

unfoldable pub on_event : Event → Control → Control
on_event start c = sim_start c
on_event suspend c = sim_suspend c
on_event request_pause c = sim_pause c
on_event request_resume c = sim_resume c
on_event hardware_runs c = hardware_turn c
on_event control_runs c = control_turn c

unfoldable pub on_events : List Event → Control → Control
on_events [] c = c
on_events (e ∷ es) c = on_events es (on_event e c)

unfoldable pub hardware_turns : ℕ → Control → Control
hardware_turns zero c = c
hardware_turns (suc n) c = hardware_turns n (hardware_turn c)
