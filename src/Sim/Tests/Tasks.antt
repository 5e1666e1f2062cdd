-- ===== src/Sim/Tests/Tasks.antt =====
-- The theorems on the hardware and the two tasks at concrete states.
use embed_template.Prelude.{◌≡◌, ◌≤◌, ◌<◌, refl, arith, true, false}
use embed_template.Prelude.Int.{pos, ◌≤ℤ◌, div_ℤ}
use embed_template.Sim.Regulation.{Plant, sensed}
use embed_template.Sim.Regulation.Safety.{IsSafe}
use embed_template.Sim.Hardware.{Board, tick, ticks}
use embed_template.Sim.Hardware.Physics.{tick_temperature}
use embed_template.Sim.Hardware.Deadline.{timer, IsForced, watchdog_deadline}
use embed_template.Sim.Hardware.Overflow.{InRange}
use embed_template.Sim.Tests.{running, heating, heating-IsSafe}
use embed_template.Sim.System.{
  control_pass, hardware, control, here, then_step, prompt_here, prompt_then, prompt_control,
}
use embed_template.Sim.System.Interlocks.{Reach-IsSafe}
use embed_template.Sim.System.Timing.{IsTimed, watchdog_never_fires}

-- The control task is due, at 60 degrees.
abbrev due : Board
due = record { plant = heating; ms_counter = 0; notified = true }

abbrev asleep : Board
asleep = record { plant = heating; ms_counter = 0; notified = false }

Reach-IsSafe_example : IsSafe (tick (control_pass due)).plant
Reach-IsSafe_example =
    Reach-IsSafe heating-IsSafe
      (then_step (then_step (here due) (control due refl)) (hardware (control_pass due)))

due-IsTimed : IsTimed due
due-IsTimed = record {
  on = refl;
  period = refl;
  latency_ok = refl;
  counter = omega arith;
  slack = λ n. ground arith;
}

watchdog_never_fires_example :
    (tick (control_pass due)).plant.gpio.out ≡ (control_pass due).plant.gpio.out
unfolding control_pass
watchdog_never_fires_example =
    watchdog_never_fires due-IsTimed (prompt_then (prompt_here due) (prompt_control due refl)) refl

tick_temperature_example :
    let q = (tick asleep).plant in
    (pos 25000 ≤ℤ q.sim.ctx.temp_mc)
    × (q.sim.ctx.temp_mc ≤ℤ pos 215000)
    × (sensed q.gpio ≡ div_ℤ q.sim.ctx.temp_mc 1000)
    × (q.sim.ctx.phy ≡ asleep.plant.sim.ctx.phy)
    × (q.sim.cfg ≡ asleep.plant.sim.cfg)
tick_temperature_example = tick_temperature asleep refl

watchdog_deadline_example :
    (151 ≤ timer asleep.plant.gpio → (ticks 151 asleep).plant.gpio.out ≡ asleep.plant.gpio.out)
    × (timer asleep.plant.gpio < 151 → IsForced (ticks 151 asleep).plant.gpio)
watchdog_deadline_example = watchdog_deadline 151 asleep refl

in_range : InRange heating.sim.ctx
in_range = record { cond = refl; above = omega arith; below = omega arith; ambient = omega arith }

-- Both fans on, the heater off, at the greatest heater power.
abbrev cooling : Plant
cooling = running 8000 180 100 6

cooling-InRange : InRange cooling.sim.ctx
cooling-InRange = record {
  cond = refl;
  above = omega arith;
  below = omega arith;
  ambient = omega arith;
}
