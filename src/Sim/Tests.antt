-- ===== src/Sim/Tests.antt =====
-- The theorems on the simulation at concrete states.
mod Tasks
mod Commands
use embed_template.Prelude.{
  ℕ, ◌+◌, ◌*◌, ◌^◌, ◌≡◌, ◌≤◌, ◌<◌, ◌⊎◌, refl, arith, Bool, true, false, not, ◌&&◌, ◌||◌, ltb, ◌==◌,
  List, [], ◌∷◌, some,
}
use embed_template.Prelude.Bits.{bit}
use embed_template.Prelude.Int.{ℤ, pos, negsuc, ◌≤ℤ◌, ◌<ℤ◌, div_ℤ, ◌+ℤ◌, ◌-ℤ◌}
use embed_template.Gpio.{gpio_is_alarm, gpio_get_all_in_pins}
use embed_template.Gpio.Regs.{GpioCtrl, field}
use embed_template.Sim.{Sim, has, Stream}
use embed_template.Sim.Config.{cooldown_ok, hysteresis_ok}
use embed_template.Sim.Config.Get.{get_sim_cfg}
use embed_template.Sim.Config.Set.{set_sim_cfg}
use embed_template.Sim.Config.Set.Range.{IsConfigured, set_sim_cfg-IsConfigured}
use embed_template.Sim.Config.Set.RoundTrip.{ranges_accepted, default_accepted}
use embed_template.Sim.Config.Set.Start.{
  started, IsRunnable, started-IsRunnable, zeroed, only_cooldown, cooldown_lost,
}
use embed_template.Sim.Regulation.{Plant, sensed, run_temperature_regulation}
use embed_template.Sim.Regulation.Safety.{
  IsSafe, IsRegulated, heater_on, fan1_on, fan2_on, run_temperature_regulation-IsRegulated,
}
use embed_template.Sim.Regulation.Modes.{
  emergency_cooling, critical_unreachable, alarm_cooldown, heating_next, normal_operation,
}
use embed_template.Sim.Hardware.{Board, tick, ticks, cooling_power, apply_physics}
use embed_template.Sim.Hardware.Physics.{tick_temperature, tick-IsSafe}
use embed_template.Sim.Hardware.Deadline.{enabled, timer, IsForced, watchdog_deadline}
use embed_template.Sim.Hardware.Wake.{ticks-awakes}
use embed_template.Sim.Hardware.Overflow.{
  InRange, true_heat, true_fans, passive, powers_exact, both_fans_heat,
}
use embed_template.Sim.System.{
  control_init, control_pass, Step, hardware, control, Reach, here, then_step, PromptReach,
  prompt_here, prompt_then, prompt_control,
}
use embed_template.Sim.System.Interlocks.{Reach-IsSafe}
use embed_template.Sim.System.Timing.{IsTimed, reload, watchdog_never_fires}
use embed_template.Sim.System.Boot.{control_init_watchdog, control_init_inputs}

zeroed-IsConfigured : IsConfigured zeroed
unfolding has
zeroed-IsConfigured = record {
  ramp = λ e. ground arith;
  mass = λ e. ground arith;
  cond = λ e. ground arith;
  power = λ e. ground arith;
  latency = λ e. ground arith;
  ambient = λ e. ground arith;
  target = λ e. ground arith;
  critical = λ e. ground arith;
  cooldown = λ e. ground arith;
  hysteresis = λ e. ground arith;
}

set_sim_cfg-IsConfigured_example :
    IsConfigured (set_sim_cfg (pos 2) (some (only_cooldown 60)) zeroed).1
set_sim_cfg-IsConfigured_example =
    set_sim_cfg-IsConfigured (pos 2) (some (only_cooldown 60)) zeroed zeroed-IsConfigured

-- A running simulation with the default settings but for the heater power and the critical
-- temperature, at a sensor byte, with the given output word.
abbrev running : ℕ → ℕ → ℕ → ℕ → Plant
running power critical sensor out = record {
  sim = record {
    ctx = record {
      phy = record {
        ramp_time_s = 10;
        thermal_mass = 400;
        board_conduct = 8192;
        heater_power = power;
        sensor_latency_ms = 20;
        ambient_temp_mc = pos 25000;
      };
      reg = zeroed.ctx.reg;
      state = zeroed.ctx.state;
      status = zeroed.ctx.status;
      temp_mc = pos 60000;
      mask = 0;
    };
    cfg = record {
      ctrl = record {
        temp_target = 125;
        temp_critical = critical;
        temp_cooldown = 50;
        temp_hysteresis = 10;
      };
      mask = 0;
    };
  };
  gpio = record {
    dir = 0;
    out = out;
    in_reg = sensor;
    set = 0;
    clr = 0;
    int_en = 0x100;
    int_sts = 0;
    int_type = 0;
    int_pol = 0;
    wdt_cfg = 0x100;
    wdt_val = 150;
    wdt_reload = 150;
  };
}

-- 60 degrees, heating.
abbrev heating : Plant
heating = running 4000 180 100 1

heating-IsSafe : IsSafe heating
unfolding bit
heating-IsSafe = record {
  critical_off = λ e. ground arith;
  cooldown_off = λ e. ground arith;
  exclusive = refl;
}

run_temperature_regulation-IsRegulated_example :
    IsRegulated (sensed heating.gpio) heating (run_temperature_regulation heating)
run_temperature_regulation-IsRegulated_example =
    run_temperature_regulation-IsRegulated heating heating-IsSafe

-- 190 degrees against a critical temperature of 180.
abbrev hot : Plant
hot = running 4000 180 230 1

-- 150 degrees, and the alarm pin.
abbrev alarmed : Plant
alarmed = running 4000 180 (190 + 256) 1
