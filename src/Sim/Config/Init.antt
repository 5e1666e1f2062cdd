-- ===== src/Sim/Config/Init.antt =====
-- `temp_ctrl_cfg_init`, `recalculate_thermal_matrix` and `reset_sim_state`: what the hardware
-- task runs when it first awakes, filling what the user has not configured.
use embed_template.Prelude.{ℕ, ◌+◌, ◌*◌, ◌/◌, ◌%◌, ◌^◌, Bool, false, not, ltb, if◌then◌else◌}
use embed_template.Prelude.Int.{negsuc}
use embed_template.Sim.{PhyState, SimCtx, TempRegCfg, has, with_bit}
use embed_template.Sim.Config.{
  temp_target_default, temp_critical_default, temp_cooldown_default, temp_hysteresis_default,
  ramp_time_default, sensor_latency_default, ambient_temp_mc_default, chip_thermal_mass,
  board_conductance, heater_unit_power,
}

unfoldable pub temp_ctrl_cfg_init : TempRegCfg → TempRegCfg
temp_ctrl_cfg_init c = record {
  ctrl = record {
    temp_target = if has c.mask 10 then c.ctrl.temp_target else temp_target_default;
    temp_critical = if has c.mask 11 then c.ctrl.temp_critical else temp_critical_default;
    temp_cooldown = if has c.mask 13 then c.ctrl.temp_cooldown else temp_cooldown_default;
    temp_hysteresis = if has c.mask 12 then c.ctrl.temp_hysteresis else temp_hysteresis_default;
  };
  mask = with_bit c.mask 0;
}

-- `(v < lo) ? lo : (v > hi ? hi : v)`
abbrev pub clamp : ℕ → ℕ → ℕ → ℕ
clamp lo hi v = if ltb v lo then lo else if ltb hi v then hi else v

-- The thermal mass for a heater power and a ramp time, and the conductance for a mass; both
-- pass through a `uint16_t`.
abbrev pub mass_for : ℕ → ℕ → ℕ
mass_for power ramp = clamp 200 1000 (power * ramp / 100 % 2 ^ 16)

abbrev pub cond_for : ℕ → ℕ
cond_for mass = clamp 5000 15000 ((heater_unit_power + mass * 20) % 2 ^ 16)

unfoldable pub recalculate_thermal_matrix : SimCtx → SimCtx
recalculate_thermal_matrix c =
    let massed =
      (if not (has c.mask 2)
        then record c {
          phy = record (c.phy) { thermal_mass = mass_for c.phy.heater_power c.phy.ramp_time_s };
        }
        else c) in
    if not (has massed.mask 3)
    then record massed {
      phy = record (massed.phy) { board_conduct = cond_for massed.phy.thermal_mass };
    }
    else massed

abbrev pub default_phy : SimCtx → PhyState
default_phy c = record {
  ramp_time_s = if has c.mask 1 then c.phy.ramp_time_s else ramp_time_default;
  thermal_mass = if has c.mask 2 then c.phy.thermal_mass else chip_thermal_mass;
  board_conduct = if has c.mask 3 then c.phy.board_conduct else board_conductance;
  heater_power = if has c.mask 4 then c.phy.heater_power else heater_unit_power;
  sensor_latency_ms = if has c.mask 9 then c.phy.sensor_latency_ms else sensor_latency_default;
  ambient_temp_mc = if has c.mask 14 then c.phy.ambient_temp_mc else ambient_temp_mc_default;
}

init_phy : SimCtx → SimCtx
unfolding recalculate_thermal_matrix
init_phy c =
    let filled = recalculate_thermal_matrix (record c { phy = default_phy c }) in
    record filled { mask = with_bit filled.mask 0 }

unfoldable pub reset_sim_state : Bool → SimCtx → SimCtx
unfolding init_phy
reset_sim_state phy c =
    let cooled = record c { temp_mc = c.phy.ambient_temp_mc } in
    let started = (if phy then init_phy cooled else cooled) in
    record started {
      status = record { is_heater_failed = false; is_fan1_failed = false; is_fan2_failed = false };
      reg = record {
        alarm_triggered = false;
        is_heating = false;
        is_cooldown = false;
        is_critical = false;
        time_window = 0;
        max_temp = negsuc 39;
      };
    }
