-- ===== src/Sim/Config.antt =====
-- Setting and reading the simulation's configuration.
pub mod Init
pub mod Set
pub mod Get
use embed_template.Prelude.{ℕ, ◌+◌, ◌*◌, ◌^◌, Bool, leb, ◌&&◌}
use embed_template.Prelude.Int.{ℤ, pos, negsuc}

abbrev pub sensor_offset : ℕ
sensor_offset = 40

abbrev pub temp_target_default : ℕ
temp_target_default = 125

abbrev pub temp_critical_default : ℕ
temp_critical_default = 180

abbrev pub temp_cooldown_default : ℕ
temp_cooldown_default = 50

abbrev pub temp_hysteresis_default : ℕ
temp_hysteresis_default = 10

abbrev pub ramp_time_default : ℕ
ramp_time_default = 10

abbrev pub sensor_latency_default : ℕ
sensor_latency_default = 20

abbrev pub ambient_temp_mc_default : ℤ
ambient_temp_mc_default = pos 25000

abbrev pub chip_thermal_mass : ℕ
chip_thermal_mass = 400

abbrev pub board_conductance : ℕ
board_conductance = 8192

abbrev pub heater_unit_power : ℕ
heater_unit_power = 4000

abbrev pub in_range : ℕ → ℕ → ℕ → Bool
in_range lo hi v = leb lo v && leb v hi

-- The MIN and MAX constants, as closed intervals.
abbrev pub ramp_ok : ℕ → Bool
ramp_ok = in_range 2 20

abbrev pub mass_ok : ℕ → Bool
mass_ok = in_range 200 1000

abbrev pub cond_ok : ℕ → Bool
cond_ok = in_range 5000 15000

abbrev pub power_ok : ℕ → Bool
power_ok = in_range 1000 8000

abbrev pub latency_ok : ℕ → Bool
latency_ok = in_range 5 50

abbrev pub target_ok : ℕ → Bool
target_ok = in_range 50 150

abbrev pub critical_ok : ℕ → Bool
critical_ok = in_range 160 250

abbrev pub cooldown_ok : ℕ → Bool
cooldown_ok = in_range 30 100

abbrev pub hysteresis_ok : ℕ → Bool
hysteresis_ok = in_range 2 10
