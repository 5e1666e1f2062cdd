-- ===== src/Sim/Config/Set/Start.antt =====
-- The configuration that a started simulation runs with.
use embed_template.Prelude.{ℕ, ◌≡◌, true, false, arith, List, [], ◌∷◌, some}
use embed_template.Prelude.Int.{pos}
use embed_template.Sim.{Sim, has, with_bit, Stream}
use embed_template.Sim.Config.{
  ramp_ok, mass_ok, cond_ok, power_ok, latency_ok, target_ok, critical_ok, cooldown_ok,
  hysteresis_ok,
}
use embed_template.Sim.Config.Init.{temp_ctrl_cfg_init, reset_sim_state, recalculate_thermal_matrix}
use embed_template.Sim.Config.Set.{
  ambient_ok, take_latency, take_target, take_critical, take_cooldown, take_hysteresis,
  take_ambient, settle_running, next_block, set_sim_cfg,
}
use embed_template.Sim.Config.Set.Range.{IsConfigured}

-- What the hardware task does to the configuration when it first awakes.
abbrev pub started : Sim → Sim
started s = record { ctx = reset_sim_state true s.ctx; cfg = temp_ctrl_cfg_init s.cfg }

-- The physical parameters that the simulation divides by and multiplies with.
pub record IsRunnable (s : Sim) : Type 0 where
  pub ramp : ramp_ok s.ctx.phy.ramp_time_s ≡ true
  pub mass : mass_ok s.ctx.phy.thermal_mass ≡ true
  pub cond : cond_ok s.ctx.phy.board_conduct ≡ true
  pub power : power_ok s.ctx.phy.heater_power ≡ true
  pub latency : latency_ok s.ctx.phy.sensor_latency_ms ≡ true
  pub ambient : ambient_ok s.ctx.phy.ambient_temp_mc ≡ true
  pub target : target_ok s.cfg.ctrl.temp_target ≡ true
  pub critical : critical_ok s.cfg.ctrl.temp_critical ≡ true

-- Whatever the user configured, a started simulation has every physical parameter and the two
-- alarm temperatures in range; the cooldown and the hysteresis are in range too if the user set
-- both or neither.
pub started-IsRunnable :
    (s : Sim)
    → IsConfigured s
    → IsRunnable (started s)
      × (has s.cfg.mask 12 ≡ has s.cfg.mask 13
          → (cooldown_ok (started s).cfg.ctrl.temp_cooldown ≡ true)
            × (hysteresis_ok (started s).cfg.ctrl.temp_hysteresis ≡ true))
unfolding temp_ctrl_cfg_init reset_sim_state recalculate_thermal_matrix
started-IsRunnable s v = (
  record {
    ramp = ground (arith, v.ramp);
    mass = ground (arith, v.mass);
    cond = ground (arith, v.cond);
    power = ground (arith, v.power);
    latency = ground (arith, v.latency);
    ambient = ground (arith, v.ambient);
    target = ground (arith, v.target);
    critical = ground (arith, v.critical);
  },
  λ e. (ground (arith, v.cooldown), ground (arith, v.hysteresis)),
)

-- The statics at program start are zeroed.
abbrev pub zeroed : Sim
zeroed = record {
  ctx = record {
    phy = record {
      ramp_time_s = 0;
      thermal_mass = 0;
      board_conduct = 0;
      heater_power = 0;
      sensor_latency_ms = 0;
      ambient_temp_mc = pos 0;
    };
    reg = record {
      alarm_triggered = false;
      is_heating = false;
      is_cooldown = false;
      is_critical = false;
      time_window = 0;
      max_temp = pos 0;
    };
    state = record { energy_balance = pos 0; net_heat_power = pos 0; cooling_power = pos 0 };
    status = record { is_heater_failed = false; is_fan1_failed = false; is_fan2_failed = false };
    temp_mc = pos 0;
    mask = 0;
  };
  cfg = record {
    ctrl = record { temp_target = 0; temp_critical = 0; temp_cooldown = 0; temp_hysteresis = 0 };
    mask = 0;
  };
}

-- A command that carries a cooldown temperature and nothing else.
abbrev pub only_cooldown : ℕ → List Stream
only_cooldown c = (1 ∷ 0 ∷ 0 ∷ 0 ∷ 0 ∷ 0 ∷ 0 ∷ 0 ∷ []) ∷ (16 ∷ 0 ∷ 0 ∷ 0 ∷ c ∷ 0 ∷ 0 ∷ 0 ∷ []) ∷ []

-- `temp_ctrl_cfg_init` exchanges the marks of the cooldown and the hysteresis: every cooldown
-- temperature that is configured alone before the start is accepted, and then lost; the
-- simulation runs with the default of 50, and with a hysteresis of 0, which is out of range.
pub cooldown_lost :
    (c : ℕ)
    → cooldown_ok c ≡ true
    → let (code, s) = set_sim_cfg (pos 2) (some (only_cooldown c)) zeroed in
      (code ≡ pos 0)
      × (s.cfg.ctrl.temp_cooldown ≡ c)
      × ((started s).cfg.ctrl.temp_cooldown ≡ 50)
      × ((started s).cfg.ctrl.temp_hysteresis ≡ 0)
      × (hysteresis_ok (started s).cfg.ctrl.temp_hysteresis ≡ false)
unfolding temp_ctrl_cfg_init set_sim_cfg next_block take_latency take_target take_critical
    take_cooldown take_hysteresis take_ambient settle_running has with_bit
cooldown_lost c h = ground arith
